-- ===== src/Commands/Bang.antt =====
-- A reference for `_match_bang_command`: the word behind the exclamation mark, up to white space, is
-- looked for among the commands as a whole.
use meshtastic_matrix_relay.Prelude.{
  Bool, true, false, ◌&&◌, ◌||◌, not, Option, none, List, [], ◌∷◌, ◌==◌, if◌then◌else◌,
}
use meshtastic_matrix_relay.Text.{Text}
use meshtastic_matrix_relay.Commands.{Chars, Lookup, Command, values, with_args, match_args, parsed}

module _ (chars : Chars) where
  open chars use {is_space, same_char}

  unfoldable pub word : Text → Text
  word [] = []
  word (c ∷ s) = let rest = word s in if is_space c then [] else c ∷ rest

  unfoldable pub after : Text → Text
  after [] = []
  after (c ∷ s) = let rest = after s in if is_space c then c ∷ s else rest

  -- The same characters, apart from the case.
  unfoldable pub same_word : Text → Text → Bool
  same_word [] [] = true
  same_word (c ∷ v) (d ∷ w) = same_char c d && same_word v w
  same_word _ _ = false

  unfoldable pub any_same : List Text → Text → Bool
  any_same [] w = false
  any_same (c ∷ cs) w = same_word c w || any_same cs w

  unfoldable pub has_space : Text → Bool
  has_space [] = false
  has_space (c ∷ s) = is_space c || has_space s

  unfoldable pub all_words : List Text → Bool
  unfolding has_space
  all_words [] = true
  all_words (c ∷ cs) = not (has_space c) && all_words cs

  unfoldable pub invoked : Text → Lookup → Option Command
  invoked [] l = none
  invoked (c ∷ s) l =
      if c == 33 && any_same (values l) (word s)
      then parsed chars l (with_args chars (word s) (match_args chars (after s)))
      else none
