-- ===== src/Commands/Words.antt =====
-- The pattern of alternatives, the longest first, finds what the reference does.
use meshtastic_matrix_relay.Prelude.{
  ℕ, ◌≡◌, refl, ap, ◌∙◌, Bool, true, false, ◌&&◌, ◌||◌, not, Option, none, some, List, [], ◌∷◌,
  if◌then◌else◌, arith, ==_iff,
}
use meshtastic_matrix_relay.Text.{Text}
use meshtastic_matrix_relay.Commands.{
  Chars, Lookup, values, insert_longest, longest_first, match_word, cons_matched, match_args,
  with_args, after_word, match_command, or_match, match_any, parsed, match_bang_command,
}
use meshtastic_matrix_relay.Commands.Bang.{
  word, after, same_word, any_same, has_space, all_words, invoked,
}

module _ (chars : Chars) where
  open chars use {is_space, same_char}

  with_args-cons :
      (d : ℕ) (matched : Text) (o : Option Text)
      → with_args chars (d ∷ matched) o ≡ cons_matched chars d (with_args chars matched o)
  unfolding with_args cons_matched
  with_args-cons d matched none = refl
  with_args-cons d matched (some args) = refl

  or_match_if :
      (a b : Bool) (m : Option (Text × Text))
      → or_match chars (if a then m else none) (if b then m else none)
        ≡ (if a || b then m else none)
  unfolding or_match
  or_match_if true true none = refl
  or_match_if true true (some m) = refl
  or_match_if true false none = refl
  or_match_if true false (some m) = refl
  or_match_if false b m = refl

  after_word-cons_matched :
      (d : ℕ) (o : Option (Text × Text))
      → after_word chars (cons_matched chars d o) ≡ cons_matched chars d (after_word chars o)
  unfolding after_word cons_matched with_args
  after_word-cons_matched d none = refl
  after_word-cons_matched d (some (matched, rest)) =
      with_args-cons d matched (match_args chars rest)

  any_same-insert_longest :
      (x : Text) (xs : List Text) (w : Text)
      → any_same chars (insert_longest x xs) w ≡ (same_word chars x w || any_same chars xs w)
  unfolding insert_longest any_same
  any_same-insert_longest x [] w = refl
  any_same-insert_longest x (y ∷ ys) w = ground (arith, any_same-insert_longest x ys w)

  any_same-longest_first :
      (xs : List Text) (w : Text) → any_same chars (longest_first xs) w ≡ any_same chars xs w
  unfolding longest_first any_same
  any_same-longest_first [] w = refl
  any_same-longest_first (x ∷ xs) w =
      ground (arith, any_same-insert_longest x (longest_first xs) w, any_same-longest_first xs w)

  all_words-insert_longest :
      (x : Text) (xs : List Text)
      → all_words chars (insert_longest x xs) ≡ (not (has_space chars x) && all_words chars xs)
  unfolding insert_longest all_words
  all_words-insert_longest x [] = refl
  all_words-insert_longest x (y ∷ ys) = ground (arith, all_words-insert_longest x ys)

  all_words-longest_first :
      (xs : List Text) → all_words chars (longest_first xs) ≡ all_words chars xs
  unfolding longest_first all_words
  all_words-longest_first [] = refl
  all_words-longest_first (x ∷ xs) =
      ground (arith, all_words-insert_longest x (longest_first xs), all_words-longest_first xs)

  -- What the program relies on: a line feed is white space, and the case of a character does not
  -- make it white space.
  module _ (feed : is_space 10 ≡ true)
      (cased : (c d : ℕ) → same_char c d ≡ true → is_space c ≡ is_space d) where
    match_args_word : (c : ℕ) (s : Text) → is_space c ≡ false → match_args chars (c ∷ s) ≡ none
    unfolding match_args
    match_args_word c s h = ground (arith, feed, ==_iff c 10, ap is_space)

    match_command-word :
        (w s : Text)
        → has_space chars w ≡ false
        → match_command chars w s ≡ (
            if same_word chars w (word chars s)
            then with_args chars (word chars s) (match_args chars (after chars s))
            else none)
    unfolding match_command match_word after_word with_args cons_matched word after same_word
        has_space
    match_command-word [] [] h = refl
    match_command-word [] (c ∷ s) h = ground (arith, match_args_word c s)
    match_command-word (c ∷ w) [] h = refl
    match_command-word (c ∷ w) (d ∷ s) h = ground (
      arith,
      cased c d,
      after_word-cons_matched d (match_word chars w s),
      match_command-word w s (ground arith),
      with_args-cons d (word chars s) (match_args chars (after chars s)),
    )

    match_any-word :
        (cs : List Text) (s : Text)
        → all_words chars cs ≡ true
        → match_any chars cs s ≡ (
            if any_same chars cs (word chars s)
            then with_args chars (word chars s) (match_args chars (after chars s))
            else none)
    unfolding match_any or_match all_words any_same
    match_any-word [] s h = refl
    match_any-word (c ∷ cs) s h =
        rw (match_command-word c s (ground arith), match_any-word cs s (ground arith))
          (or_match_if (same_word chars c (word chars s)) (any_same chars cs (word chars s))
            (with_args chars (word chars s) (match_args chars (after chars s))))

    -- The pattern of the commands, the longest first, finds exactly what the word behind the
    -- exclamation mark says, where no command has white space: the word stands among the commands,
    -- apart from the case, and its arguments are one line.
    pub match_bang_command-invoked :
        (message : Text) (l : Lookup)
        → all_words chars (values l) ≡ true
        → match_bang_command chars message l ≡ invoked chars message l
    unfolding match_bang_command invoked parsed
    match_bang_command-invoked [] l h = refl
    match_bang_command-invoked (c ∷ s) l h = ground (
      arith,
      match_any-word (longest_first (values l)) s (all_words-longest_first (values l) ∙ h),
      any_same-longest_first (values l) (word chars s),
    )
