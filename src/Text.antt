-- ===== src/Text.antt =====
-- Python's `str` as a list of code points, with the methods that the program calls on it.
-- Lone surrogates, which have no UTF-8 form, are left out.
pub mod Laws
use meshtastic_matrix_relay.Prelude.{
  ℕ, zero, suc, ◌+◌, ◌≤◌, ◌<◌, ◌≡◌, Bool, true, false, ◌&&◌, ◌||◌, Option, none, some, List, [],
  ◌∷◌, ltb, ◌==◌, if◌then◌else◌,
}
use Prim.Native.Char.{code}
use Prim.Native.String.{String}

abbrev pub Text : Type 0
Text = List ℕ

-- The code points of a literal.
abbrev pub codes : String → Text
codes String.[] = []
codes (String.◌∷◌ c s) = code c ∷ codes s

-- The number of bytes of one code point in UTF-8.
unfoldable pub char_len : ℕ → ℕ
char_len c = if ltb c 0x80 then 1 else if ltb c 0x800 then 2 else if ltb c 0x10000 then 3 else 4

unfoldable pub utf8_len : Text → ℕ
utf8_len [] = 0
utf8_len (c ∷ s) = char_len c + utf8_len s

-- `s == t`
unfoldable pub text_eq : Text → Text → Bool
text_eq [] [] = true
text_eq (c ∷ s) (d ∷ t) = (c == d) && text_eq s t
text_eq _ _ = false

-- `t in ts`
unfoldable pub mem_text : Text → List Text → Bool
mem_text t [] = false
mem_text t (u ∷ ts) = text_eq t u || mem_text t ts

-- `s.startswith(p)`
unfoldable pub starts_with : Text → Text → Bool
starts_with s [] = true
starts_with [] (p ∷ ps) = false
starts_with (c ∷ s) (p ∷ ps) = (c == p) && starts_with s ps

-- `s.rfind(d)` for a non-empty `d`; `none` is -1.
unfoldable pub rfind : Text → Text → Option ℕ
unfolding starts_with
rfind [] d = none
rfind (c ∷ s) d = elim (rfind s d) [
  | some p ↦ some (suc p)
  | none ↦ if starts_with (c ∷ s) d then some 0 else none
]

-- The methods that turn on `str.isspace`, a table of Python's.
module _ (is_space : ℕ → Bool) where
  unfoldable pub lstrip : Text → Text
  lstrip [] = []
  lstrip (c ∷ s) = let rest = lstrip s in if is_space c then rest else c ∷ s

  abbrev pub keep_unless_blank : ℕ → Text → Text
  keep_unless_blank c [] = if is_space c then [] else c ∷ []
  keep_unless_blank c (d ∷ s) = c ∷ d ∷ s

  unfoldable pub rstrip : Text → Text
  rstrip [] = []
  rstrip (c ∷ s) = keep_unless_blank c (rstrip s)

  unfoldable pub strip : Text → Text
  unfolding lstrip rstrip
  strip s = rstrip (lstrip s)

  -- The text without its white space: what a reader sees of it.
  abbrev pub visible : Text → Text
  visible [] = []
  visible (c ∷ s) = if is_space c then visible s else c ∷ visible s
