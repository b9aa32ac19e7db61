-- ===== src/PyValue.antt =====
-- Values of Python's dynamic types, as YAML configuration, JSON events and packets hold them.
-- A float is a number of thousandths; other floats (infinities, NaN, finer digits) are left out.
use meshtastic_matrix_relay.Prelude.{
  ℕ, zero, suc, ◌+◌, ◌*◌, ◌/◌, ℤ, pos, negsuc, Bool, true, false, not, Option, none, some, [], ◌∷◌,
  ◌==◌, if◌then◌else◌,
}
use meshtastic_matrix_relay.Text.{Text, text_eq}

mutual
  pub data Value : Type 0 where
    null : Value
    bool : Bool → Value
    int : ℤ → Value
    float : ℤ → Value
    str : Text → Value
    list : Items → Value
    dict : Fields → Value

  pub data Items : Type 0 where
    nil : Items
    cons : Value → Items → Items

  pub data Fields : Type 0 where
    end : Fields
    field : Text → Value → Fields → Fields

-- `d.get(key)`
unfoldable pub get : Fields → Text → Option Value
get end key = none
get (field k v fs) key = if text_eq k key then some v else get fs key

-- `d.get(key)` on what may be no dict.
abbrev pub get_in : Option Fields → Text → Option Value
get_in none key = none
get_in (some fs) key = get fs key

-- `d.get(key, default)`
abbrev pub or_default : Option Value → Value → Value
or_default none d = d
or_default (some v) d = v

-- `v if isinstance(v, dict) else None`, and so for `str`.
abbrev pub as_dict : Option Value → Option Fields
as_dict (some (dict fs)) = some fs
as_dict _ = none

abbrev pub as_str : Option Value → Option Text
as_str (some (str s)) = some s
as_str _ = none

abbrev pub as_items : Value → Items
as_items (list vs) = vs
as_items _ = nil

-- `v == t`
abbrev pub text_is : Text → Value → Bool
text_is t (str s) = text_eq t s
text_is t _ = false

abbrev zero_ℤ : ℤ → Bool
zero_ℤ (pos n) = n == 0
zero_ℤ (negsuc n) = false

-- `bool(v)`
abbrev pub truthy : Value → Bool
truthy null = false
truthy (bool b) = b
truthy (int z) = not (zero_ℤ z)
truthy (float z) = not (zero_ℤ z)
truthy (str []) = false
truthy (str (c ∷ s)) = true
truthy (list nil) = false
truthy (list (cons v vs)) = true
truthy (dict end) = false
truthy (dict (field k v fs)) = true

-- -n as an integer.
abbrev minus : ℕ → ℤ
minus zero = pos 0
minus (suc n) = negsuc n

-- `int(x)` of a float rounds towards zero.
abbrev pub truncate : ℤ → ℤ
truncate (pos n) = pos (n / 1000)
truncate (negsuc n) = minus ((n + 1) / 1000)

abbrev scale : ℤ → ℤ
scale (pos n) = pos (n * 1000)
scale (negsuc n) = negsuc (n * 1000 + 999)

abbrev pub bit : Bool → ℤ
bit true = pos 1
bit false = pos 0

-- What `int()` and `float()` read in a string is Python's; `none` is the ValueError, and, for
-- other types, the TypeError.
module _ (parse : Text → Option ℤ) where
  abbrev pub int_of : Value → Option ℤ
  int_of (bool b) = some (bit b)
  int_of (int z) = some z
  int_of (float z) = some (truncate z)
  int_of (str s) = parse s
  int_of _ = none

  -- In thousandths.
  abbrev pub float_of : Value → Option ℤ
  float_of (bool b) = some (scale (bit b))
  float_of (int z) = some (scale z)
  float_of (float z) = some z
  float_of (str s) = parse s
  float_of _ = none
