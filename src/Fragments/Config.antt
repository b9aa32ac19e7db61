-- ===== src/Fragments/Config.antt =====
-- `get_message_fragmentation_config` of matrix/fragments.py.
use meshtastic_matrix_relay.Prelude.{
  ℕ, ◌≤◌, ◌≡◌, ◌≢◌, false, Option, none, some, [], ◌∷◌, min, max, arith, ℤ, pos, pos_part,
}
use meshtastic_matrix_relay.Text.{Text, codes}
use meshtastic_matrix_relay.PyValue.{
  Value, null, bool, Fields, get, get_in, or_default, as_dict, as_str, truthy, int_of, float_of,
}
use meshtastic_matrix_relay.Fragments.{Settings, default_prefix_template}

abbrev default_max_payload_bytes : ℤ
default_max_payload_bytes = pos 180

abbrev payload_limit : ℕ
payload_limit = 233

-- 15.0 seconds, in thousandths.
abbrev default_delay : ℤ
default_delay = pos 15000

abbrev or_ℤ : Option ℤ → ℤ → ℤ
or_ℤ none d = d
or_ℤ (some z) d = z

abbrev prefix_or_default : Option Text → Text
prefix_or_default (some (c ∷ t)) = c ∷ t
prefix_or_default _ = default_prefix_template

abbrev suffix_or_default : Option Text → Text
suffix_or_default (some t) = t
suffix_or_default none = []

module _ (parse_int parse_float : Text → Option ℤ) where
  -- `max(32, min(n, 233))`: a negative `n` gives 32, as 0 does.
  abbrev payload_of : Option Value → ℕ
  payload_of v = max 32 (
      min (pos_part (or_ℤ (int_of parse_int (or_default v null)) default_max_payload_bytes))
        payload_limit)

  -- `max(0.0, delay)`, in thousandths of a second.
  abbrev delay_of : Option Value → ℕ
  delay_of v = pos_part (or_ℤ (float_of parse_float (or_default v null)) default_delay)

  normalized : Fields → Settings
  normalized raw = record {
    enabled = truthy (or_default (get raw (codes "enabled")) (bool false));
    homoglyph_optimization =
        truthy (or_default (get raw (codes "homoglyph_optimization")) (bool false));
    max_payload_bytes = payload_of (get raw (codes "max_payload_bytes"));
    prefix_template = prefix_or_default (as_str (get raw (codes "prefix_template")));
    last_suffix_template = suffix_or_default (as_str (get raw (codes "last_suffix_template")));
    fragment_delay = delay_of (get raw (codes "fragment_delay_secs"));
  }

  abbrev settings_of : Option Fields → Option Settings
  settings_of none = none
  settings_of (some raw) = some (normalized raw)

  unfoldable pub get_message_fragmentation_config : Option Fields → Option Settings
  unfolding normalized
  get_message_fragmentation_config config = settings_of (
      as_dict
        (get_in (as_dict (get_in config (codes "meshtastic"))) (codes "message_fragmentation")))

  -- Whatever the configuration holds, the payload size lies between 32 and 233 bytes, and the
  -- prefix template is not empty.
  config_bounds :
      (config : Option Fields) (s : Settings)
      → get_message_fragmentation_config config ≡ some s
      → (32 ≤ s.max_payload_bytes) × (s.max_payload_bytes ≤ 233) × (s.prefix_template ≢ [])
  unfolding get_message_fragmentation_config
  config_bounds config s h = ground arith
