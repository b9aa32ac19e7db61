-- ===== src/Replies/Interactions.antt =====
-- matrix/prefixes.py: which reactions and replies the configuration turns on, and how many message
-- mappings it keeps. The warnings are left out.
use meshtastic_matrix_relay.Prelude.{
  ◌≡◌, refl, ap, Bool, true, false, ◌&&◌, ◌||◌, Option, none, some, ℤ, pos,
}
use meshtastic_matrix_relay.Text.{Text, codes}
use meshtastic_matrix_relay.PyValue.{Value, Fields, null, bool, int, dict, end, get, as_dict}

pub record Interactions : Type 0 where
  pub reactions : Bool
  pub replies : Bool

abbrev pub neither : Interactions
neither = record { reactions = false; replies = false }

-- `v if isinstance(v, bool) else False`
abbrev pub bool_or_false : Option Value → Bool
bool_or_false (some (bool b)) = b
bool_or_false _ = false

abbrev pub structured : Fields → Interactions
structured interactions = record {
  reactions = bool_or_false (get interactions (codes "reactions"));
  replies = bool_or_false (get interactions (codes "replies"));
}

-- The flag of older configurations turns on reactions alone.
abbrev pub legacy : Fields → Interactions
legacy meshtastic = record {
  reactions = bool_or_false (get meshtastic (codes "relay_reactions"));
  replies = false;
}

abbrev pub of_interactions : Fields → Option Value → Interactions
of_interactions meshtastic none = legacy meshtastic
of_interactions meshtastic (some null) = legacy meshtastic
of_interactions meshtastic (some (dict interactions)) = structured interactions
of_interactions meshtastic _ = neither

abbrev pub of_meshtastic : Option Value → Interactions
of_meshtastic (some (dict meshtastic)) =
    of_interactions meshtastic (get meshtastic (codes "message_interactions"))
of_meshtastic _ = neither

-- `get_interaction_settings`
unfoldable pub get_interaction_settings : Value → Interactions
get_interaction_settings (dict config) = of_meshtastic (get config (codes "meshtastic"))
get_interaction_settings _ = neither

-- `message_storage_enabled`
unfoldable pub message_storage_enabled : Interactions → Bool
message_storage_enabled interactions = interactions.reactions || interactions.replies

abbrev pub msg_map_config : Option Value → Option Fields
msg_map_config (some (dict section)) = as_dict (get section (codes "msg_map"))
msg_map_config _ = none

abbrev pub either_section : Option Fields → Option Fields → Fields
either_section (some fs) later = fs
either_section none (some fs) = fs
either_section none none = end

abbrev pub int_or_default : Option Value → ℤ
int_or_default (some (int z)) = z
int_or_default _ = pos 500

-- `_get_msgs_to_keep_config` of the config that is in effect.
unfoldable pub get_msgs_to_keep_config : Value → ℤ
get_msgs_to_keep_config (dict config) = int_or_default (
    get
      (either_section (msg_map_config (get config (codes "database")))
        (msg_map_config (get config (codes "db"))))
      (codes "msgs_to_keep"))
get_msgs_to_keep_config _ = pos 500

-- The value under a key of what may be no dict.
abbrev pub at : Option Value → Text → Option Value
at (some (dict fs)) key = get fs key
at _ key = none

-- Nothing, or a null.
abbrev pub is_none : Option Value → Bool
is_none none = true
is_none (some null) = true
is_none _ = false

abbrev pub interactions_at : Option Value → Option Value
interactions_at meshtastic = at meshtastic (codes "message_interactions")

-- The settings, read off their places.
abbrev pub expected : Option Value → Interactions
expected meshtastic = record {
  reactions =
      bool_or_false (at (interactions_at meshtastic) (codes "reactions"))
      || is_none (interactions_at meshtastic)
        && bool_or_false (at meshtastic (codes "relay_reactions"));
  replies = bool_or_false (at (interactions_at meshtastic) (codes "replies"));
}

or_false : (b : Bool) → b ≡ (b || false)
or_false true = refl
or_false false = refl

of_interactions_lem :
    (meshtastic : Fields) (v : Option Value)
    → of_interactions meshtastic v ≡ record {
      reactions =
          bool_or_false (at v (codes "reactions"))
          || is_none v && bool_or_false (get meshtastic (codes "relay_reactions"));
      replies = bool_or_false (at v (codes "replies"));
    }
of_interactions_lem meshtastic none = refl
of_interactions_lem meshtastic (some null) = refl
of_interactions_lem meshtastic (some (dict fs)) =
    ap (λ b. record { reactions = b; replies = bool_or_false (get fs (codes "replies")) })
      (or_false (bool_or_false (get fs (codes "reactions"))))
of_interactions_lem meshtastic (some _) = refl

of_meshtastic_lem : (v : Option Value) → of_meshtastic v ≡ expected v
of_meshtastic_lem (some (dict fs)) = of_interactions_lem fs (get fs (codes "message_interactions"))
of_meshtastic_lem none = refl
of_meshtastic_lem (some _) = refl

-- Replies are on just where `meshtastic.message_interactions.replies` is the Boolean true, and
-- reactions just where `reactions` beside it is, or, where no interactions are configured,
-- `meshtastic.relay_reactions`; whatever else the configuration holds counts for nothing.
pub get_interaction_settings_lem :
    (config : Value)
    → get_interaction_settings config ≡ expected (at (some config) (codes "meshtastic"))
unfolding get_interaction_settings
get_interaction_settings_lem (dict config) = of_meshtastic_lem (get config (codes "meshtastic"))
get_interaction_settings_lem _ = refl
