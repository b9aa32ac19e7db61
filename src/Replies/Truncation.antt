-- ===== src/Replies/Truncation.antt =====
-- A reply is cut at a whole character.
use meshtastic_matrix_relay.Prelude.{
  ℕ, zero, suc, subst, ◌-◌, ◌≤◌, ◌<◌, ◌≡◌, refl, ap, false, some, [], ◌∷◌, ◌++◌, pos, leb, arith,
  Bool-cases, inl, inr,
}
use meshtastic_matrix_relay.Text.{Text, char_len, utf8_len}
use meshtastic_matrix_relay.PyValue.{Fields}
use meshtastic_matrix_relay.Replies.{
  Strings, first_bytes, truncate_message, is_fragmented, sendable, reply_text, format_reply_message,
}

-- What stands behind the cut has no first character that would still fit.
unfoldable pub Overfull : ℕ → Text → Type 0
Overfull room [] = Unit
Overfull room (c ∷ rest) = room < char_len c

-- A text is the part before the cut and a rest; the part fits, and no further character does.
pub record IsCut (n : ℕ) (text part : Text) : Type 0 where
  pub rest : Text
  pub whole : text ≡ part ++ rest
  pub fits : utf8_len part ≤ n
  pub longest : Overfull (n - utf8_len part) rest

first_bytes-IsCut : (n : ℕ) (text : Text) → IsCut n text (first_bytes n text)
unfolding first_bytes utf8_len Overfull
first_bytes-IsCut n [] = record { rest = []; whole = refl; fits = omega arith; longest = tt }
first_bytes-IsCut n (c ∷ s) = elim (Bool-cases (leb (char_len c) n)) [
  | inl y ↦
      (let h = first_bytes-IsCut (n - char_len c) s in
        rw y (record {
          rest = h.rest;
          whole = ap (λ t. c ∷ t) h.whole;
          fits = ground (arith, y, h.fits);
          longest = subst (λ room. Overfull room h.rest) (ground (arith, y, h.fits)) h.longest;
        }))
  | inr n' ↦
      rw n'
        (record { rest = c ∷ s; whole = refl; fits = omega arith; longest = ground (arith, n') })
]

nothing-IsCut : (text : Text) → IsCut 0 text []
unfolding utf8_len Overfull char_len
nothing-IsCut [] = record { rest = []; whole = refl; fits = omega arith; longest = tt }
nothing-IsCut (c ∷ s) = record {
  rest = c ∷ s;
  whole = refl;
  fits = omega arith;
  longest = ground arith;
}

-- `truncate_message` fails for no limit that is zero or more, and gives the longest beginning of the
-- text that is encoded in so many bytes.
truncate_message-IsCut :
    (text : Text) (n : ℕ)
    → (part : Text) × (truncate_message text (pos n) ≡ some part) × IsCut n text part
unfolding truncate_message utf8_len Overfull
truncate_message-IsCut text (suc n) =
    (first_bytes (suc n) text, refl, first_bytes-IsCut (suc n) text)
truncate_message-IsCut text zero = ([], refl, nothing-IsCut text)

module _ (strings : Strings) where
  pub utf8_len-sendable :
      (config : Fields) (message : Text)
      → is_fragmented strings config ≡ false
      → utf8_len (sendable strings config message) ≤ 227
  unfolding sendable truncate_message
  utf8_len-sendable config message h = rw h ((first_bytes-IsCut 227 message).fits)

  -- Where messages are not split, a reply is the longest beginning of its text, the prefix included,
  -- that is encoded in 227 bytes.
  pub format_reply_message-IsCut :
      (config : Fields)
      (full_display_name text longname shortname meshnet_name local_meshnet_name override
        user_id : Text)
      → is_fragmented strings config ≡ false
      → IsCut 227
          (reply_text strings config full_display_name text longname shortname meshnet_name
            local_meshnet_name override user_id)
          (format_reply_message strings config full_display_name text longname shortname
            meshnet_name local_meshnet_name override user_id)
  unfolding format_reply_message sendable truncate_message
  format_reply_message-IsCut config full_display_name text longname shortname meshnet_name
        local_meshnet_name override user_id h =
      rw h (
        first_bytes-IsCut 227 (
          reply_text strings config full_display_name text longname shortname meshnet_name
            local_meshnet_name override user_id))
