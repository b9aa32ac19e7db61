-- ===== src/Commands/Mention.antt =====
-- Where a mention is required, a command is taken from behind one only.
use meshtastic_matrix_relay.Prelude.{
  ℕ, ◌≡◌, subst, ◌⊎◌, inl, inr, refl, sym, ◌∙◌, true, Option, none, some, List, [], ◌∷◌, ◌++◌,
  length, drop, arith, ==_iff, Bool-cases, Option-cases,
}
use meshtastic_matrix_relay.Text.{Text, starts_with, lstrip, mem_text}
use meshtastic_matrix_relay.Text.Laws.{text_eq_refl}
use meshtastic_matrix_relay.PyValue.{Value}
use meshtastic_matrix_relay.Commands.{
  Chars, Lookup, Command, build_command_lookup, match_bang_command, after_mention, consume_mxid,
  consume_display_name, bang_after, or_command, first_mentioned, by_display_name, mentioned,
  parse_with, parse_matrix_message_command,
}

starts_with-append : (s p : Text) → starts_with s p ≡ true → s ≡ p ++ drop (length p) s
unfolding starts_with
starts_with-append s [] h = refl
starts_with-append [] (d ∷ p) h = ground arith
starts_with-append (c ∷ s) (d ∷ p) h =
    ground (arith, ==_iff c d, starts_with-append s p (ground arith))

module _ (chars : Chars) where
  open chars use {is_space, lower}

  -- What stands between a mention and the rest: white space, or a colon before it.
  pub data Parts : Text → Text → Type 0 where
    space : (c : ℕ) (s : Text) → is_space c ≡ true → Parts (c ∷ s) (lstrip is_space (c ∷ s))
    colon : (c : ℕ) (s : Text) → is_space c ≡ true → Parts (58 ∷ c ∷ s) (lstrip is_space (c ∷ s))

  colon-Parts :
      (c d : ℕ) (s suffix : Text)
      → c ≡ 58
      → is_space d ≡ true
      → lstrip is_space (d ∷ s) ≡ suffix
      → Parts (c ∷ d ∷ s) suffix
  colon-Parts c d s suffix e y h =
      subst (λ x. Parts (x ∷ d ∷ s) suffix) (sym e) (subst (Parts (58 ∷ d ∷ s)) h (colon d s y))

  after_mention-Parts :
      (rest suffix : Text) → after_mention chars rest ≡ some suffix → Parts rest suffix
  unfolding after_mention
  after_mention-Parts [] suffix h = ground arith
  after_mention-Parts (c ∷ []) suffix h = elim (Bool-cases (is_space c)) [
    | inl y ↦ subst (Parts (c ∷ [])) (ground (arith, y)) (space c [] y)
    | inr n ↦ absurd (ground (arith, n))
  ]
  after_mention-Parts (c ∷ d ∷ s) suffix h = elim (Bool-cases (is_space c)) [
    | inl y ↦ subst (Parts (c ∷ d ∷ s)) (ground (arith, y)) (space c (d ∷ s) y)
    | inr n ↦
        colon-Parts c d s suffix (ground (arith, n, ==_iff c 58)) (ground (arith, n))
          (ground (arith, n))
  ]

  -- The mention of the bot in front of a rest: its id as it is, or its display name in any case.
  pub data Mentions (mxid : Text) (name : Option Text) (body : Text) : Text → Type 0 where
    by_id : (rest : Text) → body ≡ mxid ++ rest → Mentions mxid name body rest
    by_name :
        (shown : Text)
        → name ≡ some shown
        → starts_with (lower body) (lower shown) ≡ true
        → Mentions mxid name body (drop (length shown) body)

  -- A body with the mention, and the command behind it.
  abbrev pub Invokes : Text → Option Text → Lookup → Command → Text → Type 0
  Invokes mxid name l cmd body =
      (rest : Text) × (suffix : Text) × Mentions mxid name body rest
      × Parts rest suffix
      × (match_bang_command chars suffix l ≡ some cmd)

  bang_after-some :
      (l : Lookup) (o : Option Text) (cmd : Command)
      → bang_after chars l o ≡ some cmd
      → (suffix : Text) × (o ≡ some suffix) × (match_bang_command chars suffix l ≡ some cmd)
  unfolding bang_after
  bang_after-some l none cmd h = absurd (ground arith)
  bang_after-some l (some suffix) cmd h = (suffix, refl, h)

  first_mentioned-some :
      (consume : Text → Option Text) (l : Lookup) (bodies : List Text) (cmd : Command)
      → first_mentioned chars consume l bodies ≡ some cmd
      → (body : Text) × (suffix : Text) × (mem_text body bodies ≡ true)
        × (consume body ≡ some suffix)
        × (match_bang_command chars suffix l ≡ some cmd)
  unfolding first_mentioned mem_text bang_after or_command
  first_mentioned-some consume l [] cmd h = absurd (ground arith)
  first_mentioned-some consume l (b ∷ bodies) cmd h =
      elim (Option-cases (bang_after chars l (consume b))) [
        | inl n ↦
            let (body, suffix, m, u, v) =
              first_mentioned-some consume l bodies cmd (ground (arith, n)) in
            (body, suffix, ground (arith, m), u, v)
        | inr (found, e) ↦
            let (suffix, u, v) = bang_after-some l (consume b) found e in
            (b, suffix, ground (arith, text_eq_refl b), u, v ∙ ground (arith, e))
      ]

  consume_mxid-Mentions :
      (mxid : Text) (name : Option Text) (body suffix : Text)
      → consume_mxid chars body mxid ≡ some suffix
      → (rest : Text) × Mentions mxid name body rest × Parts rest suffix
  unfolding consume_mxid
  consume_mxid-Mentions mxid name body suffix h = elim (Bool-cases (starts_with body mxid)) [
    | inl y ↦ (
      drop (length mxid) body,
      by_id (drop (length mxid) body) (starts_with-append body mxid y),
      after_mention-Parts (drop (length mxid) body) suffix (ground (arith, y)),
    )
    | inr n ↦ absurd (ground (arith, n))
  ]

  consume_display_name-Mentions :
      (mxid shown : Text) (body suffix : Text)
      → consume_display_name chars body shown ≡ some suffix
      → (rest : Text) × Mentions mxid (some shown) body rest × Parts rest suffix
  unfolding consume_display_name
  consume_display_name-Mentions mxid [] body suffix h = absurd (ground arith)
  consume_display_name-Mentions mxid (c ∷ shown) body suffix h =
      elim (Bool-cases (starts_with (lower body) (lower (c ∷ shown)))) [
        | inl y ↦ (
          drop (length (c ∷ shown)) body,
          by_name (c ∷ shown) refl y,
          after_mention-Parts (drop (length (c ∷ shown)) body) suffix (ground (arith, y)),
        )
        | inr n ↦ absurd (ground (arith, n))
      ]

  -- A command that one of the bodies invokes.
  abbrev pub SomeInvokes : Text → Option Text → Lookup → List Text → Command → Type 0
  SomeInvokes mxid name l bodies cmd =
      (body : Text) × (mem_text body bodies ≡ true) × Invokes mxid name l cmd body

  by_display_name-SomeInvokes :
      (mxid : Text) (name : Option Text) (l : Lookup) (bodies : List Text) (cmd : Command)
      → by_display_name chars name l bodies ≡ some cmd
      → SomeInvokes mxid name l bodies cmd
  unfolding by_display_name
  by_display_name-SomeInvokes mxid none l bodies cmd h = absurd (ground arith)
  by_display_name-SomeInvokes mxid (some shown) l bodies cmd h =
      let (body, suffix, m, u, v) =
        first_mentioned-some (λ body. consume_display_name chars body shown) l bodies cmd h in
      let (rest, w, p) = consume_display_name-Mentions mxid shown body suffix u in
      (body, m, (rest, suffix, w, p, v))

  or_command-some :
      (a b : Option Command) (cmd : Command)
      → or_command chars a b ≡ some cmd
      → (a ≡ some cmd) ⊎ (b ≡ some cmd)
  unfolding or_command
  or_command-some none b cmd h = inr h
  or_command-some (some c) b cmd h = inl h

  mentioned-SomeInvokes :
      (mxid : Text) (name : Option Text) (l : Lookup) (bodies : List Text) (cmd : Command)
      → mentioned chars (some mxid) name l bodies ≡ some cmd
      → SomeInvokes mxid name l bodies cmd
  unfolding mentioned
  mentioned-SomeInvokes mxid name l bodies cmd h =
      elim (or_command-some (first_mentioned chars (λ body. consume_mxid chars body mxid) l bodies)
        (by_display_name chars name l bodies) cmd h) [
          | inl e ↦
              let (body, suffix, m, u, v) =
                first_mentioned-some (λ body. consume_mxid chars body mxid) l bodies cmd e in
              let (rest, w, p) = consume_mxid-Mentions mxid name body suffix u in
              (body, m, (rest, suffix, w, p, v))
          | inr e ↦ by_display_name-SomeInvokes mxid name l bodies cmd e
        ]

  -- The same for the bot that has an id or none.
  unfoldable pub Addressed : Option Text → Option Text → Lookup → List Text → Command → Type 0
  Addressed none name l bodies cmd = ⊥
  Addressed (some mxid) name l bodies cmd = SomeInvokes mxid name l bodies cmd

  parse_with-Addressed :
      (mxid name : Option Text) (l : Lookup) (bodies : List Text) (cmd : Command)
      → parse_with chars mxid name true l bodies ≡ some cmd
      → Addressed mxid name l bodies cmd
  unfolding parse_with mentioned Addressed
  parse_with-Addressed mxid name [] bodies cmd h = absurd (ground arith)
  parse_with-Addressed none name (k ∷ l) bodies cmd h = absurd (ground arith)
  parse_with-Addressed (some mxid) name (k ∷ l) bodies cmd h =
      mentioned-SomeInvokes mxid name (k ∷ l) bodies cmd h

  -- Where a mention is required, a command that is found stands in one of the bodies, behind the
  -- bot's own id or, in any case, its display name, parted from it by white space or by a colon and
  -- white space; a bot without an id finds none.
  pub parse_matrix_message_command-Addressed :
      (mxid name : Option Text) (commands : List Value) (bodies : List Text) (cmd : Command)
      → parse_matrix_message_command chars mxid name true commands bodies ≡ some cmd
      → Addressed mxid name (build_command_lookup chars commands) bodies cmd
  unfolding parse_matrix_message_command
  parse_matrix_message_command-Addressed mxid name commands bodies cmd h =
      parse_with-Addressed mxid name (build_command_lookup chars commands) bodies cmd h
