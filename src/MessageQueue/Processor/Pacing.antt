-- ===== src/MessageQueue/Processor/Pacing.antt =====
-- The spacing of sends, and the check of the radio before each.
pub mod Steadiness
use meshtastic_matrix_relay.Prelude.{
  ℕ, ◌+◌, ◌-◌, ◌≤◌, ◌≡◌, ◌⊎◌, Bool, true, false, Option, none, some, List, [], ◌∷◌, arith, if_rule,
  inr, ◌&&◌, ltb, max, refl,
}
use meshtastic_matrix_relay.MessageQueue.Enqueue.{requeue}
use meshtastic_matrix_relay.MessageQueue.Report.{record_sent_history}
use meshtastic_matrix_relay.MessageQueue.{Queue, QueuedMessage}
use meshtastic_matrix_relay.MessageQueue.Lifecycle.{is_some}
use meshtastic_matrix_relay.MessageQueue.Processor.{
  Phase, top, rate_wait, sending, mapping, halted, Processor, Step, Env, should_send_message,
  effective_delay, put_back, finish, leave, begin_send, gate, fetch, loop_head, after_wait, wake,
}

-- The delay to keep before a message if the configured delay is at least `floor`.
abbrev pub floor_delay : ℕ → QueuedMessage → ℕ
floor_delay floor m = elim m.min_delay [ none ↦ floor | some d ↦ max floor d ]

-- A processor in the rate-limit sleep sleeps until the message may be sent.
abbrev pub WaitsEnough : ℕ → Queue → Phase → Option QueuedMessage → Type 0
WaitsEnough floor q (rate_wait until) none = ⊥
WaitsEnough floor q (rate_wait until) (some m) = q.last_send_mono + floor_delay floor m ≤ until
WaitsEnough floor q _ _ = Unit

-- A send that begins: the delay has passed since the last send, if there was one, and the radio was
-- ready at the last check.
abbrev pub IsPaced : ℕ → Queue → Env → Phase → Option QueuedMessage → Type 0
IsPaced floor q env sending none = ⊥
IsPaced floor q env sending (some m) =
    ((q.last_send_mono ≡ 0) ⊎ (q.last_send_mono + floor_delay floor m ≤ env.now))
    × (should_send_message env.last ≡ true)
IsPaced floor q env _ _ = Unit

-- A queue with at least the delay `floor`, and a processor that keeps to it.
abbrev pub Steady : ℕ → Queue → Processor → Type 0
Steady floor q p = (floor ≤ q.message_delay) × WaitsEnough floor q p.phase p.current

abbrev pub Paced : ℕ → Queue → Env → Step → Type 0
Paced floor q env (q', p, settled) =
    Steady floor q' p × (q.last_send_mono ≤ env.now → IsPaced floor q env p.phase p.current)

abbrev pub is_sending : Phase → Bool
is_sending sending = true
is_sending _ = false

module _ (floor : ℕ) (env : Env) where
  put_back-Paced :
      (m : QueuedMessage) (q q' : Queue)
      → floor ≤ q'.message_delay
      → Paced floor q env (put_back m q')
  unfolding put_back requeue
  put_back-Paced m q q' h = ground arith

  begin_send-Paced :
      (m : QueuedMessage) (q : Queue)
      → floor ≤ q.message_delay
      → (q.last_send_mono ≤ env.now
          → (q.last_send_mono ≡ 0) ⊎ (q.last_send_mono + floor_delay floor m ≤ env.now))
      → Paced floor q env (begin_send env m q)
  unfolding begin_send finish record_sent_history
  begin_send-Paced m q h due =
      if_rule (Paced floor q env) (should_send_message env.last)
        (λ ready.
          if_rule (Paced floor q env) (is_some q.executor)
            (λ _. ((h, tt), λ clock. (due clock, ready))) (λ _. ((h, tt), λ _. tt)))
        (λ _. put_back-Paced m q q h)

  gate-Paced :
      (m : QueuedMessage) (q : Queue) → floor ≤ q.message_delay → Paced floor q env (gate env m q)
  unfolding gate
  gate-Paced m q h =
      if_rule (Paced floor q env) (should_send_message env.first)
        (λ _.
          if_rule (Paced floor q env)
            (ltb 0 q.last_send_mono && ltb (env.now - q.last_send_mono) (effective_delay q m))
            (λ early. ((h, ground arith), λ _. tt))
            (λ late. begin_send-Paced m q h (λ clock. ground arith)))
        (λ _. ((h, tt), λ _. tt))

  fetch-Paced :
      (ms : List QueuedMessage) (q : Queue)
      → floor ≤ q.message_delay
      → Paced floor q env (fetch env ms q)
  unfolding fetch
  fetch-Paced [] q h = ((h, tt), λ _. tt)
  fetch-Paced (m ∷ rest) q h =
      gate-Paced m
        (record q { messages = rest; has_current = true; current_description = some m.description })
        h

  loop_head-Paced :
      (current : Option QueuedMessage) (q : Queue)
      → floor ≤ q.message_delay
      → Paced floor q env (loop_head env current q)
  unfolding loop_head leave
  loop_head-Paced none q h =
      if_rule (Paced floor q env) q.running (λ _. fetch-Paced q.messages q h)
        (λ _. ((h, tt), λ _. tt))
  loop_head-Paced (some m) q h =
      if_rule (Paced floor q env) q.running (λ _. gate-Paced m q h) (λ _. ((h, tt), λ _. tt))

  after_wait-Paced :
      (until : ℕ) (current : Option QueuedMessage) (q : Queue)
      → floor ≤ q.message_delay
      → WaitsEnough floor q (rate_wait until) current
      → Paced floor q env (after_wait env until current q)
  unfolding after_wait
  after_wait-Paced until none q h w = absurd w
  after_wait-Paced until (some m) q h w =
      if_rule (Paced floor q env) (ltb env.now until) (λ _. ((h, w), λ _. tt))
        λ awake.
          if_rule (Paced floor q env) (should_send_message env.first)
            (λ _. begin_send-Paced m q h (λ _. inr (ground arith))) (λ _. put_back-Paced m q q h)

  wake_at :
      (q : Queue) (phase : Phase) (current : Option QueuedMessage)
      → let p : Processor = record { phase = phase; current = current } in
        Steady floor q p → is_sending phase ≡ false → Paced floor q env (wake env q p)
  unfolding wake
  wake_at q top current h e = loop_head-Paced current q h.0
  wake_at q (rate_wait until) current h e = after_wait-Paced until current q h.0 h.1
  wake_at q sending current h e = cc
  wake_at q mapping current h e = (h, λ _. tt)
  wake_at q halted current h e = (h, λ _. tt)

  pub wake-Paced :
      (q : Queue) (p : Processor)
      → Steady floor q p
      → is_sending p.phase ≡ false
      → Paced floor q env (wake env q p)
  wake-Paced q p = wake_at q p.phase p.current

  wake-Steady_at :
      (q : Queue) (phase : Phase) (current : Option QueuedMessage)
      → let p : Processor = record { phase = phase; current = current } in
        Steady floor q p → Steady floor (wake env q p).0 (wake env q p).1
  unfolding wake
  wake-Steady_at q sending current h = h
  wake-Steady_at q top current h = (wake_at q top current h refl).0
  wake-Steady_at q (rate_wait until) current h = (wake_at q (rate_wait until) current h refl).0
  wake-Steady_at q mapping current h = h
  wake-Steady_at q halted current h = h

  pub wake-Steady :
      (q : Queue) (p : Processor)
      → Steady floor q p
      → Steady floor (wake env q p).0 (wake env q p).1
  wake-Steady q p = wake-Steady_at q p.phase p.current
