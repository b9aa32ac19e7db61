-- ===== src/MessageQueue/Processor/Flags.antt =====
-- The flags that `drain` reads tell of every message in hand, after each step of the processor.
use meshtastic_matrix_relay.Prelude.{
  ℕ, ◌≡◌, true, false, Option, none, some, List, [], ◌∷◌, arith, refl, if_rule, ltb, ◌&&◌, ◌-◌,
}
use meshtastic_matrix_relay.MessageQueue.{Queue, QueuedMessage}
use meshtastic_matrix_relay.MessageQueue.Lifecycle.{is_some}
use meshtastic_matrix_relay.MessageQueue.Processor.{
  Phase, top, rate_wait, sending, mapping, halted, Processor, Step, Env, SendResult, returned_none,
  returned, raised, should_send_message, effective_delay, put_back, begin_send, gate, fetch,
  loop_head, after_wait, leave, wake, on_result, is_connection_error, send_ends, mapping_ends,
  on_cancel, cancel,
}

-- A message in hand is flagged.
abbrev pub IsFlagged : Queue → Option QueuedMessage → Type 0
IsFlagged q none = Unit
IsFlagged q (some m) = q.has_current ≡ true

abbrev Flagged : Step → Type 0
Flagged (q, p, settled) = IsFlagged q p.current

put_back-Flagged : (m : QueuedMessage) (q : Queue) → Flagged (put_back m q)
unfolding put_back
put_back-Flagged m q = tt

begin_send-Flagged :
    (env : Env) (m : QueuedMessage) (q : Queue)
    → q.has_current ≡ true
    → Flagged (begin_send env m q)
unfolding begin_send
begin_send-Flagged env m q h =
    if_rule Flagged (should_send_message env.last)
      (λ _. if_rule Flagged (is_some q.executor) (λ _. h) (λ _. tt)) (λ _. put_back-Flagged m q)

gate-Flagged :
    (env : Env) (m : QueuedMessage) (q : Queue) → q.has_current ≡ true → Flagged (gate env m q)
unfolding gate
gate-Flagged env m q h =
    if_rule Flagged (should_send_message env.first)
      (λ _.
        if_rule Flagged
          (ltb 0 q.last_send_mono && ltb (env.now - q.last_send_mono) (effective_delay q m))
          (λ _. h) (λ _. begin_send-Flagged env m q h))
      (λ _. h)

fetch-Flagged : (env : Env) (ms : List QueuedMessage) (q : Queue) → Flagged (fetch env ms q)
unfolding fetch
fetch-Flagged env [] q = tt
fetch-Flagged env (m ∷ rest) q =
    gate-Flagged env m
      (record q { messages = rest; has_current = true; current_description = some m.description })
      refl

loop_head-Flagged :
    (env : Env) (current : Option QueuedMessage) (q : Queue)
    → IsFlagged q current
    → Flagged (loop_head env current q)
unfolding loop_head leave
loop_head-Flagged env none q h =
    if_rule Flagged q.running (λ _. fetch-Flagged env q.messages q) (λ _. tt)
loop_head-Flagged env (some m) q h =
    if_rule Flagged q.running (λ _. gate-Flagged env m q h) (λ _. tt)

after_wait-Flagged :
    (env : Env) (until : ℕ) (current : Option QueuedMessage) (q : Queue)
    → IsFlagged q current
    → Flagged (after_wait env until current q)
unfolding after_wait
after_wait-Flagged env until none q h = h
after_wait-Flagged env until (some m) q h =
    if_rule Flagged (ltb env.now until) (λ _. h)
      λ _.
        if_rule Flagged (should_send_message env.first) (λ _. begin_send-Flagged env m q h)
          (λ _. put_back-Flagged m q)

wake_at :
    (env : Env) (q : Queue) (phase : Phase) (current : Option QueuedMessage)
    → IsFlagged q current
    → Flagged (wake env q (record { phase = phase; current = current }))
unfolding wake
wake_at env q top current h = loop_head-Flagged env current q h
wake_at env q (rate_wait until) current h = after_wait-Flagged env until current q h
wake_at env q _ current h = h

pub wake-IsFlagged :
    (env : Env) (q : Queue) (p : Processor)
    → IsFlagged q p.current
    → IsFlagged (wake env q p).0 (wake env q p).1.current
wake-IsFlagged env q p = wake_at env q p.phase p.current

on_result-Flagged :
    (now : ℕ) (result : SendResult) (m : QueuedMessage) (q : Queue)
    → q.has_current ≡ true
    → Flagged (on_result now result m q)
unfolding on_result
on_result-Flagged now returned_none m q h = tt
on_result-Flagged now (returned has_id) m q h = ground arith
on_result-Flagged now (raised is_network text) m q h =
    if_rule Flagged (is_connection_error is_network text)
      (λ _. put_back-Flagged m (record q { in_flight = false })) (λ _. tt)

send_ends_at :
    (now : ℕ) (result : SendResult) (q : Queue) (phase : Phase) (current : Option QueuedMessage)
    → IsFlagged q current
    → Flagged (send_ends now result q (record { phase = phase; current = current }))
unfolding send_ends
send_ends_at now result q sending none h = h
send_ends_at now result q sending (some m) h = on_result-Flagged now result m q h
send_ends_at now result q _ current h = h

pub send_ends-IsFlagged :
    (now : ℕ) (result : SendResult) (q : Queue) (p : Processor)
    → IsFlagged q p.current
    → IsFlagged (send_ends now result q p).0 (send_ends now result q p).1.current
send_ends-IsFlagged now result q p = send_ends_at now result q p.phase p.current

mapping_ends_at :
    (q : Queue) (phase : Phase) (current : Option QueuedMessage)
    → IsFlagged q current
    → Flagged (mapping_ends q (record { phase = phase; current = current }))
unfolding mapping_ends
mapping_ends_at q mapping none h = h
mapping_ends_at q mapping (some m) h = tt
mapping_ends_at q _ current h = h

pub mapping_ends-IsFlagged :
    (q : Queue) (p : Processor)
    → IsFlagged q p.current
    → IsFlagged (mapping_ends q p).0 (mapping_ends q p).1.current
mapping_ends-IsFlagged q p = mapping_ends_at q p.phase p.current

cancel_at :
    (q : Queue) (phase : Phase) (current : Option QueuedMessage)
    → IsFlagged q current
    → Flagged (cancel q (record { phase = phase; current = current }))
unfolding cancel on_cancel
cancel_at q halted current h = h
cancel_at q _ none h = tt
cancel_at q _ (some m) h = tt

pub cancel-IsFlagged :
    (q : Queue) (p : Processor)
    → IsFlagged q p.current
    → IsFlagged (cancel q p).0 (cancel q p).1.current
cancel-IsFlagged q p = cancel_at q p.phase p.current
