-- ===== src/MessageQueue/Processor/Bounds.antt =====
-- No step of the processor makes the queue longer than its limit.
use meshtastic_matrix_relay.Prelude.{
  ℕ, ◌≡◌, true, false, Option, none, some, List, [], ◌∷◌, arith, refl, ap, if_rule, length, ltb,
  ◌&&◌, ◌-◌,
}
use meshtastic_matrix_relay.MessageQueue.{Queue, QueuedMessage}
use meshtastic_matrix_relay.MessageQueue.Lifecycle.{is_some}
use meshtastic_matrix_relay.MessageQueue.Enqueue.Bounds.{IsBounded, requeue-IsBounded}
use meshtastic_matrix_relay.MessageQueue.Processor.{
  Phase, top, rate_wait, sending, mapping, halted, Processor, Step, Env, SendResult, returned_none,
  returned, raised, should_send_message, effective_delay, put_back, begin_send, gate, fetch,
  loop_head, after_wait, leave, wake, on_result, is_connection_error, send_ends, mapping_ends,
  on_cancel, cancel,
}

abbrev Bounded : Step → Type 0
Bounded (q, p, settled) = IsBounded q

put_back-Bounded : (m : QueuedMessage) (q : Queue) → IsBounded q → Bounded (put_back m q)
unfolding put_back
put_back-Bounded m q h = requeue-IsBounded m q h

begin_send-Bounded :
    (env : Env) (m : QueuedMessage) (q : Queue) → IsBounded q → Bounded (begin_send env m q)
unfolding begin_send
begin_send-Bounded env m q h =
    if_rule Bounded (should_send_message env.last)
      (λ _. if_rule Bounded (is_some q.executor) (λ _. h) (λ _. h)) (λ _. put_back-Bounded m q h)

gate-Bounded : (env : Env) (m : QueuedMessage) (q : Queue) → IsBounded q → Bounded (gate env m q)
unfolding gate
gate-Bounded env m q h =
    if_rule Bounded (should_send_message env.first)
      (λ _.
        if_rule Bounded
          (ltb 0 q.last_send_mono && ltb (env.now - q.last_send_mono) (effective_delay q m))
          (λ _. h) (λ _. begin_send-Bounded env m q h))
      (λ _. h)

fetch-Bounded :
    (env : Env) (ms : List QueuedMessage) (q : Queue)
    → q.messages ≡ ms
    → IsBounded q
    → Bounded (fetch env ms q)
unfolding fetch
fetch-Bounded env [] q e h = h
fetch-Bounded env (m ∷ rest) q e h =
    gate-Bounded env m
      (record q { messages = rest; has_current = true; current_description = some m.description })
      (omega (arith, ap length e))

loop_head-Bounded :
    (env : Env) (current : Option QueuedMessage) (q : Queue)
    → IsBounded q
    → Bounded (loop_head env current q)
unfolding loop_head leave
loop_head-Bounded env none q h =
    if_rule Bounded q.running (λ _. fetch-Bounded env q.messages q refl h) (λ _. h)
loop_head-Bounded env (some m) q h =
    if_rule Bounded q.running (λ _. gate-Bounded env m q h) (λ _. h)

after_wait-Bounded :
    (env : Env) (until : ℕ) (current : Option QueuedMessage) (q : Queue)
    → IsBounded q
    → Bounded (after_wait env until current q)
unfolding after_wait
after_wait-Bounded env until none q h = h
after_wait-Bounded env until (some m) q h =
    if_rule Bounded (ltb env.now until) (λ _. h)
      λ _.
        if_rule Bounded (should_send_message env.first) (λ _. begin_send-Bounded env m q h)
          (λ _. put_back-Bounded m q h)

wake_at :
    (env : Env) (q : Queue) (phase : Phase) (current : Option QueuedMessage)
    → IsBounded q
    → Bounded (wake env q (record { phase = phase; current = current }))
unfolding wake
wake_at env q top current h = loop_head-Bounded env current q h
wake_at env q (rate_wait until) current h = after_wait-Bounded env until current q h
wake_at env q _ current h = h

pub wake-IsBounded :
    (env : Env) (q : Queue) (p : Processor) → IsBounded q → IsBounded (wake env q p).0
wake-IsBounded env q p = wake_at env q p.phase p.current

on_result-Bounded :
    (now : ℕ) (result : SendResult) (m : QueuedMessage) (q : Queue)
    → IsBounded q
    → Bounded (on_result now result m q)
unfolding on_result
on_result-Bounded now returned_none m q h = h
on_result-Bounded now (returned has_id) m q h = ground arith
on_result-Bounded now (raised is_network text) m q h =
    if_rule Bounded (is_connection_error is_network text)
      (λ _. put_back-Bounded m (record q { in_flight = false }) h) (λ _. h)

send_ends_at :
    (now : ℕ) (result : SendResult) (q : Queue) (phase : Phase) (current : Option QueuedMessage)
    → IsBounded q
    → Bounded (send_ends now result q (record { phase = phase; current = current }))
unfolding send_ends
send_ends_at now result q sending none h = h
send_ends_at now result q sending (some m) h = on_result-Bounded now result m q h
send_ends_at now result q _ current h = h

pub send_ends-IsBounded :
    (now : ℕ) (result : SendResult) (q : Queue) (p : Processor)
    → IsBounded q
    → IsBounded (send_ends now result q p).0
send_ends-IsBounded now result q p = send_ends_at now result q p.phase p.current

mapping_ends_at :
    (q : Queue) (phase : Phase) (current : Option QueuedMessage)
    → IsBounded q
    → Bounded (mapping_ends q (record { phase = phase; current = current }))
unfolding mapping_ends
mapping_ends_at q mapping none h = h
mapping_ends_at q mapping (some m) h = h
mapping_ends_at q _ current h = h

pub mapping_ends-IsBounded :
    (q : Queue) (p : Processor) → IsBounded q → IsBounded (mapping_ends q p).0
mapping_ends-IsBounded q p = mapping_ends_at q p.phase p.current

cancel_at :
    (q : Queue) (phase : Phase) (current : Option QueuedMessage)
    → IsBounded q
    → Bounded (cancel q (record { phase = phase; current = current }))
unfolding cancel on_cancel
cancel_at q halted current h = h
cancel_at q _ none h = h
cancel_at q _ (some m) h = h

pub cancel-IsBounded : (q : Queue) (p : Processor) → IsBounded q → IsBounded (cancel q p).0
cancel-IsBounded q p = cancel_at q p.phase p.current
