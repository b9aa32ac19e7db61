-- ===== src/MessageQueue/Processor/Settling.antt =====
-- A step of the processor settles messages from the front of what is waiting, and no other.
use meshtastic_matrix_relay.Prelude.{
  ℕ, ◌≡◌, refl, false, Option, none, some, List, [], ◌∷◌, ◌++◌, arith,
}
use meshtastic_matrix_relay.MessageQueue.{Queue, QueuedMessage}
use meshtastic_matrix_relay.MessageQueue.Enqueue.{requeue}
use meshtastic_matrix_relay.MessageQueue.Processor.{
  Phase, top, rate_wait, sending, mapping, halted, Processor, Settled, Step, Env, SendResult,
  returned_none, returned, raised, put_back, begin_send, gate, fetch, leave, loop_head, after_wait,
  wake, on_result, send_ends, mapping_ends, on_cancel, cancel,
}

abbrev pub in_hand : Option QueuedMessage → List QueuedMessage
in_hand none = []
in_hand (some m) = m ∷ []

-- The messages that were taken and are not settled, oldest first.
abbrev pub waiting : Queue → Processor → List QueuedMessage
waiting q p = in_hand p.current ++ q.messages

abbrev pub messages_of : List Settled → List QueuedMessage
messages_of [] = []
messages_of (s ∷ ss) = s.message ∷ messages_of ss

-- What a step settles was at the front.
abbrev pub Advances : List QueuedMessage → Step → Type 0
Advances before (q, p, settled) = messages_of settled ++ waiting q p ≡ before

put_back-Advances : (m : QueuedMessage) (q : Queue) → Advances (m ∷ q.messages) (put_back m q)
unfolding put_back requeue
put_back-Advances m q = ground arith

begin_send-Advances :
    (env : Env) (m : QueuedMessage) (q : Queue) → Advances (m ∷ q.messages) (begin_send env m q)
unfolding begin_send
begin_send-Advances env m q = ground (arith, put_back-Advances m q)

gate-Advances :
    (env : Env) (m : QueuedMessage) (q : Queue) → Advances (m ∷ q.messages) (gate env m q)
unfolding gate
gate-Advances env m q = ground (arith, begin_send-Advances env m q)

fetch-Advances :
    (env : Env) (ms : List QueuedMessage) (q : Queue)
    → q.messages ≡ ms
    → Advances ms (fetch env ms q)
unfolding fetch
fetch-Advances env [] q e = e
fetch-Advances env (m ∷ rest) q e = gate-Advances env m _

loop_head-Advances :
    (env : Env) (current : Option QueuedMessage) (q : Queue)
    → Advances (in_hand current ++ q.messages) (loop_head env current q)
unfolding loop_head leave
loop_head-Advances env none q = ground (arith, fetch-Advances env q.messages q refl)
loop_head-Advances env (some m) q = ground (arith, gate-Advances env m q)

after_wait-Advances :
    (env : Env) (until : ℕ) (current : Option QueuedMessage) (q : Queue)
    → Advances (in_hand current ++ q.messages) (after_wait env until current q)
unfolding after_wait
after_wait-Advances env until none q = refl
after_wait-Advances env until (some m) q =
    ground (arith, begin_send-Advances env m q, put_back-Advances m q)

wake_at :
    (env : Env) (q : Queue) (phase : Phase) (current : Option QueuedMessage)
    → let p : Processor = record { phase = phase; current = current } in
      Advances (waiting q p) (wake env q p)
unfolding wake
wake_at env q top current = loop_head-Advances env current q
wake_at env q (rate_wait until) current = after_wait-Advances env until current q
wake_at env q sending current = refl
wake_at env q mapping current = refl
wake_at env q halted current = refl

pub wake-Advances : (env : Env) (q : Queue) (p : Processor) → Advances (waiting q p) (wake env q p)
wake-Advances env q p = wake_at env q p.phase p.current

on_result-Advances :
    (now : ℕ) (result : SendResult) (m : QueuedMessage) (q : Queue)
    → Advances (m ∷ q.messages) (on_result now result m q)
unfolding on_result
on_result-Advances now returned_none m q = refl
on_result-Advances now (returned has_id) m q = ground arith
on_result-Advances now (raised is_network text) m q =
    ground (arith, put_back-Advances m (record q { in_flight = false }))

send_ends_at :
    (now : ℕ) (result : SendResult) (q : Queue) (phase : Phase) (current : Option QueuedMessage)
    → let p : Processor = record { phase = phase; current = current } in
      Advances (waiting q p) (send_ends now result q p)
unfolding send_ends
send_ends_at now result q top current = refl
send_ends_at now result q (rate_wait until) current = refl
send_ends_at now result q sending none = refl
send_ends_at now result q sending (some m) = on_result-Advances now result m q
send_ends_at now result q mapping current = refl
send_ends_at now result q halted current = refl

pub send_ends-Advances :
    (now : ℕ) (result : SendResult) (q : Queue) (p : Processor)
    → Advances (waiting q p) (send_ends now result q p)
send_ends-Advances now result q p = send_ends_at now result q p.phase p.current

mapping_ends_at :
    (q : Queue) (phase : Phase) (current : Option QueuedMessage)
    → let p : Processor = record { phase = phase; current = current } in
      Advances (waiting q p) (mapping_ends q p)
unfolding mapping_ends
mapping_ends_at q mapping none = refl
mapping_ends_at q mapping (some m) = refl
mapping_ends_at q _ current = refl

pub mapping_ends-Advances : (q : Queue) (p : Processor) → Advances (waiting q p) (mapping_ends q p)
mapping_ends-Advances q p = mapping_ends_at q p.phase p.current

cancel_at :
    (q : Queue) (phase : Phase) (current : Option QueuedMessage)
    → let p : Processor = record { phase = phase; current = current } in
      Advances (waiting q p) (cancel q p)
unfolding cancel on_cancel
cancel_at q halted current = refl
cancel_at q _ none = refl
cancel_at q _ (some m) = refl

pub cancel-Advances : (q : Queue) (p : Processor) → Advances (waiting q p) (cancel q p)
cancel-Advances q p = cancel_at q p.phase p.current
