-- ===== src/MessageQueue/Processor/Pacing/Steadiness.antt =====
-- The end of a send, of a mapping, and a cancellation leave no rate-limit sleep behind.
use meshtastic_matrix_relay.Prelude.{ℕ, ◌≤◌, Option, none, some, arith}
use meshtastic_matrix_relay.MessageQueue.{Queue, QueuedMessage}
use meshtastic_matrix_relay.MessageQueue.Report.{record_sent_history}
use meshtastic_matrix_relay.MessageQueue.Enqueue.{requeue}
use meshtastic_matrix_relay.MessageQueue.Processor.{
  Phase, sending, mapping, halted, Processor, SendResult, returned_none, returned, raised,
  on_result, send_ends, mapping_ends, on_cancel, cancel,
}
use meshtastic_matrix_relay.MessageQueue.Processor.Pacing.{Steady}

on_result-Steady :
    (floor now : ℕ) (result : SendResult) (m : QueuedMessage) (q : Queue)
    → floor ≤ q.message_delay
    → Steady floor (on_result now result m q).0 (on_result now result m q).1
unfolding on_result requeue record_sent_history
on_result-Steady floor now returned_none m q h = ground arith
on_result-Steady floor now (returned has_id) m q h = ground arith
on_result-Steady floor now (raised is_network text) m q h = ground arith

send_ends_at :
    (floor now : ℕ) (result : SendResult) (q : Queue) (phase : Phase)
    (current : Option QueuedMessage)
    → let p : Processor = record { phase = phase; current = current } in
      Steady floor q p → Steady floor (send_ends now result q p).0 (send_ends now result q p).1
unfolding send_ends
send_ends_at floor now result q sending none h = h
send_ends_at floor now result q sending (some m) h = on_result-Steady floor now result m q h.0
send_ends_at floor now result q _ current h = h

pub send_ends-Steady :
    (floor now : ℕ) (result : SendResult) (q : Queue) (p : Processor)
    → Steady floor q p
    → Steady floor (send_ends now result q p).0 (send_ends now result q p).1
send_ends-Steady floor now result q p = send_ends_at floor now result q p.phase p.current

mapping_ends_at :
    (floor : ℕ) (q : Queue) (phase : Phase) (current : Option QueuedMessage)
    → let p : Processor = record { phase = phase; current = current } in
      Steady floor q p → Steady floor (mapping_ends q p).0 (mapping_ends q p).1
unfolding mapping_ends
mapping_ends_at floor q mapping none h = h
mapping_ends_at floor q mapping (some m) h = (h.0, tt)
mapping_ends_at floor q _ current h = h

pub mapping_ends-Steady :
    (floor : ℕ) (q : Queue) (p : Processor)
    → Steady floor q p
    → Steady floor (mapping_ends q p).0 (mapping_ends q p).1
mapping_ends-Steady floor q p = mapping_ends_at floor q p.phase p.current

cancel_at :
    (floor : ℕ) (q : Queue) (phase : Phase) (current : Option QueuedMessage)
    → let p : Processor = record { phase = phase; current = current } in
      Steady floor q p → Steady floor (cancel q p).0 (cancel q p).1
unfolding cancel on_cancel record_sent_history
cancel_at floor q halted current h = h
cancel_at floor q _ none h = (h.0, tt)
cancel_at floor q _ (some m) h = (h.0, tt)

pub cancel-Steady :
    (floor : ℕ) (q : Queue) (p : Processor)
    → Steady floor q p
    → Steady floor (cancel q p).0 (cancel q p).1
cancel-Steady floor q p = cancel_at floor q p.phase p.current
