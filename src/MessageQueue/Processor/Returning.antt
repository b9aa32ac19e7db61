-- ===== src/MessageQueue/Processor/Returning.antt =====
-- A processor that has returned has nothing in hand.
use meshtastic_matrix_relay.Prelude.{
  ℕ, ◌≡◌, Bool, true, false, Option, none, some, List, [], ◌∷◌, arith,
}
use meshtastic_matrix_relay.MessageQueue.{Queue, QueuedMessage}
use meshtastic_matrix_relay.MessageQueue.Processor.{
  Phase, top, rate_wait, sending, mapping, halted, Processor, Env, SendResult, returned_none,
  returned, raised, wake, send_ends, mapping_ends, cancel, loop_head, fetch,
}

abbrev pub is_halted : Phase → Bool
is_halted halted = true
is_halted _ = false

abbrev pub HasLetGo : Processor → Type 0
HasLetGo p = is_halted p.phase ≡ true → p.current ≡ none

fetch-HasLetGo : (env : Env) (ms : List QueuedMessage) (q : Queue) → HasLetGo (fetch env ms q).1
unfolding fetch
fetch-HasLetGo env [] q = ground arith
fetch-HasLetGo env (m ∷ ms) q = ground arith

loop_head-HasLetGo :
    (env : Env) (current : Option QueuedMessage) (q : Queue) → HasLetGo (loop_head env current q).1
unfolding loop_head
loop_head-HasLetGo env none q = ground (arith, fetch-HasLetGo env q.messages q)
loop_head-HasLetGo env (some m) q = ground arith

wake_at :
    (env : Env) (q : Queue) (phase : Phase) (current : Option QueuedMessage)
    → let p : Processor = record { phase = phase; current = current } in
      HasLetGo p → HasLetGo (wake env q p).1
unfolding wake
wake_at env q top current h = loop_head-HasLetGo env current q
wake_at env q (rate_wait until) none h = ground arith
wake_at env q (rate_wait until) (some m) h = ground arith
wake_at env q sending current h = h
wake_at env q mapping current h = h
wake_at env q halted current h = h

pub wake-HasLetGo : (env : Env) (q : Queue) (p : Processor) → HasLetGo p → HasLetGo (wake env q p).1
wake-HasLetGo env q p = wake_at env q p.phase p.current

send_ends_at :
    (now : ℕ) (result : SendResult) (q : Queue) (phase : Phase) (current : Option QueuedMessage)
    → let p : Processor = record { phase = phase; current = current } in
      HasLetGo p → HasLetGo (send_ends now result q p).1
unfolding send_ends
send_ends_at now result q sending none h = h
send_ends_at now returned_none q sending (some m) h = ground arith
send_ends_at now (returned has_id) q sending (some m) h = ground arith
send_ends_at now (raised is_network text) q sending (some m) h = ground arith
send_ends_at now result q _ current h = h

pub send_ends-HasLetGo :
    (now : ℕ) (result : SendResult) (q : Queue) (p : Processor)
    → HasLetGo p
    → HasLetGo (send_ends now result q p).1
send_ends-HasLetGo now result q p = send_ends_at now result q p.phase p.current

mapping_ends_at :
    (q : Queue) (phase : Phase) (current : Option QueuedMessage)
    → let p : Processor = record { phase = phase; current = current } in
      HasLetGo p → HasLetGo (mapping_ends q p).1
unfolding mapping_ends
mapping_ends_at q mapping none h = h
mapping_ends_at q mapping (some m) h = ground arith
mapping_ends_at q _ current h = h

pub mapping_ends-HasLetGo : (q : Queue) (p : Processor) → HasLetGo p → HasLetGo (mapping_ends q p).1
mapping_ends-HasLetGo q p = mapping_ends_at q p.phase p.current

cancel_at :
    (q : Queue) (phase : Phase) (current : Option QueuedMessage)
    → let p : Processor = record { phase = phase; current = current } in
      HasLetGo p → HasLetGo (cancel q p).1
unfolding cancel
cancel_at q halted current h = h
cancel_at q _ none h = ground arith
cancel_at q _ (some m) h = ground arith

pub cancel-HasLetGo : (q : Queue) (p : Processor) → HasLetGo p → HasLetGo (cancel q p).1
cancel-HasLetGo q p = cancel_at q p.phase p.current
