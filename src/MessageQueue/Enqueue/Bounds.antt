-- ===== src/MessageQueue/Enqueue/Bounds.antt =====
-- The queue never holds more than `MAX_QUEUE_SIZE` messages.
use meshtastic_matrix_relay.Prelude.{
  ℕ, ◌+◌, ◌≤◌, ◌≡◌, Bool, false, Option, List, [], ◌∷◌, ◌++◌, arith, ltb, not, ◌&&◌, if◌then◌else◌,
  length, length-append,
}
use meshtastic_matrix_relay.MessageQueue.{Queue, QueuedMessage, max_queue_size}
use meshtastic_matrix_relay.MessageQueue.Lifecycle.{recover, ensure_processor_started}
use meshtastic_matrix_relay.MessageQueue.Enqueue.{
  Request, Wake, Verdict, accepted, refused, must_wait, attempt, wake_up, retry, enqueue,
  enqueue_recovered, requeue,
}

abbrev pub IsBounded : Queue → Type 0
IsBounded q = length q.messages ≤ max_queue_size

attempt-IsBounded :
    (r : Request) (since now : ℕ) (q : Queue) → IsBounded q → IsBounded (attempt r since now q).0
unfolding attempt
attempt-IsBounded r since now q h = ground (arith, length-append q.messages (r.message ∷ []))

-- The other threads keep the bound too.
abbrev pub AllKeep : List Wake → Type 0
AllKeep [] = Unit
AllKeep (w ∷ ws) = ((q : Queue) → IsBounded q → IsBounded (w.meanwhile q)) × AllKeep ws

pub wake_up-IsBounded :
    (r : Request) (since : ℕ) (w : Wake) (q : Queue)
    → IsBounded (w.meanwhile q)
    → IsBounded (wake_up r since w q).0
unfolding wake_up
wake_up-IsBounded r since w q h = ground (arith, attempt-IsBounded r since w.now (w.meanwhile q))

retry-IsBounded :
    (r : Request) (since : ℕ) (ws : List Wake) (q : Queue) (v : Verdict)
    → AllKeep ws
    → IsBounded q
    → IsBounded (retry r since ws (q, v)).0
unfolding retry
retry-IsBounded r since [] q v k h = h
retry-IsBounded r since (w ∷ ws) q accepted k h = h
retry-IsBounded r since (w ∷ ws) q refused k h = h
retry-IsBounded r since (w ∷ ws) q must_wait k h =
    let (q', v') = wake_up r since w q in
    retry-IsBounded r since ws q' v' k.1 (wake_up-IsBounded r since w q (k.0 q h))

-- The queue as `enqueue` finds it, after it has made sure of the processor.
abbrev pub found : Option ℕ → Queue → Queue
found loop q = (recover (ensure_processor_started q loop)).0

pub messages-found : (loop : Option ℕ) (q : Queue) → (found loop q).messages ≡ q.messages
unfolding recover ensure_processor_started
messages-found loop q = ground arith

-- `enqueue`, waiting or not, keeps the queue within its limit if the other threads do.
pub enqueue-IsBounded :
    (r : Request) (loop : Option ℕ) (now : ℕ) (ws : List Wake) (q : Queue)
    → AllKeep ws
    → IsBounded q
    → IsBounded (enqueue r loop now ws q).0
unfolding enqueue enqueue_recovered
enqueue-IsBounded r loop now ws q k h = ground (
  arith,
  messages-found loop q,
  attempt-IsBounded r now now (found loop q),
  retry-IsBounded r now ws (attempt r now now (found loop q)).0 (attempt r now now (found loop q)).1
      k,
)

pub requeue-IsBounded : (m : QueuedMessage) (q : Queue) → IsBounded q → IsBounded (requeue m q).0
unfolding requeue
requeue-IsBounded m q h = ground arith

-- The queue takes messages, and has room for one.
abbrev pub runs : Queue → Bool
runs q = not q.stop_failed && (q.running && not q.stopping)

abbrev pub admits : Queue → Bool
admits q = runs q && ltb (length q.messages) max_queue_size

recovered_at_once :
    (r : Request) (now : ℕ) (ws : List Wake) (q : Queue) (before : List QueuedMessage)
    → r.wait ≡ false
    → q.messages ≡ before
    → let (q', verdict) = enqueue_recovered r now ws q in
      (verdict ≡ (if admits q then accepted else refused))
      × (q'.messages ≡ (if admits q then before ++ r.message ∷ [] else before))
      × (q'.dropped_messages ≡ q.dropped_messages + (if runs q && not (admits q) then 1 else 0))
unfolding enqueue_recovered
recovered_at_once r now [] q before h e = ground arith
recovered_at_once r now (w ∷ ws) q before h e = ground arith

-- Without `wait` the call answers at once. It appends the message exactly if the queue, as it is
-- after the processor was seen to, runs and has room; otherwise it leaves the messages alone, and
-- counts a drop exactly if the queue runs and is full.
enqueue_at_once :
    (r : Request) (loop : Option ℕ) (now : ℕ) (ws : List Wake) (q : Queue)
    → r.wait ≡ false
    → let (q', verdict) = enqueue r loop now ws q in
      let ready = found loop q in
      (verdict ≡ (if admits ready then accepted else refused))
      × (q'.messages ≡ (if admits ready then q.messages ++ r.message ∷ [] else q.messages))
      × (q'.dropped_messages
          ≡ ready.dropped_messages + (if runs ready && not (admits ready) then 1 else 0))
unfolding enqueue
enqueue_at_once r loop now ws q h =
    recovered_at_once r now ws (found loop q) q.messages h (messages-found loop q)
