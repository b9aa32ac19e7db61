-- ===== src/MessageQueue/System/Limits/Flags.antt =====
-- A call leaves the flag of a message in hand as it is.
use meshtastic_matrix_relay.Prelude.{ℕ, ◌≡◌, ◌∙◌, Option, [], arith}
use meshtastic_matrix_relay.MessageQueue.{Queue}
use meshtastic_matrix_relay.MessageQueue.Lifecycle.{
  recover, start, stop_begin, reset_failed_stop_state, ensure_processor_started,
}
use meshtastic_matrix_relay.MessageQueue.Enqueue.{Request, wake_up, enqueue, enqueue_recovered}
use meshtastic_matrix_relay.MessageQueue.Enqueue.Bounds.{found}
use meshtastic_matrix_relay.MessageQueue.System.{stopped}

flag-found : (loop : Option ℕ) (q : Queue) → (found loop q).has_current ≡ q.has_current
unfolding recover ensure_processor_started
flag-found loop q = ground arith

flag-recovered :
    (r : Request) (now : ℕ) (q : Queue)
    → (enqueue_recovered r now [] q).0.has_current ≡ q.has_current
unfolding enqueue_recovered
flag-recovered r now q = ground arith

pub flag-enqueue :
    (r : Request) (loop : Option ℕ) (now : ℕ) (q : Queue)
    → (enqueue r loop now [] q).0.has_current ≡ q.has_current
unfolding enqueue
flag-enqueue r loop now q = flag-recovered r now (found loop q) ∙ flag-found loop q

pub flag-wake_up :
    (r : Request) (since now : ℕ) (q : Queue)
    → (wake_up r since (record { now = now; meanwhile = λ q'. q' }) q).0.has_current ≡ q.has_current
unfolding wake_up
flag-wake_up r since now q = ground arith

pub flag-lifecycle :
    (q : Queue) (delay pool : ℕ) (loop : Option ℕ)
    → ((start q delay loop pool).0.has_current ≡ q.has_current)
      × ((stopped q (stop_begin q)).has_current ≡ q.has_current)
      × ((reset_failed_stop_state q).0.has_current ≡ q.has_current)
      × ((ensure_processor_started q loop).has_current ≡ q.has_current)
unfolding start stop_begin reset_failed_stop_state ensure_processor_started
flag-lifecycle q delay pool loop = (ground arith, ground arith, ground arith, ground arith)
