-- ===== src/MessageQueue/System.antt =====
-- The queue and its processor together: whatever a thread or the event loop does next is an action.
-- An interleaving is a list of actions.
pub mod Messages
pub mod Order
pub mod Limits
pub mod Pacing
use meshtastic_matrix_relay.Prelude.{
  ℕ, Bool, true, false, ◌&&◌, not, Option, none, some, List, [], ◌∷◌, ◌++◌, if◌then◌else◌,
}
use meshtastic_matrix_relay.MessageQueue.{Queue, QueuedMessage, init}
use meshtastic_matrix_relay.MessageQueue.Lifecycle.{
  task_active, same, start, StopCall, stop_begin, StopEvent, task_ended, loop_closed,
  executor_ended, wait_expired, stop_step, reset_failed_stop_state, ensure_processor_started,
}
use meshtastic_matrix_relay.MessageQueue.Enqueue.{
  Request, Verdict, accepted, refused, must_wait, Wake, enqueue, wake_up,
}
use meshtastic_matrix_relay.MessageQueue.Processor.{
  halted, lost, settle, Processor, fresh, Settled, Env, SendResult, wake, send_ends, mapping_ends,
  cancel,
}
use meshtastic_matrix_relay.MessageQueue.Processor.Returning.{is_halted}

-- `owner` is the task whose coroutine the processor is; a task that is made later has another
-- number.
pub record System : Type 0 where
  pub queue : Queue
  pub processor : Processor
  pub owner : Option ℕ

-- `posts` is a call of `enqueue`, up to its first sleep if it waits; `posts_again` is one more round
-- of a waiting call, begun at the time given.
pub data Action : Type 0 where
  posts : Request → Option ℕ → ℕ → Action
  posts_again : Request → ℕ → ℕ → Action
  wakes : Env → Action
  sends_end : ℕ → SendResult → Action
  maps_end cancels : Action
  starts : ℕ → Option ℕ → ℕ → Action
  stops resets : Action
  stop_goes_on : StopCall → StopEvent → Action
  ensures : Option ℕ → Action

-- The next state, the messages that were taken, and those that were settled.
abbrev pub Result : Type 0
Result = System × List QueuedMessage × List Settled

-- Once the old coroutine is gone, the coroutine of a new task begins, with nothing in hand.
abbrev pub respawn : Queue → Processor → Option ℕ → System
respawn q p owner =
    if is_halted p.phase && (task_active q && not (same q.processor_task owner))
    then record { queue = q; processor = fresh; owner = q.processor_task }
    else record { queue = q; processor = p; owner = owner }

abbrev pub taken : Request → Verdict → List QueuedMessage
taken r accepted = r.message ∷ []
taken r refused = []
taken r must_wait = []

abbrev pub untouched : Queue → System → Result
untouched q s = (respawn q s.processor s.owner, [], [])

abbrev pub posted : Request → System → Queue × Verdict → Result
posted r s (q, v) = (respawn q s.processor s.owner, taken r v, [])

abbrev pub stepped : Option ℕ → Queue × Processor × List Settled → Result
stepped owner (q, p, settled) = (record { queue = q; processor = p; owner = owner }, [], settled)

abbrev pub stopped : Queue → Option (StopCall × Queue) → Queue
stopped q none = q
stopped q (some (c, q')) = q'

abbrev pub lost_in_hand : Option QueuedMessage → List Settled
lost_in_hand none = []
lost_in_hand (some m) = settle m lost

-- The coroutine of a task whose loop is closed never goes on: what it had in hand is gone.
abbrev pub closed : Queue → Bool → System → Result
closed q true s = (
  respawn q (record { phase = halted; current = none }) s.owner,
  [],
  lost_in_hand s.processor.current,
)
closed q false s = untouched q s

-- The task of the processor has ended only once its coroutine has returned.
abbrev pub goes_on_with : StopCall → StopEvent → System → Result
goes_on_with c task_ended s =
    if same c.task s.owner && not (is_halted s.processor.phase)
    then (s, [], [])
    else untouched (stop_step (c, s.queue) task_ended).1 s
goes_on_with c loop_closed s = closed (stop_step (c, s.queue) loop_closed).1 (same c.task s.owner) s
goes_on_with c executor_ended s = untouched (stop_step (c, s.queue) executor_ended).1 s
goes_on_with c wait_expired s = untouched (stop_step (c, s.queue) wait_expired).1 s

unfoldable pub act : System → Action → Result
act s (posts r loop now) = posted r s (enqueue r loop now [] s.queue)
act s (posts_again r since now) =
    posted r s (wake_up r since (record { now = now; meanwhile = λ q. q }) s.queue)
act s (wakes env) = stepped s.owner (wake env s.queue s.processor)
act s (sends_end now result) = stepped s.owner (send_ends now result s.queue s.processor)
act s maps_end = stepped s.owner (mapping_ends s.queue s.processor)
act s cancels = stepped s.owner (cancel s.queue s.processor)
act s (starts delay loop pool) = untouched (start s.queue delay loop pool).0 s
act s stops = untouched (stopped s.queue (stop_begin s.queue)) s
act s resets = untouched (reset_failed_stop_state s.queue).0 s
act s (stop_goes_on c e) = goes_on_with c e s
act s (ensures loop) = untouched (ensure_processor_started s.queue loop) s

abbrev then_run : Result → Result → Result
then_run (s, taken₁, settled₁) (s', taken₂, settled₂) = (s', taken₁ ++ taken₂, settled₁ ++ settled₂)

unfoldable pub run : System → List Action → Result
unfolding act
run s [] = (s, [], [])
run s (a ∷ as') = then_run (act s a) (run (act s a).0 as')

-- A new queue, for which no coroutine runs.
abbrev pub idle : System
idle = record { queue = init; processor = record { phase = halted; current = none }; owner = none }
