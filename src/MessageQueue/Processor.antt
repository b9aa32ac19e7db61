-- ===== src/MessageQueue/Processor.antt =====
-- `_process_queue` of message_queue.py: the coroutine as a machine that goes from one `await` to
-- the next. Between two steps any other method may run. A step also says which messages it has
-- settled: sent, or given up for good.
pub mod Pacing
pub mod Settling
pub mod Returning
pub mod Bounds
pub mod Flags
use meshtastic_matrix_relay.Prelude.{
  ℕ, ◌+◌, ◌-◌, Bool, true, false, ◌||◌, ◌&&◌, not, Option, none, some, List, [], ◌∷◌, max, ltb,
  ◌==◌, if◌then◌else◌,
}
use meshtastic_matrix_relay.Text.{Text, codes, starts_with}
use meshtastic_matrix_relay.MessageQueue.{
  Queue, QueuedMessage, MappingInfo, Status, sent, no_result, error, cancelled,
}
use meshtastic_matrix_relay.MessageQueue.Lifecycle.{is_some}
use meshtastic_matrix_relay.MessageQueue.Enqueue.{requeue}
use meshtastic_matrix_relay.MessageQueue.Report.{record_sent_history}

-- Where the coroutine stands: before the head of its loop (at first, and while it sleeps to poll
-- or to retry), in the rate-limit sleep, at the executor, at the database, or returned.
pub data Phase : Type 0 where
  top : Phase
  rate_wait : ℕ → Phase
  sending mapping halted : Phase

pub record Processor : Type 0 where
  pub phase : Phase
  pub current : Option QueuedMessage

abbrev pub fresh : Processor
fresh = record { phase = top; current = none }

-- `dropped`: the queue was full when the message came back. `abandoned`: the loop ended because the
-- queue no longer runs, with the message in hand. `lost`: the event loop was closed under the
-- coroutine, with the message in hand; it may have gone out, but nothing more is recorded of it.
pub data Outcome : Type 0 where
  recorded : Status → Outcome
  dropped abandoned lost : Outcome

pub record Settled : Type 0 where
  pub message : QueuedMessage
  pub outcome : Outcome

abbrev pub settle : QueuedMessage → Outcome → List Settled
settle m o = record { message = m; outcome = o } ∷ []

abbrev pub Step : Type 0
Step = Queue × Processor × List Settled

-- What the globals of meshtastic_utils say: `_should_send_message`. `connected` is the answer of
-- the client's `is_connected`, if it has one.
pub data Radio : Type 0 where
  import_error : Radio
  loaded : Bool → Bool → Option (Option Bool) → Radio

unfoldable pub should_send_message : Radio → Bool
should_send_message import_error = false
should_send_message (loaded suspended reconnecting none) = false
should_send_message (loaded suspended reconnecting (some none)) = not suspended && not reconnecting
should_send_message (loaded suspended reconnecting (some (some connected))) =
    not suspended && (not reconnecting && connected)

-- The monotonic clock, and the radio at the first and at the last check of a step.
pub record Env : Type 0 where
  pub now : ℕ
  pub first : Radio
  pub last : Radio

clear_current : Queue → Queue
clear_current q = record q { in_flight = false; has_current = false; current_description = none }

-- `_requeue_message(current_message)`, and the sleep at the head of the loop.
put_back : QueuedMessage → Queue → Step
put_back m q =
    let (q', kept) = requeue m q in
    (
      record q' { has_current = false; current_description = none },
      fresh,
      if kept then [] else settle m dropped,
    )

finish : QueuedMessage → Status → Queue → Step
unfolding clear_current record_sent_history
finish m s q = (clear_current (record_sent_history m s q), fresh, settle m (recorded s))

-- The last check, and the send; without an executor the send raises no connection error.
begin_send : Env → QueuedMessage → Queue → Step
unfolding finish put_back should_send_message
begin_send env m q =
    if should_send_message env.last
    then (if is_some q.executor
        then (record q { in_flight = true }, record { phase = sending; current = some m }, [])
        else finish m error q)
    else put_back m q

abbrev pub effective_delay : Queue → QueuedMessage → ℕ
effective_delay q m = elim m.min_delay [ none ↦ q.message_delay | some d ↦ max q.message_delay d ]

-- From the check of the connection on, with a message in hand.
gate : Env → QueuedMessage → Queue → Step
unfolding begin_send
gate env m q =
    if should_send_message env.first
    then (if ltb 0 q.last_send_mono && ltb (env.now - q.last_send_mono) (effective_delay q m)
        then (
          q,
          record { phase = rate_wait (q.last_send_mono + effective_delay q m); current = some m },
          [],
        )
        else begin_send env m q)
    else (q, record { phase = top; current = some m }, [])

fetch : Env → List QueuedMessage → Queue → Step
unfolding gate
fetch env [] q = (q, fresh, [])
fetch env (m ∷ rest) q =
    gate env m
      (record q { messages = rest; has_current = true; current_description = some m.description })

abbrev mark_done : Option ℕ → (ℕ → Bool) → ℕ → Bool
mark_done none done t = done t
mark_done (some e) done t = t == e || done t

-- The coroutine returns: its task is done.
halt : Queue → Queue × Processor
halt q = (
  record q { task_done = mark_done q.processor_task q.task_done },
  record { phase = halted; current = none },
)

leave : Option QueuedMessage → Queue → Step
unfolding halt
leave none q = ((halt q).0, (halt q).1, [])
leave (some m) q = ((halt q).0, (halt q).1, settle m abandoned)

loop_head : Env → Option QueuedMessage → Queue → Step
unfolding fetch leave
loop_head env none q = if q.running then fetch env q.messages q else leave none q
loop_head env (some m) q = if q.running then gate env m q else leave (some m) q

-- After the rate-limit sleep, which lasts until its time has come.
after_wait : Env → ℕ → Option QueuedMessage → Queue → Step
unfolding begin_send
after_wait env until none q = (q, fresh, [])
after_wait env until (some m) q =
    if ltb env.now until
    then (q, record { phase = rate_wait until; current = some m }, [])
    else if should_send_message env.first
    then begin_send env m q
    else put_back m q

-- A timer of the event loop fires.
unfoldable pub wake : Env → Queue → Processor → Step
unfolding loop_head after_wait
wake env q p = elim p.phase [
  | top ↦ loop_head env p.current q
  | rate_wait until ↦ after_wait env until p.current q
  | _ ↦ (q, p, [])
]

-- What the executor gives back. `text` of an exception is `str(e).lower()`; `is_network` says that
-- it is a ConnectionError, an OSError or a TimeoutError.
pub data SendResult : Type 0 where
  returned_none : SendResult
  returned : Bool → SendResult
  raised : Bool → Text → SendResult

abbrev connection_error_keywords : List Text
connection_error_keywords =
    codes "connection"
    ∷ codes "disconnected"
    ∷ codes "not connected"
    ∷ codes "timeout"
    ∷ codes "refused"
    ∷ codes "reset"
    ∷ codes "broken"
    ∷ codes "closed"
    ∷ codes "unreachable"
    ∷ codes "network"
    ∷ []

-- `keyword in text`
contains : Text → Text → Bool
unfolding starts_with
contains [] keyword = starts_with [] keyword
contains (c ∷ text) keyword = starts_with (c ∷ text) keyword || contains text keyword

any_contained : List Text → Text → Bool
unfolding contains
any_contained [] text = false
any_contained (k ∷ ks) text = contains text k || any_contained ks text

unfoldable pub is_connection_error : Bool → Text → Bool
unfolding any_contained
is_connection_error is_network text = is_network || any_contained connection_error_keywords text

-- `if current_message.mapping_info:` with an id in the result: the mapping is stored, at an await.
after_sent : Bool → QueuedMessage → Queue → Step
unfolding clear_current
after_sent has_id m q = elim m.mapping_info [
  | none ↦ (clear_current q, fresh, settle m (recorded sent))
  | some i ↦
      if has_id
      then (q, record { phase = mapping; current = some m }, [])
      else (clear_current q, fresh, settle m (recorded sent))
]

on_result : ℕ → SendResult → QueuedMessage → Queue → Step
unfolding finish put_back after_sent record_sent_history
on_result now returned_none m q = finish m no_result (record q { last_send_mono = now })
on_result now (returned has_id) m q =
    after_sent has_id m (record_sent_history m sent (record q { last_send_mono = now }))
on_result now (raised is_network text) m q =
    if is_connection_error is_network text
    then put_back m (record q { in_flight = false })
    else finish m error q

-- The executor is done with the message.
unfoldable pub send_ends : ℕ → SendResult → Queue → Processor → Step
unfolding on_result
send_ends now result q p = elim p.phase [
  | sending ↦ elim p.current [ none ↦ (q, p, []) | some m ↦ on_result now result m q ]
  | _ ↦ (q, p, [])
]

-- The mapping is stored.
unfoldable pub mapping_ends : Queue → Processor → Step
unfolding clear_current
mapping_ends q p = elim p.phase [
  | mapping ↦ elim p.current [
    | none ↦ (q, p, [])
    | some m ↦ (clear_current q, fresh, settle m (recorded sent))
  ]
  | _ ↦ (q, p, [])
]

-- `except asyncio.CancelledError`
on_cancel : Option QueuedMessage → Queue → Step
unfolding halt clear_current record_sent_history
on_cancel none q = ((halt (clear_current q)).0, (halt q).1, [])
on_cancel (some m) q = (
  (halt (clear_current (record_sent_history m cancelled q))).0,
  (halt q).1,
  settle m (recorded cancelled),
)

unfoldable pub cancel : Queue → Processor → Step
unfolding on_cancel
cancel q p = elim p.phase [ halted ↦ (q, p, []) | _ ↦ on_cancel p.current q ]
