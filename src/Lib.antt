-- ===== src/Lib.antt =====
-- The core of MMRelay, the Meshtastic-Matrix relay (src/mmrelay).
--
-- The relay takes messages from Matrix rooms, cuts them into payloads that a Meshtastic radio can
-- send, and queues them in front of the radio; packets from the mesh are classified on their way
-- to the rooms and the plugins.
--
-- Shared modules. `Prelude` passes library names on and adds Boolean tests, list lemmas, results
-- and integers. `Text` is Python's `str` as a list of code points with the methods that the
-- program calls. `PyValue` is the type of dynamic values: configuration, events, packets.
--
-- Parts and files.
-- `Fragments` is src/mmrelay/matrix/fragments.py: `split_text_for_meshtastic`,
-- `_split_body_chunks`, `_take_chunk`, `_largest_char_boundary`, `_best_text_cut` and the rest
-- under their names, the settings in Fragments/Config. `str.isspace` and `str.format` are the
-- record `StrOps`. The loop of `_split_body_chunks` runs on fuel, one more than the number of
-- characters; `split_body_chunks-Ends` in Fragments/Loop shows that it is enough. The binary
-- search runs on the length of the text, and `largest_char_boundary-IsBoundary` shows that it ends
-- at the boundary.
-- `MessageQueue` is src/mmrelay/message_queue.py. The record `Queue` has the fields of the class.
-- MessageQueue/Lifecycle has `start`, `stop` (its section under the lock, and the later callbacks
-- and watchdogs as events, the closed event loop among them), `ensure_processor_started` and the
-- failed-stop latch;
-- MessageQueue/Enqueue has `enqueue`, with its waiting rounds, and `_requeue_message`;
-- MessageQueue/Processor is the coroutine `_process_queue` as a machine from one `await` to the
-- next; MessageQueue/Report has `get_status`, `drain` and the history; MessageQueue/System joins
-- queue and processor, and an interleaving is a list of actions: a processor runs for one task, its
-- coroutine is gone when it returns or when its loop is closed with a message in hand, and that of
-- the next task starts anew. MessageQueue/Delivery has the
-- tracking of one message: `_prepare_delivery_tracking`, `_mark_delivery_sent`, `_on_response` and
-- `_timeout`; MessageQueue/Delivery/Receipts is src/mmrelay/matrix/delivery.py. Times are
-- milliseconds of the monotonic clock. The send function, the database and the event loop are not
-- modelled: their answers are arguments of the steps.
-- `PacketRouting` is src/mmrelay/meshtastic/packet_routing.py: `classify_packet` and the settings it
-- reads; the policy it is checked against stands in PacketRouting/Policy. The once-only warnings are
-- left out.
-- `RoomAuthorization` is src/mmrelay/matrix/room_authorization.py: `is_authorized_in_room`,
-- `room_creators` and the cache of creators they share, which is passed through. The homeserver's
-- answer, an exception or a timeout included, is a parameter. RoomAuthorization/FirstOf,
-- RoomAuthorization/Creators and RoomAuthorization/Power say what a room's state entitles to.
-- `NodeIdentity` is src/mmrelay/meshtastic/node_identity.py.
-- `RoomIds` is src/mmrelay/matrix/room_ids.py; the forms of an identifier stand in RoomIds/Grammar.
-- `MessageMap` is the table message_map of src/mmrelay/db_utils.py, as the list of its rows in the
-- order of the rowid, with the calls on it, and `_handle_message_mapping` of message_queue.py, which
-- fills and prunes it. `NodeNames` is the tables of node names: NodeNames/Snapshot has
-- `_collect_node_name_snapshot`, NodeNames/Sync `sync_name_tables_if_changed` and its transactions,
-- NodeNames/Rows their abstract view, row by row. SQLite itself is outside; whether a transaction
-- fails is an argument.
-- `Commands` is src/mmrelay/matrix/command_bridge.py from the candidate bodies of a message on;
-- Commands/Bang has a reference for the pattern of the commands. What `str` and `re` know of
-- characters is the record `Chars`.
-- `Alerts` is src/mmrelay/matrix/alerts.py: `AlertMonitor` with `_update` and `_clear`, and in
-- Alerts/Checks its checks, which take what they read of the runtime as the `Sample` of
-- Alerts/Samples; Alerts/Signals has a machine for each alert as the reference. Python's texts of
-- numbers are the record `Formats`.
-- `RoomMapping` is src/mmrelay/matrix/room_mapping.py: the entries of `matrix_rooms`, and the calls
-- that put a room id in the place of an alias.
-- `Replies` is the text of a reply in src/mmrelay/matrix/replies.py, with the prefixes of
-- src/mmrelay/matrix/prefixes.py; it reads the settings of Fragments/Config. `str.format`,
-- `str.splitlines` and `str` are the record `Strings`. Replies/Interactions has the settings of
-- reactions and replies.
-- `Relaying` is `on_room_message` of src/mmrelay/matrix/events.py with what it calls up to the queue:
-- `handle_matrix_reply` and `send_reply_to_meshtastic` of matrix/replies.py, the detection packets and
-- the interface of matrix/command_bridge.py, `apply_delivery_ack_kwargs` of matrix/delivery.py. An
-- event gives a list of actions. It uses `Fragments`, `Replies`, `MessageMap`, `PacketRouting` and the
-- delivery info of `MessageQueue`; the clocks, the plugins, the display name and the answers of the
-- queue are the record `Facade`. Relaying/Cases and Relaying/SendCases have the rules by which a
-- property of its requests is proved.
-- `RxClock` is what decides whether a packet of the radio is fresh: the state of a connection that
-- src/mmrelay/meshtastic_utils.py keeps, the probes and the skew of meshtastic/health.py, the first
-- part of `on_meshtastic_message` of meshtastic/events.py, and the resets of meshtastic/connection.py;
-- RxClock/Steps has its courses. The clocks are read off the record `Readings`.
--
-- Not modelled: SQLite, the client libraries and the radio, which are outside; what a fresh packet sets
-- off in the rooms, the control rooms and the portals; plugins, login, migration, the command line,
-- and logging.
pub mod Prelude
pub mod Text
pub mod PyValue
pub mod Fragments
pub mod MessageQueue
pub mod PacketRouting
pub mod RoomAuthorization
pub mod NodeIdentity
pub mod RoomIds
pub mod MessageMap
pub mod NodeNames
pub mod Commands
pub mod Alerts
pub mod RoomMapping
pub mod Replies
pub mod Relaying
pub mod RxClock
