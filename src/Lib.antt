-- ===== src/Lib.antt =====
-- The protocol between enzarb's servers and clients: binary frames, credit-based flow control, CTRL
-- messages, and the multiplexed session over one websocket (proto/crates/enzarb-proto); the guard of the
-- proxy between a browser and a sandbox (sandbox-proxy); and the workflows that its task service runs
-- (ez/crates/ez-workflow).
--
-- The parts, and the files that model them:
--
-- Base: lists, results, text as the list of its bytes, hash maps as association lists. `Base.Dict`
-- stands for `HashMap` and `HashSet`; the order in which a map is walked is the order of the list.
-- Numbers are natural; where the code wraps around, the model has `% 2 ^ 32` or `% 2 ^ 64`.
--
-- Frame: proto/crates/enzarb-proto/src/frame.rs. `Frame.Types` has the types and limits, `Frame.Codec`
-- the functions: `parse_header`, `Frame::to_bytes`, `Frame::from_bytes`, `Frame::decode` (the stream
-- decoder, which returns its result and the buffer that is left), `Frame::validate`,
-- `Frame::window_credit` and `Frame::close_info`. The rest of the directory is about them.
--
-- Flow: proto/crates/enzarb-proto/src/flow.rs. A `FlowControl` is one endpoint's account; a method is a
-- function from the old account to the new one or an error. `Flow.Link` puts a sender and a
-- receiver together with the frames and the grants on the way between them, and lets them do any step
-- in any order; it is the transport that keeps the order and loses nothing.
--
-- Ctrl: ctrl.rs, step.rs and lib.rs beside it. `Ctrl.Types` and `Ctrl.Step` have the messages,
-- `Ctrl.Direction` the table of who may send which, `Ctrl.Features` what the handshake agrees on.
-- `Ctrl.Json.Serde` stands for serde_json, which writes a message as bytes and reads it back; JSON
-- values and floating-point numbers are its types.
--
-- Session: session/error.rs, session/channel.rs, session/core.rs and session/handshake.rs beside it. `Session.Channel` is
-- the state of one channel under its lock. Each operation returns its value, the new state and its
-- effects, in order: frames that it queues, tasks that it wakes, and its removal from the session's
-- table. `Session.Channel.Halves` has one poll of each half of a channel handle. `Session.Core.State`
-- has the session: its tables, the heap of its channels by address (so that a channel that several
-- tables know is one channel), the queue to the websocket, the events, what each oneshot sender was
-- given and which of their receivers are gone. `Session.Core.Outbound` has what it sends and how it ends, `Session.Core.Inbound` the frames
-- that arrive, `Session.Core.Server` and `Session.Core.Client` the two sides, and `Session.Core.Loops` the
-- dispatch of messages and one round of the read loop and of the write loop.
--
-- `Session.Handshake` is session/handshake.rs. A `Websocket` is the list of what it gives next, the answers to
-- the sends to come, and what was sent; `next_frame` skips pings along that list. `Session.Handshake.Agree`
-- puts the two sides together, each reading what the other sent, and `Session.Handshake.First` is about the first
-- frame, and `Session.Handshake.Outcome` has what a server may end in.
--
-- Proxy: sandbox-proxy/src/guard.rs. `Proxy.Guard` has the guard of one browser socket with its methods, over the
-- frames and messages of Frame and Ctrl. `Proxy.Guard.Safety` is about what it lets through, `Proxy.Guard.Slot` about
-- the one chat of a socket, over lists of calls in any order.
--
-- Workflow: ez/crates/ez-workflow/src. `Workflow.Json` stands for serde_json's `Value`, `Workflow.Schema` is
-- schema.rs, `Workflow.Event` event.rs, and `Workflow.Engine` the part of expr.rs around MiniJinja, whose
-- environment is the record `Engine`. `Workflow.Run` has the state of a run with the methods that start, enter and
-- end it, `Workflow.Run.Steps` what a node renders to and `advance`, all of run.rs; a method that changes the run
-- takes its state and returns the next one. `Workflow.Report`, `Workflow.Modes`, `Workflow.Glob` and `Workflow.Validate` are
-- validate.rs; a check only pushes to the report that it is given, so here it is the list of what it pushes.
-- `Workflow.DryRun` is dry_run.rs. A validated file meets its runs in `Workflow.Run.Validated`. Maps keyed by
-- strings are lists of entries (`Base.Strings`), in the order of the file where the code keeps it.
--
-- Examples: the theorems at concrete inputs.
--
-- Bounds: `State::alloc` tries 1024 ids, as the code does. The loop of `ChannelSender::send` runs
-- on as many rounds as there are bytes to send, and each round that goes on sends at least one.
-- The decimal printer runs on the number itself.
-- The two searches of `check_reachability` have one more turn than the workflow has nodes, since each turn but
-- the last finds a node; the loop of `trace` has one more turn than the limit of steps, since each turn but the last
-- pushes a step. A duration is its nanoseconds.
--
-- Not modelled: the model is sequential, so each function runs to its end with the locks that it
-- takes; interleavings are sequences of such functions. An async function is its polls.
-- The websocket library, timers (the timeouts of a handshake among them) and the texts of errors that
-- other libraries make are left out, and so are the other programs of the repository. Of ez-workflow,
-- the set-up of MiniJinja and the reading and writing of TOML are left out; humantime and toml are parameters.
pub mod Base
pub mod Frame
pub mod Flow
pub mod Ctrl
pub mod Session
pub mod Workflow
pub mod Proxy
pub mod Examples
