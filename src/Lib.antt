-- ===== src/Lib.antt =====
-- Lingow is a system for spoken interpretation and voice assistance. Its realtime service
-- (services/realtime-audio) segments incoming audio into Turns, runs each Turn in the business mode
-- that was active when it opened, and lets clients switch the mode; its API service (services/api)
-- keeps what lasts. This library models the core of that realtime service and the API's projection of
-- its modes.
--
-- The parts and how they interact:
--
-- * Contract (packages/contracts/realtime/v1): the types of mode commands, mode states and
--   mode-changed events, and the validation of an event.
-- * Segmenter (services/realtime-audio/vad/segmenter.go): cuts audio frames into utterances.
-- * Turn (services/realtime-audio/pipeline/turn.go): numbers a Turn and captures the language
--   configuration and the mode that it runs in.
-- * Coordinator (services/realtime-audio/runtime/mode.go): owns the mode of one runtime. `switch` is
--   `Switch`, `commit_pending` is `commitPending`, `remember` is `rememberOperation`, `commit_turn` is
--   `commitTurn`. A Turn captures the coordinator's state by `turn_mode`, and passes `commit_turn` on its
--   way out.
-- * Playback (services/realtime-audio/playback/service.go): one synthesized playback. `deliver` is
--   `Publish` and `settle` (Playback/Settle.antt) is `settle`, both from the playback's own lock on;
--   `run` (Playback/Calls.antt) makes a sequence of such calls, and `log` lists what the
--   track and the event sink have done. Playback/Service.antt has the service's table of playbacks and
--   its reservations: `try_reserve` is one round of `WaitForAvailable`, `claim` is `Publish` up to the
--   playback's own lock.
-- * Lifecycle (services/realtime-audio/session): the runtime snapshot of each session, and its
--   pipeline and connection. `start_runtime` is `Start`, `stop_runtime` is `Stop`,
--   `set_processing_state` and `set_runtime_failed` are the pipeline's reports; `run`
--   (Lifecycle/Runs.antt) makes a sequence of such calls, each with the answers of the ports and the
--   store that it meets. Lifecycle/Locks.antt is `keyedLocker` as a step relation, which is what
--   makes each of these calls one step for its session.
-- * Stabilizer (services/realtime-audio/pipeline/phrase_stabilizer.go): cuts the replaceable
--   snapshots of one utterance's recognition into subtitle phrases. Stabilizer/Scan.antt has what it
--   asks of a text; `observe`, `advance` and `flush` are its methods, and `run`
--   (Stabilizer/Runs.antt) makes a sequence of such calls. The recursion of `consumePunctuation` is on
--   fuel, one round more than the length of its text.
-- * Gate (services/realtime-audio/command, with packages/contracts/realtime/v1/command.go): takes the
--   audio that follows a wake word away from the ordinary input and makes one command of it.
--   Gate/Capture.antt has `Consume` and `Replay`, which drive a segmenter of their own,
--   Gate/Recognition.antt the worker that recognizes, interprets and executes, Gate/Registry.antt
--   registry.go, Gate/Terminal.antt how an attempt ends, and Gate/Calls.antt `Open`, `Cancel` and the
--   timers' `expire`; `run` makes a sequence of calls, in which a worker's steps come anywhere. What
--   the gate does outside goes on a log with its attempt.
-- * Projection (services/api/internal/modeprojection): the API's copy of the modes. `project` is
--   `MemoryRepository.Project`, `process_once` is `ProcessOnce` where the stream settles what it is told
--   to, `consume` is `Run` on the messages received. It reads the events that a coordinator's sink
--   acknowledged.
-- * Cursor (services/api/recordstore/cursor.go): the signed positions in the API's record lists.
--   `encode` and `decode` are `Encode` and `Decode`; Cursor/Base64.antt has the encoding of bytes.
-- * Languages (services/api/languages): the versions of a session's language configuration.
--   Languages/Validate.antt is validate.go, Languages/Memory.antt is `MemoryStore`, and `create_config`
--   is `createConfig` of service.go, with what other calls do to the store in the middle of it.
-- * Device (sdks/device/state.go): what a device shows of its session. `apply_connection`,
--   `apply_runtime` and `apply_mode` are the methods of `StateStore`, which share `apply`; `run`
--   (Device/Display.antt) takes a sequence of observations. Device/Reconnect.antt is `Run` of
--   reconnect.go, its loop on fuel for the attempts up to the one that the policy refuses.
--
-- Methods that hold a mutex for their whole run are single steps on an explicit state. What they ask of
-- their surroundings (contexts, clocks, sinks, classifiers, readers) is an argument of the step. A Go
-- int64 is the number below 2 ^ 64 with its bits, so that increments wrap as in Go; a time is the number
-- of nanoseconds since Go's zero time. Strings are texts, or the lists of
-- their codes where the code walks them, maps keyed by strings are functions into
-- options. The other loops run over lists.
--
-- SHA-256, HMAC, JSON, the hash of an event's JSON, `unicode.ToLower`, `fmt.Sprintf` and, on whole
-- texts, `strings.TrimSpace` are parameters. Not modelled are the providers, the WebRTC transport,
-- HTTP, SQL and the clients, which are input and output around this core, and for now the other
-- components of the two services.
pub mod Gate
pub mod Device
pub mod Languages
pub mod Cursor
pub mod Stabilizer
pub mod Lifecycle
pub mod Playback
pub mod Common
pub mod Contract
pub mod Coordinator
pub mod Turn
pub mod Segmenter
pub mod Projection
