-- ===== src/Lib.antt =====
-- A Windows relay that receives frames from a Spout sender, encodes them and publishes them over RTSP.
--
-- A `Supervisor` drives the rest: its main thread runs a state machine and calls one handler per
-- round; beside it a capture thread fills the queue of the frame pump from the Spout monitor, and an
-- encode thread takes frames from the queue, encodes them and sends the packets. The encode thread
-- tells the main thread of an error or a new size by flags only, and hands its last picture over when
-- it ends. While no sender is there the main thread itself publishes a placeholder picture.
--
-- Files, and the code that they follow (paths from the repository's root):
--   Common           src/common/types.hpp, time_utils.hpp and errors.hpp: states, frames, settings,
--                    back-off, clock, codes of errors
--   Common.AtomicFile  src/common/atomic_file.cpp: `write` for the two state files
--   Config           src/config/config_loader.cpp: Json and Loader for `load`, Valid for what it lets through
--   Logging          src/logging/log_sink.cpp: Sink for the events, Json for the text of a line, with a
--                    reader of JSON that is independent of it
--   Metrics          src/metrics/metrics_store.cpp: Store, Report for the two reports, Save
--   Spout            src/spout/spout_monitor.cpp
--   Encoder          src/encoder/encoder_controller.cpp: Init for `init`, Encode for `encode` and `flush`
--   Rtsp             src/rtsp/rtsp_publisher_client.cpp
--   Capture          src/capture/frame_pump.cpp
--   Placeholder      src/placeholder/placeholder_renderer.cpp: Color, Gdi for its calls, Renderer
--   App.StateMachine src/app/state_machine.cpp, with docs/state-machine.md in Diagram
--   App.Logic        src/app/supervisor_logic.hpp
--   App.Supervisor   src/app/supervisor.cpp: State (fields and `init`), EncodeThread, Resources (opening
--                    and tearing down), Handlers (one function per `handle_*`), Run (`run`)
--   App.Program      src/main.cpp
--   App.MetricsWriter  `metrics_writer_thread_func` of src/app/supervisor.cpp: Told for one save's lines
--   App.Supervisor.Ownership  which objects each state holds, by handler, for the loop and for `run`
--   App.Supervisor.Visits, Retries  one attempt to reconnect, and how long the loop goes on with them
--   Base             names shared by all: numbers, lists, runs that may fault
--   Examples         the theorems at concrete inputs
--
-- State is passed explicitly. What FFmpeg, Direct3D, SpoutDX, GDI, the clock and the scheduler answer
-- stands in records of answers that each operation takes, so a theorem holds for all of their
-- behaviours. A pointer to an object of theirs is whether it is held. A call through an empty pointer
-- of the supervisor, a division by zero, an assignment to a joinable `std::thread`, a join of a
-- thread that was not told to stop and an exception that nothing catches are the values of `Fault`; a
-- run is an `Outcome`. A call of the encoder through an empty `d3d_ctx` is recorded in its state. The
-- capture and encode threads take rounds between two rounds of the main loop, and the round that the
-- encode thread is in when it is stopped is an argument of the handler that joins it. Readings of the
-- clock are in microseconds. Floating-point numbers are bit patterns, with their arithmetic as a
-- record of operations.
--
-- Lists of rounds bound the main loop: a theorem on all lists is one on every point of a run. The one
-- loop inside a handler, the wait for the first frame, runs on fuel of ten times `frame_timeout_ms` and
-- three rounds: a round lasts a millisecond at least, the wait is five times that timeout and may start
-- over once.
--
-- The run of the supervisor starts and joins the metrics thread, whose rounds stand beside it: between its
-- saves, and in the middle of one, other threads may do anything to the store, and the log that it is
-- given gets its own lines only.
-- The file system is a function from paths to contents; what it answers to the calls of one write is an
-- argument, and so are exceptions.
--
-- Not modelled: what GDI paints, colour metadata, and the branch of src/common/atomic_file.cpp for POSIX.
-- nlohmann/json is a parameter of Config (the parse) and of Metrics (`dump`, which returns a text: the
-- model has no text that is not well-formed), spdlog gets the lines.
pub mod Base
pub mod Common
pub mod Config
pub mod Logging
pub mod Metrics
pub mod Spout
pub mod Encoder
pub mod Rtsp
pub mod Capture
pub mod Placeholder
pub mod App
pub mod Examples
