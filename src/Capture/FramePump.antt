-- ===== src/Capture/FramePump.antt =====
-- src/capture/frame_pump.cpp. The capture thread is the function of one round of its loop; the mutex
-- makes each access of the queue one step. The queue's head is its oldest frame.
pub mod Queue
use spout_relay.Base.{
  ℕ, Bool, true, false, not, leb, List, [], ◌∷◌, ◌++◌, Option, none, some, ℤ, pos, if◌then◌else◌,
  length, tail,
}
use spout_relay.Common.Types.{FrameBuffer, FrameMeta, empty_buffer, empty_meta}
use spout_relay.Common.Time.{to_ms}
use spout_relay.Spout.Monitor.{SpoutMonitor, Reception, receive_latest_frame}

abbrev pub max_queue_size : ℕ
max_queue_size = 4

abbrev pub Frame : Type 0
Frame = FrameBuffer × FrameMeta

-- `buf` and `info` are the local variables of the capture thread, which lives while `running`.
pub record FramePump : Type 0 where
  pub poll_interval_ms : ℤ
  pub running : Bool
  pub last_frame_time_ms : ℕ
  pub last_source_alive_ms : ℕ
  pub queue : List Frame
  pub buf : FrameBuffer
  pub info : FrameMeta

abbrev pub new_pump : FramePump
new_pump = record {
  poll_interval_ms = pos 50;
  running = false;
  last_frame_time_ms = 0;
  last_source_alive_ms = 0;
  queue = [];
  buf = empty_buffer;
  info = empty_meta;
}

unfoldable pub stop : FramePump → FramePump
stop p = if not p.running then p else (record p { running = false; queue = [] })

-- `now` is the clock when the liveness time is set.
unfoldable pub start : ℕ → ℤ → FramePump → FramePump
unfolding stop
start now poll_interval_ms p =
    let p' = if p.running then stop p else p in
    record p' {
      poll_interval_ms = poll_interval_ms;
      last_source_alive_ms = to_ms now;
      running = true;
      buf = empty_buffer;
      info = empty_meta;
    }

-- What is left of a buffer whose contents were moved out.
abbrev pub moved : FrameBuffer → FrameBuffer
moved b = record b { pixels = [] }

unfoldable pub enqueue : Frame → List Frame → List Frame
enqueue f queue = (if leb max_queue_size (length queue) then tail queue else queue) ++ f ∷ []

-- One round of `capture_thread_func`; the two readings are those behind the two time stamps.
unfoldable pub capture : Reception → ℕ → ℕ → FramePump → SpoutMonitor → FramePump × SpoutMonitor
unfolding enqueue
capture a now_alive now_frame p m =
    if not p.running
    then (p, m)
    else let r = receive_latest_frame a p.buf p.info false m in
      let seen = record p { buf = r.buf; info = r.info } in
      if not r.ok
      then (seen, r.monitor)
      else if not r.is_new
      then (record seen { last_source_alive_ms = to_ms now_alive }, r.monitor)
      else (
        record seen {
          last_source_alive_ms = to_ms now_alive;
          last_frame_time_ms = to_ms now_frame;
          queue = enqueue (r.buf, r.info) p.queue;
          buf = moved r.buf;
        },
        r.monitor,
      )

unfoldable pub pop_front : List Frame → FramePump → Option Frame × FramePump
pop_front [] p = (none, p)
pop_front (f ∷ rest) p = (some f, record p { queue = rest })

unfoldable pub try_pop : FramePump → Option Frame × FramePump
unfolding pop_front
try_pop p = pop_front p.queue p

-- `wait_pop` when its wait is over, by a frame, by `stop()` or by the timeout. The rounds of the
-- capture thread in the meantime stand before the call.
unfoldable pub wait_pop : FramePump → Option Frame × FramePump
unfolding pop_front
wait_pop p = pop_front p.queue p
