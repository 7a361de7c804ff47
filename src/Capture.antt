-- ===== src/Capture.antt =====
-- src/capture: the thread that takes frames from the receiver.
pub mod FramePump
