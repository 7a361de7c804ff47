-- ===== src/Rtsp.antt =====
-- src/rtsp: the RTSP session.
pub mod Client
