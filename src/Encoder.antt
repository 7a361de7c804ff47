-- ===== src/Encoder.antt =====
-- src/encoder: H.264 through FFmpeg, on the CPU or straight from the GPU texture.
pub mod Types
pub mod Init
pub mod Encode
