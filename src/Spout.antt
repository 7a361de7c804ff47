-- ===== src/Spout.antt =====
-- src/spout: the receiver of the shared texture.
pub mod Monitor
