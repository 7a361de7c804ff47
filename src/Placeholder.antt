-- ===== src/Placeholder.antt =====
-- src/placeholder: the picture that is published while no sender is there.
pub mod Color
pub mod Gdi
pub mod Renderer
