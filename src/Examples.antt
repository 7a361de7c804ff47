-- ===== src/Examples.antt =====
-- Concrete inputs, and the theorems at them.
mod Inputs
mod Components
mod Running
mod Settings
mod Dump
mod Log
mod Files
