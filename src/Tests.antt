-- ===== src/Tests.antt =====
-- Runs on small modules of IR, and each theorem at a concrete input.
mod Sample
mod Search
mod Run
mod Passing
mod Texts
mod Parts
