-- ===== src/Tests.antt =====
-- Runs at concrete inputs, and the theorems at inputs that meet their hypotheses.
mod Ascii
mod Validation
mod Parsing
mod Replaying
mod Storing
mod Working
mod Streaming
mod Completing
mod Serving
mod Generating
