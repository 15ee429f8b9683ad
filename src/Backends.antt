-- ===== src/Backends.antt =====
-- src/loreline/stt/backends: what the connectors do on their own, between a socket and a stream.
pub mod Assembly
pub mod Blocks
