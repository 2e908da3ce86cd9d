-- ===== src/Live.antt =====
-- src/live: the remote control of the cameras.
pub mod Ptz
pub mod Transport
