-- ===== src/Recordings.antt =====
-- src/recordings: the listing, streaming and deletion of recordings over SFTP.
pub mod WindowedRead
pub mod Cache
pub mod Range
pub mod PathSafety
pub mod Remote
pub mod Service
pub mod Pools
pub mod Response
