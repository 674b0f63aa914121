-- ===== src/Tests.antt =====
-- Small runs of the definitions, and the theorems at concrete inputs.
pub mod Codec
pub mod Wire
pub mod Peers
pub mod Connections
pub mod Slots
pub mod Pieces
pub mod Downloads
pub mod Files
pub mod Trackers
pub mod Torrents
