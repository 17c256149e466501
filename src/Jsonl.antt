-- ===== src/Jsonl.antt =====
-- crates/triggerlane-storage/src/lib.rs: `JsonlStore`, one JSON record on each line of a file.
pub mod Text
pub mod Serde
pub mod Read
pub mod Disk
pub mod Store
pub mod Durability
