-- ===== src/Context.antt =====
-- What a model call sees of a change (reviewer/context): the diff cut into chunks.

pub mod Diff
pub mod Partition
pub mod Chunks
