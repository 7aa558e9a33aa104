-- ===== src/Store/Laws.antt =====
-- What the transactions promise: the parts of the invariant (`OneActive`, `History`, `Feed`), that
-- every run keeps them (`Runs`), and what transactions do on their branches (`Branches`).
pub mod Updates
pub mod Active
pub mod OneActive
pub mod History
pub mod Replay
pub mod Feed
pub mod Runs
pub mod Branches
