-- ===== src/Publish.antt =====
-- What the reviewer writes on a merge request (reviewer/publish): the markers that identify its
-- comments, the publication of a report, the recheck of what was published, and the commands of users.
pub mod Markers
pub mod Posting
pub mod Recheck
pub mod Summary
pub mod Commands
