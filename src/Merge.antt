-- ===== src/Merge.antt =====
-- app/src/mediaferry/core/merge: finding the parts of one recording, what a merge keeps of them, and
-- whether its result is what it should be; and app/src/mediaferry/db/merges.py, the groups of parts.
pub mod Grouping
pub mod Streams
pub mod Checks
pub mod Verify
pub mod Groups
mod Tests
