-- ===== src/Uploads.antt =====
-- app/src/mediaferry/core/uploads and app/src/mediaferry/db/uploads.py: what may be sent, what is
-- done with what was sent, and who owns a record while it is being sent.
pub mod Stacking
pub mod Decisions
pub mod Records
mod Tests
