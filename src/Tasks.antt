-- ===== src/Tasks.antt =====
-- tasks.py: recoverable task handles.
pub mod Voice
pub mod Types
pub mod Checks
pub mod Resume
pub mod Platform
pub mod Submit
pub mod Pages
pub mod Backfill
pub mod Result
pub mod Setup
pub mod Wait
pub mod Life
