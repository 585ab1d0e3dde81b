-- ===== src/Recorder.antt =====
-- internal/recorder: the sessions of a recording and the manager that keeps them.
pub mod Runs
pub mod Session
pub mod Manager
pub mod Reconcile
pub mod Retention
pub mod Recovery
pub mod Polling
pub mod Lifecycle
pub mod Uploads
pub mod Locks
pub mod Capture
