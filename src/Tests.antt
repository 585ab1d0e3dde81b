-- ===== src/Tests.antt =====
-- Concrete runs of the definitions, and the theorems at inputs that meet their hypotheses.
mod Id3
mod Adts
mod Schedule
mod Recorder
mod Manager
mod Splitter
mod Recovery
mod Polling
mod Scan
mod Uploads
mod Retries
mod Lifecycle
mod Locks
mod Capture
mod Parsing
