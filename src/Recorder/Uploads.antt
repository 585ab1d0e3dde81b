-- ===== src/Recorder/Uploads.antt =====
-- internal/recorder/upload.go and the merge-critical part of objectmeta.go: storing the sessions of
-- a recording in one object of the bucket.
pub mod Manifest
pub mod Group
pub mod Steps
pub mod Once
pub mod Finished
pub mod Buckets
pub mod Measuring
pub mod Placing
pub mod Sound
pub mod Stages
pub mod Safety
pub mod Promises
pub mod RoundTrip
pub mod Sent
pub mod Retries
pub mod Tiling
pub mod RunTable
pub mod Renames
