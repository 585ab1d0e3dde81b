-- ===== src/Schedule.antt =====
-- internal/schedule: schedule items, the checks of a document, and names for files.
pub mod Document
pub mod Names
pub mod Decoding
pub mod Parsing
