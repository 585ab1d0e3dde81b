-- ===== src/Adts.antt =====
-- internal/adts: ADTS frame headers (Header), the repair of a file's tail (Tail), the walk over a
-- whole file (Scan) and the cutting of a byte stream into frames (Splitter).
pub mod Header
pub mod Tail
pub mod Splitter
pub mod Scan
