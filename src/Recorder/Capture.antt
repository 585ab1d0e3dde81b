-- ===== src/Recorder/Capture.antt =====
-- internal/recorder/ffmpeg.go: the supervision of the capture process. Redact and Stderr are
-- the buffer for its messages, Decide the choice of codec and video by a probe, Exit and Blame the
-- bookkeeping behind a run of the process, Round the run as a whole.
pub mod Redact
pub mod Stderr
pub mod Decide
pub mod Exit
pub mod Blame
pub mod Round
