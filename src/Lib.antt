-- ===== src/Lib.antt =====
-- The recorder's verification library.
--
-- The program records live audio streams: a poller fetches a schedule, the manager reconciles it
-- with the running captures once a second, each capture appends ffmpeg's ADTS frames to a file, and
-- a finished capture is remuxed and uploaded. This library models the parts below as functions and
-- proves what makes them correct.
--
-- internal/id3/id3.go: Id3.antt has the tags that old recordings hold (`tag_len` is TagLen,
--   `parse` Parse, `tag` Tag, with the size fields `syncsafe` and `desyncsafe`); Id3/ has the
--   proofs.
-- internal/adts/adts.go: Adts/Header.antt has the header parsers (`parse_header` is
--   parseHeader), Adts/Tail.antt the repair of a file whose last write was cut short (`walk`,
--   `scan_tail` is ScanTail, `trim_partial_tail` TrimPartialTail over the file's contents and
--   the calls that fail). Adts/Tail/Elements.antt says what frames, tags and cut elements are
--   without using walk.
-- internal/adts/duration.go and splitter.go: Adts/Header.antt has the stream parameters
--   (`header_params`) and ParseHeader (`parse_full_header`); Adts/Splitter.antt has the cutting
--   of a stream into frames (`feed` is Feed, `flush` Flush, `process` their loop, one round of
--   which is `round`). What the callbacks are handed is a list of outputs. A round that hands
--   out nothing and goes on is followed by one that takes a byte at least or returns, so twice
--   the bytes and two rounds more are fuel enough.
-- internal/adts/duration.go, Scan: Adts/Scan.antt (`scan`, whose loop `scan_loop` asks
--   `classify` for the element at hand; `add_frame`, `finish` and `done` are the methods of
--   chunkList), with float64 as a parameter. Each round but the last takes a byte at least, so
--   one round more than there are bytes is fuel enough.
-- internal/schedule/schedule.go: Schedule/Document.antt has the items, the look-ups (`get`,
--   `find_invalid`, `present`) and Parse behind the decoding of JSON (`gather` is its loop over
--   the entries, `parse_items` the whole); an entry is what parseItem returned.
--   Schedule/Document/ has the proofs.
-- internal/recorder/session.go: Recorder/Runs.antt has the run history of a session
--   (`append_run` is appendRun, `fix_open_run` fixOpenRun, `add_exit` addExit). The float64 of a
--   duration is a type parameter with its addition.
-- internal/schedule/schedule.go, SafeID: Schedule/Names.antt (`safe_id`), over code points and
--   with the hash as a parameter.
-- internal/recorder/session.go: Recorder/Session.antt has the session and its small methods
--   (`set_key`, `apply_item`, `effective_stop_late`, `is_terminal`).
--   internal/recorder/manager.go: Recorder/Manager.antt has the manager's state, the window of
--   an item, the coverage by finished sessions and the choice of object keys and session ids;
--   Recorder/Reconcile.antt has startSessionLocked (`start_session`) and Reconcile (`reconcile`:
--   `visit_all` is its loop over the active recordings, `consider_all` the one over the items).
--   A Go map is a list whose order stands for the order of a round; the pointer from an active
--   recording to its session is the session's id; the goroutine of stopLocked is an entry of
--   `finalizing`. Which sidecar and file operations fail is an argument. The search for a free
--   session id has one try more than there are sessions, which is proved to be enough.
-- internal/recorder/manager.go: Recorder/Recovery.antt has Recover over the sessions that were
--   read back (`recover`, `migrate_key` is migrateKeyLocked, `open_resumed` openActive on a
--   resumed file, which calls the tail repair of Adts/Tail.antt), Recorder/Retention.antt has
--   retention. What is on disk is an argument of both.
-- internal/recorder/upload.go and the merge-critical part of objectmeta.go:
--   Recorder/Uploads/Manifest.antt has the manifest in an object's metadata
--   (`parse_remote_object`, `object_metadata`), Group.antt there the sessions of one object
--   (`claim_group`, `classify_members`, `rename_group`, `complete_group`), Steps.antt the
--   measuring, the checks and the calls of the storage client, and Once.antt uploadOnce
--   (`upload_once`) and uploadFallback for sessions without video. What ffmpeg, the disk and the
--   storage answer in one attempt is the record `Answers`; Head, Upload, Overwrite and
--   ConditionalWrites of the client return an `Answer`. An attempt keeps, besides the manager's
--   state, the objects it stored and the captures it removed; Promises.antt states what holds of
--   them, and Sound.antt, Stages.antt and Safety.antt prove it from the last stage to the first.
-- internal/recorder/upload.go, uploadLoop: Recorder/Uploads/Retries.antt (`after_attempt` is the
--   body behind uploadOnce, `actions` what a sequence of attempts leads to). The ranges that
--   measure gives to runs: Recorder/Uploads/Tiling.antt.
-- internal/recorder/objectmeta.go, capRunTable: Recorder/Uploads/RunTable.antt. Each round
--   merges two entries at least, so the fuel is the number of entries.
-- internal/recorder/manager.go, finalize, persist and Shutdown, with endRun of ffmpeg.go and
--   enqueueUpload of upload.go: Recorder/Lifecycle.antt. `Step` is one step of the recording
--   side (a round of Reconcile, a poll, a finalize, the persister, Shutdown, the end of an
--   upload's goroutine), `Reachable` what they lead to in any order; the attempts of an upload
--   and retention are no steps; Recorder/Lifecycle/Steps.antt has the invariant.
-- internal/recorder/locks.go: Recorder/Locks.antt (`lock`, `unlock`; `Turn` is one turn at the
--   table, `Turns` any sequence of them).
-- internal/recorder/poller.go and applyScheduleLocked of manager.go: Recorder/Polling.antt
--   (`poll_result` is pollOnce by what Fetch returned, `poll_all` polls one behind the other).
-- internal/recorder/ffmpeg.go, the buffer for ffmpeg's messages: Recorder/Capture/Stderr.antt
--   (`write`, `push_line` for pushLocked, `reset_run`, `parse_level`, and `redact_url`, whose
--   parts stand in Redact.antt); the loop of Write takes a byte a round at least, so as many
--   rounds as there are bytes are enough. Stderr/History.antt has the abstract view, a history
--   of what happened.
-- internal/recorder/ffmpeg.go, supervise: Recorder/Capture/Decide.antt has what a probe decides
--   (`decide_video`, `resolve_codec`, `resolve_video`), Recorder/Capture/Exit.antt the
--   bookkeeping of an exit (`note_exit`) and the wait (`next_backoff`), Blame.antt whose fault
--   the run's end was (`judge_trial`, `attribute`), and Round.antt a round of the loop
--   (`supervise_round`) with the plan of the video output. What ffmpeg did in a run is an
--   argument.
-- internal/schedule/schedule.go, Parse from the text on: Schedule/Decoding.antt
--   (`parse_item_time`, `parse_span`) and Schedule/Parsing.antt (`parse_document`,
--   `parse_item`), with the decoders of the standard library as a parameter.
-- internal/storage/s3.go: Storage.antt (`sanitize_metadata`, `sanitize_value`,
--   `is_permanent_failure` for classify); the loop of sanitizeValue cuts a byte a round at
--   least, and Storage/Metadata.antt proves that the fuel, the bytes of the value, is enough.
-- internal/hls/livelist.go: Hls.antt (`parse_live`, `attr`). A round of attr takes a byte at
--   least, so one round more than the line has bytes is fuel enough; a slice out of range is
--   `none`, like running out of fuel.
-- internal/adts/duration.go, ScanRuns: Adts/Scan/RunScan.antt (`scan_file_runs`; its loop
--   `run_loop` finds elements by the `classify` of Scan), with the fuel of Scan.
-- internal/recorder/manager.go, Recover as a whole: Recorder/Recovery/Queue.antt (`recover_all`,
--   whose `enqueue_all` is the loop that starts the uploads).
-- internal/recorder/objectmeta.go and upload.go through internal/storage/s3.go:
--   Recorder/Uploads/Sent.antt follows the manifest from objectMetadata through SanitizeMetadata
--   to parseRemoteObject.
--
-- Conventions. A byte slice is a list of numbers below 256; `int` and `int64` are natural numbers,
-- and a place where the code subtracts says why it stays above 0. A Go (value, ok) pair is an
-- Option, an error is a value. A loop that is not structural takes fuel, the outer `none` says that
-- it ran out, and a theorem says that it never does; unless a part above says otherwise the fuel is
-- the number of bytes left, since each round consumes one at least.
--
-- Not modelled: the process of ffmpeg with its pipes, arguments and stall watchdog (what a run did is
-- an argument), the building of .m4a and .mp4 files and the video companion of an upload, the calls
-- of the storage client and the schedule fetcher (what they answer is an argument), the HTTP interface,
-- metrics, system monitoring and configuration, which drive processes, files and the network.
-- Decoders and text functions of the standard library are parameters.
pub mod Common
pub mod Id3
pub mod Adts
pub mod Schedule
pub mod Recorder
pub mod Storage
pub mod Hls
mod Tests
