-- ===== src/Adts/Scan/RunScan.antt =====
-- internal/adts/duration.go: ScanRuns of a file that opens and reads without an error. Its loop finds
-- the same elements as that of scan.
use spectado_stream_recorder.Common.{
  ℕ, zero, suc, ◌+◌, max, Bool, true, false, not, ◌||◌, Option, none, some, List, [], ◌∷◌, leb,
  ◌==◌, if◌then◌else◌, length, drop, Bytes,
}
use spectado_stream_recorder.Adts.Header.{Params, header_params}
use spectado_stream_recorder.Adts.Scan.{
  Float, Chunk, ChunkList, whole_tag, whole_frame, cut_tag, last_junk, skipped, same_params,
  classify, add_frame, done,
}

-- Info of a run, with its part of runSeconds; Params are `none` up to the first frame.
pub record RunInfo (F : Type 0) : Type 0 where
  pub frames : ℕ
  pub seconds : F
  pub junk : ℕ
  pub tags : ℕ
  pub tag_bytes : ℕ
  pub params : Option Params
  pub params_changed : Bool

-- What the loop keeps.
pub record Walk (F : Type 0) : Type 0 where
  pub runs : List (RunInfo F)
  pub cur : ℕ
  pub chunks : ChunkList F
  pub synced : Bool
  pub pos : ℕ

-- The loop of idxFor over the offsets behind the current one.
unfoldable pub advance : ℕ → List ℕ → ℕ → ℕ
advance pos [] cur = cur
advance pos (o ∷ os) cur = let later = advance pos os (cur + 1) in if leb o pos then later else cur

-- idxFor, which keeps the index that it answers.
unfoldable pub idx_for : List ℕ → ℕ → ℕ → ℕ
unfolding advance
idx_for offsets pos cur = advance pos (drop (cur + 1) offsets) cur

module _ {F : Type 0} where
  -- The update of `runs[idx]`.
  unfoldable pub change_run : ℕ → (RunInfo F → RunInfo F) → List (RunInfo F) → List (RunInfo F)
  change_run idx f [] = []
  change_run zero f (r ∷ rs) = f r ∷ rs
  change_run (suc idx) f (r ∷ rs) = r ∷ change_run idx f rs

  abbrev pub add_tag : ℕ → RunInfo F → RunInfo F
  add_tag n r = record r { tags = r.tags + 1; tag_bytes = r.tag_bytes + n }

  abbrev pub add_junk : ℕ → RunInfo F → RunInfo F
  add_junk n r = record r { junk = r.junk + n }

  -- An element of `n` bytes is booked on the run of its first byte.
  unfoldable pub book : List ℕ → (RunInfo F → RunInfo F) → ℕ → Walk F → Walk F
  unfolding idx_for change_run
  book offsets f n w =
      let idx = idx_for offsets w.pos w.cur in
      record w { runs = change_run idx f w.runs; cur = idx; pos = w.pos + n }

module _ {F : Type 0} (float : Float F) where
  unfoldable pub add_run_frame : Params → F → RunInfo F → RunInfo F
  add_run_frame p seconds r = record r {
    frames = r.frames + 1;
    seconds = float.add_seconds r.seconds seconds;
    params = if r.frames == 0 then some p else r.params;
    params_changed = elim r.params [
      | none ↦ r.params_changed
      | some q ↦ r.params_changed || not (same_params p q)
    ];
  }

  abbrev frame_params : Bytes → Params
  frame_params rest = header_params rest

  -- A frame of `n` bytes at the head of the rest.
  unfoldable pub book_frame : List ℕ → Bytes → ℕ → Walk F → Walk F
  unfolding book add_run_frame add_frame
  book_frame offsets rest n w =
      let p = header_params rest in
      let seconds = float.frame_seconds p.blocks p.sample_rate in
      record (book offsets (add_run_frame p seconds) n w) {
        chunks = add_frame float w.pos p seconds w.chunks;
        synced = true;
      }

  -- The loop of ScanRuns; `none` means that the fuel ran out.
  unfoldable pub run_loop : ℕ → List ℕ → Bytes → Walk F → Option (Walk F)
  unfolding book book_frame
  run_loop zero offsets rest w = none
  run_loop (suc fuel) offsets rest w = elim (classify w.synced rest) [
    | whole_tag n ↦
        run_loop fuel offsets (drop n rest)
          (record (book offsets (add_tag n) n w) { synced = false })
    | cut_tag ↦ some (book offsets (add_tag (length rest)) (length rest) w)
    | last_junk ↦ some (book offsets (add_junk (length rest)) (length rest) w)
    | skipped synced ↦
        run_loop fuel offsets (drop 1 rest)
          (record (book offsets (add_junk 1) 1 w) { synced = synced })
    | whole_frame n ↦ run_loop fuel offsets (drop n rest) (book_frame offsets rest n w)
  ]

  abbrev pub empty_run : RunInfo F
  empty_run = record {
    frames = 0;
    seconds = float.zero_seconds;
    junk = 0;
    tags = 0;
    tag_bytes = 0;
    params = none;
    params_changed = false;
  }

  unfoldable pub empty_runs : ℕ → List (RunInfo F)
  empty_runs zero = []
  empty_runs (suc n) = empty_run ∷ empty_runs n

  -- One run for each offset, and one at least.
  abbrev pub first_walk : List ℕ → Walk F
  first_walk offsets = record {
    runs = empty_runs (max 1 (length offsets));
    cur = 0;
    chunks = record { closed = []; open_chunk = none; seconds = float.zero_seconds };
    synced = false;
    pos = 0;
  }

  -- The loop over the runs: the totals, but the duration and what the chunks say.
  pub record Total : Type 0 where
    pub frames : ℕ
    pub junk : ℕ
    pub tags : ℕ
    pub tag_bytes : ℕ
    pub seconds : F
    pub chunks : List Chunk

  unfoldable pub add_run : RunInfo F → Total → Total
  add_run r t = record t {
    frames = t.frames + r.frames;
    junk = t.junk + r.junk;
    tags = t.tags + r.tags;
    tag_bytes = t.tag_bytes + r.tag_bytes;
    seconds = float.add_seconds t.seconds r.seconds;
  }

  unfoldable pub sum_runs : List (RunInfo F) → Total → Total
  unfolding add_run
  sum_runs [] t = t
  sum_runs (r ∷ rs) t = sum_runs rs (add_run r t)

  abbrev pub no_total : List Chunk → Total
  no_total chunks = record {
    frames = 0;
    junk = 0;
    tags = 0;
    tag_bytes = 0;
    seconds = float.zero_seconds;
    chunks = chunks;
  }

  -- ScanRuns; each round but the last takes a byte at least.
  unfoldable pub scan_file_runs : List ℕ → Bytes → Option (List (RunInfo F) × Total)
  unfolding run_loop empty_runs sum_runs
  scan_file_runs offsets file =
      elim (run_loop (suc (length file)) offsets file (first_walk offsets)) [
        | none ↦ none
        | some w ↦ some (w.runs, sum_runs w.runs (no_total (done float w.pos w.chunks)))
      ]
