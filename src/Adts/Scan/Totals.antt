-- ===== src/Adts/Scan/Totals.antt =====
-- The totals of ScanRuns are what Scan counts.
use mathlib.Core.Path.{subst}
use spectado_stream_recorder.Common.{
  ℕ, zero, suc, ◌+◌, max, ◌≡◌, refl, ap, ◌∙◌, false, Option, none, some, List, [], ◌∷◌, arith,
  length, drop, Bytes,
}
use spectado_stream_recorder.Adts.Header.{header_params}
use spectado_stream_recorder.Adts.Scan.{
  Float, Info, Element, whole_tag, whole_frame, cut_tag, last_junk, skipped, classify, done,
  take_frame, scan_loop, empty_info, scan,
}
use spectado_stream_recorder.Adts.Scan.Partition.{scan-IsScanned}
use spectado_stream_recorder.Adts.Scan.RunScan.{
  RunInfo, Walk, book, add_run_frame, book_frame, run_loop, empty_runs, first_walk, Total, add_run,
  sum_runs, no_total, scan_file_runs,
}
use spectado_stream_recorder.Adts.Scan.Tally.{
  Counts, Agrees, tally, Agrees, book-Counts, Counts-same, add_tag-Agrees, add_junk-Agrees,
}

module _ {F : Type 0} (float : Float F) where
  book_frame-Agrees :
      (offsets : List ℕ) (rest : Bytes) (n : ℕ) (i : Info F) (w : Walk F)
      → Agrees offsets i w
      → Agrees offsets (take_frame float rest n i) (book_frame float offsets rest n w)
  unfolding book_frame take_frame book add_run_frame
  book_frame-Agrees offsets rest n i w a =
      let p = header_params rest in
      let seconds = float.frame_seconds p.blocks p.sample_rate in
      let (k, room, enough) =
        book-Counts offsets (add_run_frame float p seconds) n i w 1 0 0 0 a
          (λ r. (refl, omega arith, omega arith, omega arith)) in
      record {
        counts =
            Counts-same (i.frames + 1) i.junk i.tags i.tag_bytes _ _ _ _ _ refl (omega arith)
              (omega arith) (omega arith) k;
        chunks_agree = rw (a.pos_agree, a.chunks_agree) refl;
        synced_agree = refl;
        pos_agree = ap (λ x. x + n) a.pos_agree;
        room = room;
        enough = enough;
      }

  abbrev BothAgree : List ℕ → Option (Info F) → Option (Walk F) → Type 0
  BothAgree offsets none none = Unit
  BothAgree offsets (some i) (some w) = Agrees offsets i w
  BothAgree offsets none (some w) = ⊥
  BothAgree offsets (some i) none = ⊥

  step-BothAgree :
      (fuel : ℕ) (offsets : List ℕ) (rest : Bytes) (i : Info F) (w : Walk F) (e : Element)
      → classify i.synced rest ≡ e
      → classify w.synced rest ≡ e
      → Agrees offsets i w
      → ((r : Bytes) (j : Info F) (v : Walk F)
          → Agrees offsets j v
          → BothAgree offsets (scan_loop float fuel r j) (run_loop float fuel offsets r v))
      → BothAgree offsets
          (scan_loop float (suc fuel) rest i)
          (run_loop float (suc fuel) offsets rest w)
  unfolding scan_loop run_loop
  step-BothAgree fuel offsets rest i w (whole_tag n) q p a ih =
      rw (q, scan_loop, p, run_loop)
        (ih (drop n rest) _ _ (add_tag-Agrees offsets n false false i w refl a))
  step-BothAgree fuel offsets rest i w cut_tag q p a ih =
      rw (q, scan_loop, p, run_loop)
        (add_tag-Agrees offsets (length rest) i.synced w.synced i w a.synced_agree a)
  step-BothAgree fuel offsets rest i w last_junk q p a ih =
      rw (q, scan_loop, p, run_loop)
        (add_junk-Agrees offsets (length rest) i.synced w.synced i w a.synced_agree a)
  step-BothAgree fuel offsets rest i w (skipped b) q p a ih =
      rw (q, scan_loop, p, run_loop)
        (ih (drop 1 rest) _ _ (add_junk-Agrees offsets 1 b b i w refl a))
  step-BothAgree fuel offsets rest i w (whole_frame n) q p a ih =
      rw (q, scan_loop, p, run_loop) (ih (drop n rest) _ _ (book_frame-Agrees offsets rest n i w a))

  loops-BothAgree :
      (fuel : ℕ) (offsets : List ℕ) (rest : Bytes) (i : Info F) (w : Walk F)
      → Agrees offsets i w
      → BothAgree offsets (scan_loop float fuel rest i) (run_loop float fuel offsets rest w)
  unfolding scan_loop run_loop
  loops-BothAgree zero offsets rest i w a = tt
  loops-BothAgree (suc fuel) offsets rest i w a =
      step-BothAgree fuel offsets rest i w (classify i.synced rest) refl
        (ap (λ b. classify b rest) a.synced_agree) a
        (λ r j v b. loops-BothAgree fuel offsets r j v b)

  length-empty_runs : (n : ℕ) → length (empty_runs float n) ≡ n
  unfolding empty_runs
  length-empty_runs zero = refl
  length-empty_runs (suc n) = ap suc (length-empty_runs n)

  empty_runs-Counts : (n : ℕ) → Counts 0 0 0 0 (empty_runs float n)
  unfolding empty_runs tally
  empty_runs-Counts zero = record {
    frames_count = refl;
    junk_count = refl;
    tags_count = refl;
    bytes_count = refl;
  }
  empty_runs-Counts (suc n) =
      let k = empty_runs-Counts n in
      record {
        frames_count = omega (arith, k.frames_count);
        junk_count = omega (arith, k.junk_count);
        tags_count = omega (arith, k.tags_count);
        bytes_count = omega (arith, k.bytes_count);
      }

  -- The loop over the runs sums their counters up.
  record Sums (t : Total float) (runs : List (RunInfo F)) (u : Total float) : Type 0 where
    frames_sum : u.frames ≡ t.frames + tally (λ r. r.frames) runs
    junk_sum : u.junk ≡ t.junk + tally (λ r. r.junk) runs
    tags_sum : u.tags ≡ t.tags + tally (λ r. r.tags) runs
    bytes_sum : u.tag_bytes ≡ t.tag_bytes + tally (λ r. r.tag_bytes) runs
    chunks_sum : u.chunks ≡ t.chunks

  sum_runs-Sums : (runs : List (RunInfo F)) (t : Total float) → Sums t runs (sum_runs float runs t)
  unfolding sum_runs add_run tally
  sum_runs-Sums [] t = record {
    frames_sum = omega arith;
    junk_sum = omega arith;
    tags_sum = omega arith;
    bytes_sum = omega arith;
    chunks_sum = refl;
  }
  sum_runs-Sums (r ∷ rs) t =
      let k = sum_runs-Sums rs (add_run float r t) in
      record {
        frames_sum = omega (arith, k.frames_sum);
        junk_sum = omega (arith, k.junk_sum);
        tags_sum = omega (arith, k.tags_sum);
        bytes_sum = omega (arith, k.bytes_sum);
        chunks_sum = k.chunks_sum;
      }

  -- What ScanRuns gives in total is what Scan gives.
  pub record SameTotals (i : Info F) (size : ℕ) (t : Total float) : Type 0 where
    pub same_frames : t.frames ≡ i.frames
    pub same_junk : t.junk ≡ i.junk
    pub same_tags : t.tags ≡ i.tags
    pub same_bytes : t.tag_bytes ≡ i.tag_bytes
    pub same_chunks : t.chunks ≡ done float size i.chunks

  -- For any offsets of runs, ScanRuns ends where Scan does, and the frames, the junk, the tags and the
  -- bytes of tags of its runs add up to what Scan counts in the same file; the chunks are Scan's.
  pub scan_file_runs-scan :
      (offsets : List ℕ) (file : Bytes)
      → (i : Info F) × (runs : List (RunInfo F)) × (t : Total float) × (scan float file ≡ some i)
        × (scan_file_runs float offsets file ≡ some (runs, t))
        × SameTotals i (length file) t
  unfolding scan scan_file_runs
  scan_file_runs-scan offsets file =
      let (i, e, scanned) = scan-IsScanned float file in
      let place = scanned.0 in
      let len = length-empty_runs (max 1 (length offsets)) in
      let fuel = suc (length file) in
      let both =
        loops-BothAgree fuel offsets file (empty_info float) (first_walk float offsets) (record {
          counts = empty_runs-Counts (max 1 (length offsets));
          chunks_agree = refl;
          synced_agree = refl;
          pos_agree = refl;
          room = omega (arith, len);
          enough = omega (arith, len);
        }) in
      walked i e place (run_loop float fuel offsets file (first_walk float offsets)) refl (
        subst
          (λ x. BothAgree offsets x (run_loop float fuel offsets file (first_walk float offsets))) e
          both)
    where
      walked :
          (i : Info F)
          → scan float file ≡ some i
          → i.pos ≡ length file
          → (x : Option (Walk F))
          → run_loop float (suc (length file)) offsets file (first_walk float offsets) ≡ x
          → BothAgree offsets (some i) x
          → (i : Info F) × (runs : List (RunInfo F)) × (t : Total float) × (scan float file
              ≡ some i)
            × (scan_file_runs float offsets file ≡ some (runs, t))
            × SameTotals i (length file) t
      walked i e place none q a = elim a [ ]
      walked i e place (some w) q a =
          let t = sum_runs float w.runs (no_total float (done float w.pos w.chunks)) in
          let s = sum_runs-Sums w.runs (no_total float (done float w.pos w.chunks)) in
          let c = a.counts in
          (
            i,
            w.runs,
            t,
            e,
            rw (q, scan_file_runs) refl,
            record {
              same_frames = omega (arith, s.frames_sum, c.frames_count);
              same_junk = omega (arith, s.junk_sum, c.junk_count);
              same_tags = omega (arith, s.tags_sum, c.tags_count);
              same_bytes = omega (arith, s.bytes_sum, c.bytes_count);
              same_chunks = s.chunks_sum ∙ rw (a.chunks_agree, a.pos_agree, place) refl;
            },
          )
