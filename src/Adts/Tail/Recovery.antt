-- ===== src/Adts/Tail/Recovery.antt =====
-- TrimPartialTail: what it may change, and what it restores behind a write that was cut short.
use spectado_stream_recorder.Common.{
  ℕ, suc, ◌+◌, ◌-◌, ◌≤◌, ◌<◌, ◌≡◌, refl, sym, ap, ◌∙◌, ◌≢◌, inl, inr, Bool, true, false, not, ◌||◌,
  Option, none, some, [], ◌∷◌, ◌++◌, append-nil, append_assoc, arith, ltb, leb, ◌==◌, Bool-cases,
  Option-cases, length, drop, length-append, take-append-drop, length-drop, take-length-append,
  Bytes, at,
}
use spectado_stream_recorder.Adts.Header.{is_sync, min_header}
use spectado_stream_recorder.Adts.Header.Prefix.{
  at-append, parse_header_facts, parse_header-is_sync, parse_header-append,
  header_prefix_valid-prefix,
}
use spectado_stream_recorder.Adts.Tail.{
  tail_window, walk, judge, scan_from, scan_tail, TrimFaults, Trimmed, trim_at, window,
  trim_partial_tail,
}
use spectado_stream_recorder.Adts.Tail.Elements.{
  IsFrame, Frames, with_frame, IsCut, frame_header, in_frame,
}
use spectado_stream_recorder.Adts.Tail.Walk.{Ends}
use spectado_stream_recorder.Adts.Tail.Accepts.{walk_loop-Frames}
use spectado_stream_recorder.Adts.Tail.Cut.{scan_tail-ne-none, scan_tail_bounds}

-- Whatever the file holds and whichever call fails: the bytes removed are the file's last ones, as
-- many as reported and at most `tail_window`, and none on an error.
pub record TrimContract (file : Bytes) (t : Trimmed) : Type 0 where
  pub rest : Bytes
  pub splits : t.contents ++ rest ≡ file
  pub reported : length rest ≡ t.removed
  pub within_window : t.removed ≤ tail_window
  pub error_keeps : t.failed ≡ true → t.contents ≡ file

unchanged_contract :
    (file : Bytes) (failed : Bool)
    → TrimContract file (record { contents = file; removed = 0; failed = failed })
unchanged_contract file failed = record {
  rest = [];
  splits = append-nil file;
  reported = refl;
  within_window = omega arith;
  error_keeps = λ _. refl;
}

trim_at-TrimContract :
    (io : TrimFaults) (file : Bytes) (cut : ℕ) (found : Bool)
    → length file ≤ cut + tail_window
    → cut ≤ length file
    → TrimContract file (trim_at io file (cut, found))
unfolding trim_at
trim_at-TrimContract io file cut found h l =
    elim (Bool-cases (not found || leb (length file) cut)) [
      | inl keep ↦ rw keep (unchanged_contract file false)
      | inr go ↦ rw go (elim (Bool-cases (io.close_fails || io.truncate_fails)) [
        | inl fails ↦ rw fails (unchanged_contract file true)
        | inr fine ↦ rw fine (record {
          rest = drop cut file;
          splits = take-append-drop cut file;
          reported = omega (arith, length-drop cut file);
          within_window = omega arith;
          error_keeps = λ e. cc;
        })
      ])
    ]

tail_read : (file : Bytes) → length (drop (length file - window (length file)) file) ≤ tail_window
unfolding window
tail_read file = ground (arith, length-drop (length file - window (length file)) file)

-- TrimPartialTail ends on every file, and keeps to its contract whatever the file holds.
pub trim_contract :
    (io : TrimFaults) (file : Bytes)
    → (t : Trimmed) × (trim_partial_tail io file ≡ some t) × TrimContract file t
unfolding trim_partial_tail
trim_contract io file = elim (Bool-cases (io.open_fails || io.stat_fails)) [
  | inl e ↦ (_, ground (arith, e), unchanged_contract file true)
  | inr opened ↦ elim (Bool-cases (ltb (length file) min_header)) [
    | inl small ↦ (_, ground (arith, opened, small), unchanged_contract file false)
    | inr large ↦ elim (Bool-cases io.read_fails) [
      | inl e ↦ (_, ground (arith, opened, large, e), unchanged_contract file true)
      | inr read ↦
          elim (Option-cases
            (scan_tail (drop (length file - window (length file)) file) (length file))) [
              | inl e ↦ absurd (scan_tail-ne-none _ _ e)
              | inr ((cut, found), e) ↦
                  let (lo, hi, _) = scan_tail_bounds _ _ e in
                  (
                    trim_at io file (cut, found),
                    ground (arith, opened, large, read, e),
                    trim_at-TrimContract io file cut found (omega (arith, lo, tail_read file)) hi,
                  )
            ]
    ]
  ]
]

-- A frame that was written only in part is a cut element.
prefix-IsCut : (b missing : Bytes) → IsFrame (b ++ missing) → b ≢ [] → missing ≢ [] → IsCut b
prefix-IsCut [] missing f ne me = absurd (ne refl)
prefix-IsCut b [] f ne me = absurd (me refl)
prefix-IsCut (x ∷ b) (y ∷ missing) (l, f) ne me =
    elim (Bool-cases (ltb (length (x ∷ b)) min_header)) [
      | inl short ↦
          frame_header (header_prefix_valid-prefix (x ∷ b) (y ∷ missing) f (omega arith))
            (ground arith) (ground (arith, parse_header_facts _ f))
      | inr long ↦
          in_frame (ground arith)
            (sym (parse_header-append (x ∷ b) (y ∷ missing) (ground arith)) ∙ f)
            (omega (arith, length-append (x ∷ b) (y ∷ missing)))
    ]

judge-recording :
    (size complete at_end : ℕ) (cut : Bytes) (p : Option ℕ)
    → 1 ≤ complete
    → size ≡ at_end + length cut
    → Ends cut at_end p
    → judge true size size 0 (record { complete = complete; partial_start = p; valid = true })
      ≡ some at_end
unfolding judge
judge-recording size complete at_end cut none h e nothing = ground (arith, ap length nothing)
judge-recording size complete at_end cut (some q) h e (i, same) = ground (arith, same)

-- ScanTail on a whole file that begins with a frame: the cut is where the whole elements end.
scan_tail-recording :
    (f whole cut : Bytes) (k : ℕ) (p : Option ℕ)
    → IsFrame f
    → Frames whole k
    → Ends cut (length (f ++ whole)) p
    → scan_tail ((f ++ whole) ++ cut) (length ((f ++ whole) ++ cut))
      ≡ some (length (f ++ whole), true)
unfolding scan_tail scan_from walk
scan_tail-recording f whole cut k p v fs e =
    let s = (f ++ whole) ++ cut in
    let n = length s in
    let size : n ≡ length (f ++ whole) + length cut = length-append (f ++ whole) cut in
    let at_least : 7 ≤ n = omega (arith, size, length-append f whole, v.0) in
    let rounds : n - 1 ≡ suc (n - 2) = omega arith in
    let split : s ≡ f ++ (whole ++ cut) = append_assoc f whole cut in
    let sync : is_sync (at s 0) (at s 1) ≡ true =
      rw
        (
          split,
          at-append f (whole ++ cut) 0 (omega (arith, v.0)),
          at-append f (whole ++ cut) 1 (omega (arith, v.0)),
        )
        (parse_header-is_sync f v.1) in
    let whole_file : (n == n) ≡ true = ground arith in
    let zeros : 0 + length (f ++ whole) ≡ length (f ++ whole) = omega arith in
    let walked =
      walk_loop-Frames n cut 0 0 p (with_frame f v fs) (rw zeros e) (omega (arith, size)) in
    let judged = judge-recording n (0 + suc k) (length (f ++ whole)) cut p (omega arith) size e in
    ground (arith, rounds, sync, whole_file, walked, judged)

-- A run in which every system call succeeds.
abbrev pub no_faults : TrimFaults
no_faults = record {
  open_fails = false;
  stat_fails = false;
  read_fails = false;
  close_fails = false;
  truncate_fails = false;
}

-- A file that fits the window, by what ScanTail says of it.
trim_partial_tail-scan_tail :
    (file : Bytes) (cut : ℕ)
    → min_header ≤ length file
    → length file ≤ tail_window
    → scan_tail file (length file) ≡ some (cut, true)
    → trim_partial_tail no_faults file ≡ some (trim_at no_faults file (cut, true))
unfolding trim_partial_tail window
trim_partial_tail-scan_tail file cut l h e =
    let whole : length file - length file ≡ 0 = omega arith in ground (arith, whole, e)

-- A write that was cut short is undone: where a file holds whole frames and tags, the first of them
-- a frame, and behind them the first bytes of a frame whose other bytes are missing, and fits the
-- window, TrimPartialTail removes exactly those bytes.
pub trim_partial_tail-interrupted :
    (f whole part missing : Bytes) (k : ℕ)
    → IsFrame f
    → Frames whole k
    → IsFrame (part ++ missing)
    → part ≢ []
    → missing ≢ []
    → length ((f ++ whole) ++ part) ≤ tail_window
    → trim_partial_tail no_faults ((f ++ whole) ++ part)
      ≡ some (record { contents = f ++ whole; removed = length part; failed = false })
unfolding trim_at
trim_partial_tail-interrupted f whole part missing k v fs w ne me h =
    let s = (f ++ whole) ++ part in
    let size = length-append (f ++ whole) part in
    let i = prefix-IsCut part missing w ne me in
    let scanned = scan_tail-recording f whole part k (some (length (f ++ whole))) v fs (i, refl) in
    let long : 0 < length part = nonempty part ne in
    trim_partial_tail-scan_tail s _ (omega (arith, size, length-append f whole, v.0)) h scanned
    ∙ ground (arith, size, long, take-length-append (f ++ whole) part)
  where
    nonempty : (b : Bytes) → b ≢ [] → 0 < length b
    nonempty [] n = absurd (n refl)
    nonempty (x ∷ b) n = omega arith

-- A file of whole frames and tags, the first of them a frame, that fits the window is left alone.
pub trim_partial_tail-clean :
    (f whole : Bytes) (k : ℕ)
    → IsFrame f
    → Frames whole k
    → length (f ++ whole) ≤ tail_window
    → trim_partial_tail no_faults (f ++ whole)
      ≡ some (record { contents = f ++ whole; removed = 0; failed = false })
unfolding trim_at
trim_partial_tail-clean f whole k v fs h =
    let scanned =
      rw (append-nil (f ++ whole)) at (scan_tail-recording f whole [] k none v fs refl) in
    trim_partial_tail-scan_tail (f ++ whole) _ (omega (arith, length-append f whole, v.0)) h scanned
    ∙ ground arith
