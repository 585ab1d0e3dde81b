-- ===== src/Adts/Scan/Tally.antt =====
-- The counters of the runs, added up, and what booking an element does to them.
use spectado_stream_recorder.Common.{
  ℕ, zero, suc, ◌+◌, ◌≤◌, ◌<◌, ◌≡◌, refl, ap, ◌∙◌, Bool, List, [], ◌∷◌, arith, length, drop,
  length-drop,
}
use spectado_stream_recorder.Adts.Scan.{Info}
use spectado_stream_recorder.Adts.Scan.RunScan.{
  RunInfo, Walk, advance, idx_for, change_run, add_tag, add_junk, book,
}

pub advance-lt :
    (pos : ℕ) (os : List ℕ) (cur n : ℕ) → cur + 1 + length os ≤ n → advance pos os cur < n
unfolding advance
advance-lt pos [] cur n h = omega (arith, h)
advance-lt pos (o ∷ os) cur n h =
    ground (arith, h, advance-lt pos os (cur + 1) n (omega (arith, h)))

pub idx_for-lt :
    (offsets : List ℕ) (pos cur n : ℕ) → cur < n → length offsets ≤ n → idx_for offsets pos cur < n
unfolding idx_for
idx_for-lt offsets pos cur n h k =
    advance-lt pos (drop (cur + 1) offsets) cur n
      (omega (arith, h, k, length-drop (cur + 1) offsets))

module _ {F : Type 0} where
  unfoldable pub tally : (RunInfo F → ℕ) → List (RunInfo F) → ℕ
  tally g [] = 0
  tally g (r ∷ rs) = g r + tally g rs

  pub tally-change_run :
      (g : RunInfo F → ℕ) (f : RunInfo F → RunInfo F) (k : ℕ)
      → ((r : RunInfo F) → g (f r) ≡ g r + k)
      → (idx : ℕ) (rs : List (RunInfo F)) → idx < length rs
      → tally g (change_run idx f rs) ≡ tally g rs + k
  unfolding tally change_run
  tally-change_run g f k h idx [] l = absurd (omega (arith, l))
  tally-change_run g f k h zero (r ∷ rs) l = omega (arith, h r)
  tally-change_run g f k h (suc idx) (r ∷ rs) l =
      omega (arith, tally-change_run g f k h idx rs (omega (arith, l)))

  pub length-change_run :
      (f : RunInfo F → RunInfo F) (idx : ℕ) (rs : List (RunInfo F))
      → length (change_run idx f rs) ≡ length rs
  unfolding change_run
  length-change_run f idx [] = refl
  length-change_run f zero (r ∷ rs) = refl
  length-change_run f (suc idx) (r ∷ rs) = ap suc (length-change_run f idx rs)

  -- The counters of the runs and those of a scan.
  pub record Counts (frames junk tags tag_bytes : ℕ) (runs : List (RunInfo F)) : Type 0 where
    pub frames_count : tally (λ r. r.frames) runs ≡ frames
    pub junk_count : tally (λ r. r.junk) runs ≡ junk
    pub tags_count : tally (λ r. r.tags) runs ≡ tags
    pub bytes_count : tally (λ r. r.tag_bytes) runs ≡ tag_bytes

  -- The walk stands where the scan does.
  pub record Agrees (offsets : List ℕ) (i : Info F) (w : Walk F) : Type 0 where
    pub counts : Counts i.frames i.junk i.tags i.tag_bytes w.runs
    pub chunks_agree : w.chunks ≡ i.chunks
    pub synced_agree : w.synced ≡ i.synced
    pub pos_agree : w.pos ≡ i.pos
    pub room : w.cur < length w.runs
    pub enough : length offsets ≤ length w.runs

  -- To book on a run adds to the counters.
  pub book-Counts :
      (offsets : List ℕ) (f : RunInfo F → RunInfo F) (n : ℕ) (i : Info F) (w : Walk F)
      (frames junk tags tag_bytes : ℕ)
      → Agrees offsets i w
      → ((r : RunInfo F)
          → ((f r).frames ≡ r.frames + frames)
            × ((f r).junk ≡ r.junk + junk)
            × ((f r).tags ≡ r.tags + tags)
            × ((f r).tag_bytes ≡ r.tag_bytes + tag_bytes))
      → let b = book offsets f n w in
        Counts (i.frames + frames) (i.junk + junk) (i.tags + tags) (i.tag_bytes + tag_bytes) b.runs
        × (b.cur < length b.runs)
        × (length offsets ≤ length b.runs)
  unfolding book
  book-Counts offsets f n i w frames junk tags tag_bytes a h =
      let idx = idx_for offsets w.pos w.cur in
      let l = idx_for-lt offsets w.pos w.cur (length w.runs) a.room a.enough in
      let c = a.counts in
      let len = length-change_run f idx w.runs in
      (
        record {
          frames_count =
              tally-change_run (λ r. r.frames) f frames (λ r. (h r).0) idx w.runs l
              ∙ ap (λ x. x + frames) c.frames_count;
          junk_count =
              tally-change_run (λ r. r.junk) f junk (λ r. (h r).1) idx w.runs l
              ∙ ap (λ x. x + junk) c.junk_count;
          tags_count =
              tally-change_run (λ r. r.tags) f tags (λ r. (h r).2) idx w.runs l
              ∙ ap (λ x. x + tags) c.tags_count;
          bytes_count =
              tally-change_run (λ r. r.tag_bytes) f tag_bytes (λ r. (h r).3) idx w.runs l
              ∙ ap (λ x. x + tag_bytes) c.bytes_count;
        },
        omega (arith, l, len),
        omega (arith, a.enough, len),
      )

  -- A sum with nothing added.
  pub Counts-same :
      (frames junk tags tag_bytes a b c d : ℕ) (runs : List (RunInfo F))
      → a ≡ frames
      → b ≡ junk
      → c ≡ tags
      → d ≡ tag_bytes
      → Counts a b c d runs
      → Counts frames junk tags tag_bytes runs
  Counts-same frames junk tags tag_bytes a b c d runs ea eb ec ed k = record {
    frames_count = k.frames_count ∙ ea;
    junk_count = k.junk_count ∙ eb;
    tags_count = k.tags_count ∙ ec;
    bytes_count = k.bytes_count ∙ ed;
  }

  pub add_tag-Agrees :
      (offsets : List ℕ) (n : ℕ) (synced also : Bool) (i : Info F) (w : Walk F)
      → also ≡ synced
      → Agrees offsets i w
      → Agrees offsets
          (record i {
            tags = i.tags + 1;
            tag_bytes = i.tag_bytes + n;
            synced = synced;
            pos = i.pos + n;
          })
          (record (book offsets (add_tag n) n w) { synced = also })
  unfolding book
  add_tag-Agrees offsets n synced also i w e a =
      let (k, room, enough) =
        book-Counts offsets (add_tag n) n i w 0 0 1 n a
          (λ r. (omega arith, omega arith, refl, refl)) in
      record {
        counts =
            Counts-same i.frames i.junk (i.tags + 1) (i.tag_bytes + n) _ _ _ _ _ (omega arith)
              (omega arith) refl refl k;
        chunks_agree = a.chunks_agree;
        synced_agree = e;
        pos_agree = ap (λ x. x + n) a.pos_agree;
        room = room;
        enough = enough;
      }

  pub add_junk-Agrees :
      (offsets : List ℕ) (n : ℕ) (synced also : Bool) (i : Info F) (w : Walk F)
      → also ≡ synced
      → Agrees offsets i w
      → Agrees offsets
          (record i { junk = i.junk + n; synced = synced; pos = i.pos + n })
          (record (book offsets (add_junk n) n w) { synced = also })
  unfolding book
  add_junk-Agrees offsets n synced also i w e a =
      let (k, room, enough) =
        book-Counts offsets (add_junk n) n i w 0 n 0 0 a
          (λ r. (omega arith, refl, omega arith, omega arith)) in
      record {
        counts =
            Counts-same i.frames (i.junk + n) i.tags i.tag_bytes _ _ _ _ _ (omega arith) refl
              (omega arith) (omega arith) k;
        chunks_agree = a.chunks_agree;
        synced_agree = e;
        pos_agree = ap (λ x. x + n) a.pos_agree;
        room = room;
        enough = enough;
      }
