-- ===== src/Adts/Scan/Partition.antt =====
-- Scan ends, walks the whole file, and its chunks partition it.
use mathlib.Core.Path.{subst}
use spectado_stream_recorder.Common.{
  ℕ, zero, suc, ◌+◌, ◌≤◌, ◌<◌, ◌≡◌, refl, sym, ap, ◌∙◌, ◌⊎◌, inl, inr, false, Option, none, some,
  List, [], ◌∷◌, ◌++◌, arith, Bool-cases, length, drop, length-drop, length-append, Bytes,
}
use spectado_stream_recorder.Adts.Header.{Params, header_params}
use spectado_stream_recorder.Adts.Scan.Within.{Within, classify-Within}
use spectado_stream_recorder.Adts.Scan.{
  Float, Chunk, Info, Element, whole_tag, whole_frame, cut_tag, last_junk, skipped, same_params,
  classify, finish, add_frame, done, take_frame, scan_loop, empty_info, scan,
}

-- Chunks one behind the other, from one offset to another.
abbrev pub Contiguous : ℕ → ℕ → List Chunk → Type 0
Contiguous from to [] = from ≡ to
Contiguous from to (c ∷ cs) = (c.offset ≡ from) × Contiguous (from + c.length) to cs

abbrev ChunksAt : ℕ → List Chunk → Option Chunk → Type 0
ChunksAt pos closed none = closed ≡ []
ChunksAt pos closed (some c) = Contiguous 0 c.offset closed × (c.offset ≤ pos)

Contiguous-concat :
    (from mid : ℕ) (cs : List Chunk) (c : Chunk)
    → Contiguous from mid cs
    → c.offset ≡ mid
    → Contiguous from (mid + c.length) (cs ++ (c ∷ []))
Contiguous-concat from mid [] c h e = (e ∙ sym h, ap (λ x. x + c.length) h)
Contiguous-concat from mid (d ∷ cs) c (e, h) f =
    (e, Contiguous-concat (from + d.length) mid cs c h f)

module _ {F : Type 0} (float : Float F) where
  -- The open chunk, finished at an offset behind its own.
  finish-Contiguous :
      (end : ℕ) (seconds : F) (cs : List Chunk) (c : Chunk)
      → Contiguous 0 c.offset cs
      → c.offset ≤ end
      → Contiguous 0 end (cs ++ (finish float end seconds c ∷ []))
  unfolding finish
  finish-Contiguous end seconds cs c h l =
      subst (λ x. Contiguous 0 x (cs ++ (finish float end seconds c ∷ []))) (omega (arith, l))
        (Contiguous-concat 0 c.offset cs (finish float end seconds c) h refl)

  add_frame-ChunksAt :
      (pos n : ℕ) (p : Params) (seconds : F) (closed : List Chunk) (o : Option Chunk) (secs : F)
      → ChunksAt pos closed o
      → let cl =
          add_frame float pos p seconds
            (record { closed = closed; open_chunk = o; seconds = secs }) in
        ChunksAt (pos + n) cl.closed cl.open_chunk
  unfolding add_frame
  add_frame-ChunksAt pos n p seconds closed none secs h =
      (subst (Contiguous 0 0) (sym h) refl, omega arith)
  add_frame-ChunksAt pos n p seconds closed (some c) secs (h, l) =
      elim (Bool-cases (same_params p c.params)) [
        | inl same ↦ rw (same, add_frame) (h, omega (arith, l))
        | inr other ↦ rw (other, add_frame) (finish-Contiguous pos secs closed c h l, omega arith)
      ]

  -- A chunk is open as soon as a frame was seen.
  abbrev Opened : ℕ → Option Chunk → Type 0
  Opened frames none = frames ≡ 0
  Opened frames (some c) = 0 < frames

  -- The state of the loop in front of the rest of a file of `size` bytes.
  record At (size : ℕ) (rest : Bytes) (i : Info F) : Type 0 where
    place : i.pos + length rest ≡ size
    counted : i.junk + i.tag_bytes ≤ i.pos
    chunked : ChunksAt i.pos i.chunks.closed i.chunks.open_chunk
    opened : Opened i.frames i.chunks.open_chunk

  add_frame-Opened :
      (pos frames : ℕ) (p : Params) (seconds : F) (closed : List Chunk) (o : Option Chunk)
      (secs : F)
      → Opened
          (frames + 1)
          (add_frame float pos p seconds
            (record { closed = closed; open_chunk = o; seconds = secs })).open_chunk
  unfolding add_frame
  add_frame-Opened pos frames p seconds closed none secs = omega arith
  add_frame-Opened pos frames p seconds closed (some c) secs =
      elim (Bool-cases (same_params p c.params)) [
        | inl e ↦ rw e (omega arith)
        | inr e ↦ rw e (omega arith)
      ]

  abbrev pub IsScanned : ℕ → Info F → Type 0
  IsScanned size i =
      (i.pos ≡ size)
      × (i.junk + i.tag_bytes ≤ size)
      × (((i.frames ≡ 0) × (done float size i.chunks ≡ []))
          ⊎ ((0 < i.frames)
              × (0 < length (done float size i.chunks))
              × Contiguous 0 size (done float size i.chunks)))

  -- The loop's end at the file's end.
  scanned :
      (size : ℕ) (i : Info F)
      → i.pos ≡ size
      → i.junk + i.tag_bytes ≤ i.pos
      → ChunksAt i.pos i.chunks.closed i.chunks.open_chunk
      → Opened i.frames i.chunks.open_chunk
      → IsScanned size i
  unfolding done
  scanned size i e c k f = (e, omega (arith, e, c), chunks_done i.chunks.open_chunk k f refl)
    where
      chunks_done :
          (o : Option Chunk)
          → ChunksAt i.pos i.chunks.closed o
          → Opened i.frames o
          → i.chunks.open_chunk ≡ o
          → ((i.frames ≡ 0) × (done float size i.chunks ≡ []))
            ⊎ ((0 < i.frames)
                × (0 < length (done float size i.chunks))
                × Contiguous 0 size (done float size i.chunks))
      chunks_done none h f q = inl (f, rw (q, done) refl)
      chunks_done (some c) (h, l) f q =
          let last = finish float size i.chunks.seconds c in
          inr (
            f,
            rw (q, done) (omega (arith, length-append i.chunks.closed (last ∷ []))),
            rw (q, done)
                (finish-Contiguous size i.chunks.seconds i.chunks.closed c h (omega (arith, l, e))),
          )

  weaken :
      (pos n : ℕ) (closed : List Chunk) (o : Option Chunk)
      → ChunksAt pos closed o
      → ChunksAt (pos + n) closed o
  weaken pos n closed none h = h
  weaken pos n closed (some c) (h, l) = (h, omega (arith, l))

  abbrev scan_act : ℕ → Bytes → Info F → Element → Option (Info F)
  scan_act fuel rest i (whole_tag n) =
      scan_loop float fuel (drop n rest) (record i {
        tags = i.tags + 1;
        tag_bytes = i.tag_bytes + n;
        synced = false;
        pos = i.pos + n;
      })
  scan_act fuel rest i cut_tag = some (record i {
    tags = i.tags + 1;
    tag_bytes = i.tag_bytes + length rest;
    pos = i.pos + length rest;
  })
  scan_act fuel rest i last_junk =
      some (record i { junk = i.junk + length rest; pos = i.pos + length rest })
  scan_act fuel rest i (skipped synced) =
      scan_loop float fuel (drop 1 rest)
        (record i { junk = i.junk + 1; synced = synced; pos = i.pos + 1 })
  scan_act fuel rest i (whole_frame n) =
      scan_loop float fuel (drop n rest) (take_frame float rest n i)

  scan_loop_step :
      (fuel : ℕ) (rest : Bytes) (i : Info F) (e : Element)
      → classify i.synced rest ≡ e
      → scan_loop float (suc fuel) rest i ≡ scan_act fuel rest i e
  unfolding scan_loop
  scan_loop_step fuel rest i (whole_tag n) q = rw (q, scan_loop) refl
  scan_loop_step fuel rest i (whole_frame n) q = rw (q, scan_loop) refl
  scan_loop_step fuel rest i cut_tag q = rw (q, scan_loop) refl
  scan_loop_step fuel rest i last_junk q = rw (q, scan_loop) refl
  scan_loop_step fuel rest i (skipped b) q = rw (q, scan_loop) refl

  abbrev Ends : ℕ → Option (Info F) → Type 0
  Ends size o = (j : Info F) × (o ≡ some j) × IsScanned size j

  scan_act-Ends :
      (fuel size : ℕ) (rest : Bytes) (i : Info F) (e : Element)
      → Within rest e
      → length rest < suc fuel
      → At size rest i
      → ((r : Bytes) (j : Info F)
          → length r < fuel
          → At size r j
          → Ends size (scan_loop float fuel r j))
      → Ends size (scan_act fuel rest i e)
  unfolding take_frame
  scan_act-Ends fuel size rest i (whole_tag n) (pos, le) l ok ih =
      ih (drop n rest) _ (omega (arith, l, pos, le, length-drop n rest)) (record {
        place = omega (arith, ok.place, le, length-drop n rest);
        counted = omega (arith, ok.counted);
        chunked = weaken i.pos n i.chunks.closed i.chunks.open_chunk ok.chunked;
        opened = ok.opened;
      })
  scan_act-Ends fuel size rest i (whole_frame n) (pos, le) l ok ih =
      let p = header_params rest in
      ih (drop n rest) (take_frame float rest n i) (omega (arith, l, pos, le, length-drop n rest))
        (record {
          place = omega (arith, ok.place, le, length-drop n rest);
          counted = omega (arith, ok.counted);
          chunked =
              add_frame-ChunksAt i.pos n p (float.frame_seconds p.blocks p.sample_rate)
                i.chunks.closed i.chunks.open_chunk i.chunks.seconds ok.chunked;
          opened =
              add_frame-Opened i.pos i.frames p (float.frame_seconds p.blocks p.sample_rate)
                i.chunks.closed i.chunks.open_chunk i.chunks.seconds;
        })
  scan_act-Ends fuel size rest i cut_tag w l ok ih =
      let j : Info F = record i {
        tags = i.tags + 1;
        tag_bytes = i.tag_bytes + length rest;
        pos = i.pos + length rest;
      } in
      (
        j,
        refl,
        scanned size j ok.place (omega (arith, ok.counted))
            (weaken i.pos (length rest) i.chunks.closed i.chunks.open_chunk ok.chunked) ok.opened,
      )
  scan_act-Ends fuel size rest i last_junk w l ok ih =
      let j : Info F = record i { junk = i.junk + length rest; pos = i.pos + length rest } in
      (
        j,
        refl,
        scanned size j ok.place (omega (arith, ok.counted))
            (weaken i.pos (length rest) i.chunks.closed i.chunks.open_chunk ok.chunked) ok.opened,
      )
  scan_act-Ends fuel size rest i (skipped b) w l ok ih =
      ih (drop 1 rest) _ (omega (arith, l, w, length-drop 1 rest)) (record {
        place = omega (arith, ok.place, w, length-drop 1 rest);
        counted = omega (arith, ok.counted);
        chunked = weaken i.pos 1 i.chunks.closed i.chunks.open_chunk ok.chunked;
        opened = ok.opened;
      })

  scan_loop-IsScanned :
      (fuel : ℕ) (rest : Bytes) (i : Info F) (size : ℕ)
      → length rest < fuel
      → At size rest i
      → Ends size (scan_loop float fuel rest i)
  scan_loop-IsScanned zero rest i size l ok = absurd (omega arith)
  scan_loop-IsScanned (suc fuel) rest i size l ok =
      subst (Ends size) (sym (scan_loop_step fuel rest i (classify i.synced rest) refl)) (
        scan_act-Ends fuel size rest i (classify i.synced rest) (classify-Within i.synced rest) l ok
          (λ r j k a. scan_loop-IsScanned fuel r j size k a))

  -- Scan of a file that reads without an error ends: it has walked the whole file, the bytes of junk
  -- and of tags are not more than the file has, and if it saw a frame, there are chunks and they partition
  -- the file: the first begins at 0, each begins where the one before it ends, and the last ends with
  -- the file. Without a frame there is no chunk.
  pub scan-IsScanned :
      (file : Bytes) → (i : Info F) × (scan float file ≡ some i) × IsScanned (length file) i
  unfolding scan
  scan-IsScanned file =
      scan_loop-IsScanned (suc (length file)) file (empty_info float) (length file) (omega arith)
        (record { place = omega arith; counted = omega arith; chunked = refl; opened = refl })
