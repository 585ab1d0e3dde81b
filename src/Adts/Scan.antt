-- ===== src/Adts/Scan.antt =====
-- internal/adts/duration.go: Scan of a file that opens and reads without an error. `F` is float64,
-- with its zero, its addition, the seconds of a frame by its blocks and rate, and the conversion to
-- a duration.
pub mod Within
pub mod Partition
pub mod RunScan
pub mod Tally
pub mod Totals
use spectado_stream_recorder.Common.{
  ℕ, zero, suc, ◌+◌, ◌-◌, ◌*◌, ◌/◌, ◌%◌, ◌^◌, ◌≤◌, ◌<◌, min, max, ◌≡◌, refl, sym, ap, ◌∙◌, ◌≢◌, ◌↔◌,
  ◌⊎◌, inl, inr, Bool, true, false, not, ◌&&◌, ◌||◌, Option, none, some, List, [], ◌∷◌, ◌++◌, map,
  append-nil, append_assoc, arith, ltb, leb, ◌==◌, if◌then◌else◌, ltb→lt, lt→ltb, leb→le, ==_iff,
  Bool-cases, Option-cases, length, get_or, take, drop, All, length-append, take-append-drop,
  length-take, length-drop, take-length-append, drop-length-append, drop-drop, All-map, All-concat,
  Apart, Apart-concat, Bytes, at, IsByte,
}
use spectado_stream_recorder.Id3.{tag_len, starts_tag}
use spectado_stream_recorder.Adts.Header.{min_header, parse_header, Params, header_params}

pub record Float (F : Type 0) : Type 0 where
  pub zero_seconds : F
  pub add_seconds : F → F → F
  pub frame_seconds : ℕ → ℕ → F
  pub to_duration : F → ℕ

pub record Chunk : Type 0 where
  pub offset : ℕ
  pub length : ℕ
  pub params : Params
  pub frames : ℕ
  pub duration : ℕ

-- chunkList: the last chunk is the open one.
pub record ChunkList (F : Type 0) : Type 0 where
  pub closed : List Chunk
  pub open_chunk : Option Chunk
  pub seconds : F

-- Info as it is built, with what the loop keeps besides.
pub record Info (F : Type 0) : Type 0 where
  pub frames : ℕ
  pub total_seconds : F
  pub junk : ℕ
  pub tags : ℕ
  pub tag_bytes : ℕ
  pub chunks : ChunkList F
  pub synced : Bool
  pub pos : ℕ

-- What the loop finds at the head of the rest: a tag, also one that the file's end cuts, a frame, a
-- byte to skip (with `synced` behind it), or junk up to the end.
pub data Element : Type 0 where
  whole_tag whole_frame : ℕ → Element
  cut_tag last_junk : Element
  skipped : Bool → Element

unfoldable pub same_params : Params → Params → Bool
same_params p q =
    p.profile == q.profile
    && p.sample_rate_index == q.sample_rate_index
    && p.sample_rate == q.sample_rate
    && p.channel_config == q.channel_config
    && p.blocks == q.blocks

-- A header was found: the frame, if it is trusted.
unfoldable pub classify_frame : Bool → Bytes → ℕ → Element
classify_frame synced rest n =
    if ltb (length rest) n
    then last_junk
    else if synced
    then whole_frame n
    else if ltb (length rest) (n + min_header)
    then (if length rest == n then whole_frame n else skipped synced)
    else (elim (parse_header (drop n rest)) [ none ↦ skipped synced | some k ↦ whole_frame n ])

unfoldable pub classify_bytes : Bool → Bytes → Element
unfolding classify_frame
classify_bytes synced rest =
    if ltb (length rest) min_header
    then last_junk
    else (elim (parse_header rest) [ none ↦ skipped false | some n ↦ classify_frame synced rest n ])

unfoldable pub classify : Bool → Bytes → Element
unfolding classify_bytes
classify synced rest =
    if leb 10 (length rest) && starts_tag rest
    then (elim (tag_len rest) [
      | none ↦ classify_bytes synced rest
      | some n ↦ if ltb (length rest) n then cut_tag else whole_tag n
    ])
    else classify_bytes synced rest

module _ {F : Type 0} (float : Float F) where
  -- chunkList.finish on the open chunk.
  unfoldable pub finish : ℕ → F → Chunk → Chunk
  finish end seconds c = record c { length = end - c.offset; duration = float.to_duration seconds }

  abbrev pub first_of : ℕ → Params → Chunk
  first_of offset p = record { offset = offset; length = 0; params = p; frames = 1; duration = 0 }

  -- chunkList.frame
  unfoldable pub add_frame : ℕ → Params → F → ChunkList F → ChunkList F
  unfolding finish
  add_frame offset p seconds cl = elim cl.open_chunk [
    | none ↦ record cl {
      open_chunk = some (first_of 0 p);
      seconds = float.add_seconds cl.seconds seconds;
    }
    | some c ↦
        if same_params p c.params
        then record cl {
          open_chunk = some (record c { frames = c.frames + 1 });
          seconds = float.add_seconds cl.seconds seconds;
        }
        else record cl {
          closed = cl.closed ++ (finish offset cl.seconds c ∷ []);
          open_chunk = some (first_of offset p);
          seconds = float.add_seconds float.zero_seconds seconds;
        }
  ]

  -- chunkList.done
  unfoldable pub done : ℕ → ChunkList F → List Chunk
  unfolding finish
  done end cl = elim cl.open_chunk [
    | none ↦ []
    | some c ↦ cl.closed ++ (finish end cl.seconds c ∷ [])
  ]

  -- A frame of `n` bytes at the head of the rest.
  unfoldable pub take_frame : Bytes → ℕ → Info F → Info F
  unfolding add_frame
  take_frame rest n i =
      let p = header_params rest in
      let seconds = float.frame_seconds p.blocks p.sample_rate in
      record i {
        frames = i.frames + 1;
        total_seconds = float.add_seconds i.total_seconds seconds;
        chunks = add_frame i.pos p seconds i.chunks;
        synced = true;
        pos = i.pos + n;
      }

  -- The loop of scan; `none` means that the fuel ran out.
  unfoldable pub scan_loop : ℕ → Bytes → Info F → Option (Info F)
  scan_loop zero rest i = none
  scan_loop (suc fuel) rest i = elim (classify i.synced rest) [
    | whole_tag n ↦ scan_loop fuel (drop n rest) (record i {
      tags = i.tags + 1;
      tag_bytes = i.tag_bytes + n;
      synced = false;
      pos = i.pos + n;
    })
    | cut_tag ↦ some (record i {
      tags = i.tags + 1;
      tag_bytes = i.tag_bytes + length rest;
      pos = i.pos + length rest;
    })
    | last_junk ↦ some (record i { junk = i.junk + length rest; pos = i.pos + length rest })
    | skipped synced ↦
        scan_loop fuel (drop 1 rest)
          (record i { junk = i.junk + 1; synced = synced; pos = i.pos + 1 })
    | whole_frame n ↦ scan_loop fuel (drop n rest) (take_frame rest n i)
  ]

  abbrev pub empty_info : Info F
  empty_info = record {
    frames = 0;
    total_seconds = float.zero_seconds;
    junk = 0;
    tags = 0;
    tag_bytes = 0;
    chunks = record { closed = []; open_chunk = none; seconds = float.zero_seconds };
    synced = false;
    pos = 0;
  }

  -- scan; each round but the last takes a byte at least.
  unfoldable pub scan : Bytes → Option (Info F)
  unfolding scan_loop take_frame
  scan file = scan_loop (suc (length file)) file empty_info
