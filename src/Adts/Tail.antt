-- ===== src/Adts/Tail.antt =====
-- internal/adts/adts.go: walk, ScanTail and TrimPartialTail.
pub mod Elements
pub mod Walk
pub mod Accepts
pub mod Cut
pub mod Recovery
use spectado_stream_recorder.Common.{
  ℕ, zero, suc, ◌+◌, ◌-◌, ◌*◌, ◌/◌, ◌%◌, ◌^◌, ◌≤◌, ◌<◌, min, max, ◌≡◌, refl, sym, ap, ◌∙◌, ◌≢◌, ◌↔◌,
  ◌⊎◌, inl, inr, Bool, true, false, not, ◌&&◌, ◌||◌, Option, none, some, List, [], ◌∷◌, ◌++◌, map,
  append-nil, append_assoc, arith, ltb, leb, ◌==◌, if◌then◌else◌, ltb→lt, lt→ltb, leb→le, ==_iff,
  Bool-cases, Option-cases, length, get_or, take, drop, All, length-append, take-append-drop,
  length-take, length-drop, take-length-append, drop-length-append, drop-drop, Bytes, at, IsByte,
}
use spectado_stream_recorder.Id3.{tag_len, starts_tag}
use spectado_stream_recorder.Adts.Header.{min_header, is_sync, parse_header, header_prefix_valid}

abbrev pub tail_window : ℕ
tail_window = 256 * 2 ^ 10

abbrev pub min_chain : ℕ
min_chain = 3

-- What walk returns; `none` stands for the partial start -1.
pub record Walked : Type 0 where
  pub complete : ℕ
  pub partial_start : Option ℕ
  pub valid : Bool

-- What walk finds at the head of the rest: the end of the walk, a broken chain, a tag or a frame to
-- pass over.
pub data Found : Type 0 where
  partial broken : Found
  tag frame : ℕ → Found

find_tag : Bytes → Option ℕ → Found
find_tag rest none = broken
find_tag rest (some n) = if ltb (length rest) n then partial else tag n

find_frame : Bytes → Option ℕ → Found
find_frame rest none = broken
find_frame rest (some n) = if ltb (length rest) n then partial else frame n

-- The body of walk's loop, up to the change of `q`.
unfoldable pub find : Bytes → Found
unfolding find_tag find_frame
find rest =
    if leb 3 (length rest) && starts_tag rest
    then (if ltb (length rest) 10 then partial else find_tag rest (tag_len rest))
    else if ltb (length rest) min_header
    then (if not (header_prefix_valid rest) then broken else partial)
    else find_frame rest (parse_header rest)

abbrev broken_chain : Walked
broken_chain = record { complete = 0; partial_start = none; valid = false }

-- The loop `for q < len(tail)`, where `rest` is `tail[q:]`; `none` means that the fuel ran out.
unfoldable pub walk_loop : ℕ → Bytes → ℕ → ℕ → Option Walked
walk_loop fuel [] q complete =
    some (record { complete = complete; partial_start = none; valid = true })
walk_loop zero (b ∷ rest) q complete = none
walk_loop (suc fuel) (b ∷ rest) q complete = elim (find (b ∷ rest)) [
  | partial ↦ some (record { complete = complete; partial_start = some q; valid = true })
  | broken ↦ some broken_chain
  | tag n ↦ walk_loop fuel (drop n (b ∷ rest)) (q + n) complete
  | frame n ↦ walk_loop fuel (drop n (b ∷ rest)) (q + n) (complete + 1)
]

-- Every tag and frame takes a byte at least, so the number of bytes left is fuel enough.
unfoldable pub walk : Bytes → ℕ → Option Walked
walk tail start = walk_loop (length tail) (drop start tail) start 0

-- ScanTail's test of the chain from `p`: where to cut, if the chain is trusted.
unfoldable pub judge : Bool → ℕ → ℕ → ℕ → Walked → Option ℕ
judge whole_file n size p w =
    if not w.valid
    then none
    else if not (leb min_chain w.complete || (whole_file && p == 0 && leb 1 w.complete))
    then none
    else elim w.partial_start [ none ↦ some size | some q ↦ some (size - (n - q)) ]

-- The loop `for p := 0; p+1 < n; p++`, with the rounds left. The outer `none` means that a walk ran
-- out of fuel.
unfoldable pub scan_from : ℕ → Bytes → ℕ → ℕ → Option (ℕ × Bool)
scan_from zero tail size p = some (size, false)
scan_from (suc rounds) tail size p =
    let next = scan_from rounds tail size (p + 1) in
    if not (is_sync (at tail p) (at tail (p + 1))) then next else (elim (walk tail p) [
      | none ↦ none
      | some w ↦ elim (judge (length tail == size) (length tail) size p w) [
        | none ↦ next
        | some cut ↦ some (cut, true)
      ]
    ])

-- ScanTail: where to truncate, and whether a trustworthy chain was found.
unfoldable pub scan_tail : Bytes → ℕ → Option (ℕ × Bool)
scan_tail tail size =
    let n = length tail in
    if ltb size min_header || ltb n min_header || ltb size n
    then some (size, false)
    else scan_from (n - 1) tail size 0

-- The system calls of TrimPartialTail that report an error, a short read included.
pub record TrimFaults : Type 0 where
  pub open_fails : Bool
  pub stat_fails : Bool
  pub read_fails : Bool
  pub close_fails : Bool
  pub truncate_fails : Bool

-- TrimPartialTail's (removed, err), and the file's contents behind it.
pub record Trimmed : Type 0 where
  pub contents : Bytes
  pub removed : ℕ
  pub failed : Bool

abbrev unchanged : Bytes → Bool → Trimmed
unchanged file failed = record { contents = file; removed = 0; failed = failed }

-- TrimPartialTail behind its call of ScanTail.
unfoldable pub trim_at : TrimFaults → Bytes → ℕ × Bool → Trimmed
trim_at io file (cut, found) =
    if not found || leb (length file) cut
    then unchanged file false
    else if io.close_fails || io.truncate_fails
    then unchanged file true
    else record { contents = take cut file; removed = length file - cut; failed = false }

-- How much of the end of a file is read.
unfoldable pub window : ℕ → ℕ
window size = if ltb tail_window size then tail_window else size

-- TrimPartialTail. `file` is what the file holds; `none` means that a walk ran out of fuel.
unfoldable pub trim_partial_tail : TrimFaults → Bytes → Option Trimmed
trim_partial_tail io file =
    let size = length file in
    if io.open_fails || io.stat_fails
    then some (unchanged file true)
    else if ltb size min_header
    then some (unchanged file false)
    else if io.read_fails
    then some (unchanged file true)
    else (elim (scan_tail (drop (size - window size) file) size) [
      | none ↦ none
      | some found ↦ some (trim_at io file found)
    ])
