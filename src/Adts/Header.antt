-- ===== src/Adts/Header.antt =====
-- internal/adts/adts.go, duration.go and splitter.go: the ADTS header. Callers hand over seven
-- bytes at least (one to six for `header_prefix_valid`), so no read is out of range.
pub mod Prefix
use Prim.Native.Nat.{bit_and, bit_or}
use spectado_stream_recorder.Common.{
  ℕ, zero, suc, ◌+◌, ◌-◌, ◌*◌, ◌/◌, ◌%◌, ◌^◌, ◌≤◌, ◌<◌, min, max, ◌≡◌, refl, sym, ap, ◌∙◌, ◌≢◌, ◌↔◌,
  ◌⊎◌, inl, inr, Bool, true, false, not, ◌&&◌, ◌||◌, Option, none, some, List, [], ◌∷◌, ◌++◌, map,
  append-nil, append_assoc, arith, ltb, leb, ◌==◌, if◌then◌else◌, ltb→lt, lt→ltb, leb→le, ==_iff,
  Bool-cases, Option-cases, length, get_or, take, drop, All, length-append, take-append-drop,
  length-take, length-drop, take-length-append, drop-length-append, drop-drop, Bytes, at, IsByte,
}

abbrev pub min_header : ℕ
min_header = 7

abbrev pub crc_header : ℕ
crc_header = 9

abbrev pub max_sampling_index : ℕ
max_sampling_index = 12

-- The 12-bit sync word and layer 00.
unfoldable pub is_sync : ℕ → ℕ → Bool
is_sync b0 b1 = b0 == 0xff && bit_and b1 0xf6 == 0xf0

-- The header's size, by protection_absent.
unfoldable pub header_len : ℕ → ℕ
header_len b1 = if bit_and b1 0x01 == 0 then crc_header else min_header

-- The 13 bits of frame_length, from bytes 3 to 5.
unfoldable pub frame_length : Bytes → ℕ
frame_length b = bit_or (bit_or (bit_and (at b 3) 0x03 * 2 ^ 11) (at b 4 * 2 ^ 3)) (at b 5 / 2 ^ 5)

unfoldable pub sampling_index : Bytes → ℕ
sampling_index b = bit_and (at b 2 / 2 ^ 2) 0x0f

-- parseHeader: `some n` is (n, true), `none` is (0, false).
unfoldable pub parse_header : Bytes → Option ℕ
unfolding is_sync
parse_header b =
    if not (is_sync (at b 0) (at b 1))
    then none
    else if ltb max_sampling_index (sampling_index b)
    then none
    else if ltb (frame_length b) (header_len (at b 1))
    then none
    else some (frame_length b)

-- headerPrefixValid: only the fields that are present are checked.
unfoldable pub header_prefix_valid : Bytes → Bool
header_prefix_valid b =
    if length b == 0 || not (at b 0 == 0xff)
    then false
    else if leb 2 (length b) && not (bit_and (at b 1) 0xf6 == 0xf0)
    then false
    else if leb 3 (length b) && ltb max_sampling_index (sampling_index b)
    then false
    else if leb 6 (length b) && ltb (frame_length b) (header_len (at b 1))
    then false
    else true

-- sampleRates, in Hz; the indexes 13 to 15 are rejected by `parse_header`.
abbrev pub sample_rates : List ℕ
sample_rates =
    96000 ∷ 88200 ∷ 64000 ∷ 48000 ∷ 44100 ∷ 32000 ∷ 24000 ∷ 22050 ∷ 16000 ∷ 12000 ∷ 11025 ∷ 8000
    ∷ 7350 ∷ []

pub record Params : Type 0 where
  pub profile : ℕ
  pub sample_rate_index : ℕ
  pub sample_rate : ℕ
  pub channel_config : ℕ
  pub blocks : ℕ

-- headerParams, of a header that `parse_header` accepts.
unfoldable pub header_params : Bytes → Params
header_params b = record {
  profile = at b 2 / 2 ^ 6;
  sample_rate_index = sampling_index b;
  sample_rate = get_or sample_rates (sampling_index b) 0;
  channel_config = bit_or (bit_and (at b 2) 0x01 * 2 ^ 2) (at b 3 / 2 ^ 6);
  blocks = bit_and (at b 6) 0x03 + 1;
}

-- Params.Channels.
unfoldable pub channels : Params → ℕ
channels p =
    if p.channel_config == 0 then 0 else if leb p.channel_config 6 then p.channel_config else 8

pub record Header : Type 0 where
  pub params : Params
  pub length : ℕ

-- ParseHeader. Header's fields but `Length` are those of `Params`.
unfoldable pub parse_full_header : Bytes → Option Header
unfolding parse_header
parse_full_header b = if ltb (length b) min_header then none else elim (parse_header b) [
  | none ↦ none
  | some n ↦ some (record { params = header_params b; length = n })
]
