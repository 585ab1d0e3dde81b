-- ===== src/Recorder/Capture/Decide.antt =====
-- internal/recorder/ffmpeg.go: what a probe of the source decides. `fold` is the case folding of
-- strings.EqualFold, `trim_space` is strings.TrimSpace, `read_rate` is what strconv.ParseInt returns
-- beside its error, `print` prints a number.
pub mod Highest
use spectado_stream_recorder.Common.{
  ℕ, zero, suc, ◌+◌, ◌-◌, ◌*◌, ◌/◌, ◌%◌, ◌^◌, ◌≤◌, ◌<◌, min, max, ◌≡◌, refl, sym, ap, ◌∙◌, ◌≢◌, ◌↔◌,
  ◌⊎◌, inl, inr, Bool, true, false, not, ◌&&◌, ◌||◌, Option, none, some, List, [], ◌∷◌, ◌++◌, map,
  append-nil, append_assoc, arith, ltb, leb, ◌==◌, if◌then◌else◌, ltb→lt, lt→ltb, leb→le, ==_iff,
  Bool-cases, Option-cases, if_both, if_cases, option_both, nat_both, length, get_or, take, drop,
  All, length-append, take-append-drop, length-take, length-drop, take-length-append,
  drop-length-append, drop-drop, All-map, All-concat, Apart, Apart-concat, Bytes, at, IsByte,
}
use spectado_stream_recorder.Common.Text.{Text, text_eq, to_lower, contains, is_empty, codes}
use spectado_stream_recorder.Recorder.Session.{Session}

-- probeStream
pub record Stream : Type 0 where
  pub index : ℕ
  pub codec_type : Text
  pub codec_name : Text
  pub profile : Text
  -- isVideo
  pub attached_pic : Bool

pub record Program : Type 0 where
  pub program_id : ℕ
  -- the tag variant_bitrate, empty where there is none
  pub variant_bitrate : Text
  pub streams : List Stream

-- probeResult
pub record Probe : Type 0 where
  pub streams : List Stream
  pub programs : List Program

-- What is decided on video: the source ("none", "copy" or "x264") and the two maps.
pub record Choice : Type 0 where
  pub source : Text
  pub vmap : Text
  pub amap : Text

-- isVideo
unfoldable pub is_video : Stream → Bool
is_video s = text_eq s.codec_type (codes "video") && not s.attached_pic

abbrev pub is_audio : Stream → Bool
is_audio s = text_eq s.codec_type (codes "audio")

unfoldable pub first_stream : (Stream → Bool) → List Stream → Option Stream
first_stream test [] = none
first_stream test (s ∷ ss) = let later = first_stream test ss in if test s then some s else later

-- firstAudio
abbrev pub first_audio : Probe → Option Stream
first_audio r = first_stream is_audio r.streams

-- probeResult.stream
abbrev pub stream_at : Probe → ℕ → Option Stream
stream_at r index = first_stream (λ s. s.index == index) r.streams

-- copyableProfile
unfoldable pub copyable_profile : Text → Bool
copyable_profile profile =
    let p = to_lower profile in not (contains p (codes "xhe")) && not (contains p (codes "usac"))

-- The program whose video leads so far, with its first video stream and its rate.
pub record Best : Type 0 where
  pub program : Program
  pub stream : Stream
  pub rate : ℕ

pub record Contest : Type 0 where
  pub with_video : ℕ
  pub best : Option Best

abbrev pub leading : Program → Stream → ℕ → Best
leading p st r = record { program = p; stream = st; rate = r }

-- Only a higher rate takes the lead; a rate below 0 never does.
unfoldable pub challenge : Program → Stream → Option ℕ → Option Best → Option Best
challenge p st none best = best
challenge p st (some r) none = some (leading p st r)
challenge p st (some r) (some b) = if ltb b.rate r then some (leading p st r) else some b

-- What the standard library does here; a rate below 0 is `none`.
pub record Reading : Type 0 where
  pub same_fold : Text → Text → Bool
  pub trim_space : Text → Text
  pub read_rate : Text → Option ℕ
  pub print : ℕ → Text

module _ (o : Reading) where
  -- sameAudioFormat
  unfoldable pub same_audio_format : Stream → Stream → Bool
  same_audio_format a first =
      is_audio a
      && o.same_fold a.codec_name first.codec_name
      && o.same_fold (o.trim_space a.profile) (o.trim_space first.profile)
      && copyable_profile a.profile

  -- The loop over the programs.
  unfoldable pub gather_programs : List Program → Contest → Contest
  gather_programs [] g = g
  gather_programs (p ∷ ps) g = elim (first_stream is_video p.streams) [
    | none ↦ gather_programs ps g
    | some st ↦ gather_programs ps (record {
      with_video = g.with_video + 1;
      best = challenge p st (o.read_rate (o.trim_space p.variant_bitrate)) g.best;
    })
  ]

  unfoldable pub program_map : Program → Text → Text
  program_map p kind = codes "0:p:" ++ (o.print p.program_id ++ kind)

  -- The leading program's own audio, if it can stand for the first.
  unfoldable pub own_audio : Probe → Program → Text
  own_audio r p = elim (first_audio r) [
    | none ↦ []
    | some first ↦ elim (first_stream is_audio p.streams) [
      | none ↦ []
      | some st ↦ if st.index == first.index then [] else elim (stream_at r st.index) [
        | none ↦ []
        | some va ↦ if same_audio_format va first then program_map p (codes ":a:0") else []
      ]
    ]
  ]

  unfoldable pub choose : Stream → Text → Text → Choice
  choose video vmap amap =
      let name = to_lower video.codec_name in
      record {
        source =
            if text_eq name (codes "h264") || text_eq name (codes "hevc")
            then codes "copy"
            else codes "x264";
        vmap = vmap;
        amap = amap;
      }

  unfoldable pub choose_single : Probe → Choice
  unfolding choose
  choose_single r = elim (first_stream is_video r.streams) [
    | none ↦ record { source = codes "none"; vmap = []; amap = [] }
    | some video ↦ choose video (codes "0:v:0") []
  ]

  unfoldable pub choose_best : Probe → Best → Choice
  unfolding choose program_map own_audio
  choose_best r b =
      choose (elim (stream_at r b.stream.index) [ none ↦ b.stream | some st ↦ st ])
        (program_map b.program (codes ":v:0")) (own_audio r b.program)

  abbrev pub gathered : Probe → Contest
  gathered r = gather_programs r.programs (record { with_video = 0; best = none })

  -- decideVideo; `none` is the panic at `r.Programs[-1]`.
  unfoldable pub decide_video : Probe → Option Choice
  unfolding gather_programs choose_single choose_best
  decide_video r =
      if leb 2 (gathered r).with_video
      then (elim (gathered r).best [ none ↦ none | some b ↦ some (choose_best r b) ])
      else some (choose_single r)

-- What the codec of a source asks for: the codec of the run, and whether it is kept.
unfoldable pub codec_of_probe : Option (Text × Text) → Text × Bool
codec_of_probe none = (codes "aac", false)
codec_of_probe (some (codec, profile)) =
    if text_eq codec (codes "aac") && copyable_profile profile
    then (codes "copy", true)
    else (codes "aac", true)

-- The first audio of a probe, as resolveCodec reads it.
unfoldable pub probed_audio : Option Probe → Option (Text × Text)
probed_audio none = none
probed_audio (some r) = elim (first_audio r) [
  | none ↦ none
  | some a ↦ some (to_lower a.codec_name, a.profile)
]

-- resolveCodec's switch, at the codec that is asked for.
unfoldable pub resolve_requested : Text → Option (Text × Text) → Text × Bool
unfolding codec_of_probe
resolve_requested requested audio =
    if text_eq requested (codes "copy")
    then (codes "copy", true)
    else if text_eq requested (codes "aac")
    then (codes "aac", true)
    else codec_of_probe audio

abbrev pub no_video : Choice
no_video = record { source = []; vmap = []; amap = [] }

module _ {F : Type 0} where
  -- The codec that the session or else the configuration asks for.
  unfoldable pub requested_codec : Text → Session F → Text
  requested_codec audio_codec snap =
      if is_empty snap.codec || text_eq snap.codec (codes "auto") then audio_codec else snap.codec

  -- resolveCodec: `media` and `audio` are the answers of probeMedia and probeCodec. The codec of
  -- the run, and the session with what is kept of it.
  unfoldable pub resolve_codec :
      Text → Option Probe → Option (Text × Text) → Session F → Session F → Text × Session F
  unfolding requested_codec resolve_requested probed_audio
  resolve_codec audio_codec media audio snap s =
      if is_empty snap.resolved_codec
      then (let answer = if snap.video then probed_audio media else audio in
          let (codec, kept) = resolve_requested (requested_codec audio_codec snap) answer in
          (codec, if kept then record s { resolved_codec = codec } else s))
      else (snap.resolved_codec, s)

  -- resolveVideo; `none` is decideVideo's panic.
  unfoldable pub resolve_video :
      Reading → Option Probe → Session F → Session F → Option (Choice × Session F)
  unfolding decide_video
  resolve_video o media snap s =
      if not snap.video
      then some (no_video, s)
      else if not (is_empty snap.video_source)
      then some (
          (
            record {
              source = snap.video_source;
              vmap = snap.video_map;
              amap = snap.video_audio_map;
            },
            s,
          ))
      else elim media [
        | none ↦ some (no_video, s)
        | some r ↦ elim (decide_video o r) [
          | none ↦ none
          | some c ↦ some (
            c,
            record s { video_source = c.source; video_map = c.vmap; video_audio_map = c.amap },
          )
        ]
      ]
