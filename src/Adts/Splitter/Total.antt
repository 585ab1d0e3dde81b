-- ===== src/Adts/Splitter/Total.antt =====
-- Feed and Flush always answer, and lose nothing.
use spectado_stream_recorder.Common.{
  ◌≡◌, inl, inr, false, some, List, [], ◌++◌, Option-cases, All, Bytes,
}
use spectado_stream_recorder.Adts.Splitter.{Splitter, Output, feed, flush}
use spectado_stream_recorder.Adts.Splitter.Ends.{feed-ne-none, flush-ne-none}
use spectado_stream_recorder.Adts.Splitter.Lossless.{
  handed_out, IsFaithful, feed-handed_out, flush-handed_out,
}

-- Feed ends for any bytes and any splitter: what it hands out and what it leaves in the buffer are
-- what was there and the new bytes, in order, and each frame that it hands out is whole and has the
-- length that its header says.
pub feed_total :
    (p : Bytes) (s : Splitter)
    → (out : List Output) × (t : Splitter) × (feed p s ≡ some (out, t))
      × (handed_out out ++ t.buf ≡ s.buf ++ p)
      × All IsFaithful out
feed_total p s = elim (Option-cases (feed p s)) [
  | inl e ↦ absurd (feed-ne-none p s e)
  | inr ((out, t), e) ↦ let (whole, sound) = feed-handed_out p s e in (out, t, e, whole, sound)
]

-- Flush ends for any splitter: it hands out all that was in the buffer, and leaves an empty splitter.
pub flush_total :
    (s : Splitter)
    → (out : List Output) × (t : Splitter) × (flush s ≡ some (out, t))
      × (handed_out out ≡ s.buf)
      × (t.buf ≡ [])
      × (t.synced ≡ false)
flush_total s = elim (Option-cases (flush s)) [
  | inl e ↦ absurd (flush-ne-none s e)
  | inr ((out, t), e) ↦
      let (whole, clean, unsynced) = flush-handed_out s e in (out, t, e, whole, clean, unsynced)
]
