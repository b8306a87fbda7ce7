-- ===== src/StreamBuffer/Contents.antt =====
-- What a stream buffer holds, and its well-formedness.
use ffmpeg_streaming.Base.{
  blit, take-blit, ℕ, ◌+◌, ◌-◌, ◌≤◌, ◌≡◌, ap, ◌∙◌, List, ◌++◌, arith, length, take, drop,
  length-take, length-drop, drop-append,
}
use ffmpeg_streaming.StreamBuffer.{StreamBuffer}

pub record IsValid (s : StreamBuffer) : Type 0 where
  pub order : s.rpos ≤ s.wpos
  pub room : s.wpos ≤ s.msize
  pub block : length s.buf ≡ s.msize

-- the unread bytes, oldest first
abbrev pub contents : StreamBuffer → List ℕ
contents s = drop s.rpos (take s.wpos s.buf)

pub length-contents : (s : StreamBuffer) → IsValid s → length (contents s) ≡ s.wpos - s.rpos
length-contents s v =
    omega (arith, length-drop s.rpos (take s.wpos s.buf), length-take s.wpos s.buf)

pub contents-blit :
    (buf bs : List ℕ) (r w : ℕ)
    → r ≤ w
    → w ≤ length buf
    → drop r (take (w + length bs) (blit buf w bs)) ≡ drop r (take w buf) ++ bs
contents-blit buf bs r w h k =
    ap (drop r) (take-blit buf bs w k)
    ∙ drop-append r (take w buf) bs (omega (arith, length-take w buf))
