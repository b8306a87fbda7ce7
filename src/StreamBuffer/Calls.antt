-- ===== src/StreamBuffer/Calls.antt =====
-- sb_write with its guard, by the room that there is.
use ffmpeg_streaming.Base.{ℕ, ◌+◌, ◌≤◌, ◌<◌, ◌≡◌, List, ◌++◌, some, arith, length, take_all}
use ffmpeg_streaming.Base.Int.{pos, negsuc}
use ffmpeg_streaming.ByteQueue
use ffmpeg_streaming.StreamBuffer.{StreamBuffer, write}
use ffmpeg_streaming.StreamBuffer.Contents.{IsValid, contents}
use ffmpeg_streaming.StreamBuffer.Refine.{write_refines}

-- a buffer that the call `m` leaves, with `q` for its contents
abbrev pub Holds : StreamBuffer → List ℕ → StreamBuffer → Type 0
Holds s q s' = IsValid s' × (s'.msize ≡ s.msize) × (contents s' ≡ q)

pub write-room :
    (s : StreamBuffer) (bs : List ℕ)
    → IsValid s
    → length (contents s) + length bs ≤ s.msize
    → (s' : StreamBuffer) × (write (some s) (some bs) (pos (length bs)) ≡ some (pos 0, some s'))
      × Holds s (contents s ++ bs) s'
unfolding write ByteQueue.write
write-room s bs v h =
    let (r, s', e, v', m, q) = write_refines s bs v in
    (s', ground (arith, take_all bs (length bs) (omega arith), e, q), (v', m, ground (arith, q)))

pub write-no_room :
    (s : StreamBuffer) (bs : List ℕ)
    → IsValid s
    → s.msize < length (contents s) + length bs
    → (s' : StreamBuffer) × (write (some s) (some bs) (pos (length bs)) ≡ some (negsuc 0, some s'))
      × Holds s (contents s) s'
unfolding write ByteQueue.write
write-no_room s bs v h =
    let (r, s', e, v', m, q) = write_refines s bs v in
    (s', ground (arith, take_all bs (length bs) (omega arith), e, q), (v', m, ground (arith, q)))
