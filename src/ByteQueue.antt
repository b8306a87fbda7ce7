-- ===== src/ByteQueue.antt =====
-- The contract of the byte buffer of stream_buffer.c: a bounded first-in first-out queue of bytes.
use ffmpeg_streaming.Base.{ℕ, ◌+◌, List, [], ◌∷◌, ◌++◌, min, length, take, drop, leb, if◌then◌else◌}
use ffmpeg_streaming.Base.Int.{ℤ, pos, negsuc}

-- what a client asks of the buffer, and what it sees of each call
pub data Op : Type 0 where
  put : List ℕ → Op
  get : ℕ → Op

pub data Reply : Type 0 where
  status : ℤ → Reply
  bytes : ℕ → List ℕ → Reply

-- A block is taken whole, or refused with -1.
unfoldable pub write : ℕ → List ℕ → List ℕ → ℤ × List ℕ
write cap q bs = if leb (length q + length bs) cap then (pos 0, q ++ bs) else (negsuc 0, q)

-- As many of the oldest bytes as there are, at most `n`.
unfoldable pub read : List ℕ → ℕ → ℕ × List ℕ × List ℕ
read q n = (min n (length q), take n q, drop n q)

unfoldable pub run : ℕ → List ℕ → List Op → List Reply
unfolding write read
run cap q [] = []
run cap q (put bs ∷ ops) = let (r, q') = write cap q bs in status r ∷ run cap q' ops
run cap q (get n ∷ ops) = let (size, bs, q') = read q n in bytes size bs ∷ run cap q' ops
