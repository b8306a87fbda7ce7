-- ===== src/StreamBuffer.antt =====
-- stream_buffer.c: the byte buffer behind the control channel (sb_init, sb_write, sb_read).
-- `none` as the result of a call is a fault: a negative size handed to memmove or memcpy.
pub mod Contents
pub mod Refine
pub mod Calls
use ffmpeg_streaming.Base.{
  blit, ℕ, ◌+◌, ◌-◌, ◌≡◌, List, [], ◌∷◌, ◌++◌, ◌>>=◌, Bool, true, false, Option, none, some, leb,
  ltb, if◌then◌else◌, length, take, drop,
}
use mathlib.Core.Option
use ffmpeg_streaming.Base.Int.{ℤ, pos, negsuc}
use ffmpeg_streaming.ByteQueue.{Op, put, get, Reply, status, bytes}

-- `StreamBuffer`; `buf` is the allocated block.
pub record StreamBuffer : Type 0 where
  pub rpos : ℕ
  pub wpos : ℕ
  pub msize : ℕ
  pub buf : List ℕ

fresh : List ℕ → ℕ → StreamBuffer
fresh block msize = record { rpos = 0; wpos = 0; msize = msize; buf = block }

-- The second argument says whether the allocation of the struct succeeds, the third is the block
-- that the allocation of `msize` bytes returns.
pub init : ℤ → Bool → Option (List ℕ) → Option StreamBuffer
unfolding fresh
init (negsuc n) ok block = none
init (pos n) false block = none
init (pos n) true none = none
init (pos n) true (some block) = if ltb n 1 then none else some (fresh block n)

-- the branches of `sb_write` once its arguments are checked; `bs` are the `len` bytes of `data`
pub write_bytes : StreamBuffer → List ℕ → Option (ℤ × StreamBuffer)
write_bytes s bs =
    if leb (s.wpos + length bs) s.msize
    then some (pos 0, record s { buf = blit s.buf s.wpos bs; wpos = s.wpos + length bs })
    else if leb (s.wpos + length bs) (s.msize + s.rpos)
    then (if ltb s.wpos s.rpos
        then none
        else let size = s.wpos - s.rpos in
          let moved = blit s.buf 0 (take size (drop s.rpos s.buf)) in
          some (pos 0, record s { buf = blit moved size bs; rpos = 0; wpos = size + length bs }))
    else some (negsuc 0, s)

-- A null pointer is `none`.
pub write : Option StreamBuffer → Option (List ℕ) → ℤ → Option (ℤ × Option StreamBuffer)
write none bs len = some (negsuc 0, none)
write (some s) none len = some (negsuc 0, some s)
write (some s) (some bs) (negsuc n) = some (negsuc 0, some s)
write (some s) (some bs) (pos len) = elim (write_bytes s (take len bs)) [
  | none ↦ none
  | some (r, s') ↦ some (r, some s')
]

-- the part of `sb_read` past its guard: the size, the bytes put into `data`, the buffer
pub read_bytes : StreamBuffer → ℕ → Option (ℕ × List ℕ × StreamBuffer)
read_bytes s len =
    if ltb s.wpos s.rpos
    then none
    else let size = if ltb len (s.wpos - s.rpos) then len else s.wpos - s.rpos in
      some (size, take size (drop s.rpos s.buf), record s { rpos = s.rpos + size })

-- The second argument says whether `data` is a null pointer.
pub read : Option StreamBuffer → Bool → ℤ → Option (ℕ × List ℕ × Option StreamBuffer)
read none null len = some (0, [], none)
read (some s) true len = some (0, [], some s)
read (some s) false (negsuc n) = some (0, [], some s)
read (some s) false (pos len) = elim (read_bytes s len) [
  | none ↦ none
  | some (n, bs, s') ↦ some (n, bs, some s')
]

-- a client's calls in order, with what each returns
pub run : StreamBuffer → List Op → Option (List Reply)
run s [] = some []
run s (put bs ∷ ops) = do (r, s') ← write_bytes s bs; Option.map (λ rs. status r ∷ rs) (run s' ops)
run s (get n ∷ ops) = do
  (size, bs, s') ← read_bytes s n
  Option.map (λ rs. bytes size bs ∷ rs) (run s' ops)
