-- ===== src/Server/Receive.antt =====
-- ffserver.c: what a connection receives from an encoder (the packets of http_receive_data). The bytes
-- that have arrived and wait in the socket are a list; `Quiet` is what recv says once there are none.
pub mod Blocks
pub mod Delivery
pub mod Schedule
pub mod Data
use ffmpeg_streaming.Base.{
  ℕ, zero, suc, ◌+◌, ◌-◌, List, [], ◌∷◌, ◌++◌, Bool, true, false, ◌&&◌, not, Option, none, some,
  ltb, leb, ◌==◌, if◌then◌else◌, length, take, drop, set, min,
}
use ffmpeg_streaming.Base.Bytes.{rb32}
use ffmpeg_streaming.Server.{Sff, HttpContext}
use ffmpeg_streaming.Server.Packets.{sff_write}

-- EAGAIN or EINTR, 0, or another error
pub data Quiet : Type 0 where
  again closed fails : Quiet

-- the `len` of a call of recv
pub data Len : Type 0 where
  got : ℕ → Len
  quiet : Quiet → Len

unfoldable pub len_of : ℕ → Quiet → Len
len_of n q = if n == 0 then quiet q else got n

-- How far the loop is that looks for a packet: at the letters "SFF", at the type, or at a byte of the
-- size; or it has found a packet.
pub data Stage : Type 0 where
  want_s want_f1 want_f2 want_type : Stage
  want_size : ℕ → ℕ → Stage
  found : ℕ → ℕ → Stage

-- `size && size <= 1E6`
abbrev pub good_size : ℕ → Bool
good_size n = not (n == 0) && leb n 1000000

-- where the next byte goes in `buf`
abbrev slot : Stage → ℕ
slot (want_size t k) = k
slot _ = 0

-- One byte more: `tmp` are the first four bytes of `buf`, with the byte in its place.
unfoldable pub advance : Stage → List ℕ → ℕ → Stage
advance want_s tmp c = if c == b'S' then want_f1 else want_s
advance want_f1 tmp c = if c == b'F' then want_f2 else want_s
advance want_f2 tmp c = if c == b'F' then want_type else want_s
advance want_type tmp c = if leb b'0' c && leb c b'9' then want_size (c - b'0') 0 else want_s
advance (want_size t k) tmp c =
    if k == 3
    then (if good_size (rb32 tmp) then found t (rb32 tmp) else want_s)
    else want_size t (k + 1)
advance (found t n) tmp c = found t n

-- The bytes end: a size that is not whole is read with what was in `buf` before.
unfoldable pub at_end : Stage → List ℕ → Option (ℕ × ℕ × List ℕ)
at_end (want_size t k) tmp = if good_size (rb32 tmp) then some (t, rb32 tmp, []) else none
at_end (found t n) tmp = some (t, n, [])
at_end want_s tmp = none
at_end want_f1 tmp = none
at_end want_f2 tmp = none
at_end want_type tmp = none

-- The loop: the type and the size of the packet found, and the bytes that follow its header.
unfoldable pub scan : Stage → List ℕ → List ℕ → Option (ℕ × ℕ × List ℕ)
unfolding at_end advance
scan stage tmp [] = at_end stage tmp
scan (found t n) tmp (c ∷ cs) = some (t, n, c ∷ cs)
scan stage tmp (c ∷ cs) = let tmp' = set tmp (slot stage) c in scan (advance stage tmp' c) tmp' cs

-- a new packet with the bytes that the first recv gives it
unfoldable pub started : ℕ → ℕ → List ℕ → Sff
started type size bs = record {
  type = type;
  size = size;
  bytes = take size bs;
  wpos = length (take size bs);
  wflag = 0;
}

-- a packet with more of its bytes
unfoldable pub filled : Sff → List ℕ → Sff
filled s bs = record s { bytes = s.bytes ++ bs; wpos = s.wpos + length bs }

-- The packet is handed over where it is complete, and kept otherwise.
unfoldable pub settle : HttpContext → Sff → HttpContext
settle c s =
    if s.wpos == s.size then record (sff_write c s) { sff = none } else record c { sff = some s }

-- What one call makes of the bytes in the socket: the `len` of the last recv, the packet that it worked
-- on, the connection, and the bytes left in the socket. `error` is the return of -1 at once.
pub data Receipt : Type 0 where
  error : Receipt
  receipt : Len → Option Sff → HttpContext → List ℕ → Receipt

unfoldable pub receive_more : HttpContext → Sff → Quiet → List ℕ → Receipt
unfolding filled settle len_of
receive_more c s q input =
    let bs = take (s.size - s.wpos) input in
    let s' = filled s bs in
    receipt (len_of (length bs) q) (some s') (settle c s') (drop (s.size - s.wpos) input)

unfoldable pub receive_new : HttpContext → Quiet → List ℕ → Receipt
unfolding scan started settle len_of
receive_new c q input = elim (scan want_s (0 ∷ 0 ∷ 0 ∷ 0 ∷ []) input) [
  | none ↦ receipt (quiet q) none c []
  | some (type, size, rest) ↦
      let s = started type size rest in
      receipt (len_of s.wpos q) (some s) (settle c s) (drop size rest)
]

-- `http_receive_data`, of a connection that writes packets, up to `check`
unfoldable pub receive_packet : HttpContext → Quiet → List ℕ → Receipt
unfolding receive_more receive_new
receive_packet c q input = elim c.sff [
  | none ↦ receive_new c q input
  | some s ↦ if ltb s.wpos s.size then receive_more c s q input else error
]
