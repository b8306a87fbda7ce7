-- ===== src/StreamBuffer/Refine.antt =====
-- A valid stream buffer behaves as a bounded queue of bytes, and never faults.
use ffmpeg_streaming.Base.{
  blit, length-blit, take-blit, ℕ, ◌+◌, ◌-◌, ◌≤◌, ◌<◌, ◌≡◌, refl, sym, ap, ◌∙◌, inl, inr, List, [],
  ◌∷◌, arith, some, length, take, drop, leb, ltb, Bool-cases, drop-take, take-length_append,
  drop-drop, drop_all, take-take, take_all,
}
use ffmpeg_streaming.Base.Int.{ℤ, pos, negsuc}
use ffmpeg_streaming.ByteQueue
use ffmpeg_streaming.ByteQueue.{Op, put, get, Reply, status, bytes}
use ffmpeg_streaming.StreamBuffer.{StreamBuffer, write_bytes, read_bytes, run}
use ffmpeg_streaming.StreamBuffer.Contents.{IsValid, contents, length-contents, contents-blit}

-- What `sb_write` leaves behind on a valid buffer.
abbrev Wrote : StreamBuffer → List ℕ → Type 0
Wrote s bs =
    (r : ℤ) × (s' : StreamBuffer) × (write_bytes s bs ≡ some (r, s'))
    × IsValid s'
    × (s'.msize ≡ s.msize)
    × ((r, contents s') ≡ ByteQueue.write s.msize (contents s) bs)

-- There is room behind the write position.
write_at_end :
    (s : StreamBuffer) (bs : List ℕ) → IsValid s → s.wpos + length bs ≤ s.msize → Wrote s bs
unfolding write_bytes ByteQueue.write
write_at_end s bs v h = (
  pos 0,
  record s { buf = blit s.buf s.wpos bs; wpos = s.wpos + length bs },
  ground arith,
  record {
    order = omega (arith, v.order);
    room = h;
    block = length-blit s.buf bs s.wpos (omega (arith, v.block)) ∙ v.block;
  },
  refl,
  ground (
    arith,
    length-contents s v,
    v.order,
    contents-blit s.buf bs s.rpos s.wpos v.order (omega (arith, v.block, v.room)),
  ),
)

-- The block fits only once the unread bytes have moved to the front.
write_moving :
    (s : StreamBuffer) (bs : List ℕ)
    → IsValid s
    → s.msize < s.wpos + length bs
    → s.wpos + length bs ≤ s.msize + s.rpos
    → Wrote s bs
unfolding write_bytes ByteQueue.write
write_moving s bs v h k =
    let q : List ℕ = take (s.wpos - s.rpos) (drop s.rpos s.buf) in
    let moved : List ℕ = blit s.buf 0 q in
    let same : q ≡ contents s = sym (drop-take s.rpos s.wpos s.buf) in
    let lq : length q ≡ s.wpos - s.rpos = ap length same ∙ length-contents s v in
    let front : take (s.wpos - s.rpos) moved ≡ q =
      ap (λ n. take n moved) (sym lq) ∙ take-length_append q (drop (0 + length q) s.buf) in
    let lm : length moved ≡ length s.buf =
      length-blit s.buf q 0 (omega (arith, lq, v.order, v.room, v.block)) in
    (
      pos 0,
      record s {
        buf = blit moved (s.wpos - s.rpos) bs;
        rpos = 0;
        wpos = s.wpos - s.rpos + length bs;
      },
      ground (arith, v.order),
      record {
        order = omega arith;
        room = omega (arith, v.order);
        block =
            length-blit moved bs (s.wpos - s.rpos) (omega (arith, lm, v.order, v.block))
            ∙ lm
            ∙ v.block;
      },
      refl,
      ground (
        arith,
        length-contents s v,
        v.order,
        take-blit moved bs (s.wpos - s.rpos) (omega (arith, lm, v.order, v.room, v.block)),
        front,
        same,
      ),
    )

write_full :
    (s : StreamBuffer) (bs : List ℕ)
    → IsValid s
    → s.msize + s.rpos < s.wpos + length bs
    → Wrote s bs
unfolding write_bytes ByteQueue.write
write_full s bs v h =
    (negsuc 0, s, ground arith, v, refl, ground (arith, length-contents s v, v.order))

-- On a valid buffer `sb_write` does not fault, keeps the buffer valid and its capacity, and returns
-- the status of the bounded queue's write and leaves its contents.
pub write_refines : (s : StreamBuffer) (bs : List ℕ) → IsValid s → Wrote s bs
write_refines s bs v = elim (Bool-cases (leb (s.wpos + length bs) s.msize)) [
  | inl e ↦ write_at_end s bs v (ground arith)
  | inr e ↦ elim (Bool-cases (leb (s.wpos + length bs) (s.msize + s.rpos))) [
    | inl f ↦ write_moving s bs v (ground arith) (ground arith)
    | inr f ↦ write_full s bs v (ground arith)
  ]
]

-- What `sb_read` leaves behind on a valid buffer.
abbrev Got : StreamBuffer → ℕ → Type 0
Got s n =
    (size : ℕ) × (out : List ℕ) × (s' : StreamBuffer) × (read_bytes s n ≡ some (size, out, s'))
    × IsValid s'
    × (s'.msize ≡ s.msize)
    × ((size, out, contents s') ≡ ByteQueue.read (contents s) n)

read_part : (s : StreamBuffer) (n : ℕ) → IsValid s → n < s.wpos - s.rpos → Got s n
unfolding read_bytes ByteQueue.read
read_part s n v h =
    let block : List ℕ = drop s.rpos s.buf in
    (
      n,
      take n block,
      record s { rpos = s.rpos + n },
      ground (arith, v.order),
      record { order = omega (arith, v.order); room = v.room; block = v.block },
      refl,
      ground (
        arith,
        length-contents s v,
        sym (drop-drop n s.rpos (take s.wpos s.buf)),
        ap (take n) (drop-take s.rpos s.wpos s.buf),
        take-take n (s.wpos - s.rpos) block (omega arith),
      ),
    )

read_rest : (s : StreamBuffer) (n : ℕ) → IsValid s → s.wpos - s.rpos ≤ n → Got s n
unfolding read_bytes ByteQueue.read
read_rest s n v h =
    let size : ℕ = s.wpos - s.rpos in
    let l : length (contents s) ≡ size = length-contents s v in
    (
      size,
      take size (drop s.rpos s.buf),
      record s { rpos = s.rpos + size },
      ground (arith, v.order),
      record { order = omega (arith, v.order); room = v.room; block = v.block },
      refl,
      ground (
        arith,
        l,
        sym (drop-drop size s.rpos (take s.wpos s.buf)),
        drop-take s.rpos s.wpos s.buf,
        take_all (contents s) n (omega (arith, l)),
        drop_all (contents s) n (omega (arith, l)),
        drop_all (contents s) size (omega (arith, l)),
      ),
    )

-- On a valid buffer `sb_read` does not fault, keeps the buffer valid and its capacity, and returns
-- the size and the bytes of the queue's read and leaves its contents.
pub read_refines : (s : StreamBuffer) (n : ℕ) → IsValid s → Got s n
read_refines s n v = elim (Bool-cases (ltb n (s.wpos - s.rpos))) [
  | inl e ↦ read_part s n v (ground arith)
  | inr e ↦ read_rest s n v (ground arith)
]

-- No sequence of reads and writes on a valid buffer faults, and each returns what it returns on the
-- bounded queue of the buffer's contents.
pub run_refines :
    (ops : List Op) (s : StreamBuffer)
    → IsValid s
    → run s ops ≡ some (ByteQueue.run s.msize (contents s) ops)
unfolding run ByteQueue.run
run_refines [] s v = refl
run_refines (put bs ∷ ops) s v =
    let (r, s', e, v', m, q) = write_refines s bs v in
    rw e (rw (run_refines ops s' v', m) (ground (arith, q)))
run_refines (get n ∷ ops) s v =
    let (size, out, s', e, v', m, q) = read_refines s n v in
    rw e (rw (run_refines ops s' v', m) (ground (arith, q)))
