-- ===== src/FrameQueue/Ring.antt =====
-- The well-formedness of a frame queue, and the frames in it in order.
use native.Mathlib.Nat.{mod-eq_of_lt, mod-eq-sub-mod}
use ffmpeg_streaming.Base.{
  ℕ, ◌+◌, ◌-◌, ◌%◌, ◌≤◌, ◌<◌, ◌≡◌, ◌∙◌, Bool, none, some, arith, ltb, length, get_or, inl, inr, ◌⊎◌,
  length-set, length-replicate, Bool-cases,
}
use ffmpeg_streaming.FrameQueue.{
  FrameQueue, Frame, blank, frame_queue_size, init, next, prev, put, peek_writable, peek_readable,
  at,
}

pub record IsValid (f : FrameQueue) : Type 0 where
  pub storage : length f.queue ≡ frame_queue_size
  pub cap_pos : 0 < f.max_size
  pub cap_small : f.max_size ≤ frame_queue_size
  pub read_in : f.rindex < f.max_size
  pub size_in : f.size ≤ f.max_size
  pub write_at : f.windex ≡ (f.rindex + f.size) % f.max_size
  pub shown_in : f.rindex_shown ≤ f.size
  pub shown_kept : f.rindex_shown ≤ f.keep_last
  pub kept_bit : f.keep_last ≤ 1

-- A sum of an index and a count is taken round the ring once at most.
pub mod_once : (x m : ℕ) → x < m + m → ((x < m) × (x % m ≡ x)) ⊎ ((m ≤ x) × (x % m ≡ x - m))
mod_once x m h = elim (Bool-cases (ltb x m)) [
  | inl e ↦ inl (ground arith, mod-eq_of_lt (ground arith))
  | inr e ↦
      inr
        (ground arith, mod-eq-sub-mod {n = x} {m = m} (ground arith) ∙ mod-eq_of_lt (ground arith))
]

-- A queue made for at least one frame is valid and empty.
pub init-IsValid :
    (mutex cond : Bool) (alloc : ℕ → Bool) (max_size keep_last : ℕ) (abort : Bool) (serial : ℕ)
    {f : FrameQueue}
    → 0 < max_size
    → init mutex cond alloc max_size keep_last abort serial ≡ some f
    → IsValid f × (f.size ≡ 0)
unfolding init
init-IsValid mutex cond alloc max_size keep_last abort serial h e =
    ground (arith, length-replicate frame_queue_size blank)

-- A frame that `peek_writable` gave room for is put in without loss of validity.
pub put-IsValid :
    {f : FrameQueue} (vp : Frame) {i : ℕ} → IsValid f → peek_writable f ≡ at i → IsValid (put f vp)
unfolding put peek_writable
put-IsValid {f} vp v e = ground (
  arith,
  v.storage,
  length-set f.queue f.windex vp,
  mod_once (f.rindex + f.size) f.max_size (omega (arith, v.read_in, v.size_in)),
  mod_once (f.rindex + (f.size + 1)) f.max_size (ground (arith, v.read_in, v.size_in)),
)

-- A frame that `peek_readable` gave is passed without loss of validity.
pub next-IsValid : {f : FrameQueue} {i : ℕ} → IsValid f → peek_readable f ≡ at i → IsValid (next f)
unfolding next peek_readable
next-IsValid {f} v e = ground (
  arith,
  v.storage,
  length-set f.queue f.rindex (record (get_or f.queue f.rindex blank) { picture = none }),
  mod_once (f.rindex + f.size) f.max_size (omega (arith, v.read_in, v.size_in)),
  mod_once (0 + (f.size - 1)) f.max_size (omega (arith, v.read_in, v.size_in)),
  mod_once (f.rindex + 1 + (f.size - 1)) f.max_size (omega (arith, v.read_in, v.size_in)),
)

-- `frame_queue_prev` keeps a queue valid.
pub prev-IsValid : {f : FrameQueue} → IsValid f → IsValid (prev f).1
unfolding prev
prev-IsValid v = ground arith
