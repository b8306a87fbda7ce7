-- ===== src/FrameQueue/Order.antt =====
-- The frame queue as a queue: frames come out in the order in which they were put in.
use ffmpeg_streaming.Base.{
  ℕ, zero, suc, ◌+◌, ◌-◌, ◌%◌, ◌≤◌, ◌<◌, ◌≡◌, ◌≢◌, refl, ap, ◌∙◌, List, [], ◌∷◌, ◌++◌, none, arith,
  ◌==◌, length, get_or, set, inl, inr, get_or-set_self, get_or-set_ne, Bool-cases,
}
use ffmpeg_streaming.FrameQueue.{
  FrameQueue, Frame, blank, next, put, advance, peek_writable, peek_readable, at, peek_last,
}
use ffmpeg_streaming.FrameQueue.Ring.{IsValid, mod_once}

module _ (q : List Frame) (m : ℕ) where
  -- the `n` frames from the index `s` on, going round at `m`
  pub from : ℕ → ℕ → List Frame
  from s zero = []
  from s (suc n) = get_or q (s % m) blank ∷ from (s + 1) n

  from-snoc : (s n : ℕ) → from s (suc n) ≡ from s n ++ (get_or q ((s + n) % m) blank ∷ [])
  unfolding from
  from-snoc s zero = ap (λ k. get_or q (k % m) blank ∷ []) (omega arith)
  from-snoc s (suc n) =
      ap (λ k. get_or q (s % m) blank ∷ k)
        (from-snoc (s + 1) n
          ∙ ap (λ k. from (s + 1) n ++ (get_or q (k % m) blank ∷ [])) (omega arith))

  -- Starting a whole turn later changes nothing.
  from-turn : (s n : ℕ) → s + n ≤ m → from (m + s) n ≡ from s n
  unfolding from
  from-turn s zero h = refl
  from-turn s (suc n) h = ground (
    arith,
    mod_once (m + s) m (omega arith),
    mod_once s m (omega arith),
    from-turn (s + 1) n (omega arith),
    ap (λ k. from k n) (let e : m + s + 1 ≡ m + (s + 1) = omega arith in e),
  )

-- A write outside the frames does not touch them.
from-set :
    (q : List Frame) (m i : ℕ) (vp : Frame) (s n : ℕ)
    → ((k : ℕ) → k < n → i ≢ (s + k) % m)
    → from (set q i vp) m s n ≡ from q m s n
unfolding from
from-set q m i vp s zero h = refl
from-set q m i vp s (suc n) h = ground (
  arith,
  get_or-set_ne q {i = i} {j = s % m} vp blank
      (λ e. h 0 (omega arith) (e ∙ ap (λ k. k % m) (omega arith))),
  from-set q m i vp (s + 1) n
      (λ k l e. h (k + 1) (omega arith) (e ∙ ap (λ j. j % m) (omega arith))),
)

-- the frames still to be shown, the next one first
abbrev pub remaining : FrameQueue → List Frame
remaining f = from f.queue f.max_size (f.rindex + f.rindex_shown) (f.size - f.rindex_shown)

-- A frame put in with room for it goes behind the frames still to be shown.
pub remaining-put :
    {f : FrameQueue} (vp : Frame) {i : ℕ}
    → IsValid f
    → peek_writable f ≡ at i
    → remaining (put f vp) ≡ remaining f ++ (vp ∷ [])
unfolding put peek_writable
remaining-put {f} vp v e =
    let q : List Frame = set f.queue f.windex vp in
    let s : ℕ = f.rindex + f.rindex_shown in
    let n : ℕ = f.size - f.rindex_shown in
    let room : f.size < f.max_size = ground arith in
    let end : f.windex ≡ (s + n) % f.max_size =
      v.write_at ∙ ap (λ k. k % f.max_size) (omega (arith, v.shown_in)) in
    ap (from q f.max_size s)
      (let e : f.size + 1 - f.rindex_shown ≡ suc n = omega (arith, v.shown_in) in e)
    ∙ from-snoc q f.max_size s n
    ∙ ground (
      arith,
      end,
      get_or-set_self f.queue f.windex vp blank (write_in room),
      from-set f.queue f.max_size f.windex vp s n (apart room),
    )
  where
    write_in : f.size < f.max_size → f.windex < length f.queue
    write_in room = ground (
      arith,
      v.storage,
      v.cap_small,
      v.read_in,
      v.write_at,
      mod_once (f.rindex + f.size) f.max_size (omega (arith, v.read_in)),
    )

    apart :
        f.size < f.max_size
        → (k : ℕ) → k < f.size - f.rindex_shown
        → f.windex ≢ (f.rindex + f.rindex_shown + k) % f.max_size
    apart room k h eq = ground (
      arith,
      v.read_in,
      v.write_at,
      v.shown_in,
      mod_once (f.rindex + f.size) f.max_size (omega (arith, v.read_in)),
      mod_once (f.rindex + f.rindex_shown + k) f.max_size (omega (arith, v.read_in)),
    )

-- The frame that a wait for a readable frame gives is the first to be shown, and the next call
-- passes it and leaves the others, in order.
pub remaining-next :
    {f : FrameQueue} {i : ℕ}
    → IsValid f
    → peek_readable f ≡ at i
    → remaining f ≡ get_or f.queue i blank ∷ remaining (next f)
unfolding next peek_readable
remaining-next {f} {i} v e =
    split
    ∙ ap (λ k. get_or f.queue k blank ∷ rest) first
    ∙ ap (λ k. get_or f.queue i blank ∷ k) later
  where
    n : ℕ
    n = f.size - f.rindex_shown - 1

    rest : List Frame
    rest = from f.queue f.max_size (f.rindex + f.rindex_shown + 1) n

    readable : f.rindex_shown < f.size
    readable = ground arith

    first : (f.rindex + f.rindex_shown) % f.max_size ≡ i
    first = ground arith

    split : remaining f ≡ get_or f.queue ((f.rindex + f.rindex_shown) % f.max_size) blank ∷ rest
    split =
        ap (from f.queue f.max_size (f.rindex + f.rindex_shown))
          (let h : f.size - f.rindex_shown ≡ suc n = omega (arith, readable) in h)
        ∙ unfold from in refl

    apart :
        (k : ℕ) → k < n → f.rindex ≢ (advance f.rindex f.max_size + f.rindex_shown + k) % f.max_size
    apart k h eq = ground (
      arith,
      v.read_in,
      v.size_in,
      mod_once (0 + f.rindex_shown + k) f.max_size (omega (arith, v.size_in)),
      mod_once (f.rindex + 1 + f.rindex_shown + k) f.max_size (omega (arith, v.read_in, v.size_in)),
    )

    turned : rest ≡ from f.queue f.max_size (advance f.rindex f.max_size + f.rindex_shown) n
    turned = elim (Bool-cases (f.rindex + 1 == f.max_size)) [
      | inl w ↦ rw w (
          ap (λ k. from f.queue f.max_size k n)
            (let h : f.rindex + f.rindex_shown + 1 ≡ f.max_size + (0 + f.rindex_shown) =
                ground arith in
              h)
          ∙ from-turn f.queue f.max_size (0 + f.rindex_shown) n (omega (arith, v.size_in)))
      | inr w ↦ rw w (ap (λ k. from f.queue f.max_size k n) (omega arith))
    ]

    later : rest ≡ remaining (next f)
    later = ground (
      arith,
      v.shown_in,
      turned,
      from-set f.queue f.max_size f.rindex
          (record (get_or f.queue f.rindex blank) { picture = none })
          (advance f.rindex f.max_size + f.rindex_shown) n apart,
    )

-- With `keep_last`, the frame that was shown stays: after the call that passes it, `peek_last`
-- points to it, and it still has its picture.
pub next-peek_last :
    {f : FrameQueue} {i : ℕ}
    → IsValid f
    → f.keep_last ≡ 1
    → peek_readable f ≡ at i
    → (peek_last (next f) ≡ i)
      × (get_or (next f).queue (peek_last (next f)) blank ≡ get_or f.queue i blank)
unfolding next peek_readable peek_last
next-peek_last {f} v one e = ground (
  arith,
  v.read_in,
  v.size_in,
  mod_once (f.rindex + f.rindex_shown) f.max_size (ground arith),
  get_or-set_ne f.queue {i = f.rindex} {j = advance f.rindex f.max_size}
      (record (get_or f.queue f.rindex blank) { picture = none }) blank,
)
