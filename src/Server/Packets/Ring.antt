-- ===== src/Server/Packets/Ring.antt =====
-- A reader of a live stream gets the packets in the order they were written, while it is less than
-- a ring behind the writer.
use ffmpeg_streaming.Base.{
  ℕ, zero, suc, ◌+◌, ◌%◌, ◌≡◌, ◌≢◌, ◌≤◌, ◌<◌, refl, sym, ap, ◌∙◌, List, [], ◌∷◌, ◌++◌, length,
  get_or, set, Option, none, some, arith, length-append, length-set, get_or-set_self, get_or-set_ne,
}
use mathlib.Core.Path.{subst}
use ffmpeg_streaming.Server.{Sff, HttpContext}
use ffmpeg_streaming.Server.Packets.{ring_size, sff_free, sff_write, sff_read}

-- From slot `k` on, the ring holds the packets `xs`, which can be read.
abbrev pub At : List (Option Sff) → ℕ → List Sff → Type 0
At slots k [] = Unit
At slots k (x ∷ xs) =
    (get_or slots (k % ring_size) none ≡ some x) × (x.wflag ≡ 2) × At slots (k + 1) xs

-- The reader `r` of the feed `f` has the packets `xs` to read.
pub record Ahead (f r : HttpContext) (xs : List Sff) : Type 0 where
  pub slots : length f.sff_pkts ≡ ring_size + 1
  pub in_ring : r.sff_r < ring_size
  pub few : length xs < ring_size
  pub writer : f.sff_w ≡ (r.sff_r + length xs) % ring_size
  pub packets : At f.sff_pkts r.sff_r xs

At-mod :
    (slots : List (Option Sff)) (k k' : ℕ) (xs : List Sff)
    → k % ring_size ≡ k' % ring_size
    → At slots k xs
    → At slots k' xs
At-mod slots k k' [] e h = tt
At-mod slots k k' (x ∷ xs) e (a, b, h) =
    (ap (λ i. get_or slots i none) (sym e) ∙ a, b, At-mod slots (k + 1) (k' + 1) xs (omega arith) h)

At-set :
    (slots : List (Option Sff)) (k m : ℕ) (v : Option Sff) (xs : List Sff)
    → length xs ≤ m
    → m < ring_size
    → At slots k xs
    → At (set slots ((k + m) % ring_size) v) k xs
At-set slots k m v [] l u h = tt
At-set slots k zero v (x ∷ xs) l u h = absurd (omega arith)
At-set slots k (suc m) v (x ∷ xs) l u (a, b, h) =
    let there : (k + 1 + m) % ring_size ≡ (k + suc m) % ring_size =
      ap (λ n. n % ring_size) (omega arith) in
    let away : (k + suc m) % ring_size ≢ k % ring_size = omega arith in
    (
      get_or-set_ne slots v none away ∙ a,
      b,
      subst (λ i. At (set slots i v) (k + 1) xs) there
          (At-set slots (k + 1) m v xs (omega arith) (omega arith) h),
    )

At-append :
    (slots : List (Option Sff)) (k : ℕ) (xs : List Sff) (x : Sff)
    → At slots k xs
    → get_or slots ((k + length xs) % ring_size) none ≡ some x
    → x.wflag ≡ 2
    → At slots k (xs ++ x ∷ [])
At-append slots k [] x h e w =
    (ap (λ i. get_or slots (i % ring_size) none) (omega arith) ∙ e, w, tt)
At-append slots k (y ∷ ys) x (a, b, h) e w = (
  a,
  b,
  At-append slots (k + 1) ys x h (ap (λ i. get_or slots (i % ring_size) none) (omega arith) ∙ e) w,
)

-- A packet of type 2 that is written while the reader has room for it is the last that the reader has to
-- read, and can be read.
pub sff_write-Ahead :
    (f r : HttpContext) (xs : List Sff) (p : Sff)
    → Ahead f r xs
    → length xs + 1 < ring_size
    → p.type ≡ 2
    → Ahead (sff_write f p) r (xs ++ record p { wflag = 2 } ∷ [])
unfolding sff_write sff_free
sff_write-Ahead f r xs p h room two =
    let freed : List (Option Sff) = set f.sff_pkts f.sff_w none in
    let ready : Sff = record p { wflag = 2 } in
    let slots : List (Option Sff) = set freed f.sff_w (some ready) in
    let len : length slots ≡ ring_size + 1 =
      length-set freed f.sff_w (some ready) ∙ length-set f.sff_pkts f.sff_w none ∙ h.slots in
    let w : f.sff_w ≡ (r.sff_r + length xs) % ring_size = h.writer in
    let there : f.sff_w < length freed =
      omega (arith, length-set f.sff_pkts f.sff_w none, h.slots, w) in
    let kept : At slots r.sff_r xs = rw w (
      At-set (set f.sff_pkts ((r.sff_r + length xs) % ring_size) none) r.sff_r (length xs)
        (some ready) xs (omega arith) h.few
        (At-set f.sff_pkts r.sff_r (length xs) none xs (omega arith) h.few h.packets)) in
    let put : get_or slots ((r.sff_r + length xs) % ring_size) none ≡ some ready =
      ap (λ i. get_or slots i none) (sym w)
      ∙ get_or-set_self freed f.sff_w (some ready) none there in
    let all : At slots r.sff_r (xs ++ ready ∷ []) =
      At-append slots r.sff_r xs ready kept put refl in
    let size : length (xs ++ ready ∷ []) ≡ length xs + 1 = length-append xs (ready ∷ []) in
    let next : (f.sff_w + 1) % ring_size ≡ (r.sff_r + length (xs ++ ready ∷ [])) % ring_size =
      omega (arith, w, size) in
    record {
      slots = ground (arith, two, len);
      in_ring = h.in_ring;
      few = omega (arith, size, room);
      writer = ground (arith, two, next);
      packets = ground (arith, two, all);
    }

abbrev pub Reads : HttpContext → HttpContext → List Sff → Type 0
Reads f r [] = sff_read r f 2 ≡ (none, r)
Reads f r (x ∷ rest) = ((sff_read r f 2).0 ≡ some x) × Ahead f (sff_read r f 2).1 rest

-- A reader gets the oldest packet that it has to read, and has the others left; with none to read it
-- gets nothing and stays as it is.
pub sff_read-Ahead : (f r : HttpContext) (xs : List Sff) → Ahead f r xs → Reads f r xs
unfolding sff_read
sff_read-Ahead f r [] h =
    let same : r.sff_r ≡ f.sff_w = omega (arith, h.writer, h.in_ring) in ground (arith, same)
sff_read-Ahead f r (x ∷ rest) h =
    let (a, b, more) = h.packets in
    let here : get_or f.sff_pkts r.sff_r none ≡ some x =
      ap (λ i. get_or f.sff_pkts i none) (omega (arith, h.in_ring)) ∙ a in
    let apart : r.sff_r ≢ f.sff_w = omega (arith, h.writer, h.in_ring, h.few) in
    let e : sff_read r f 2 ≡ (some x, record r { sff_r = (r.sff_r + 1) % ring_size }) =
      ground (arith, here, b, apart) in
    rw e (
      refl,
      record {
        slots = h.slots;
        in_ring = omega arith;
        few = omega (arith, h.few);
        writer = omega (arith, h.writer);
        packets =
            At-mod f.sff_pkts (r.sff_r + 1) ((r.sff_r + 1) % ring_size) rest (omega arith) more;
      },
    )

-- A reader that is the whole ring behind loses it all: when it has 127 packets to read and one more
-- is written, it is given nothing.
pub sff_write-laps :
    (f r : HttpContext) (xs : List Sff) (p : Sff)
    → Ahead f r xs
    → length xs + 1 ≡ ring_size
    → p.type ≡ 2
    → sff_read r (sff_write f p) 2 ≡ (none, r)
unfolding sff_write sff_read sff_free
sff_write-laps f r xs p h full two =
    let same : r.sff_r ≡ (f.sff_w + 1) % ring_size = omega (arith, h.writer, h.in_ring, full) in
    ground (arith, two, same)
