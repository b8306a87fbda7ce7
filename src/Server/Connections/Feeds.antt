-- ===== src/Server/Connections/Feeds.antt =====
-- Live streams: which connections wait for a feed, and how many a feed serves.
use ffmpeg_streaming.Base.{
  ℕ, ◌+◌, ◌≡◌, refl, sym, ap, List, [], ◌∷◌, ◌==◌, ◌&&◌, ◌||◌, Bool, false, if◌then◌else◌, arith,
  Option-cases, inl, inr, ◌∙◌, All,
}
use ffmpeg_streaming.Base.Int.{ℤ, pos}
use ffmpeg_streaming.Server.{HttpContext, State}
use ffmpeg_streaming.Server.Connections.{
  count_at, increment, is_waiting, joins, is_fed, same_segment, wake_one, wake_all, wake_others,
}

-- how many connections the one at `a` feeds
unfoldable pub fed : ℕ → List HttpContext → ℕ
fed a [] = 0
fed a (c ∷ cs) = (if is_fed a c then 1 else 0) + fed a cs

-- Each connection counts as many as `g` says for its address.
abbrev pub Counts : (ℕ → ℕ) → List HttpContext → Type 0
Counts g cs = All (λ d. d.sff_ref_cnt ≡ pos (g d.address)) cs

-- Each connection counts those that it feeds.
abbrev pub Counted : List HttpContext → Type 0
Counted cs = Counts (λ a. fed a cs) cs

pub Counts-of :
    (g h : ℕ → ℕ) (cs : List HttpContext) → ((a : ℕ) → g a ≡ h a) → Counts g cs → Counts h cs
Counts-of g h [] e v = tt
Counts-of g h (c ∷ cs) e (v, vs) = (v ∙ ap pos (e c.address), Counts-of g h cs e vs)

-- what waking does to one connection
wake_one-address :
    (c : HttpContext) (to : State) (d : HttpContext)
    → ((wake_one c to d).0.address ≡ d.address) × ((wake_one c to d).0.sff_ref_cnt ≡ d.sff_ref_cnt)
unfolding wake_one
wake_one-address c to d = (ground arith, ground arith)

wake_one-is_fed :
    (c : HttpContext) (to : State) (a : ℕ) (d : HttpContext)
    → (if is_fed a (wake_one c to d).0 then 1 else 0)
      ≡ (if is_fed a d then 1 else 0) + (if c.address == a then (wake_one c to d).1 else 0)
unfolding wake_one is_fed joins
wake_one-is_fed c to a d = elim (Option-cases d.feed_ctx) [
  | inl e ↦ ground (arith, e)
  | inr (f, e) ↦ ground (arith, e)
]

Counts-wake_all :
    (g : ℕ → ℕ) (c : HttpContext) (to : State) (cs : List HttpContext)
    → Counts g cs
    → Counts g (wake_all c to cs).0
unfolding wake_all
Counts-wake_all g c to [] v = tt
Counts-wake_all g c to (d ∷ cs) (v, vs) =
    let (a, r) = wake_one-address c to d in
    (r ∙ v ∙ ap (λ k. pos (g k)) (sym a), Counts-wake_all g c to cs vs)

fed-wake_all :
    (c : HttpContext) (to : State) (a : ℕ) (cs : List HttpContext)
    → fed a (wake_all c to cs).0 ≡ fed a cs + (if c.address == a then (wake_all c to cs).1 else 0)
unfolding wake_all fed
fed-wake_all c to a [] = ground arith
fed-wake_all c to a (d ∷ cs) = ground (arith, wake_one-is_fed c to a d, fed-wake_all c to a cs)

pub fed-count_at :
    (f : ℤ → ℤ) (b a : ℕ) (cs : List HttpContext) → fed a (count_at f b cs) ≡ fed a cs
unfolding count_at fed is_fed
fed-count_at f b a [] = refl
fed-count_at f b a (d ∷ cs) = ground (arith, fed-count_at f b a cs)

increment-pos : (m n : ℕ) → increment (pos m) n ≡ pos (m + n)
unfolding increment
increment-pos m n = ground arith

pub Counts-increment :
    (g : ℕ → ℕ) (n b : ℕ) (cs : List HttpContext)
    → Counts g cs
    → Counts (λ a. g a + (if b == a then n else 0)) (count_at (λ z. increment z n) b cs)
unfolding count_at
Counts-increment g n b [] v = tt
Counts-increment g n b (d ∷ cs) (v, vs) =
    (ground (arith, v, increment-pos (g d.address) n), Counts-increment g n b cs vs)

-- Waking the connections of a feed keeps every connection's count of those that it feeds right:
-- those that had no feed yet are counted.
pub wake_others-Counted :
    (c : HttpContext) (to : State) (cs : List HttpContext)
    → Counted cs
    → Counted (wake_others c to cs)
unfolding wake_others
wake_others-Counted c to cs v =
    let n : ℕ = (wake_all c to cs).1 in
    let woken : List HttpContext = (wake_all c to cs).0 in
    Counts-of (λ a. fed a cs + (if c.address == a then n else 0))
      (λ a. fed a (count_at (λ z. increment z n) c.address woken))
      (count_at (λ z. increment z n) c.address woken)
      (λ a. sym (fed-count_at (λ z. increment z n) c.address a woken ∙ fed-wake_all c to a cs))
      (Counts-increment (λ a. fed a cs) n c.address woken
        (Counts-wake_all (λ a. fed a cs) c to cs v))

-- whether a connection waits for what `c` has
abbrev pub sleeps : HttpContext → HttpContext → Bool
sleeps c d =
    is_waiting d.state && (joins c d || is_fed c.address d || same_segment c.hls_idx d.hls_idx)

wake_one-sleeps :
    (c : HttpContext) (to : State) (d : HttpContext)
    → is_waiting to ≡ false
    → sleeps c (wake_one c to d).0 ≡ false
unfolding wake_one is_fed joins
wake_one-sleeps c to d h = elim (Option-cases d.feed_ctx) [
  | inl e ↦ ground (arith, e, h)
  | inr (f, e) ↦ ground (arith, e, h)
]

sleeps-count_at :
    (c : HttpContext) (f : ℤ → ℤ) (b : ℕ) (cs : List HttpContext)
    → All (λ d. sleeps c d ≡ false) cs
    → All (λ d. sleeps c d ≡ false) (count_at f b cs)
unfolding count_at is_fed joins
sleeps-count_at c f b [] v = tt
sleeps-count_at c f b (d ∷ cs) (v, vs) = (ground (arith, v), sleeps-count_at c f b cs vs)

wake_all-sleeps :
    (c : HttpContext) (to : State) (cs : List HttpContext)
    → is_waiting to ≡ false
    → All (λ d. sleeps c d ≡ false) (wake_all c to cs).0
unfolding wake_all
wake_all-sleeps c to [] h = tt
wake_all-sleeps c to (d ∷ cs) h = (wake_one-sleeps c to d h, wake_all-sleeps c to cs h)

-- When a feed wakes the others to a state that does not wait, none is left waiting for it: neither
-- one that it feeds, nor one that asked for its stream, nor one that reads its segment.
pub wake_others-wakes :
    (c : HttpContext) (to : State) (cs : List HttpContext)
    → is_waiting to ≡ false
    → All (λ d. sleeps c d ≡ false) (wake_others c to cs)
unfolding wake_others
wake_others-wakes c to cs h =
    sleeps-count_at c (λ z. increment z (wake_all c to cs).1) c.address (wake_all c to cs).0
      (wake_all-sleeps c to cs h)
