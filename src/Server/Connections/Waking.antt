-- ===== src/Server/Connections/Waking.antt =====
-- What waking leaves alone: a connection keeps all but its state, its feed and its count.
use ffmpeg_streaming.Base.{
  ℕ, ◌≡◌, refl, ap, ◌∙◌, ◌⊎◌, inl, inr, Bool-cases, List, [], ◌∷◌, true, false, ◌==◌, if◌then◌else◌,
  none, arith,
}
use ffmpeg_streaming.Base.Int.{ℤ, pos}
use ffmpeg_streaming.Server.{HttpContext, State, wait_feed}
use ffmpeg_streaming.Server.Connections.{
  wake_one, wake_all, count_at, wake_others, put, look, increment,
}

-- a connection without what waking changes
unfoldable pub lasting : HttpContext → HttpContext
lasting c = record c { state = wait_feed; feed_ctx = none; sff_ref_cnt = pos 0 }

lasting-wake_one :
    (c : HttpContext) (to : State) (d : HttpContext) → lasting (wake_one c to d).0 ≡ lasting d
unfolding lasting wake_one
lasting-wake_one c to d = ground arith

wake_one-address :
    (c : HttpContext) (to : State) (d : HttpContext) → (wake_one c to d).0.address ≡ d.address
unfolding lasting
wake_one-address c to d = ap (λ k. k.address) (lasting-wake_one c to d)

look-cons :
    (b d d' : HttpContext) (cs cs' : List HttpContext)
    → d'.address ≡ d.address
    → lasting d' ≡ lasting d
    → lasting (look b cs') ≡ lasting (look b cs)
    → lasting (look b (d' ∷ cs')) ≡ lasting (look b (d ∷ cs))
unfolding look
look-cons b d d' cs cs' a e h = ground (arith, a, e, h)

look-wake_all :
    (b c : HttpContext) (to : State) (cs : List HttpContext)
    → lasting (look b (wake_all c to cs).0) ≡ lasting (look b cs)
unfolding wake_all
look-wake_all b c to [] = refl
look-wake_all b c to (d ∷ cs) =
    look-cons b d (wake_one c to d).0 cs (wake_all c to cs).0 (wake_one-address c to d)
      (lasting-wake_one c to d) (look-wake_all b c to cs)

counted : (ℤ → ℤ) → ℕ → HttpContext → HttpContext
counted f a d = if d.address == a then record d { sff_ref_cnt = f d.sff_ref_cnt } else d

lasting-counted : (f : ℤ → ℤ) (a : ℕ) (d : HttpContext) → lasting (counted f a d) ≡ lasting d
unfolding counted lasting
lasting-counted f a d = ground arith

look-count_at :
    (b : HttpContext) (f : ℤ → ℤ) (a : ℕ) (cs : List HttpContext)
    → lasting (look b (count_at f a cs)) ≡ lasting (look b cs)
unfolding count_at lasting counted
look-count_at b f a [] = refl
look-count_at b f a (d ∷ cs) =
    look-cons b d (counted f a d) cs (count_at f a cs) (ap (λ k. k.address) (lasting-counted f a d))
      (lasting-counted f a d) (look-count_at b f a cs)

pub look-wake_others :
    (b c : HttpContext) (to : State) (cs : List HttpContext)
    → lasting (look b (wake_others c to cs)) ≡ lasting (look b cs)
unfolding wake_others
look-wake_others b c to cs =
    look-count_at b (λ z. increment z (wake_all c to cs).1) c.address (wake_all c to cs).0
    ∙ look-wake_all b c to cs

look-put_here :
    (c c' d : HttpContext) (cs : List HttpContext)
    → c'.address ≡ c.address
    → (d.address == c.address) ≡ true
    → look c (put c' (d ∷ cs)) ≡ c'
unfolding look put
look-put_here c c' d cs a e = ground (arith, a, e)

look-put_there :
    (c c' d : HttpContext) (cs : List HttpContext)
    → c'.address ≡ c.address
    → (d.address == c.address) ≡ false
    → look c (put c' (d ∷ cs)) ≡ look c (put c' cs)
unfolding look put
look-put_there c c' d cs a e = ground (arith, a, e)

-- the connection as the list has it after it was put there
pub look-put :
    (c c' : HttpContext) (cs : List HttpContext)
    → c'.address ≡ c.address
    → (look c (put c' cs) ≡ c) ⊎ (look c (put c' cs) ≡ c')
unfolding look put
look-put c c' [] a = inl refl
look-put c c' (d ∷ cs) a = elim (Bool-cases (d.address == c.address)) [
  | inl e ↦ inr (look-put_here c c' d cs a e)
  | inr e ↦ elim (look-put c c' cs a) [
    | inl h ↦ inl (look-put_there c c' d cs a e ∙ h)
    | inr h ↦ inr (look-put_there c c' d cs a e ∙ h)
  ]
]
