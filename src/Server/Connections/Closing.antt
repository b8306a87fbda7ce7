-- ===== src/Server/Connections/Closing.antt =====
-- What closing a connection does to the feeds and to those that they feed.
use mathlib.Core.Path.{subst}
use ffmpeg_streaming.Base.{
  ℕ, ◌+◌, ◌<◌, ◌≡◌, refl, sym, ap, List, [], ◌∷◌, ◌++◌, ◌==◌, if◌then◌else◌, none, arith,
  Option-cases, inl, inr, ◌∙◌,
}
use ffmpeg_streaming.Base.Int.{pos}
use ffmpeg_streaming.Server.{HttpContext}
use ffmpeg_streaming.Server.Connections.{
  Server, unlink, count_at, sff_reset, close_connection, decrement, is_fed,
}
use ffmpeg_streaming.Server.Connections.Listed.{occurs, unlink-occurs}
use ffmpeg_streaming.Server.Connections.Feeds.{fed, Counts, Counted, Counts-of, fed-count_at}

unlink_none : (a : ℕ) (cs : List HttpContext) → occurs a cs ≡ 0 → unlink a cs ≡ cs
unfolding unlink occurs
unlink_none a [] h = refl
unlink_none a (c ∷ cs) h = ground (arith, unlink_none a cs (ground (arith, h)), h)

unlink_one :
    (c : HttpContext) (before after : List HttpContext)
    → occurs c.address before ≡ 0
    → occurs c.address after ≡ 0
    → unlink c.address (before ++ c ∷ after) ≡ before ++ after
unfolding unlink occurs
unlink_one c [] after b a = ground (arith, unlink_none c.address after a)
unlink_one c (d ∷ before) after b a =
    ground (arith, unlink_one c before after (ground (arith, b)) a, b)

fed_split :
    (a : ℕ) (c : HttpContext) (before after : List HttpContext)
    → fed a (before ++ c ∷ after) ≡ (if is_fed a c then 1 else 0) + fed a (before ++ after)
unfolding fed
fed_split a c [] after = refl
fed_split a c (d ∷ before) after = omega (arith, fed_split a c before after)

Counts-split :
    (g : ℕ → ℕ) (c : HttpContext) (before after : List HttpContext)
    → Counts g (before ++ c ∷ after)
    → Counts g (before ++ after)
Counts-split g c [] after (v, vs) = vs
Counts-split g c (d ∷ before) after (v, vs) = (v, Counts-split g c before after vs)

decrement-pos : (m n : ℕ) → m ≡ 1 + n → decrement (pos m) ≡ pos n
unfolding decrement
decrement-pos m n e = ground (arith, e)

-- Taking one from the count at `f`, which another function counts.
Counts-decrement :
    (g h : ℕ → ℕ) (f : ℕ) (cs : List HttpContext)
    → ((a : ℕ) → g a ≡ (if f == a then 1 else 0) + h a)
    → Counts g cs
    → Counts h (count_at decrement f cs)
unfolding count_at
Counts-decrement g h f [] e v = tt
Counts-decrement g h f (d ∷ cs) e (v, vs) = (
  ground (arith, v, e d.address, decrement-pos (g d.address) (h d.address)),
  Counts-decrement g h f cs e vs,
)

sff_reset-Counted :
    (g : ℕ → ℕ) (c : HttpContext) (rest : List HttpContext)
    → ((a : ℕ) → g a ≡ (if is_fed a c then 1 else 0) + fed a rest)
    → c.post ≡ 0
    → Counts g rest
    → Counted (sff_reset c rest)
unfolding sff_reset is_fed
sff_reset-Counted g c rest e reader v = elim (Option-cases c.feed_ctx) [
  | inl none' ↦
      let same : sff_reset c rest ≡ rest = ground (arith, none', reader) in
      let counts : Counted rest =
        Counts-of g (λ a. fed a rest) rest (λ a. ground (arith, e a, none')) v in
      subst Counted (sym same) counts
  | inr (f, fed_by) ↦
      let same : sff_reset c rest ≡ count_at decrement f rest = ground (arith, fed_by, reader) in
      let less : Counts (λ a. fed a rest) (count_at decrement f rest) =
        Counts-decrement g (λ a. fed a rest) f rest (λ a. ground (arith, e a, fed_by)) v in
      let counts : Counted (count_at decrement f rest) =
        Counts-of (λ a. fed a rest) (λ a. fed a (count_at decrement f rest))
          (count_at decrement f rest) (λ a. sym (fed-count_at decrement f a rest)) less in
      subst Counted (sym same) counts
]

-- Closing a reader keeps every connection's count of those that it feeds right: the reader's feed
-- counts one less.
pub close_connection-Counted :
    (c : HttpContext) (before after : List HttpContext) (s : Server)
    → s.connections ≡ before ++ c ∷ after
    → occurs c.address before ≡ 0
    → occurs c.address after ≡ 0
    → c.post ≡ 0
    → Counted s.connections
    → Counted (close_connection c s).0.connections
unfolding close_connection
close_connection-Counted c before after s e b a reader v =
    let left : unlink c.address s.connections ≡ before ++ after =
      ap (unlink c.address) e ∙ unlink_one c before after b a in
    let rest : List HttpContext = before ++ after in
    let split : (x : ℕ) → fed x s.connections ≡ (if is_fed x c then 1 else 0) + fed x rest =
      λ x. ap (fed x) e ∙ fed_split x c before after in
    let counts : Counts (λ x. fed x s.connections) rest =
      Counts-split (λ x. fed x s.connections) c before after
        (subst (Counts (λ x. fed x s.connections)) e v) in
    subst (λ k. Counted (sff_reset c k)) (sym left)
      (sff_reset-Counted (λ x. fed x s.connections) c rest split reader counts)

-- Closing a connection that feeds at least one other, and has no feed itself, leaves as many connections
-- with a link to its address as before, so at least one, and no connection at that address.
pub close_connection-dangles :
    (c : HttpContext) (before after : List HttpContext) (s : Server)
    → s.connections ≡ before ++ c ∷ after
    → occurs c.address before ≡ 0
    → occurs c.address after ≡ 0
    → c.feed_ctx ≡ none
    → 0 < fed c.address s.connections
    → (fed c.address (close_connection c s).0.connections ≡ fed c.address s.connections)
      × (0 < fed c.address (close_connection c s).0.connections)
      × (occurs c.address (close_connection c s).0.connections ≡ 0)
unfolding close_connection sff_reset is_fed
close_connection-dangles c before after s e b a feeds one =
    let left : unlink c.address s.connections ≡ before ++ after =
      ap (unlink c.address) e ∙ unlink_one c before after b a in
    let reset' : sff_reset c (unlink c.address s.connections) ≡ unlink c.address s.connections =
      ground (arith, feeds) in
    let same : fed c.address (sff_reset c (unlink c.address s.connections))
        ≡ fed c.address s.connections =
      ground
        (arith, left, reset', ap (fed c.address) e, fed_split c.address c before after, feeds) in
    (
      same,
      omega (arith, same, one),
      ap (occurs c.address) reset' ∙ unlink-occurs c.address s.connections,
    )
