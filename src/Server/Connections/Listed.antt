-- ===== src/Server/Connections/Listed.antt =====
-- The count of connections, and that each is in the list once.
use ffmpeg_streaming.Base.{
  ℕ, ◌+◌, ◌≡◌, ◌≤◌, refl, ap, List, [], ◌∷◌, ◌==◌, if◌then◌else◌, arith, length, Option-cases, inl,
  inr, ◌∙◌, suc,
}
use ffmpeg_streaming.Base.Int.{ℤ}
use ffmpeg_streaming.Server.{HttpContext}
use ffmpeg_streaming.Server.Connections.{
  Server, Arrival, accepted, new_connection, unlink, count_at, sff_reset, close_connection,
  decrement,
}

-- how often an address is in the list
unfoldable pub occurs : ℕ → List HttpContext → ℕ
occurs a [] = 0
occurs a (c ∷ cs) = (if c.address == a then 1 else 0) + occurs a cs

pub record IsValid (s : Server) : Type 0 where
  pub counted : s.nb_connections ≡ length s.connections
  pub bounded : s.nb_connections ≤ s.nb_max_connections
  pub distinct : (a : ℕ) → occurs a s.connections ≤ 1

-- A connection is taken on only below the limit, and a socket that is not taken on is closed: the
-- count stays that of the list and at most the limit, if the address is new.
pub new_connection-IsValid :
    (cur_time : ℕ) (a : Arrival) (s : Server)
    → IsValid s
    → occurs a.address s.connections ≡ 0
    → IsValid (new_connection cur_time a s).0
unfolding new_connection accepted occurs
new_connection-IsValid cur_time a s v fresh = record {
  counted = ground (arith, v.counted);
  bounded = ground (arith, v.bounded);
  distinct = each;
}
  where
    each : (b : ℕ) → occurs b (new_connection cur_time a s).0.connections ≤ 1
    each b = ground (arith, v.distinct b, fresh)

length-unlink : (a : ℕ) (cs : List HttpContext) → length (unlink a cs) + occurs a cs ≡ length cs
unfolding unlink occurs
length-unlink a [] = refl
length-unlink a (c ∷ cs) = ground (arith, length-unlink a cs)

occurs-unlink : (a b : ℕ) (cs : List HttpContext) → occurs b (unlink a cs) ≤ occurs b cs
unfolding unlink occurs
occurs-unlink a b [] = omega arith
occurs-unlink a b (c ∷ cs) = ground (arith, occurs-unlink a b cs)

pub unlink-occurs : (a : ℕ) (cs : List HttpContext) → occurs a (unlink a cs) ≡ 0
unfolding unlink occurs
unlink-occurs a [] = refl
unlink-occurs a (c ∷ cs) = ground (arith, unlink-occurs a cs)

length-count_at : (f : ℤ → ℤ) (a : ℕ) (cs : List HttpContext) → length (count_at f a cs) ≡ length cs
unfolding count_at
length-count_at f a [] = refl
length-count_at f a (c ∷ cs) = ap suc (length-count_at f a cs)

occurs-count_at :
    (f : ℤ → ℤ) (a b : ℕ) (cs : List HttpContext) → occurs b (count_at f a cs) ≡ occurs b cs
unfolding count_at occurs
occurs-count_at f a b [] = refl
occurs-count_at f a b (c ∷ cs) = ground (arith, occurs-count_at f a b cs)

length-sff_reset : (c : HttpContext) (cs : List HttpContext) → length (sff_reset c cs) ≡ length cs
unfolding sff_reset
length-sff_reset c cs = elim (Option-cases c.feed_ctx) [
  | inl e ↦ ground (arith, e)
  | inr (f, e) ↦ ground (arith, e, length-count_at decrement f cs)
]

pub occurs-sff_reset :
    (c : HttpContext) (b : ℕ) (cs : List HttpContext) → occurs b (sff_reset c cs) ≡ occurs b cs
unfolding sff_reset
occurs-sff_reset c b cs = elim (Option-cases c.feed_ctx) [
  | inl e ↦ ground (arith, e)
  | inr (f, e) ↦ ground (arith, e, occurs-count_at decrement f b cs)
]

-- Closing a connection of the list takes it and no other off the list, and counts that.
pub close_connection-IsValid :
    (c : HttpContext) (s : Server)
    → IsValid s
    → occurs c.address s.connections ≡ 1
    → IsValid (close_connection c s).0
      × (occurs c.address (close_connection c s).0.connections ≡ 0)
      × ((close_connection c s).0.nb_connections + 1 ≡ s.nb_connections)
unfolding close_connection
close_connection-IsValid c s v once =
    let left : List HttpContext = unlink c.address s.connections in
    let n : length (sff_reset c left) + 1 ≡ length s.connections =
      omega (arith, length-sff_reset c left, length-unlink c.address s.connections, once) in
    (
      record {
        counted = omega (arith, n, v.counted);
        bounded = omega (arith, v.bounded);
        distinct = λ b. omega (
          arith,
          occurs-sff_reset c b left,
          occurs-unlink c.address b s.connections,
          v.distinct b,
        );
      },
      occurs-sff_reset c c.address left ∙ unlink-occurs c.address s.connections,
      omega (arith, n, v.counted),
    )
