-- ===== src/Server/Dispatch/Streams.antt =====
-- Requests for a live stream: who may feed it, and the count of those that a feed serves.
use ffmpeg_streaming.Base.{
  ℕ, ◌+◌, ◌≡◌, refl, sym, ap, ◌∙◌, List, [], ◌∷◌, ◌==◌, ◌&&◌, not, ltb, Bool, true, false, arith,
  length, All, Option, none, some, if◌then◌else◌, same_bytes, same_bytes_refl, Option-cases,
  Bool-cases, inl, inr,
}
use ffmpeg_streaming.Base.Int.{ℤ, pos}
use ffmpeg_streaming.Server.{HttpContext, receive_data}
use ffmpeg_streaming.Server.Connections.{find_feed, put, count_at, increment, is_fed}
use ffmpeg_streaming.Server.Connections.Listed.{occurs}
use ffmpeg_streaming.Server.Connections.Feeds.{
  fed, Counts, Counted, Counts-of, fed-count_at, Counts-increment,
}
use ffmpeg_streaming.Server.Receive.Data.{World}
use ffmpeg_streaming.Server.Response.{send_stream_header}
use ffmpeg_streaming.Server.Request.{RequestData}
use ffmpeg_streaming.Server.Outcomes.{
  System, Parsed, closes, loops, fault, answers, nothing, settle,
}
use ffmpeg_streaming.Server.Joining.{feed_branch, join_branch}

find_feed-head :
    (c d : HttpContext) (cs : List HttpContext)
    → not (c.post == 0) ≡ true
    → (d.address == c.address) ≡ true
    → find_feed c.url (put c (d ∷ cs)) ≡ some c
unfolding find_feed put
find_feed-head c d cs p a = ground (arith, a, p, same_bytes_refl c.url)

-- A connection that stands first in the list, as the newest one does, and posts a stream, is never
-- refused: it goes on to receive data, even where another connection feeds that stream already. The
-- search for the feed meets the connection itself first.
pub feed_branch-first :
    (c d : HttpContext) (cs : List HttpContext) (w : World) (socket : List ℕ)
    → not (c.post == 0) ≡ true
    → w.connections ≡ d ∷ cs
    → (d.address == c.address) ≡ true
    → feed_branch c w socket
      ≡ settle (record c { http_error = 0; state = receive_data }) w nothing socket
unfolding feed_branch
feed_branch-first c d cs w socket p e a =
    let meets : find_feed c.url (put c w.connections) ≡ some c =
      ap (λ k. find_feed c.url (put c k)) e ∙ find_feed-head c d cs p a in
    let same : (c.address == c.address) ≡ true = ground arith in
    rw (meets, feed_branch) (rw same refl)

-- what is found feeds, so it is another connection than one that does not
find_feed-other :
    (name : List ℕ) (c ctx : HttpContext) (cs : List HttpContext)
    → (c.post == 0) ≡ true
    → find_feed name (put c cs) ≡ some ctx
    → (ctx.address == c.address) ≡ false
unfolding find_feed put
find_feed-other name c ctx [] p e = absurd (ground (arith, e))
find_feed-other name c ctx (d ∷ cs) p e = elim (Bool-cases (d.address == c.address)) [
  | inl a ↦ find_feed-other name c ctx cs p (ground (arith, a, p, e))
  | inr a ↦ elim (Bool-cases (not (d.post == 0) && same_bytes d.url name)) [
    | inl m ↦ ground (arith, a, m, e)
    | inr m ↦ find_feed-other name c ctx cs p (ground (arith, a, m, e))
  ]
]

abbrev is_linked : HttpContext → Bool
is_linked d = elim d.feed_ctx [ none ↦ false | some f ↦ true ]

-- the connections at an address have no feed
abbrev pub Unlinked : ℕ → List HttpContext → Type 0
Unlinked a cs = All (λ d. (d.address == a && is_linked d) ≡ false) cs

fed-put :
    (x : ℕ) (c : HttpContext) (cs : List HttpContext)
    → Unlinked c.address cs
    → fed x (put c cs) ≡ fed x cs + (if is_fed x c then occurs c.address cs else 0)
unfolding fed put occurs is_fed
fed-put x c [] h = ground arith
fed-put x c (d ∷ cs) (h, hs) = elim (Bool-cases (d.address == c.address)) [
  | inl a ↦ elim (Option-cases d.feed_ctx) [
    | inl e ↦ ground (arith, a, e, fed-put x c cs hs)
    | inr (f, e) ↦ absurd (ground (arith, a, e, h))
  ]
  | inr a ↦ ground (arith, a, fed-put x c cs hs)
]

Counts-put :
    (g : ℕ → ℕ) (c : HttpContext) (cs : List HttpContext)
    → c.sff_ref_cnt ≡ pos (g c.address)
    → Counts g cs
    → Counts g (put c cs)
unfolding put
Counts-put g c [] h v = tt
Counts-put g c (d ∷ cs) h (v, vs) = (ground (arith, h, v), Counts-put g c cs h vs)

occurs-count_at :
    (f : ℤ → ℤ) (b a : ℕ) (cs : List HttpContext) → occurs a (count_at f b cs) ≡ occurs a cs
unfolding count_at occurs
occurs-count_at f b a [] = refl
occurs-count_at f b a (d ∷ cs) = ground (arith, occurs-count_at f b a cs)

Unlinked-count_at :
    (f : ℤ → ℤ) (b a : ℕ) (cs : List HttpContext) → Unlinked a cs → Unlinked a (count_at f b cs)
unfolding count_at
Unlinked-count_at f b a [] h = tt
Unlinked-count_at f b a (d ∷ cs) (h, hs) = (ground (arith, h), Unlinked-count_at f b a cs hs)

-- a connection that is given a feed, or none, in a list that counts as `g` says
put-Counted :
    (g : ℕ → ℕ) (c : HttpContext) (cs : List HttpContext)
    → c.sff_ref_cnt ≡ pos (g c.address)
    → occurs c.address cs ≡ 1
    → Unlinked c.address cs
    → ((x : ℕ) → g x ≡ fed x cs + (if is_fed x c then 1 else 0))
    → Counts g cs
    → Counted (put c cs)
put-Counted g c cs h one free e v =
    Counts-of g (λ x. fed x (put c cs)) (put c cs)
      (λ x.
        e x
        ∙ ap (λ k. fed x cs + (if is_fed x c then k else 0)) (sym one)
        ∙ sym (fed-put x c cs free))
      (Counts-put g c cs h v)

-- the connections of an answer count right
abbrev pub IsCounted : Parsed → Type 0
IsCounted (answers c w e rest) = Counted w.connections
IsCounted closes = Unit {0}
IsCounted loops = Unit {0}
IsCounted fault = Unit {0}

IsCounted-if :
    (b : Bool) (x y : Parsed) → IsCounted x → IsCounted y → IsCounted (if b then x else y)
IsCounted-if true x y p q = p
IsCounted-if false x y p q = q

joined-Counted :
    (s : System) (rd : RequestData) (c : HttpContext) (w : World) (f : ℕ) (socket : List ℕ)
    → (f == c.address) ≡ false
    → Counted w.connections
    → c.sff_ref_cnt ≡ pos (fed c.address w.connections)
    → occurs c.address w.connections ≡ 1
    → Unlinked c.address w.connections
    → IsCounted (
        settle
          (send_stream_header s.libs rd.domain (record c { feed_ctx = some f }))
          (record w { connections = count_at (λ n. increment n 1) f w.connections })
          nothing
          socket)
unfolding settle send_stream_header is_fed
joined-Counted s rd c w f socket other v h one free =
    let c' = send_stream_header s.libs rd.domain (record c { feed_ctx = some f }) in
    let cs : List HttpContext = count_at (λ n. increment n 1) f w.connections in
    put-Counted (λ x. fed x w.connections + (if f == x then 1 else 0)) c' cs
      (ground (arith, h, other))
      (occurs-count_at (λ n. increment n 1) f c.address w.connections ∙ one)
      (Unlinked-count_at (λ n. increment n 1) f c.address w.connections free)
      (λ x.
        ap (λ k. k + (if f == x then 1 else 0))
          (sym (fed-count_at (λ n. increment n 1) f x w.connections)))
      (Counts-increment (λ x. fed x w.connections) 1 f w.connections v)

waiting-Counted :
    (s : System) (rd : RequestData) (c : HttpContext) (w : World) (socket : List ℕ)
    → Counted w.connections
    → c.sff_ref_cnt ≡ pos (fed c.address w.connections)
    → occurs c.address w.connections ≡ 1
    → Unlinked c.address w.connections
    → IsCounted (
        settle
          (send_stream_header s.libs rd.domain (record c { keep_alive = false; feed_ctx = none }))
          w
          nothing
          socket)
unfolding settle send_stream_header is_fed
waiting-Counted s rd c w socket v h one free =
    put-Counted (λ x. fed x w.connections)
      (send_stream_header s.libs rd.domain (record c { keep_alive = false; feed_ctx = none }))
      w.connections h one free (λ x. omega arith) v

join-found :
    (s : System) (rd : RequestData) (c : HttpContext) (w : World) (socket : List ℕ)
    (o : Option HttpContext)
    → ((ctx : HttpContext) → o ≡ some ctx → (ctx.address == c.address) ≡ false)
    → Counted w.connections
    → c.sff_ref_cnt ≡ pos (fed c.address w.connections)
    → occurs c.address w.connections ≡ 1
    → Unlinked c.address w.connections
    → IsCounted (elim o [
      | none ↦
          if ltb 1011 (length c.url)
          then fault
          else settle
              (send_stream_header s.libs rd.domain
                (record c { keep_alive = false; feed_ctx = none }))
              w
              nothing
              socket
      | some ctx ↦
          settle
            (send_stream_header s.libs rd.domain (record c { feed_ctx = some ctx.address }))
            (record w { connections = count_at (λ n. increment n 1) ctx.address w.connections })
            nothing
            socket
    ])
join-found s rd c w socket none other v h one free =
    IsCounted-if (ltb 1011 (length c.url)) fault
      (settle
        (send_stream_header s.libs rd.domain (record c { keep_alive = false; feed_ctx = none })) w
        nothing socket)
      tt (waiting-Counted s rd c w socket v h one free)
join-found s rd c w socket (some ctx) other v h one free =
    joined-Counted s rd c w ctx.address socket (other ctx refl) v h one free

-- A GET of a live stream keeps every connection's count of those that it feeds right: the feed that is
-- found counts one more, for a connection that has no feed yet, stands in the list once, and counts
-- those that it feeds itself.
pub join_branch-IsCounted :
    (s : System) (rd : RequestData) (c : HttpContext) (w : World) (socket : List ℕ)
    → (c.post == 0) ≡ true
    → Counted w.connections
    → c.sff_ref_cnt ≡ pos (fed c.address w.connections)
    → occurs c.address w.connections ≡ 1
    → Unlinked c.address w.connections
    → IsCounted (join_branch s rd c w socket)
unfolding join_branch
join_branch-IsCounted s rd c w socket p v h one free =
    join-found s rd c w socket (find_feed c.url (put c w.connections))
      (λ ctx e. find_feed-other c.url c ctx w.connections p e) v h one free
