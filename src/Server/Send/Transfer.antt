-- ===== src/Server/Send/Transfer.antt =====
-- A whole transfer of a file in chunks, from the first call of http_send_data to the last.
use ffmpeg_streaming.Base.{
  ℕ, suc, ◌≡◌, ◌≤◌, ◌<◌, ◌≢◌, refl, sym, ap, ◌∙◌, ◌⊎◌, inl, inr, List, [], ◌∷◌, ◌++◌, Bool, true,
  false, if◌then◌else◌, Option, none, some, length, arith, All, append_assoc, length-append,
}
use ffmpeg_streaming.Server.{HttpContext, State, wait_request}
use ffmpeg_streaming.Server.Segments.{Table}
use ffmpeg_streaming.Server.Send.{
  http_send_data, is_open, room, Reply, broken, closes, clobbers, sent,
}
use ffmpeg_streaming.Server.Send.Framing.{decode, decode-chunks}
use ffmpeg_streaming.Server.Send.Files.{
  blocks, rest_of, outstanding, IsServing, file_rest-open, join-blocks, All-blocks,
}
use ffmpeg_streaming.Server.Send.Calls.{taken, Going, Ending, step-serving}

-- what calls of `http_send_data` lead to: the connection is closed, or it is still sending, or it waits
-- for its next request, with the bytes sent
pub data Transfer : Type 0 where
  gone : Transfer
  going finished : List ℕ → HttpContext → Transfer

after : List ℕ → Transfer → Transfer
after out gone = gone
after out (going more c) = going (out ++ more) c
after out (finished more c) = finished (out ++ more) c

is_waiting_request : State → Bool
is_waiting_request wait_request = true
is_waiting_request _ = false

taken-broken : (r : Reply) → 1 ≤ taken r → r ≢ broken
taken-broken r n e = absurd (omega (arith, ap taken e))

module _ (cur_time : ℕ) (t : Table) (feed : Option HttpContext) where
  -- the calls until the connection waits for its next request, or the replies end
  pub transfer : List Reply → HttpContext → Transfer
  unfolding after
  transfer [] c = going [] c
  transfer (r ∷ rs) c = elim (http_send_data 2 cur_time t feed r c) [
    | none ↦ gone
    | some s ↦ elim s [
      | closes ↦ gone
      | clobbers ↦ gone
      | sent out c' ↦
          if is_waiting_request c'.state then finished out c' else after out (transfer rs c')
    ]
  ]

  transfer-going :
      (r : Reply) (rs : List Reply) (c : HttpContext) (out : List ℕ) (c' : HttpContext)
      → http_send_data 2 cur_time t feed r c ≡ some (sent out c')
      → is_waiting_request c'.state ≡ false
      → transfer (r ∷ rs) c ≡ after out (transfer rs c')
  unfolding transfer
  transfer-going r rs c out c' e w = rw (e, transfer) (rw (w, transfer) refl)

  transfer-finished :
      (r : Reply) (rs : List Reply) (c : HttpContext) (out : List ℕ) (c' : HttpContext)
      → http_send_data 2 cur_time t feed r c ≡ some (sent out c')
      → is_waiting_request c'.state ≡ true
      → transfer (r ∷ rs) c ≡ finished out c'
  unfolding transfer
  transfer-finished r rs c out c' e w = rw (e, transfer) (rw (w, transfer) refl)

  transfer-All :
      (rs : List Reply) (c : HttpContext)
      → All (λ r. 1 ≤ taken r) rs
      → IsServing c
      → length (outstanding c) < length rs
      → (c' : HttpContext) × (transfer rs c ≡ finished (outstanding c) c')
  unfolding Going Ending is_waiting_request after
  transfer-All [] c n h l = absurd (omega arith)
  transfer-All (r ∷ rs) c (n, ns) h l =
      let (out, c1, e, which) = step-serving cur_time t feed r c (taken-broken r n) h in
      elim which [
        | inl g ↦
            let (h1, o, m) = g in
            let (c', f) =
              transfer-All rs c1 ns h1
                (omega (arith, ap length o, length-append out (outstanding c1), m n, l)) in
            (
              c',
              transfer-going r rs c out c1 e (ap is_waiting_request h1.sending)
                  ∙ ap (after out) f
                  ∙ ap (λ k. finished k c') o,
            )
        | inr g ↦
            let (w, o, z) = g in
            (
              c1,
              transfer-finished r rs c out c1 e (ap is_waiting_request w)
                  ∙ ap (λ k. finished k c1) (o ∙ sym z),
            )
      ]

  -- The first of the bytes outstanding have been sent, the rest are still outstanding.
  pub transfer-prefix :
      (rs : List Reply) (c : HttpContext)
      → All (λ r. r ≢ broken) rs
      → IsServing c
      → (out : List ℕ) × (c' : HttpContext) × (((transfer rs c ≡ going out c')
            × (out ++ outstanding c' ≡ outstanding c))
          ⊎ (transfer rs c ≡ finished (outstanding c) c'))
  unfolding Going Ending is_waiting_request after transfer
  transfer-prefix [] c n h = ([], c, inl (refl, refl))
  transfer-prefix (r ∷ rs) c (n, ns) h =
      let (out, c1, e, which) = step-serving cur_time t feed r c n h in
      elim which [
        | inl g ↦
            let (h1, o, m) = g in
            let (more, c', f) = transfer-prefix rs c1 ns h1 in
            let first = transfer-going r rs c out c1 e (ap is_waiting_request h1.sending) in
            (
              out ++ more,
              c',
              elim f [
                | inl k ↦ inl (
                  first ∙ ap (after out) k.0,
                  append_assoc out more (outstanding c') ∙ ap (λ z. out ++ z) k.1 ∙ o,
                )
                | inr k ↦ inr (first ∙ ap (after out) k ∙ ap (λ z. finished z c') o)
              ],
            )
        | inr g ↦
            let (w, o, z) = g in
            (
              [],
              c1,
              inr (
                  transfer-finished r rs c out c1 e (ap is_waiting_request w)
                  ∙ ap (λ k. finished k c1) (o ∙ sym z)),
            )
      ]

-- A connection that is kept alive sends an open file in chunks, with no total count set, and has sent
-- nothing yet. Whatever the socket takes at each call, if it takes something each time and is called
-- more often than there are bytes to send, the connection ends up waiting for its next request, and
-- what it has sent is decoded by calls of `recv_chunked` to the file. The sender's buffer has room for
-- a byte at least beside a chunk's head and tail, and the other end's holds as much as the sender's
-- blocks, which are shorter than 65536 bytes.
pub transfer-decode :
    (cur_time : ℕ) (t : Table) (feed : Option HttpContext) (rs : List Reply) (c : HttpContext)
    (buffer_size : ℕ)
    → IsServing c
    → c.pending ≡ []
    → is_open c.local_fd ≡ true
    → room c ≤ buffer_size
    → room c < 65536
    → All (λ r. 1 ≤ taken r) rs
    → length (outstanding c) < length rs
    → (out : List ℕ) × (c' : HttpContext) × (calls : ℕ) × (transfer cur_time t feed rs c
        ≡ finished out c')
      × (decode calls buffer_size 0 out ≡ some c.local_file)
unfolding outstanding
transfer-decode cur_time t feed rs c buffer_size h e o m u n l =
    let size = length c.local_file in
    let bss = blocks size (room c) c.local_file in
    let (c', f) = transfer-All cur_time t feed rs c n h l in
    (
      outstanding c,
      c',
      suc (length bss),
      f,
      ap (decode (suc (length bss)) buffer_size 0)
            (ap (λ k. k ++ rest_of c) e ∙ file_rest-open c.local_fd (room c) c.local_file o)
          ∙ (decode-chunks buffer_size bss
              (All-blocks size (room c) buffer_size c.local_file h.roomy m u)).0
          ∙ ap some (join-blocks size (room c) c.local_file h.roomy (omega arith)),
    )
