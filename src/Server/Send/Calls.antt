-- ===== src/Server/Send/Calls.antt =====
-- One call of http_send_data on a connection that sends a file in chunks.
use ffmpeg_streaming.Base.{
  ℕ, ◌+◌, ◌≡◌, ◌≤◌, ◌≢◌, refl, sym, ap, ◌∙◌, ◌⊎◌, inl, inr, List, [], ◌++◌, Bool-cases, true, false,
  ◌==◌, Option, some, length, take, drop, arith, append-nil, append_assoc, length-take,
  take-append-drop,
}
use ffmpeg_streaming.Base.Int.{negsuc}
use ffmpeg_streaming.Server.{HttpContext, wait_request}
use ffmpeg_streaming.Server.Segments.{Table}
use ffmpeg_streaming.Server.Connections.{http_request_timeout}
use ffmpeg_streaming.Server.Send.{
  http_send_data, is_open, send_pending, restart, room, chunk, Reply, took, busy, broken, sent,
}
use ffmpeg_streaming.Server.Send.Files.{
  file_rest, rest_of, outstanding, IsServing, file_rest-more, file_rest-end, file_rest-shut,
  List-cases, chunk-some,
}
use ffmpeg_streaming.Server.Send.Rounds.{
  send-pending, send-ready, send-changed, local-open, local-shut, prepare-local, in_buffer-local,
}

-- how many bytes the socket takes
abbrev pub taken : Reply → ℕ
taken (took n) = n
taken busy = 0
taken broken = 0

module _ (cur_time : ℕ) (t : Table) (feed : Option HttpContext) where
  -- what a call does that does not end the transfer, and what one does that ends it
  unfoldable pub Going : Reply → HttpContext → List ℕ → HttpContext → Type 0
  Going reply c out c' =
      IsServing c' × (out ++ outstanding c' ≡ outstanding c) × (1 ≤ taken reply → 1 ≤ length out)

  unfoldable pub Ending : HttpContext → List ℕ → HttpContext → Type 0
  Ending c out c' = (c'.state ≡ wait_request) × (out ≡ []) × (outstanding c ≡ [])

  Going-pending :
      (reply : Reply) (c : HttpContext)
      → reply ≢ broken
      → IsServing c
      → 1 ≤ length c.pending
      → (out : List ℕ) × (c' : HttpContext) × (send_pending reply c ≡ sent out c')
        × Going reply c out c'
  unfolding send_pending Going outstanding
  Going-pending broken c r h l = absurd (r refl)
  Going-pending busy c r h l = ([], c, refl, (h, refl, λ k. absurd (omega arith)))
  Going-pending (took n) c r h l = (
    take n c.pending,
    _,
    refl,
    (
      record {
        no_segment = h.no_segment;
        alive = h.alive;
        unlimited = h.unlimited;
        chunked = h.chunked;
        roomy = h.roomy;
        sending = h.sending;
        file = h.file;
      },
      sym (append_assoc (take n c.pending) (drop n c.pending) (rest_of c))
          ∙ ap (λ k. k ++ rest_of c) (take-append-drop n c.pending),
      λ m. omega (arith, length-take n c.pending),
    ),
  )

  load-piece :
      (reply : Reply) (c : HttpContext)
      → IsServing c
      → c.pending ≡ []
      → is_open c.local_fd ≡ true
      → 1 ≤ length c.local_file
      → (c1 : HttpContext) × (http_send_data 2 cur_time t feed reply c
          ≡ http_send_data 1 cur_time t feed reply c1)
        × IsServing c1
        × (1 ≤ length c1.pending)
        × (outstanding c1 ≡ outstanding c)
  unfolding outstanding
  load-piece reply c h e o l =
      let piece = take (room c) c.local_file in
      let left = drop (room c) c.local_file in
      let some_piece : (length piece == 0) ≡ false =
        ground (arith, length-take (room c) c.local_file, h.roomy, l) in
      (
        record c { pending = chunk piece; local_file = left },
        send-ready cur_time t feed 1 reply c (record c { pending = piece; local_file = left }) e
            (prepare-local cur_time t feed c h
              ∙ local-open cur_time t feed c (room c) o h.unlimited
              ∙ rw some_piece refl)
            h.chunked (in_buffer-local cur_time t feed c h),
        record {
          no_segment = h.no_segment;
          alive = h.alive;
          unlimited = h.unlimited;
          chunked = h.chunked;
          roomy = h.roomy;
          sending = h.sending;
          file = h.file;
        },
        chunk-some piece,
        sym (
            ap (λ k. k ++ rest_of c) e
            ∙ file_rest-more c.local_fd (room c) c.local_file o h.roomy l),
      )

  load-end :
      (reply : Reply) (c : HttpContext)
      → IsServing c
      → c.pending ≡ []
      → is_open c.local_fd ≡ true
      → c.local_file ≡ []
      → (c1 : HttpContext) × (http_send_data 2 cur_time t feed reply c
          ≡ http_send_data 1 cur_time t feed reply c1)
        × IsServing c1
        × (1 ≤ length c1.pending)
        × (outstanding c1 ≡ outstanding c)
  unfolding outstanding file_rest
  load-end reply c h e o l =
      let no_piece : (length (take (room c) c.local_file) == 0) ≡ true =
        ground (arith, length-take (room c) c.local_file, ap length l) in
      (
        record c {
          local_fd = negsuc 1;
          pending = chunk [];
          local_file = drop (room c) c.local_file;
        },
        send-ready cur_time t feed 1 reply c
            (record c {
              local_fd = negsuc 1;
              pending = [];
              local_file = drop (room c) c.local_file;
            })
            e
            (prepare-local cur_time t feed c h
              ∙ local-open cur_time t feed c (room c) o h.unlimited
              ∙ rw no_piece refl)
            h.chunked (in_buffer-local cur_time t feed c h),
        record {
          no_segment = h.no_segment;
          alive = h.alive;
          unlimited = h.unlimited;
          chunked = h.chunked;
          roomy = h.roomy;
          sending = h.sending;
          file = (0, inr refl);
        },
        chunk-some [],
        append-nil (chunk [])
            ∙ sym (ap (λ k. k ++ rest_of c) e ∙ file_rest-end c.local_fd (room c) c.local_file o l),
      )

  Going-loaded :
      (reply : Reply) (c : HttpContext)
      → reply ≢ broken
      → ((c1 : HttpContext) × (http_send_data 2 cur_time t feed reply c
            ≡ http_send_data 1 cur_time t feed reply c1)
          × IsServing c1
          × (1 ≤ length c1.pending)
          × (outstanding c1 ≡ outstanding c))
      → (out : List ℕ) × (c' : HttpContext) × (http_send_data 2 cur_time t feed reply c
          ≡ some (sent out c'))
        × Going reply c out c'
  unfolding Going
  Going-loaded reply c r (c1, e, h, l, o) =
      let (out, c', s, (h', p, q)) = Going-pending reply c1 r h l in
      (out, c', e ∙ send-pending cur_time t feed 0 reply c1 l ∙ ap some s, (h', p ∙ o, q))

  -- one call
  pub step-serving :
      (reply : Reply) (c : HttpContext)
      → reply ≢ broken
      → IsServing c
      → (out : List ℕ) × (c' : HttpContext) × (http_send_data 2 cur_time t feed reply c
          ≡ some (sent out c'))
        × (Going reply c out c' ⊎ Ending c out c')
  unfolding restart Ending outstanding
  step-serving reply c r h = elim (List-cases c.pending) [
    | inr l ↦
        let (out, c', e, g) = Going-pending reply c r h l in
        (out, c', send-pending cur_time t feed 1 reply c l ∙ ap some e, inl g)
    | inl e ↦ elim (Bool-cases (is_open c.local_fd)) [
      | inl o ↦
          let (out, c', s, g) = Going-loaded reply c r (elim (List-cases c.local_file) [
            | inl n ↦ load-end reply c h e o n
            | inr l ↦ load-piece reply c h e o l
          ]) in
          (out, c', s, inl g)
      | inr o ↦ (
        [],
        _,
        send-changed cur_time t feed 1 reply c
            (record c { timeout = cur_time + http_request_timeout; state = wait_request }) e
            (prepare-local cur_time t feed c h ∙ local-shut cur_time t feed c (room c) o h.alive),
        inr (
          refl,
          refl,
          ap (λ k. k ++ rest_of c) e ∙ file_rest-shut c.local_fd (room c) c.local_file o,
        ),
      )
    ]
  ]
