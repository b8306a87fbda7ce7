-- ===== src/Server/Send/Rounds.antt =====
-- One round of http_send_data.
use ffmpeg_streaming.Base.{
  ℕ, suc, ◌+◌, ◌≡◌, ◌≤◌, refl, ap, ◌∙◌, inl, inr, [], true, false, ◌==◌, if◌then◌else◌, Option,
  some, leb, length, take, drop, arith,
}
use ffmpeg_streaming.Base.Int.{negsuc}
use ffmpeg_streaming.Server.{HttpContext, wait_request}
use ffmpeg_streaming.Server.Segments.{Table}
use ffmpeg_streaming.Server.Connections.{http_request_timeout}
use ffmpeg_streaming.Server.Send.{
  source, from_file, http_send_data, Prepared, proceed, prepare, local_prepare_data, in_buffer,
  is_open, send_pending, restart, room, chunk, ready, changed, Reply, sent,
}
use ffmpeg_streaming.Server.Send.Files.{IsServing}

module _ (cur_time : ℕ) (t : Table) (feed : Option HttpContext) where
  pub send-pending :
      (fuel : ℕ) (reply : Reply) (c : HttpContext)
      → 1 ≤ length c.pending
      → http_send_data (suc fuel) cur_time t feed reply c ≡ some (send_pending reply c)
  unfolding http_send_data
  send-pending fuel reply c h = ground (arith, h)

  send-prepared :
      (fuel : ℕ) (reply : Reply) (c : HttpContext) (p : Prepared)
      → c.pending ≡ []
      → prepare cur_time t feed c ≡ p
      → http_send_data (suc fuel) cur_time t feed reply c
        ≡ proceed (http_send_data fuel cur_time t feed reply) c p
  unfolding http_send_data
  send-prepared fuel reply c p e q =
      let idle : leb 1 (length c.pending) ≡ false = ap (λ k. leb 1 (length k)) e in
      rw (idle, http_send_data) (ap (proceed (http_send_data fuel cur_time t feed reply) c) q)

  pub send-ready :
      (fuel : ℕ) (reply : Reply) (c c' : HttpContext)
      → c.pending ≡ []
      → prepare cur_time t feed c ≡ ready c'
      → c.tr_encoding ≡ 1
      → in_buffer c ≡ true
      → http_send_data (suc fuel) cur_time t feed reply c
        ≡ http_send_data fuel cur_time t feed reply (record c' { pending = chunk c'.pending })
  unfolding proceed
  send-ready fuel reply c c' e p k b =
      send-prepared fuel reply c (ready c') e p ∙ rw (k, proceed) (rw (b, proceed) refl)

  pub send-changed :
      (fuel : ℕ) (reply : Reply) (c c' : HttpContext)
      → c.pending ≡ []
      → prepare cur_time t feed c ≡ changed c'
      → http_send_data (suc fuel) cur_time t feed reply c ≡ some (sent [] (restart c'.state c'))
  unfolding proceed
  send-changed fuel reply c c' e p = send-prepared fuel reply c (changed c') e p

  pub local-open :
      (c : HttpContext) (size : ℕ)
      → is_open c.local_fd ≡ true
      → c.total_count ≡ 0
      → local_prepare_data cur_time size c ≡ (
          if length (take size c.local_file) == 0
          then ready
              (record c { local_fd = negsuc 1; pending = []; local_file = drop size c.local_file })
          else ready
              (record c { pending = take size c.local_file; local_file = drop size c.local_file }))
  unfolding local_prepare_data
  local-open c size l u = ground (arith, l, u)

  pub local-shut :
      (c : HttpContext) (size : ℕ)
      → is_open c.local_fd ≡ false
      → c.keep_alive ≡ true
      → local_prepare_data cur_time size c
        ≡ changed (record c { timeout = cur_time + http_request_timeout; state = wait_request })
  unfolding local_prepare_data
  local-shut c size l k = ground (arith, l, k)

  pub source-file : (c : HttpContext) → IsServing c → source c ≡ from_file
  unfolding source
  source-file c h =
      let (j, which) = h.file in
      rw (h.no_segment, source)
        (elim which [ inl l ↦ rw (l, source) refl | inr l ↦ rw (l, source) (ground arith) ])

  pub prepare-local :
      (c : HttpContext)
      → IsServing c
      → prepare cur_time t feed c ≡ local_prepare_data cur_time (room c) c
  unfolding prepare
  prepare-local c h = rw (source-file c h, prepare) refl

  pub in_buffer-local : (c : HttpContext) → IsServing c → in_buffer c ≡ true
  unfolding in_buffer
  in_buffer-local c h = rw (source-file c h, in_buffer) refl
