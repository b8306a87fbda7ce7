-- ===== src/Server/Send/States.antt =====
-- The states that http_send_data leads a sending connection to.
use ffmpeg_streaming.Base.{
  ℕ, zero, suc, ◌≡◌, refl, ap, ◌∙◌, Bool, true, false, Option, none, some, leb, ◌==◌, if◌then◌else◌,
  arith, length,
}
use ffmpeg_streaming.Server.{
  State, wait_request, send_header, send_data_header, send_data, send_data_trailer, receive_data,
  wait_feed, close, HttpContext,
}
use ffmpeg_streaming.Server.Segments
use ffmpeg_streaming.Server.Segments.{Table}
use ffmpeg_streaming.Server.Packets.{sff_read, sff_parse}
use ffmpeg_streaming.Server.Send.{
  http_send_data, proceed, prepare, prepare_header, prepare_packet, prepare_segment, sff_prepare,
  sff_prepare_data, local_prepare_data, stage, Prepared, ready, changed, error, Reply, took, busy,
  broken, Sent, closes, clobbers, sent, restart, send_pending, source, from_segment, from_packets,
  from_file, in_buffer, chunk, room,
}

unfoldable pub is_sending : State → Bool
is_sending send_data = true
is_sending send_data_header = true
is_sending send_data_trailer = true
is_sending _ = false

-- where a sending connection goes
unfoldable pub follows : State → Bool
follows wait_feed = true
follows wait_request = true
follows s = is_sending s

-- a preparation that goes on is for a sending connection, one that stops leads to a state that follows
good : Prepared → Bool
unfolding is_sending follows
good (error c) = true
good (ready c) = is_sending c.state
good (changed c) = follows c.state

good_local :
    (cur_time size : ℕ) (c : HttpContext)
    → is_sending c.state ≡ true
    → good (local_prepare_data cur_time size c) ≡ true
unfolding good local_prepare_data
good_local cur_time size c h = ground (arith, h)

good_segment :
    (t : Table) (c : HttpContext) → is_sending c.state ≡ true → good (prepare_segment t c) ≡ true
unfolding good prepare_segment Segments.read
good_segment t c h = ground (arith, h)

good_header : (c : HttpContext) (f : Option HttpContext) → good (prepare_header c f) ≡ true
unfolding good prepare_header sff_read
good_header c none = refl
good_header c (some f) = ground arith

good_packet :
    (c : HttpContext) (f : Option HttpContext)
    → is_sending c.state ≡ true
    → good (prepare_packet c f) ≡ true
unfolding good prepare_packet stage sff_read sff_parse
good_packet c none e = refl
good_packet c (some f) e = ground (arith, e)

good_sff :
    (s : State) (c : HttpContext) (f : Option HttpContext)
    → is_sending c.state ≡ true
    → good (sff_prepare s c f) ≡ true
unfolding sff_prepare good
good_sff send_data_header c f h = good_header c f
good_sff send_data c f h = good_packet c f h
good_sff send_data_trailer c f h = refl
good_sff wait_request c f h = refl
good_sff send_header c f h = refl
good_sff receive_data c f h = refl
good_sff wait_feed c f h = refl
good_sff close c f h = refl

good-prepare :
    (cur_time : ℕ) (t : Table) (f : Option HttpContext) (c : HttpContext)
    → is_sending c.state ≡ true
    → good (prepare cur_time t f c) ≡ true
unfolding prepare sff_prepare_data
good-prepare cur_time t f c h =
    elim (source c)
      as (λ s.
        good (elim s [
          | from_segment ↦ prepare_segment t c
          | from_packets ↦ sff_prepare_data c f
          | from_file ↦ local_prepare_data cur_time (room c) c
        ])
        ≡ true) [
          | from_segment ↦ good_segment t c h
          | from_packets ↦ good_sff c.state c f h
          | from_file ↦ good_local cur_time (room c) c h
        ]

-- a connection that was sent to is in a state that follows
unfoldable pub lands : Option Sent → Bool
unfolding follows
lands none = true
lands (some closes) = true
lands (some clobbers) = true
lands (some (sent out c)) = follows c.state

follows-sending : (s : State) → is_sending s ≡ true → follows s ≡ true
unfolding follows is_sending
follows-sending send_data h = refl
follows-sending send_data_header h = refl
follows-sending send_data_trailer h = refl
follows-sending wait_request h = refl
follows-sending wait_feed h = refl
follows-sending send_header h = h
follows-sending receive_data h = h
follows-sending close h = h

restart-state : (s : State) (c : HttpContext) → (restart s c).state ≡ c.state
unfolding restart
restart-state send_data c = refl
restart-state send_data_header c = refl
restart-state send_data_trailer c = refl
restart-state wait_request c = refl
restart-state wait_feed c = refl
restart-state send_header c = refl
restart-state receive_data c = refl
restart-state close c = refl

lands-pending :
    (r : Reply) (c : HttpContext)
    → is_sending c.state ≡ true
    → lands (some (send_pending r c)) ≡ true
unfolding send_pending lands
lands-pending (took n) c h = follows-sending c.state h
lands-pending busy c h = follows-sending c.state h
lands-pending broken c h = refl

lands-if :
    (b : Bool) (x y : Option Sent)
    → lands x ≡ true
    → lands y ≡ true
    → lands (if b then x else y) ≡ true
lands-if true x y p q = p
lands-if false x y p q = q

lands-proceed :
    (again : HttpContext → Option Sent) (c : HttpContext) (p : Prepared)
    → ((c' : HttpContext) → is_sending c'.state ≡ true → lands (again c') ≡ true)
    → good p ≡ true
    → lands (proceed again c p) ≡ true
unfolding proceed lands good follows
lands-proceed again c (error c') step h = refl
lands-proceed again c (changed c') step h = ap follows (restart-state c'.state c') ∙ h
lands-proceed again c (ready c') step h =
    elim (c.tr_encoding == 1)
      as (λ b.
        lands (elim b [
          | true ↦
              if in_buffer c
              then again (record c' { pending = chunk c'.pending })
              else some clobbers
          | false ↦ again c'
        ])
        ≡ true) [
          | true ↦
              lands-if (in_buffer c) (again (record c' { pending = chunk c'.pending }))
                (some clobbers) (step (record c' { pending = chunk c'.pending }) h) refl
          | false ↦ step c' h
        ]

-- Sending leads a connection that is sending to a state in which it sends, waits for its feed, or waits
-- for its next request.
pub http_send_data-lands :
    (fuel cur_time : ℕ) (t : Table) (f : Option HttpContext) (r : Reply) (c : HttpContext)
    → is_sending c.state ≡ true
    → lands (http_send_data fuel cur_time t f r c) ≡ true
unfolding http_send_data lands
http_send_data-lands zero cur_time t f r c h = refl
http_send_data-lands (suc fuel) cur_time t f r c h =
    lands-if (leb 1 (length c.pending)) (some (send_pending r c))
      (proceed (http_send_data fuel cur_time t f r) c (prepare cur_time t f c))
      (lands-pending r c h)
      (lands-proceed (http_send_data fuel cur_time t f r) c (prepare cur_time t f c)
        (http_send_data-lands fuel cur_time t f r) (good-prepare cur_time t f c h))
