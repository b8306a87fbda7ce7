-- ===== src/Server/Handle/Moves.antt =====
-- The states of a connection, and how a call of handle_connection moves it from one to another.
use mathlib.Core.Path.{subst}
use ffmpeg_streaming.Base.{
  ℕ, ◌+◌, ◌-◌, ◌≡◌, ◌≢◌, arith, refl, ap, ◌∙◌, List, [], ◌∷◌, ◌++◌, Bool, true, false, Option, none,
  some, leb, ltb, ◌==◌, ◌&&◌, ◌||◌, not, if◌then◌else◌, length, take, drop, inl, inr,
}
use ffmpeg_streaming.Base.Int.{negsuc}
use ffmpeg_streaming.Server.{
  State, wait_request, send_header, send_data_header, send_data, send_data_trailer, receive_data,
  wait_feed, close, HttpContext,
}
use ffmpeg_streaming.Server.Receive.{Quiet, again, closed, fails}
use ffmpeg_streaming.Server.Receive.Data.{World, Input}
use ffmpeg_streaming.Server.Send
use ffmpeg_streaming.Server.Send.{http_send_data, Reply, took, busy, broken, Sent, clobbers, sent}
use ffmpeg_streaming.Server.Send.States.{is_sending, lands, http_send_data-lands}
use ffmpeg_streaming.Server.Outcomes
use ffmpeg_streaming.Server.Outcomes.{System, Parsed, loops}
use ffmpeg_streaming.Server.Dispatch.{http_parse_request}
use ffmpeg_streaming.Server.Dispatch.Guards.{is_guarded, is_answered, is_guarded-http_parse_request}
use ffmpeg_streaming.Server.Handle.{
  Events, Handled, drops, keeps, answer, unfinished, fault, Reading, waits, found, refused,
  read_loop, unread, is_request, header_sent, send_head, keep, is_trailer, feed_of, rounds,
  handle_request, handle_header, handle_send, handle_wait, handle_state, handle_connection,
}
use ffmpeg_streaming.Server.Handle.Diagram.{
  Move, rests, answers, receives, awaits_body, awaits_next, begins_data, sends, Moved, Moved-if,
  rests-at,
}

-- reading a request moves nothing
Kept : State → Reading → Type 0
Kept s (waits c) = c.state ≡ s
Kept s (found c rest) = c.state ≡ s
Kept s refused = Unit {0}

Kept-if : (s : State) (b : Bool) (x y : Reading) → Kept s x → Kept s y → Kept s (if b then x else y)
Kept-if s true x y p q = p
Kept-if s false x y p q = q

Kept-unread : (c : HttpContext) (q : Quiet) → Kept c.state (unread c q)
unfolding unread Kept
Kept-unread c again = refl
Kept-unread c closed = Kept-if c.state c.keep_alive (waits c) refused refl tt
Kept-unread c fails = tt

Kept-read_loop : (q : Quiet) (bs : List ℕ) (c : HttpContext) → Kept c.state (read_loop q bs c)
unfolding read_loop Kept
Kept-read_loop q [] c = Kept-unread c q
Kept-read_loop q (b ∷ bs) c =
    let c' : HttpContext = record c { received = c.received ++ b ∷ [] } in
    let full = leb (c.buffer_size - 1) (length c'.received) in
    Kept-if c.state (is_request c'.received) (found c' bs)
      (if full then refused else read_loop q bs c') refl
      (Kept-if c.state full refused (read_loop q bs c') tt (Kept-read_loop q bs c'))

-- a request that is answered leaves its connection to send a header or to receive data
Moved-answered : (t : State) → is_answered t ≡ true → Move wait_request t
unfolding is_answered
Moved-answered send_header h = answers
Moved-answered receive_data h = receives
Moved-answered wait_request h = rests
Moved-answered send_data_header h = absurd (ground (arith, h))
Moved-answered send_data h = absurd (ground (arith, h))
Moved-answered send_data_trailer h = absurd (ground (arith, h))
Moved-answered wait_feed h = absurd (ground (arith, h))
Moved-answered close h = absurd (ground (arith, h))

Moved-answer :
    (s : System) (w : World) (p : Parsed) → is_guarded s p ≡ true → Moved wait_request (answer w p)
unfolding Moved answer is_guarded
Moved-answer s w Outcomes.closes h = tt
Moved-answer s w loops h = refl
Moved-answer s w Outcomes.fault h = inl refl
Moved-answer s w (Outcomes.answers c w' e rest) h = Moved-answered c.state (ground (arith, h))

Moved-reading :
    (sys : System) (w : World) (r : Reading)
    → Kept wait_request r
    → Moved wait_request (elim r [
      | waits c' ↦ keep c' w
      | found c' rest ↦ answer w (http_parse_request sys c' w rest)
      | refused ↦ drops w
    ])
unfolding Moved Kept keep
Moved-reading sys w (waits c) k = rests-at wait_request c.state k
Moved-reading sys w (found c rest) k =
    Moved-answer sys w (http_parse_request sys c w rest)
      (is_guarded-http_parse_request sys c w rest)
Moved-reading sys w refused k = tt

Moved-request :
    (cur_time : ℕ) (sys : System) (i : Input) (ev : Events) (c : HttpContext) (w : World)
    → c.state ≡ wait_request
    → Moved wait_request (handle_request cur_time sys i ev c w)
unfolding handle_request Moved
Moved-request cur_time sys i ev c w e =
    let reading : Handled = elim (read_loop i.quiet i.socket c) [
      | waits c' ↦ keep c' w
      | found c' rest ↦ answer w (http_parse_request sys c' w rest)
      | refused ↦ drops w
    ] in
    Moved-if wait_request (ltb c.timeout cur_time || ev.failed) (drops w)
      (if not ev.readable then keeps c w else reading) tt
      (Moved-if wait_request (not ev.readable) (keeps c w) reading (rests-at wait_request c.state e)
        (Moved-reading sys w (read_loop i.quiet i.socket c) (
          subst (λ s. Kept s (read_loop i.quiet i.socket c)) e
            (Kept-read_loop i.quiet i.socket c))))

-- what sending a header makes of a connection
Headed : Option HttpContext → Type 0
Headed none = Unit {0}
Headed (some c) = Move send_header c.state

Headed-if :
    (b : Bool) (x y : Option HttpContext) → Headed x → Headed y → Headed (if b then x else y)
Headed-if true x y p q = p
Headed-if false x y p q = q

Headed-header_sent : (cur_time : ℕ) (c : HttpContext) → Headed (header_sent cur_time c)
unfolding header_sent Headed
Headed-header_sent cur_time c =
    let alive : HttpContext = record c {
      received = [];
      pending = [];
      timeout = cur_time + 15000;
      state = wait_request;
      hls_idx = negsuc 0;
    } in
    let begun : HttpContext = record c { state = send_data_header; pending = [] } in
    let last : Option HttpContext = if c.http_error == 0 then some begun else none in
    let is_next = c.keep_alive && (not (c.total_count == 0) && leb c.total_count c.data_count) in
    Headed-if (c.http_error == 100) (some (record c { state = receive_data; pending = [] }))
      (if is_next then some alive else last) awaits_body
      (Headed-if is_next (some alive) last awaits_next
        (Headed-if (c.http_error == 0) (some begun) none begins_data tt))

Headed-send_head :
    (cur_time : ℕ) (r : Reply) (c : HttpContext)
    → c.state ≡ send_header
    → Headed (send_head cur_time r c)
unfolding send_head Headed
Headed-send_head cur_time broken c e = tt
Headed-send_head cur_time busy c e = rests-at send_header c.state e
Headed-send_head cur_time (took n) c e =
    let c' : HttpContext = record c {
      pending = drop n c.pending;
      data_count = c.data_count + length (take n c.pending);
    } in
    Headed-if (length c'.pending == 0) (header_sent cur_time c') (some c')
      (Headed-header_sent cur_time c') (rests-at send_header c.state e)

Moved-Headed :
    (w : World) (o : Option HttpContext)
    → Headed o
    → Moved send_header (elim o [ none ↦ drops w | some c' ↦ keep c' w ])
unfolding Moved Headed keep
Moved-Headed w none h = tt
Moved-Headed w (some c) h = h

Moved-header :
    (cur_time : ℕ) (r : Reply) (ev : Events) (c : HttpContext) (w : World)
    → c.state ≡ send_header
    → Moved send_header (handle_header cur_time r ev c w)
unfolding handle_header Moved
Moved-header cur_time r ev c w e =
    let sending : Handled = elim (send_head cur_time r c) [
      | none ↦ drops w
      | some c' ↦ keep c' w
    ] in
    Moved-if send_header ev.failed (drops w) (if not ev.writable then keeps c w else sending) tt (
      Moved-if send_header (not ev.writable) (keeps c w) sending (rests-at send_header c.state e)
        (Moved-Headed w (send_head cur_time r c) (Headed-send_head cur_time r c e)))

Moved-sent :
    (s : State) (w : World) (o : Option Sent)
    → is_sending s ≡ true
    → lands o ≡ true
    → Moved s (elim o [
      | none ↦ unfinished
      | some x ↦ elim x [
        | Send.closes ↦ drops w
        | clobbers ↦ fault
        | sent out c' ↦ if is_trailer c'.state then drops w else keep c' w
      ]
    ])
unfolding Moved keep lands
Moved-sent s w none h l = h
Moved-sent s w (some Send.closes) h l = tt
Moved-sent s w (some clobbers) h l = inr h
Moved-sent s w (some (sent out c)) h l =
    Moved-if s (is_trailer c.state) (drops w) (keep c w) tt (sends h l)

Moved-send :
    (s : State) (cur_time : ℕ) (r : Reply) (ev : Events) (c : HttpContext) (w : World)
    → is_sending s ≡ true
    → c.state ≡ s
    → Moved s (handle_send cur_time r ev c w)
unfolding handle_send Moved
Moved-send s cur_time r ev c w h e =
    let out : Option Sent = http_send_data rounds cur_time w.table (feed_of c w) r c in
    let sending : Handled = elim out [
      | none ↦ unfinished
      | some x ↦ elim x [
        | Send.closes ↦ drops w
        | clobbers ↦ fault
        | sent out c' ↦ if is_trailer c'.state then drops w else keep c' w
      ]
    ] in
    Moved-if s ev.failed (drops w) (if not ev.writable then keeps c w else sending) tt (
      Moved-if s (not ev.writable) (keeps c w) sending (rests-at s c.state e) (
        Moved-sent s w out h
          (http_send_data-lands rounds cur_time w.table (feed_of c w) r c (ap is_sending e ∙ h))))

Moved-state :
    (s : State) (cur_time : ℕ) (sys : System) (i : Input) (r : Reply) (ev : Events)
    (c : HttpContext) (w : World)
    → c.state ≡ s
    → s ≢ receive_data
    → Moved s (handle_state s cur_time sys i r ev c w)
unfolding handle_state handle_wait Moved is_sending
Moved-state wait_request cur_time sys i r ev c w e n = Moved-request cur_time sys i ev c w e
Moved-state send_header cur_time sys i r ev c w e n = Moved-header cur_time r ev c w e
Moved-state send_data cur_time sys i r ev c w e n = Moved-send send_data cur_time r ev c w refl e
Moved-state send_data_header cur_time sys i r ev c w e n =
    Moved-send send_data_header cur_time r ev c w refl e
Moved-state send_data_trailer cur_time sys i r ev c w e n =
    Moved-send send_data_trailer cur_time r ev c w refl e
Moved-state receive_data cur_time sys i r ev c w e n = absurd (n refl)
Moved-state wait_feed cur_time sys i r ev c w e n =
    Moved-if wait_feed (ev.readable || ev.failed) (drops w) (keeps c w) tt
      (rests-at wait_feed c.state e)
Moved-state close cur_time sys i r ev c w e n = tt

-- Of a connection that is not receiving an upload: where a call of handle_connection keeps it, its state
-- is the one before or is moved along the diagram. A request that is answered leads to a header or to the
-- reception of data, a header leads to a body, to the next request or to data, and sending data leads to
-- a state that sends, waits for the feed or waits for the next request. Otherwise the call drops the
-- connection; or it waits for a request and meets a fault or does not return; or it sends data and meets
-- a fault, or the 131 rounds that the model gives to sending are not enough. In the states send_header
-- and wait_feed the call always returns.
pub handle_connection-Moved :
    (cur_time : ℕ) (sys : System) (i : Input) (r : Reply) (ev : Events) (c : HttpContext)
    (w : World)
    → c.state ≢ receive_data
    → Moved c.state (handle_connection cur_time sys i r ev c w)
unfolding handle_connection
handle_connection-Moved cur_time sys i r ev c w n =
    Moved-state c.state cur_time sys i r ev c w refl n
