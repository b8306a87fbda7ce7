-- ===== src/Server/Handle.antt =====
-- ffserver.c: what the server does with one connection that poll reported (handle_connection).
pub mod Pieces
pub mod Diagram
pub mod Moves
use ffmpeg_streaming.Base.{
  ℕ, ◌+◌, ◌-◌, List, [], ◌∷◌, ◌++◌, Bool, true, false, ◌&&◌, ◌||◌, not, Option, none, some, ltb,
  leb, ◌==◌, if◌then◌else◌, length, take, drop, same_bytes,
}
use ffmpeg_streaming.Base.Int.{ℤ, pos, negsuc}
use ffmpeg_streaming.Server.{
  State, wait_request, send_header, send_data_header, send_data, send_data_trailer, receive_data,
  wait_feed, close, HttpContext,
}
use ffmpeg_streaming.Server.Connections.{http_request_timeout, wake_others, put, look}
use ffmpeg_streaming.Server.Receive.{Quiet, again, closed, fails}
use ffmpeg_streaming.Server.Receive.Data
use ffmpeg_streaming.Server.Receive.Data.{World, Input, http_receive_data, complete}
use ffmpeg_streaming.Server.Send.{http_send_data, Reply, took, busy, broken, Sent, clobbers, sent}
use ffmpeg_streaming.Server.Send
use ffmpeg_streaming.Server.Outcomes
use ffmpeg_streaming.Server.Outcomes.{System, Effect, Parsed, closes, loops, answers}
use ffmpeg_streaming.Server.Dispatch.{http_parse_request}

-- what poll reports: POLLIN, POLLOUT, and POLLERR or POLLHUP
pub record Events : Type 0 where
  pub readable : Bool
  pub writable : Bool
  pub failed : Bool

-- What reading a request gives: the request is not whole yet; it is, with the bytes after it; or the
-- connection is closed.
pub data Reading : Type 0 where
  waits : HttpContext → Reading
  found : HttpContext → List ℕ → Reading
  refused : Reading

-- the bytes end with those of `suffix`
pub ends_with : List ℕ → List ℕ → Bool
ends_with suffix bs =
    leb (length suffix) (length bs) && same_bytes (drop (length bs - length suffix) bs) suffix

-- an empty line ends the request
pub is_request : List ℕ → Bool
unfolding ends_with
is_request bs = ends_with (10 ∷ 10 ∷ []) bs || ends_with (13 ∷ 10 ∷ 13 ∷ 10 ∷ []) bs

-- recv gives nothing: a connection that is kept alive waits even if the other end has closed
pub unread : HttpContext → Quiet → Reading
unread c again = waits c
unread c closed = if c.keep_alive then waits c else refused
unread c fails = refused

-- `read_loop`, over the bytes in the socket
pub read_loop : Quiet → List ℕ → HttpContext → Reading
unfolding is_request unread
read_loop q [] c = unread c q
read_loop q (b ∷ bs) c =
    let c' : HttpContext = record c { received = c.received ++ b ∷ [] } in
    let rest = read_loop q bs c' in
    if is_request c'.received
    then found c' bs
    else if leb (c.buffer_size - 1) (length c'.received)
    then refused
    else rest

-- What a call leads to: -1, or 0, with the server's state; 0 after a request, with what else was done
-- and what the socket still holds; a fault; or a loop with no end. `unfinished`: the rounds given to
-- http_send_data are not enough.
pub data Handled : Type 0 where
  drops : World → Handled
  keeps : HttpContext → World → Handled
  answered : HttpContext → World → Effect → List ℕ → Handled
  fault hangs unfinished : Handled

-- once all of a header is sent
pub header_sent : ℕ → HttpContext → Option HttpContext
header_sent cur_time c =
    if c.http_error == 100
    then some (record c { state = receive_data; pending = [] })
    else if c.keep_alive && (not (c.total_count == 0) && leb c.total_count c.data_count)
    then some (record c {
      received = [];
      pending = [];
      timeout = cur_time + http_request_timeout;
      state = wait_request;
      hls_idx = negsuc 0;
    })
    else if c.http_error == 0
    then some (record c { state = send_data_header; pending = [] })
    else none

-- the bytes of a header; `none` closes
pub send_head : ℕ → Reply → HttpContext → Option HttpContext
unfolding header_sent
send_head cur_time broken c = none
send_head cur_time busy c = some c
send_head cur_time (took n) c =
    let c' : HttpContext = record c {
      pending = drop n c.pending;
      data_count = c.data_count + length (take n c.pending);
    } in
    if length c'.pending == 0 then header_sent cur_time c' else some c'

is_trailer : State → Bool
is_trailer send_data_trailer = true
is_trailer _ = false

-- the connection at an address
pub find : ℕ → List HttpContext → Option HttpContext
find a [] = none
find a (d ∷ cs) = let rest = find a cs in if d.address == a then some d else rest

feed_of : HttpContext → World → Option HttpContext
unfolding find
feed_of c w = elim c.feed_ctx [ none ↦ none | some a ↦ find a w.connections ]

-- the connection and its place in the list
keep : HttpContext → World → Handled
keep c w = keeps c (record w { connections = put c w.connections })

-- what follows `http_parse_request`
pub answer : World → Parsed → Handled
answer w closes = drops w
answer w loops = hangs
answer w Outcomes.fault = fault
answer w (answers c w' e rest) = answered c w' e rest

pub handle_request : ℕ → System → Input → Events → HttpContext → World → Handled
unfolding read_loop keep answer
handle_request cur_time sys i ev c w =
    if ltb c.timeout cur_time || ev.failed
    then drops w
    else if not ev.readable
    then keeps c w
    else elim (read_loop i.quiet i.socket c) [
      | waits c' ↦ keep c' w
      | found c' rest ↦ answer w (http_parse_request sys c' w rest)
      | refused ↦ drops w
    ]

pub handle_header : ℕ → Reply → Events → HttpContext → World → Handled
unfolding send_head keep
handle_header cur_time reply ev c w =
    if ev.failed
    then drops w
    else if not ev.writable
    then keeps c w
    else elim (send_head cur_time reply c) [ none ↦ drops w | some c' ↦ keep c' w ]

-- the rounds that http_send_data is given: a ring of empty packets, and three more
abbrev pub rounds : ℕ
rounds = 131

pub handle_send : ℕ → Reply → Events → HttpContext → World → Handled
unfolding is_trailer feed_of keep
handle_send cur_time reply ev c w =
    if ev.failed
    then drops w
    else if not ev.writable
    then keeps c w
    else elim (http_send_data rounds cur_time w.table (feed_of c w) reply c) [
      | none ↦ unfinished
      | some s ↦ elim s [
        | Send.closes ↦ drops w
        | clobbers ↦ fault
        | sent out c' ↦ if is_trailer c'.state then drops w else keep c' w
      ]
    ]

-- the other end of an upload is gone
pub abandon : HttpContext → World → World
abandon c w = record {
  table = elim c.hls_idx [ pos n ↦ complete w.table n | negsuc n ↦ w.table ];
  connections = wake_others c send_data_trailer w.connections;
}

pub handle_receive : Input → Events → HttpContext → World → Handled
unfolding abandon
handle_receive i ev c w =
    if ev.failed
    then drops (abandon c w)
    else if not ev.readable
    then keeps c w
    else elim (http_receive_data i c w) [
      | Data.closes w' rest ↦ drops w'
      | Data.continues w' rest ↦ keeps (look c w'.connections) w'
      | Data.fault ↦ fault
    ]

pub handle_wait : Events → HttpContext → World → Handled
handle_wait ev c w = if ev.readable || ev.failed then drops w else keeps c w

pub handle_state : State → ℕ → System → Input → Reply → Events → HttpContext → World → Handled
unfolding handle_request handle_header handle_send handle_receive handle_wait
handle_state wait_request cur_time sys i reply ev c w = handle_request cur_time sys i ev c w
handle_state send_header cur_time sys i reply ev c w = handle_header cur_time reply ev c w
handle_state send_data cur_time sys i reply ev c w = handle_send cur_time reply ev c w
handle_state send_data_header cur_time sys i reply ev c w = handle_send cur_time reply ev c w
handle_state send_data_trailer cur_time sys i reply ev c w = handle_send cur_time reply ev c w
handle_state receive_data cur_time sys i reply ev c w = handle_receive i ev c w
handle_state wait_feed cur_time sys i reply ev c w = handle_wait ev c w
handle_state close cur_time sys i reply ev c w = drops w

-- `handle_connection`
pub handle_connection : ℕ → System → Input → Reply → Events → HttpContext → World → Handled
unfolding handle_state
handle_connection cur_time sys i reply ev c w = handle_state c.state cur_time sys i reply ev c w
