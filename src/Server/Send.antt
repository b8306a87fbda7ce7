-- ===== src/Server/Send.antt =====
-- ffserver.c: what a connection sends (sff_prepare_data, local_prepare_data, http_send_data). Reads of
-- a local file succeed; `feed` is the connection that feed_ctx points to.
pub mod Framing
pub mod Files
pub mod Rounds
pub mod Calls
pub mod Transfer
pub mod States
use ffmpeg_streaming.Base.{
  ℕ, zero, suc, ◌+◌, ◌-◌, ◌/◌, ◌%◌, ◌^◌, List, [], ◌∷◌, ◌++◌, Bool, true, false, ◌&&◌, ◌||◌, not,
  Option, none, some, ltb, leb, ◌==◌, if◌then◌else◌, length, take, drop,
}
use ffmpeg_streaming.Base.Int.{ℤ, pos, negsuc}
use ffmpeg_streaming.Server.{
  State, wait_request, send_data, send_data_header, send_data_trailer, wait_feed, HttpContext,
}
use ffmpeg_streaming.Server.Segments
use ffmpeg_streaming.Server.Segments.{Table}
use ffmpeg_streaming.Server.Packets.{sff_read, sff_parse, StreamPacket}
use ffmpeg_streaming.Server.Connections.{http_request_timeout}

-- what a preparation returns: below 0, 0, or above 0
pub data Prepared : Type 0 where
  error : HttpContext → Prepared
  ready : HttpContext → Prepared
  changed : HttpContext → Prepared

-- -1 as the stream index of a packet ends the stream
abbrev pub last_stream : ℕ
last_stream = 2 ^ 32 - 1

prepare_header : HttpContext → Option HttpContext → Prepared
prepare_header c none = changed (record c { state = wait_feed })
prepare_header c (some f) =
    let (sff, c') = sff_read c f 1 in
    elim sff [
      | none ↦ changed (record c' { state = wait_feed })
      | some s ↦
          ready (record c' { pending = s.bytes; state = send_data; last_packet_sent = false })
    ]

-- a packet in the buffer; the stream ends with the index -1
stage : HttpContext → StreamPacket → HttpContext
stage c pkt = record c {
  pending = pkt.bytes;
  state = if pkt.stream_index == last_stream then send_data_trailer else c.state;
}

prepare_packet : HttpContext → Option HttpContext → Prepared
unfolding stage
prepare_packet c none = changed (record c { state = wait_feed })
prepare_packet c (some f) =
    let (sff, c') = sff_read c f 2 in
    elim sff [
      | none ↦ changed (record c' { state = wait_feed })
      | some s ↦
          let (r, parsed) = sff_parse s in
          elim parsed [ none ↦ error c' | some pkt ↦ ready (stage c' pkt) ]
    ]

-- `sff_prepare_data`
sff_prepare : State → HttpContext → Option HttpContext → Prepared
unfolding prepare_header prepare_packet
sff_prepare send_data_header c feed = prepare_header c feed
sff_prepare send_data c feed = prepare_packet c feed
sff_prepare _ c feed = error (record c { last_packet_sent = true })

pub sff_prepare_data : HttpContext → Option HttpContext → Prepared
unfolding sff_prepare
sff_prepare_data c feed = sff_prepare c.state c feed

unfoldable pub is_open : ℤ → Bool
is_open (pos n) = true
is_open (negsuc n) = false

-- `local_prepare_data`, with room for `size` bytes
pub local_prepare_data : ℕ → ℕ → HttpContext → Prepared
unfolding is_open
local_prepare_data cur_time size c =
    let complete = not (c.total_count == 0) && leb c.total_count c.data_count in
    if c.keep_alive && (complete || not (is_open c.local_fd))
    then changed (record c { timeout = cur_time + http_request_timeout; state = wait_request })
    else if not (is_open c.local_fd)
    then error c
    else let bytes = take size c.local_file in
      let left = drop size c.local_file in
      if length bytes == 0
      then ready (record c { local_fd = negsuc 1; pending = []; local_file = left })
      else ready (record c { pending = bytes; local_file = left })

-- the digits of `%lx`, the highest first, as numbers; more rounds than `n` are enough
unfoldable pub digits : ℕ → ℕ → List ℕ
digits zero n = []
digits (suc fuel) n =
    let high = digits fuel (n / 16) in if ltb n 16 then n ∷ [] else high ++ (n % 16) ∷ []

-- `%x` of a digit
unfoldable pub hex_char : ℕ → ℕ
hex_char d = if ltb d 10 then b'0' + d else b'a' + d - 10

unfoldable pub hex_text : List ℕ → List ℕ
hex_text [] = []
hex_text (d ∷ ds) = hex_char d ∷ hex_text ds

-- a chunk: its size, the bytes, and the two ends of lines
unfoldable pub chunk : List ℕ → List ℕ
chunk bs = hex_text (digits (suc (length bs)) (length bs)) ++ 13 ∷ 10 ∷ (bs ++ 13 ∷ 10 ∷ [])

-- CHUNK_HEAD_LEN, and the room in the buffer that is left beside the head and the tail of a chunk
abbrev pub chunk_head_len : ℕ
chunk_head_len = 8

abbrev pub room : HttpContext → ℕ
room c = c.buffer_size - (chunk_head_len + 2)

-- what `send` answers: it took some bytes, EAGAIN or EINTR, or another error
pub data Reply : Type 0 where
  took : ℕ → Reply
  busy broken : Reply

-- What `http_send_data` does: it returns -1, or 0 with the bytes that the socket took. It clobbers
-- memory where it writes a chunk's head and tail around bytes that are not in the buffer.
pub data Sent : Type 0 where
  closes clobbers : Sent
  sent : List ℕ → HttpContext → Sent

-- where the bytes to send come from; -2 as `local_fd` is a file that was closed at its end
pub data Source : Type 0 where
  from_segment from_packets from_file : Source

pub source : HttpContext → Source
source c = elim c.hls_idx [
  | pos i ↦ from_segment
  | negsuc i ↦ elim c.local_fd [
    | pos j ↦ from_file
    | negsuc j ↦ if j == 0 then from_packets else from_file
  ]
]

-- the answer of `hls_read`
prepare_segment : Table → HttpContext → Prepared
prepare_segment t c =
    let (r, c') = Segments.read t c in
    elim r [ pos n ↦ if n == 0 then ready c' else changed c' | negsuc n ↦ error c' ]

-- the bytes to send next
pub prepare : ℕ → Table → Option HttpContext → HttpContext → Prepared
unfolding source prepare_segment sff_prepare_data local_prepare_data
prepare cur_time t feed c = elim (source c) [
  | from_segment ↦ prepare_segment t c
  | from_packets ↦ sff_prepare_data c feed
  | from_file ↦ local_prepare_data cur_time (room c) c
]

-- whether the bytes prepared are in the connection's own buffer
pub in_buffer : HttpContext → Bool
unfolding source
in_buffer c = elim (source c) [ from_segment ↦ false | from_packets ↦ false | from_file ↦ true ]

-- the branch that sends
pub send_pending : Reply → HttpContext → Sent
send_pending broken c = closes
send_pending busy c = sent [] c
send_pending (took n) c =
    sent (take n c.pending) (record c {
      pending = drop n c.pending;
      data_count = c.data_count + length (take n c.pending);
    })

-- a connection that waits for its next request begins with an empty buffer
pub restart : State → HttpContext → HttpContext
restart wait_request c = record c { received = []; pending = [] }
restart _ c = c

-- what is done with the bytes prepared; `again` is the next round
pub proceed : (HttpContext → Option Sent) → HttpContext → Prepared → Option Sent
unfolding in_buffer restart
proceed again c (error c') = some closes
proceed again c (changed c') = some (sent [] (restart c'.state c'))
proceed again c (ready c') = elim (c.tr_encoding == 1) [
  | true ↦ if in_buffer c then again (record c' { pending = chunk c'.pending }) else some clobbers
  | false ↦ again c'
]

-- `http_send_data`; `none`: the rounds given are not enough
pub http_send_data : ℕ → ℕ → Table → Option HttpContext → Reply → HttpContext → Option Sent
unfolding prepare proceed send_pending
http_send_data zero cur_time t feed reply c = none
http_send_data (suc fuel) cur_time t feed reply c =
    if leb 1 (length c.pending)
    then some (send_pending reply c)
    else proceed (http_send_data fuel cur_time t feed reply) c (prepare cur_time t feed c)
