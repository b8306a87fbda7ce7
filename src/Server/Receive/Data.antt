-- ===== src/Server/Receive/Data.antt =====
-- ffserver.c: http_receive_data of a connection that uploads, in the server's state: its list of
-- connections and its table of segments.
pub mod Upload
pub mod Stored
pub mod Whole
use ffmpeg_streaming.Base.{
  ℕ, zero, suc, ◌+◌, List, [], ◌∷◌, ◌++◌, Bool, true, false, ◌&&◌, ◌||◌, not, Option, none, some,
  ltb, ◌==◌, if◌then◌else◌, length, take, drop, set,
}
use ffmpeg_streaming.Base.Int.{pos, negsuc, ltb_ℤ, pos_part}
use ffmpeg_streaming.Server.{
  State, send_data, send_data_header, send_data_trailer, Sff, HttpContext,
}
use ffmpeg_streaming.Server.Chunks.{recv_chunked, failed, eof, dry, overruns, got}
use ffmpeg_streaming.Server.Segments
use ffmpeg_streaming.Server.Segments.{Table, segment}
use ffmpeg_streaming.Server.Connections.{wake_others, put, look}
use ffmpeg_streaming.Server.Response.{prepare_response}
use ffmpeg_streaming.Server.Receive.{Quiet, again, closed, fails, receive_packet, error, receipt}
use ffmpeg_streaming.Server.Receive

-- `first_http_ctx` and `s_hls`
pub record World : Type 0 where
  pub table : Table
  pub connections : List HttpContext

-- What a call meets: the bytes in the socket and what recv says once there are none, errno from
-- earlier, the bytes left over in the connection's buffer, whether av_realloc succeeds, and how many of
-- the bytes a write to a file takes.
pub record Input : Type 0 where
  pub socket : List ℕ
  pub quiet : Quiet
  pub errno : Quiet
  pub buffer : List ℕ
  pub allocated : Bool
  pub disk : List ℕ → ℕ

-- what one reception gives: bytes, or none and why, with what the socket still holds
pub data Piece : Type 0 where
  piece : List ℕ → HttpContext → List ℕ → Piece
  no_piece : Quiet → HttpContext → List ℕ → Piece
  faults : Piece

-- recv's 0 is the end of the stream in the body of a chunk, an error of recv_chunked in its header
head_quiet : Quiet → Quiet → Quiet
head_quiet closed errno = errno
head_quiet again errno = again
head_quiet fails errno = fails

-- one recv, or one recv_chunked
pub receive_piece : Input → HttpContext → List ℕ → Piece
unfolding head_quiet
receive_piece i c input =
    if c.tr_encoding == 1
    then elim (recv_chunked i.buffer c.buffer_size c.chunk_size input) [
      | failed rest ↦
          no_piece (if ltb (length input) 32 then head_quiet i.quiet i.errno else i.errno) c rest
      | eof rest ↦ no_piece closed c rest
      | dry n ↦ no_piece i.quiet (record c { chunk_size = n }) []
      | overruns ↦ faults
      | got bs n rest ↦ piece bs (record c { chunk_size = n }) rest
    ]
    else elim (take c.buffer_size input) [
      | [] ↦ no_piece i.quiet c input
      | b ∷ bs ↦ piece (b ∷ bs) c (drop c.buffer_size input)
    ]

-- `len` where the checks begin: above 0, or not and why
pub data Upshot : Type 0 where
  filled : Upshot
  idle : Quiet → Upshot

-- what is done before the checks: the outcome, the packet worked on, the connection, the table, and
-- what the socket still holds; -1 at once, or a fault
pub data Progress : Type 0 where
  progress : Upshot → Option Sff → HttpContext → Table → List ℕ → Progress
  refused faulty : Progress

receive_segment : Input → Table → HttpContext → Progress
unfolding receive_piece Segments.write
receive_segment i t c = elim (receive_piece i c i.socket) [
  | piece bs c' rest ↦ elim (Segments.write i.allocated t c' bs) [
    | none ↦ faulty
    | some (r, t', c2) ↦ progress filled none c2 t' rest
  ]
  | no_piece q c' rest ↦ progress (idle q) none c' t rest
  | faults ↦ faulty
]

-- the loop that drains the socket into a file; a round takes a byte at least
pub drain : ℕ → Input → Table → HttpContext → List ℕ → Progress
unfolding receive_piece
drain zero i t c input = faulty
drain (suc fuel) i t c input = elim (receive_piece i c input) [
  | piece bs c' rest ↦
      drain fuel i t
        (record c' {
          local_file = c'.local_file ++ take (i.disk bs) bs;
          data_count = c'.data_count + i.disk bs;
        })
        rest
  | no_piece q c' rest ↦ progress (idle q) none c' t rest
  | faults ↦ faulty
]

upshot : Receive.Len → Upshot
upshot (Receive.got n) = filled
upshot (Receive.quiet q) = idle q

receive_live : Input → Table → HttpContext → Progress
unfolding upshot
receive_live i t c = elim (receive_packet c i.quiet i.socket) [
  | error ↦ refused
  | receipt len s c' rest ↦ progress (upshot len) s c' t rest
]

-- what an upload goes to
pub data Target : Type 0 where
  to_segment to_file to_packets : Target

pub target : HttpContext → Target
target c = elim c.hls_idx [
  | pos n ↦ to_segment
  | negsuc n ↦ elim c.local_fd [ pos j ↦ to_file | negsuc j ↦ to_packets ]
]

pub receive : Input → Table → HttpContext → Progress
unfolding target receive_segment receive_live drain
receive i t c = elim (target c) [
  | to_segment ↦ receive_segment i t c
  | to_file ↦ drain (suc (length i.socket)) i t c i.socket
  | to_packets ↦ receive_live i t c
]

-- the first of the checks: the stream is at its end, or fails, or all of its bytes are there
pub is_over : Upshot → HttpContext → Bool
is_over u c =
    (elim u [ filled ↦ false | idle q ↦ elim q [ closed ↦ true | again ↦ false | fails ↦ true ] ])
    || (ltb_ℤ (pos 0) c.content_length && not (ltb_ℤ (pos c.data_count) c.content_length))

-- What `http_receive_data` returns: -1, or 0, with the server's state and the bytes that the socket
-- still holds; or it is at fault.
pub data Return : Type 0 where
  closes continues : World → List ℕ → Return
  fault : Return

pub complete : Table → ℕ → Table
complete t i = record t { segments = set t.segments i (record (segment t i) { flag = 2 }) }

packet_notice : Option Sff → Option State
packet_notice none = none
packet_notice (some p) =
    if not (p.size == 0) && p.wpos == p.size
    then (if p.type == 1
        then some send_data_header
        else if p.type == 2
        then some send_data
        else none)
    else none

-- the packet that is complete, or the segment that holds bytes: what it wakes the others for
pub notice : Option Sff → HttpContext → Table → Option State
unfolding target packet_notice
notice s c t = elim (target c) [
  | to_segment ↦ if ltb 0 (segment t (pos_part c.hls_idx)).csize then some send_data else none
  | to_file ↦ packet_notice s
  | to_packets ↦ packet_notice s
]

pub notify : Option Sff → HttpContext → Table → List HttpContext → List ℕ → Return
unfolding notice
notify s c t cs rest = elim (notice s c t) [
  | none ↦ continues (record { table = t; connections = cs }) rest
  | some to ↦ continues (record { table = t; connections = wake_others c to cs }) rest
]

-- the end of an upload
pub finish : Option Sff → HttpContext → Table → List HttpContext → List ℕ → Return
unfolding target complete notify prepare_response
finish s c t cs rest = elim (target c) [
  | to_segment ↦
      closes
        (record {
          table = complete t (pos_part c.hls_idx);
          connections = wake_others c send_data_trailer cs;
        })
        rest
  | to_file ↦
      let c' = record c { local_fd = negsuc 0; http_error = 200 } in
      continues
        (record { table = t; connections = put (prepare_response c' 200 (b'O' ∷ b'K' ∷ [])) cs })
        rest
  | to_packets ↦
      let cs' = wake_others c send_data_trailer cs in
      if ltb_ℤ (pos 0) (look c cs').sff_ref_cnt
      then notify s (look c cs') t cs' rest
      else closes (record { table = t; connections = cs' }) rest
]

-- `http_receive_data` of the connection `c`, which is in the list
pub http_receive_data : Input → HttpContext → World → Return
unfolding receive is_over finish notify
http_receive_data i c w = elim (receive i w.table c) [
  | refused ↦ closes w i.socket
  | faulty ↦ fault
  | progress u s c' t rest ↦
      let cs = put c' w.connections in
      if is_over u c' then finish s c' t cs rest else notify s c' t cs rest
]
