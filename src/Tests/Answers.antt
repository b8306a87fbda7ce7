-- ===== src/Tests/Answers.antt =====
-- Runs of requests that are read, and of files that are sent.
use ffmpeg_streaming.Base.{
  ◌≡◌, ◌≢◌, ◌≤◌, refl, ap, ℕ, zero, suc, All, [], ◌∷◌, List, none, some, true, false, arith, inl,
  replicate, same_bytes, if◌then◌else◌, ltb, length, ◌+◌,
}
use ffmpeg_streaming.Base.Int.{pos, negsuc}
use ffmpeg_streaming.Server.{
  HttpContext, State, wait_request, send_header, send_data_header, receive_data,
}
use ffmpeg_streaming.Server.Receive.{again}
use ffmpeg_streaming.Server.Receive.Data.{World, Input}
use ffmpeg_streaming.Server.Send.{took, chunk, is_open, hex_text, digits}
use ffmpeg_streaming.Server.Send.Calls.{taken}
use ffmpeg_streaming.Server.Send.Files.{IsServing, outstanding, file_rest, blocks}
use ffmpeg_streaming.Server.Send.Framing.{chunks, decode}
use ffmpeg_streaming.Server.Send.Transfer.{transfer, finished, transfer-decode}
use ffmpeg_streaming.Server.Handle.{Events, read_loop, handle_connection}
use ffmpeg_streaming.Server.Handle.Pieces.{readings, readings_lem}
use ffmpeg_streaming.Server.Handle.Diagram.{Moved}
use ffmpeg_streaming.Server.Handle.Moves.{handle_connection-Moved}
use ffmpeg_streaming.Server.Files.{
  Opened, dir_is_modifed, range_of, prepare_local_file, overflows, misreads, range_head,
}
use ffmpeg_streaming.Server.Files.Ranges.{
  range_text, number, range_of-range_text, prepare_local_file-misreads,
}
use ffmpeg_streaming.Tests.Streaming.{connection, table}
use ffmpeg_streaming.Tests.Dispatch.{libs, system}

abbrev asking : HttpContext
asking = connection 1 wait_request (negsuc 0) 0 none (pos 0)

readings_lem_example :
    readings
      ((b'T' ∷ 13 ∷ 10 ∷ 13 ∷ []) ∷ (10 ∷ 1 ∷ []) ∷ [])
      (read_loop again (b'G' ∷ b'E' ∷ []) asking)
    ≡ read_loop again (b'G' ∷ b'E' ∷ b'T' ∷ 13 ∷ 10 ∷ 13 ∷ 10 ∷ 1 ∷ []) asking
readings_lem_example =
    readings_lem (b'G' ∷ b'E' ∷ []) ((b'T' ∷ 13 ∷ 10 ∷ 13 ∷ []) ∷ (10 ∷ 1 ∷ []) ∷ []) asking

-- a connection with a header of two bytes to send
abbrev answering : HttpContext
answering = record (connection 1 send_header (negsuc 0) 0 none (pos 0)) { pending = 72 ∷ 84 ∷ [] }

abbrev world : World
world = record { table = table; connections = answering ∷ [] }

abbrev calm : Input
calm = record {
  socket = [];
  quiet = again;
  errno = again;
  buffer = [];
  allocated = true;
  disk = λ bs. 0;
}

abbrev writable : Events
writable = record { readable = false; writable = true; failed = false }

abbrev is_receiving : State → ℕ
is_receiving receive_data = 1
is_receiving _ = 0

send_header-other : send_header ≢ receive_data
send_header-other e = absurd (omega (arith, ap is_receiving e))

handle_connection-Moved_example :
    Moved send_header (handle_connection 0 system calm (took 2) writable answering world)
handle_connection-Moved_example =
    handle_connection-Moved 0 system calm (took 2) writable answering world send_header-other

-- a file of five bytes, sent in pieces of two
abbrev sending : HttpContext
sending = record (connection 1 send_data_header (negsuc 0) 0 none (pos 0)) {
  local_fd = pos 5;
  local_file = 1 ∷ 2 ∷ 3 ∷ 4 ∷ 5 ∷ [];
  keep_alive = true;
  tr_encoding = 1;
  buffer_size = 12;
}

sending-IsServing : IsServing sending
sending-IsServing = record {
  no_segment = refl;
  alive = refl;
  unlimited = refl;
  chunked = refl;
  roomy = omega arith;
  sending = refl;
  file = (5, inl refl);
}

All-took : (n : ℕ) → All (λ r. 1 ≤ taken r) (replicate n (took 1))
All-took zero = tt
All-took (suc n) = (omega arith, All-took n)

transfer-decode_example :
    (out : List ℕ) × (c' : HttpContext) × (calls : ℕ) × (transfer 0 table none
        (replicate 30 (took 1))
        sending
      ≡ finished out c')
    × (decode calls 8192 0 out ≡ some (1 ∷ 2 ∷ 3 ∷ 4 ∷ 5 ∷ []))
unfolding is_open outstanding file_rest chunks blocks chunk hex_text digits
transfer-decode_example =
    transfer-decode 0 table none (replicate 30 (took 1)) sending 8192 sending-IsServing refl refl
      (omega arith) (omega arith) (All-took 30) (omega arith)

range_of-range_text_example : range_of 1000 (range_text (0 ∷ []) (0 ∷ [])) ≡ some (pos 0, pos 999)
unfolding number
range_of-range_text_example =
    range_of-range_text 1000 (0 ∷ []) (0 ∷ []) (omega arith, tt) (omega arith, tt) (omega arith)
      (omega arith) (omega arith) (omega arith) (omega arith)

-- a file of 9 bytes, and the range 7-2
abbrev opened : Opened
opened = record {
  fd = 5;
  bytes = 1 ∷ 2 ∷ 3 ∷ 4 ∷ 5 ∷ 6 ∷ 7 ∷ 8 ∷ 9 ∷ [];
  mtime = 100;
  last_modified = [];
}

prepare_local_file-misreads_example :
    prepare_local_file libs (some opened) asking (range_text (7 ∷ []) (2 ∷ [])) ≡ (
      if ltb 1020 (length (range_head libs opened asking (some (pos 7, pos 2)) (negsuc 3)) + 1)
      then overflows
      else misreads)
unfolding number dir_is_modifed same_bytes
prepare_local_file-misreads_example =
    prepare_local_file-misreads libs opened asking (7 ∷ []) (2 ∷ []) refl refl (omega arith, tt)
      (omega arith, tt) (omega arith) (omega arith) (omega arith) (omega arith) (omega arith)
      (omega arith) (omega arith)
