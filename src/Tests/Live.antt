-- ===== src/Tests/Live.antt =====
-- Runs of uploads: an encoder's packets, and a segment.
use ffmpeg_streaming.Base.{◌≡◌, refl, [], ◌∷◌, ◌++◌, List, none, true, map, arith, inr}
use ffmpeg_streaming.Base.Int.{pos, negsuc}
use ffmpeg_streaming.Server.{HttpContext, receive_data, wait_feed}
use ffmpeg_streaming.Server.Receive.{again, receive_packet}
use ffmpeg_streaming.Server.Packets.{sff_write}
use ffmpeg_streaming.Server.Receive.Blocks.{Block, Fits, sff_write_block}
use ffmpeg_streaming.Server.Receive.Delivery.{Event, arrived, served, run, serve, Left, packet_of}
use ffmpeg_streaming.Server.Receive.Schedule.{run-delivers}
use ffmpeg_streaming.Server.Receive.Data.{World, Input, closes}
use ffmpeg_streaming.Server.Receive.Data.Upload.{IsUploading, HasSegment}
use ffmpeg_streaming.Server.Receive.Data.Whole.{upload, Complete, upload-stores}
use ffmpeg_streaming.Tests.Streaming.{connection, begun-IsValid, table, uploader}

-- an encoder that sends a header of 3 bytes and a packet of 5
abbrev encoder : HttpContext
encoder = connection 1 receive_data (negsuc 0) 1 none (pos 0)

abbrev header : Block
header = record { type = 1; payload = 7 ∷ 8 ∷ 9 ∷ [] }

abbrev packet : Block
packet = record { type = 2; payload = 0 ∷ 0 ∷ 0 ∷ 1 ∷ 5 ∷ [] }

header-Fits : Fits header
header-Fits = record { type_digit = omega arith; not_empty = omega arith; small = omega arith }

packet-Fits : Fits packet
packet-Fits = record { type_digit = omega arith; not_empty = omega arith; small = omega arith }

-- the first call comes in the middle of the first packet
abbrev cut : List Event
cut =
    arrived (b'S' ∷ b'F' ∷ b'F' ∷ b'1' ∷ 0 ∷ 0 ∷ 0 ∷ 3 ∷ 7 ∷ [])
    ∷ served
    ∷ arrived (8 ∷ 9 ∷ b'S' ∷ b'F' ∷ b'F' ∷ b'2' ∷ 0 ∷ 0 ∷ 0 ∷ 5 ∷ 0 ∷ 0 ∷ 0 ∷ 1 ∷ 5 ∷ [])
    ∷ served
    ∷ served
    ∷ []

run-delivers_example :
    (done : List Block) × (left : List Block) × (header ∷ packet ∷ [] ≡ done ++ left)
    × ((run encoder [] cut).2 ≡ map packet_of done)
    × Left (run encoder [] cut).0.sff (run encoder [] cut).1 left
unfolding sff_write_block serve receive_packet sff_write
run-delivers_example =
    run-delivers encoder [] cut (header ∷ packet ∷ []) (header-Fits, (packet-Fits, tt)) refl
      (inr (omega arith), (tt, (inr (omega arith), tt)))

-- a segment of 3 bytes, 2 more to come in two pieces, and a connection that waits for it
abbrev sleeper : HttpContext
sleeper = connection 2 wait_feed (pos 1) 0 none (pos 0)

abbrev world : World
world = record { table = table; connections = uploader ∷ sleeper ∷ [] }

abbrev calm : Input
calm = record {
  socket = [];
  quiet = again;
  errno = again;
  buffer = [];
  allocated = true;
  disk = λ bs. 0;
}

uploader-IsUploading : IsUploading 1 uploader
uploader-IsUploading = record { at = refl; plain = refl; wanted = refl; roomy = omega arith }

table-HasSegment : HasSegment 1 table
table-HasSegment = record {
  block = 1 ∷ 2 ∷ 3 ∷ 0 ∷ 0 ∷ [];
  valid = begun-IsValid;
  in_table = omega arith;
}

upload-stores_example :
    (w' : World) × (upload calm ((4 ∷ []) ∷ (5 ∷ []) ∷ []) uploader world ≡ closes w' [])
    × Complete 1 (1 ∷ 2 ∷ 3 ∷ 4 ∷ 5 ∷ []) w'
upload-stores_example =
    upload-stores 1 calm ((4 ∷ []) ∷ (5 ∷ []) ∷ []) uploader world uploader-IsUploading
      table-HasSegment refl refl (omega arith)
