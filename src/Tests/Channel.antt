-- ===== src/Tests/Channel.antt =====
-- Runs of the control channel.
use ffmpeg_streaming.Base.{ℕ, ◌≡◌, refl, List, [], ◌∷◌, ◌++◌, none, some, arith, length, replicate}
use ffmpeg_streaming.Base.Int.{pos}
use ffmpeg_streaming.ByteQueue
use ffmpeg_streaming.ByteQueue.{Op, put, get}
use ffmpeg_streaming.StreamBuffer.{StreamBuffer, run}
use ffmpeg_streaming.StreamBuffer.Contents.{IsValid, contents}
use ffmpeg_streaming.StreamBuffer.Calls.{Holds}
use ffmpeg_streaming.StreamBuffer.Refine.{run_refines}
use ffmpeg_streaming.Control.{no_msg, recv, msg_recv, frame_header}
use ffmpeg_streaming.Control.Frame.{Message, IsMessage, frame, delivered}
use ffmpeg_streaming.Control.Sending.{send_message, send_all, join, channel_roundtrip}
use ffmpeg_streaming.Control.Faults.{recv_hangs, send_tears}

-- "play" with the payload 1 to 7, and "ab" with one byte
abbrev play : Message
play = record {
  cmd = 2;
  name = b'p' ∷ b'l' ∷ b'a' ∷ b'y' ∷ [];
  payload = 1 ∷ 2 ∷ 3 ∷ 4 ∷ 5 ∷ 6 ∷ 7 ∷ [];
}

abbrev ab : Message
ab = record { cmd = 1; name = b'a' ∷ b'b' ∷ []; payload = 9 ∷ [] }

play-IsMessage : IsMessage play
play-IsMessage = record {
  cmd_pos = omega arith;
  cmd_byte = omega arith;
  name_pos = omega arith;
  name_int = omega arith;
  payload_pos = omega arith;
  payload_int = omega arith;
}

ab-IsMessage : IsMessage ab
ab-IsMessage = record {
  cmd_pos = omega arith;
  cmd_byte = omega arith;
  name_pos = omega arith;
  name_int = omega arith;
  payload_pos = omega arith;
  payload_int = omega arith;
}

-- an empty buffer of 64 bytes, and one that holds `bs` in all of its memory
abbrev empty : StreamBuffer
empty = record { rpos = 0; wpos = 0; msize = 64; buf = replicate 64 0 }

abbrev holding : List ℕ → StreamBuffer
holding bs = record { rpos = 0; wpos = length bs; msize = length bs; buf = bs }

empty-IsValid : IsValid empty
empty-IsValid = record { order = omega arith; room = omega arith; block = refl }

abbrev both : List Message
both = play ∷ ab ∷ []

-- a buffer of 8 bytes of which 2 have been read and 5 are left
abbrev part_read : StreamBuffer
part_read = record { rpos = 2; wpos = 7; msize = 8; buf = 1 ∷ 2 ∷ 3 ∷ 4 ∷ 5 ∷ 6 ∷ 7 ∷ 8 ∷ [] }

part_read-IsValid : IsValid part_read
part_read-IsValid = record { order = omega arith; room = omega arith; block = refl }

abbrev calls : List Op
calls = put (21 ∷ 22 ∷ []) ∷ put (30 ∷ 31 ∷ []) ∷ get 4 ∷ put (40 ∷ []) ∷ get 9 ∷ []

run_refines_example : run part_read calls ≡ some (ByteQueue.run 8 (3 ∷ 4 ∷ 5 ∷ 6 ∷ 7 ∷ []) calls)
run_refines_example = run_refines calls part_read part_read-IsValid

abbrev cut : List (List ℕ)
cut =
    (frame play ++ b'M' ∷ [])
    ∷ (b'S' ∷ b'G' ∷ 1 ∷ 0 ∷ 0 ∷ 0 ∷ 2 ∷ 0 ∷ [])
    ∷ (0 ∷ 0 ∷ 1 ∷ b'a' ∷ b'b' ∷ 9 ∷ [])
    ∷ []

channel_roundtrip_example :
    ((out' : StreamBuffer) × (send_all empty both ≡ some out') × (contents out' ≡ join cut))
    × ((inp' : StreamBuffer) × (msg_recv (some empty) cut ≡ some (some inp'))
        × (recv 2 (some inp') no_msg
            ≡ some (
              pos 0,
              some (record inp' { rpos = inp'.wpos }),
              no_msg,
              delivered play ∷ delivered ab ∷ [],
            )))
channel_roundtrip_example =
    channel_roundtrip empty empty both cut 2 empty-IsValid empty-IsValid
      (play-IsMessage, (ab-IsMessage, tt)) refl refl (omega arith) (omega arith) refl (omega arith)

abbrev torn : StreamBuffer
torn = holding (frame_header 2 4 7 ++ (play.name ++ 1 ∷ 2 ∷ 3 ∷ 4 ∷ 5 ∷ []))

recv_hangs_example : recv 1000 (some torn) no_msg ≡ none
recv_hangs_example =
    recv_hangs torn play (1 ∷ 2 ∷ 3 ∷ 4 ∷ 5 ∷ []) 1000
      (record { order = omega arith; room = omega arith; block = refl }) play-IsMessage refl
      (omega arith) (omega arith)

abbrev short : StreamBuffer
short = holding (b'M' ∷ b'S' ∷ b'G' ∷ 2 ∷ 0 ∷ [])

-- 20 bytes are room for the sizes and the name, and not for the payload.
abbrev small : StreamBuffer
small = record { rpos = 0; wpos = 0; msize = 20; buf = replicate 20 0 }

send_tears_example :
    (s' : StreamBuffer) × (send_message small play ≡ some (pos 0, some s'))
    × Holds small (frame_header 2 4 7 ++ play.name) s'
send_tears_example =
    send_tears small play (record { order = omega arith; room = omega arith; block = refl })
      play-IsMessage (omega arith) (omega arith)
