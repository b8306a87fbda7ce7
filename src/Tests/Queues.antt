-- ===== src/Tests/Queues.antt =====
-- Runs of the queues between the reader, the decoders and the display.
use ffmpeg_streaming.Base.{
  ℕ, ◌<◌, ◌≡◌, refl, List, [], ◌∷◌, ◌++◌, true, false, some, arith, All, replicate,
}
use ffmpeg_streaming.Base.Int.{pos}
use ffmpeg_streaming.FrameQueue
use ffmpeg_streaming.FrameQueue.{
  FrameQueue, Frame, blank, peek_writable, peek_readable, peek_last, at, Event, decoded, refresh,
  all_alloc,
}
use ffmpeg_streaming.FrameQueue.Ring
use ffmpeg_streaming.FrameQueue.Order.{remaining}
use ffmpeg_streaming.FrameQueue.Schedule.{run-fifo}
use ffmpeg_streaming.PacketQueue
use ffmpeg_streaming.PacketQueue.{
  PacketQueue, Packet, Node, Get, flush_pkt, Call, puts, gets, flushes, starts, aborts,
}
use ffmpeg_streaming.PacketQueue.Accounts
use ffmpeg_streaming.PacketQueue.Serials.{flush_put-stale}

abbrev picture : ℕ → Frame
picture n = record blank { picture = some n; serial = 1; position = pos n }

-- a ring of 3 frames that keeps the last, with one frame shown and one to be shown
abbrev playing : FrameQueue
playing = record {
  queue = picture 7 ∷ blank ∷ picture 6 ∷ replicate 13 blank;
  rindex = 2;
  windex = 1;
  size = 2;
  max_size = 3;
  keep_last = 1;
  rindex_shown = 1;
  pktq_abort = false;
  pktq_serial = 1;
}

playing-IsValid : Ring.IsValid playing
playing-IsValid = record {
  storage = refl;
  cap_pos = omega arith;
  cap_small = omega arith;
  read_in = omega arith;
  size_in = omega arith;
  write_at = refl;
  shown_in = omega arith;
  shown_kept = omega arith;
  kept_bit = omega arith;
}

abbrev turns : List Event
turns =
    decoded (picture 8)
    ∷ decoded (picture 9)
    ∷ refresh
    ∷ decoded (picture 10)
    ∷ refresh
    ∷ refresh
    ∷ []

run-fifo_example :
    let (g, given, shown) = FrameQueue.run playing turns in
    (remaining playing ++ given ≡ shown ++ remaining g) × Ring.IsValid g
run-fifo_example = run-fifo playing turns playing-IsValid

-- the queue of three pictures that the player makes
abbrev made : FrameQueue
made = record {
  queue = replicate 16 blank;
  rindex = 0;
  windex = 0;
  size = 0;
  max_size = 3;
  keep_last = 1;
  rindex_shown = 0;
  pktq_abort = false;
  pktq_serial = 0;
}

is_made : FrameQueue.init true true (λ _. true) 3 1 false 0 ≡ some made
unfolding FrameQueue.init all_alloc
is_made = refl

can_write : peek_writable playing ≡ at 1
unfolding peek_writable
can_write = refl

can_read : peek_readable playing ≡ at 0
unfolding peek_readable
can_read = refl

put-IsValid_example : Ring.IsValid (FrameQueue.put playing (picture 8))
put-IsValid_example = Ring.put-IsValid (picture 8) playing-IsValid can_write

next-IsValid_example : Ring.IsValid (FrameQueue.next playing)
next-IsValid_example = Ring.next-IsValid playing-IsValid can_read

abbrev packet : ℕ → Packet
packet n = record { payload = some n; size = n; stream_index = 0; is_flush = false }

-- a queue of two packets of the serials 1 and 2
abbrev filled : PacketQueue
filled = record {
  nodes = record { pkt = packet 5; serial = 1 } ∷ record { pkt = packet 6; serial = 2 } ∷ [];
  nb_packets = 2;
  size = 43;
  abort_request = false;
  serial = 2;
}

abbrev seek : List Call
seek = flushes ∷ puts (packet 3) true true ∷ gets true ∷ []

run-init-IsValid_example :
    Accounts.IsValid 16 (PacketQueue.run 16 PacketQueue.init (starts true ∷ seek))
run-init-IsValid_example = Accounts.run-init-IsValid 16 (starts true ∷ seek)

step-IsValid_example : Accounts.IsValid 16 (PacketQueue.step 16 filled (gets true))
step-IsValid_example =
    Accounts.step-IsValid 16 filled (gets true) (record { count = refl; bytes = refl })

flush_put-stale_example :
    All
      (λ n.
        n.serial
        < (PacketQueue.run 16 (PacketQueue.put 16 filled flush_pkt true true).1 seek).serial)
      filled.nodes
flush_put-stale_example = flush_put-stale 16 filled seek (omega arith, omega arith) refl
