-- ===== src/PacketQueue.antt =====
-- ffplay2.c: the queue of packets between the reader and a decoder (PacketQueue).
-- The linked list is the list of its nodes, so `first_pkt` is its head, and `last_pkt` its last node
-- or null. The mutex makes each call one step; a call that has to wait says so.
pub mod Accounts
pub mod Serials
use ffmpeg_streaming.Base.{
  ℕ, ◌+◌, ◌-◌, ◌%◌, ◌^◌, List, [], ◌∷◌, ◌++◌, Bool, true, false, ◌&&◌, ◌||◌, not, Option, none,
  some, ltb, if◌then◌else◌,
}
use ffmpeg_streaming.Base.Int.{ℤ, pos, negsuc, ltb_ℤ}

-- `AVPacket`: its data, size and stream, and whether it is the packet `flush_pkt` itself.
pub record Packet : Type 0 where
  pub payload : Option ℕ
  pub size : ℕ
  pub stream_index : ℕ
  pub is_flush : Bool

abbrev pub flush_pkt : Packet
flush_pkt = record { payload = none; size = 0; stream_index = 0; is_flush = true }

-- `MyAVPacketList`
pub record Node : Type 0 where
  pub pkt : Packet
  pub serial : ℕ

-- `nb_packets` and `size` are ints, as their 32 bits; a serial stays below 2^31.
pub record PacketQueue : Type 0 where
  pub nodes : List Node
  pub nb_packets : ℕ
  pub size : ℕ
  pub abort_request : Bool
  pub serial : ℕ

-- what `packet_queue_get` does: wait for a signal, return -1 or 0, or return 1 with a packet and its
-- serial
pub data Get : Type 0 where
  waits : Get
  aborted : Get
  no_packet : Get
  got : Packet → ℕ → Get

pub init : PacketQueue
init = record { nodes = []; nb_packets = 0; size = 0; abort_request = true; serial = 0 }

pub flush : PacketQueue → PacketQueue
flush q = record q { nodes = []; nb_packets = 0; size = 0 }

pub abort : PacketQueue → PacketQueue
abort q = record q { abort_request = true }

-- `node_size` is sizeof(MyAVPacketList).
module _ (node_size : ℕ) where
  -- `allocated`: av_malloc gives a node.
  pub put_private : PacketQueue → Packet → Bool → ℤ × PacketQueue
  put_private q pkt allocated =
      if q.abort_request
      then (negsuc 0, q)
      else if not allocated
      then (negsuc 0, q)
      else let serial = if pkt.is_flush then q.serial + 1 else q.serial in
        (
          pos 0,
          record q {
            nodes = q.nodes ++ (record { pkt = pkt; serial = serial } ∷ []);
            nb_packets = (q.nb_packets + 1) % 2 ^ 32;
            size = (q.size + (pkt.size + node_size)) % 2 ^ 32;
            serial = serial;
          },
        )

  -- The status, the queue, and whether the packet is freed. `duplicated`: av_dup_packet succeeds.
  pub put : PacketQueue → Packet → Bool → Bool → ℤ × PacketQueue × Bool
  put q pkt duplicated allocated =
      if not pkt.is_flush && not duplicated
      then (negsuc 0, q, false)
      else let (ret, q') = put_private q pkt allocated in
        (ret, q', not pkt.is_flush && ltb_ℤ ret (pos 0))

  pub put_nullpacket : PacketQueue → ℕ → Bool → Bool → ℤ × PacketQueue × Bool
  put_nullpacket q stream_index duplicated allocated =
      put q (record { payload = none; size = 0; stream_index = stream_index; is_flush = false })
        duplicated allocated

  pub start : PacketQueue → Bool → PacketQueue
  start q allocated = (put_private (record q { abort_request = false }) flush_pkt allocated).1

  take_first : PacketQueue → List Node → Bool → Get × PacketQueue
  take_first q [] block = (if block then waits else no_packet, q)
  take_first q (n ∷ rest) block = (
    got n.pkt n.serial,
    record q {
      nodes = rest;
      nb_packets = (q.nb_packets + (2 ^ 32 - 1)) % 2 ^ 32;
      size = (q.size + (2 ^ 32 - (n.pkt.size + node_size) % 2 ^ 32)) % 2 ^ 32;
    },
  )

  -- one round of the loop, up to the wait
  pub get : PacketQueue → Bool → Get × PacketQueue
  get q block = if q.abort_request then (aborted, q) else take_first q q.nodes block

-- the calls on a queue
pub data Call : Type 0 where
  puts : Packet → Bool → Bool → Call
  starts : Bool → Call
  gets : Bool → Call
  flushes aborts : Call

pub step : ℕ → PacketQueue → Call → PacketQueue
step node_size q (puts pkt duplicated allocated) = (put node_size q pkt duplicated allocated).1
step node_size q (starts allocated) = start node_size q allocated
step node_size q (gets block) = (get node_size q block).1
step node_size q flushes = flush q
step node_size q aborts = abort q

pub run : ℕ → PacketQueue → List Call → PacketQueue
run node_size q [] = q
run node_size q (c ∷ cs) = run node_size (step node_size q c) cs
