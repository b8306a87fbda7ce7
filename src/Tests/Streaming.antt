-- ===== src/Tests/Streaming.antt =====
-- Runs of the server's segments, packets and connections.
use ffmpeg_streaming.Base.{
  ℕ, ◌+◌, ◌≤◌, ◌<◌, ◌≡◌, refl, List, [], ◌∷◌, ◌++◌, true, false, Option, none, some, arith, All,
  replicate, zero, suc, get_or, ◌%◌,
}
use ffmpeg_streaming.Base.Int.{ℤ, pos, negsuc}
use ffmpeg_streaming.Server.{State, Hls, Sff, HttpContext, send_data, receive_data, wait_feed}
use ffmpeg_streaming.Server.Segment
use ffmpeg_streaming.Server.Segments.{Table, no_segment, stream, Event, received, served, sent}
use ffmpeg_streaming.Server.Segments.Streaming.{Linked, Orderly, stream-fifo}
use ffmpeg_streaming.Server.Packets.{ring_size, sff_write, sff_read}
use ffmpeg_streaming.Server.Packets.Ring.{
  Ahead, At, Reads, sff_write-Ahead, sff_read-Ahead, sff_write-laps,
}
use ffmpeg_streaming.Server.Connections.{Server, close_connection, wake_others, is_waiting, is_fed}
use ffmpeg_streaming.Server.Connections.Listed
use ffmpeg_streaming.Server.Connections.Listed.{occurs, close_connection-IsValid}
use ffmpeg_streaming.Server.Connections.Feeds.{
  fed, Counted, sleeps, wake_others-Counted, wake_others-wakes,
}
use ffmpeg_streaming.Server.Connections.Closing.{close_connection-Counted, close_connection-dangles}

-- a segment of 3 bytes with room for 5
abbrev pub begun : Hls
begun = record { block = some (1 ∷ 2 ∷ 3 ∷ 0 ∷ 0 ∷ []); msize = 5; csize = 3; flag = 1 }

pub begun-IsValid : Segment.IsValid begun (1 ∷ 2 ∷ 3 ∷ 0 ∷ 0 ∷ [])
begun-IsValid = record { here = refl; storage = refl; fits = omega arith; int_size = omega arith }

abbrev pub live : List ℕ
live = b's' ∷ b'/' ∷ b'1' ∷ []

-- a connection at the address `a`, in the state `st`, with the segment `i`
abbrev pub connection : ℕ → State → ℤ → ℕ → Option ℕ → ℤ → HttpContext
connection a st i post feed count = record {
  address = a;
  state = st;
  fd = pos a;
  timeout = 0;
  has_url = true;
  url = live;
  post = post;
  http_error = 0;
  pending = [];
  hls_idx = i;
  hls_wpos = 0;
  hls_rpos = 0;
  sff_pkts = replicate 129 none;
  sff_w = 0;
  sff_ref_cnt = count;
  feed_ctx = feed;
  sff_r = 0;
  local_fd = negsuc 0;
  buffer_size = 8192;
  received = [];
  local_file = [];
  sff = none;
  keep_alive = false;
  content_length = pos 0;
  data_count = 0;
  total_count = 0;
  only_header = false;
  http_version = 0;
  tr_encoding = 0;
  chunk_size = 0;
  last_packet_sent = false;
  inm = [];
  ims = [];
  x_token = [];
}

abbrev pub table : Table
table = record { segments = begun ∷ begun ∷ replicate 9 no_segment; name = b'c' ∷ b'c' ∷ b't' ∷ [] }

abbrev pub uploader : HttpContext
uploader = connection 1 receive_data (pos 1) 1 none (pos 0)

abbrev viewer : HttpContext
viewer = connection 2 send_data (pos 1) 0 none (pos 0)

viewer-Linked : Linked table uploader viewer
viewer-Linked = record {
  block = 1 ∷ 2 ∷ 3 ∷ 0 ∷ 0 ∷ [];
  valid = begun-IsValid;
  shared = refl;
  in_table = omega arith;
  behind = omega arith;
}

abbrev uploads : List Event
uploads =
    received true (4 ∷ [])
    ∷ served
    ∷ sent 1
    ∷ received false (5 ∷ 6 ∷ [])
    ∷ sent 3
    ∷ received true (7 ∷ [])
    ∷ served
    ∷ sent 9
    ∷ []

stream-fifo_example : Orderly table viewer uploads (stream table uploader viewer uploads)
stream-fifo_example = stream-fifo table uploader viewer uploads viewer-Linked

abbrev packet : ℕ → ℕ → Sff
packet n wflag = record { type = 2; size = 1; bytes = n ∷ []; wpos = 1; wflag = wflag }

-- a feed with one packet, and one with 127, for a reader that begins at the slot 0
abbrev feed : HttpContext
feed = record (connection 1 receive_data (negsuc 0) 1 none (pos 1)) {
  sff_pkts = some (packet 5 2) ∷ replicate 128 none;
  sff_w = 1;
}

abbrev reader : HttpContext
reader = connection 2 wait_feed (negsuc 0) 0 (some 1) (pos 0)

reader-Ahead : Ahead feed reader (packet 5 2 ∷ [])
reader-Ahead = record {
  slots = refl;
  in_ring = omega arith;
  few = omega arith;
  writer = refl;
  packets = (refl, refl, tt);
}

sff_write-Ahead_example : Ahead (sff_write feed (packet 6 1)) reader (packet 5 2 ∷ packet 6 2 ∷ [])
sff_write-Ahead_example =
    sff_write-Ahead feed reader (packet 5 2 ∷ []) (packet 6 1) reader-Ahead (omega arith) refl

sff_read-Ahead_example : Reads feed reader (packet 5 2 ∷ [])
sff_read-Ahead_example = sff_read-Ahead feed reader (packet 5 2 ∷ []) reader-Ahead

abbrev backlog : List Sff
backlog = replicate 127 (packet 5 2)

abbrev full : HttpContext
full = record (connection 1 receive_data (negsuc 0) 1 none (pos 1)) {
  sff_pkts = replicate 127 (some (packet 5 2)) ++ none ∷ none ∷ [];
  sff_w = 127;
}

slot-full :
    (n i : ℕ) (rest : List (Option Sff))
    → i < n
    → get_or (replicate n (some (packet 5 2)) ++ rest) i none ≡ some (packet 5 2)
slot-full zero i rest h = absurd (omega arith)
slot-full (suc n) zero rest h = refl
slot-full (suc n) (suc i) rest h = slot-full n i rest (omega arith)

slots-At : (n k : ℕ) → k + n ≤ 127 → At full.sff_pkts k (replicate n (packet 5 2))
slots-At zero k h = tt
slots-At (suc n) k h = (
  slot-full 127 (k % ring_size) (none ∷ none ∷ []) (omega arith),
  refl,
  slots-At n (k + 1) (omega arith),
)

full-Ahead : Ahead full reader backlog
full-Ahead = record {
  slots = refl;
  in_ring = omega arith;
  few = omega arith;
  writer = refl;
  packets = slots-At 127 0 (omega arith);
}

sff_write-laps_example : sff_read reader (sff_write full (packet 6 1)) 2 ≡ (none, reader)
sff_write-laps_example = sff_write-laps full reader backlog (packet 6 1) full-Ahead refl refl

-- a server with a feed, one connection that it feeds, and one that waits for it
abbrev source : HttpContext
source = connection 1 receive_data (negsuc 0) 1 none (pos 1)

abbrev served_one : HttpContext
served_one = connection 2 wait_feed (negsuc 0) 0 (some 1) (pos 0)

abbrev waiting_one : HttpContext
waiting_one = connection 3 wait_feed (negsuc 0) 0 none (pos 0)

abbrev server : Server
server = record {
  connections = served_one ∷ source ∷ waiting_one ∷ [];
  nb_connections = 3;
  nb_max_connections = 4;
}

each_once : (a : ℕ) → occurs a server.connections ≤ 1
unfolding occurs
each_once a = ground arith

server-IsValid : Listed.IsValid server
server-IsValid = record { counted = refl; bounded = omega arith; distinct = each_once }

close_connection-IsValid_example :
    Listed.IsValid (close_connection served_one server).0
    × (occurs 2 (close_connection served_one server).0.connections ≡ 0)
    × ((close_connection served_one server).0.nb_connections + 1 ≡ 3)
unfolding occurs
close_connection-IsValid_example = close_connection-IsValid served_one server server-IsValid refl

server-Counted : Counted server.connections
unfolding fed is_fed
server-Counted = (refl, (refl, (refl, tt)))

wake_others-Counted_example : Counted (wake_others source send_data server.connections)
wake_others-Counted_example = wake_others-Counted source send_data server.connections server-Counted

wake_others-wakes_example :
    All (λ d. sleeps source d ≡ false) (wake_others source send_data server.connections)
unfolding is_waiting
wake_others-wakes_example = wake_others-wakes source send_data server.connections refl

close_connection-Counted_example : Counted (close_connection served_one server).0.connections
unfolding occurs
close_connection-Counted_example =
    close_connection-Counted served_one [] (source ∷ waiting_one ∷ []) server refl refl refl refl
      server-Counted

close_connection-dangles_example :
    (fed 1 (close_connection source server).0.connections ≡ fed 1 server.connections)
    × (0 < fed 1 (close_connection source server).0.connections)
    × (occurs 1 (close_connection source server).0.connections ≡ 0)
unfolding occurs fed is_fed
close_connection-dangles_example =
    close_connection-dangles source (served_one ∷ []) (waiting_one ∷ []) server refl refl refl refl
      (omega arith)
