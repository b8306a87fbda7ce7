-- ===== src/Server/Connections.antt =====
-- ffserver.c: the list of connections (new_connection, close_connection, find_feed, wake_others,
-- sff_reset). `fed_by` and `sff_ref_cnt` refer to a connection by its address.
pub mod Feeds
pub mod Listed
pub mod Closing
pub mod Waking
use ffmpeg_streaming.Base.{
  ℕ, ◌+◌, ◌-◌, ◌≡◌, List, [], ◌∷◌, ltb, leb, ◌==◌, not, ◌&&◌, ◌||◌, Bool, true, false,
  if◌then◌else◌, Option, none, some, same_bytes, replicate,
}
use ffmpeg_streaming.Base.Int.{ℤ, pos, negsuc, sub_ℕ, pos_part, neg_part, ltb_ℤ}
use ffmpeg_streaming.Server.{State, wait_request, wait_feed, HttpContext}
use ffmpeg_streaming.Server.Segments.{reset}
use ffmpeg_streaming.Server.Packets.{ring_size, sff_reset_writer}

-- `first_http_ctx` and the links from it, `nb_connections` and `nb_max_connections`
pub record Server : Type 0 where
  pub connections : List HttpContext
  pub nb_connections : ℕ
  pub nb_max_connections : ℕ

abbrev pub http_request_timeout : ℕ
http_request_timeout = 15000

abbrev pub iobuffer_init_size : ℕ
iobuffer_init_size = 8192

-- `++` and `--` of an int
unfoldable pub increment : ℤ → ℕ → ℤ
increment a n = sub_ℕ (pos_part a + n) (neg_part a)

pub decrement : ℤ → ℤ
decrement a = sub_ℕ (pos_part a) (neg_part a + 1)

-- What the system answers to a new connection: its socket, or an error; whether the handshake of a
-- secure connection and the two allocations succeed, and where the connection's record is put.
pub record Arrival : Type 0 where
  pub fd : Option ℕ
  pub handshake : Bool
  pub allocated : Bool
  pub buffer_allocated : Bool
  pub address : ℕ

accepted : ℕ → ℕ → ℕ → HttpContext
accepted cur_time address fd = record {
  address = address;
  state = wait_request;
  fd = pos fd;
  timeout = cur_time + http_request_timeout;
  has_url = false;
  url = [];
  post = 0;
  http_error = 0;
  pending = [];
  hls_idx = negsuc 0;
  hls_wpos = 0;
  hls_rpos = 0;
  sff_pkts = replicate (ring_size + 1) none;
  sff_w = 0;
  sff_ref_cnt = pos 0;
  feed_ctx = none;
  sff_r = 0;
  local_fd = negsuc 0;
  buffer_size = iobuffer_init_size;
  received = [];
  local_file = [];
  sff = none;
  keep_alive = false;
  content_length = pos 0;
  data_count = 0;
  total_count = 0;
  only_header = false;
  http_version = 0;
  tr_encoding = 0;
  chunk_size = 0;
  last_packet_sent = false;
  inm = [];
  ims = [];
  x_token = [];
}

-- `new_connection`: the server, and the sockets that it closes
pub new_connection : ℕ → Arrival → Server → Server × List ℕ
unfolding accepted
new_connection cur_time a s = elim a.fd [
  | none ↦ (s, [])
  | some fd ↦
      if not a.handshake || not a.allocated || not a.buffer_allocated
      then (s, fd ∷ [])
      else if leb s.nb_max_connections s.nb_connections
      then (s, fd ∷ [])
      else (
        record s {
          connections = accepted cur_time a.address fd ∷ s.connections;
          nb_connections = s.nb_connections + 1;
        },
        [],
      )
]

-- the loop of `close_connection` that unlinks it
pub unlink : ℕ → List HttpContext → List HttpContext
unlink c [] = []
unlink c (c2 ∷ cs) = let rest = unlink c cs in if c2.address == c then rest else c2 ∷ rest

-- `c->sff_ref_cnt` becomes `f` of it, where `c` is a connection of the list
unfoldable pub count_at : (ℤ → ℤ) → ℕ → List HttpContext → List HttpContext
count_at f c [] = []
count_at f c (c2 ∷ cs) =
    let rest = count_at f c cs in
    (if c2.address == c then record c2 { sff_ref_cnt = f c2.sff_ref_cnt } else c2) ∷ rest

-- `sff_reset`, seen from the other connections: a reader is no longer counted by its feed
pub sff_reset : HttpContext → List HttpContext → List HttpContext
unfolding count_at decrement
sff_reset c cs =
    if c.post == 0 then elim c.feed_ctx [ none ↦ cs | some f ↦ count_at decrement f cs ] else cs

-- a descriptor, if it is one
opened : ℤ → List ℕ
opened (pos n) = n ∷ []
opened (negsuc n) = []

-- `close_connection`: the server, and the sockets and the files that it closes
pub close_connection : HttpContext → Server → Server × List ℕ × List ℕ
unfolding unlink sff_reset opened
close_connection c s = (
  record s {
    connections = sff_reset c (unlink c.address s.connections);
    nb_connections = s.nb_connections - 1;
  },
  opened c.fd,
  opened c.local_fd,
)

-- `sff_close`, from the connections `cs` on; `is_flv` is av_match_ext of a name with "flv"
pub sff_close : (List ℕ → Bool) → List HttpContext → Server → Server
unfolding close_connection
sff_close is_flv [] s = s
sff_close is_flv (c ∷ cs) s =
    let s' = if not (c.post == 0) && is_flv c.url then (close_connection c s).0 else s in
    sff_close is_flv cs s'

-- `find_feed`
unfoldable pub find_feed : List ℕ → List HttpContext → Option HttpContext
find_feed name [] = none
find_feed name (ctx ∷ cs) =
    let rest = find_feed name cs in
    if not (ctx.post == 0) && same_bytes ctx.url name then some ctx else rest

unfoldable pub is_waiting : State → Bool
is_waiting wait_feed = true
is_waiting _ = false

-- whether a connection waits for the stream of `c` and has no feed yet
unfoldable pub joins : HttpContext → HttpContext → Bool
unfolding same_bytes
joins c c2 = elim c2.feed_ctx [ some f ↦ false | none ↦ c2.post == 0 && same_bytes c2.url c.url ]

unfoldable pub is_fed : ℕ → HttpContext → Bool
is_fed a c2 = elim c2.feed_ctx [ some f ↦ f == a | none ↦ false ]

pub same_segment : ℤ → ℤ → Bool
same_segment (pos i) (pos j) = i == j
same_segment (pos i) (negsuc j) = false
same_segment (negsuc i) j = false

-- the body of the loop of `wake_others`, and whether it counts the connection
pub wake_one : HttpContext → State → HttpContext → HttpContext × ℕ
unfolding is_waiting joins is_fed same_segment
wake_one c to c2 =
    if is_waiting c2.state
    then (let joined = joins c c2 in
        let linked = if joined then record c2 { feed_ctx = some c.address } else c2 in
        (
          if is_fed c.address linked || same_segment c.hls_idx c2.hls_idx
              then record linked { state = to }
              else linked,
          if joined then 1 else 0,
        ))
    else (c2, 0)

-- the loop: the connections, and how often it counts one
pub wake_all : HttpContext → State → List HttpContext → List HttpContext × ℕ
unfolding wake_one
wake_all c to [] = ([], 0)
wake_all c to (c2 ∷ cs) =
    let (woken, n) = wake_one c to c2 in let (rest, m) = wake_all c to cs in (woken ∷ rest, n + m)

-- `wake_others`
pub wake_others : HttpContext → State → List HttpContext → List HttpContext
unfolding wake_all count_at increment
wake_others c to cs =
    let (woken, n) = wake_all c to cs in count_at (λ z. increment z n) c.address woken

-- the connection `c` in the list
unfoldable pub put : HttpContext → List HttpContext → List HttpContext
put c [] = []
put c (d ∷ cs) = (if d.address == c.address then c else d) ∷ put c cs

unfoldable pub look : HttpContext → List HttpContext → HttpContext
look c [] = c
look c (d ∷ cs) = let rest = look c cs in if d.address == c.address then d else rest
