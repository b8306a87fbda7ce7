-- ===== src/Server.antt =====
-- ffserver.c: the streaming server. A connection is a record, the list of connections and the
-- table of HLS segments are the server's state; an address of a connection is a number.
pub mod Segment
pub mod Segments
pub mod Packets
pub mod Connections
pub mod Chunks
pub mod Libs
pub mod Numbers
pub mod Response
pub mod Request
pub mod Receive
pub mod Send
pub mod Handle
pub mod Files
pub mod Listing
pub mod Outcomes
pub mod Content
pub mod Uploads
pub mod Joining
pub mod Dispatch
use ffmpeg_streaming.Base.{ℕ, List, Option, Bool}
use ffmpeg_streaming.Base.Int.{ℤ}

-- `HTTPState`
pub data State : Type 0 where
  wait_request send_header send_data_header send_data send_data_trailer : State
  receive_data wait_feed close : State

-- `HLS`; flag 1 is writing, 2 is completed
pub record Hls : Type 0 where
  pub block : Option (List ℕ)
  pub msize : ℕ
  pub csize : ℕ
  pub flag : ℕ

-- `SFF`; wflag 2 can be read
pub record Sff : Type 0 where
  pub type : ℕ
  pub size : ℕ
  pub bytes : List ℕ
  pub wpos : ℕ
  pub wflag : ℕ

-- `HTTPContext`: `pending` are the bytes from buffer_ptr to buffer_end, `feed_ctx` is the address of
-- the connection that feeds this one, and `has_url` says whether `url` is not NULL. `received` are the bytes from buffer to buffer_ptr while a
-- request comes in, `local_file` is what the next reads of local_fd give.
pub record HttpContext : Type 0 where
  pub address : ℕ
  pub state : State
  pub fd : ℤ
  pub timeout : ℕ
  pub has_url : Bool
  pub url : List ℕ
  pub post : ℕ
  pub http_error : ℕ
  pub pending : List ℕ
  pub hls_idx : ℤ
  pub hls_wpos : ℕ
  pub hls_rpos : ℕ
  pub sff_pkts : List (Option Sff)
  pub sff_w : ℕ
  pub sff_ref_cnt : ℤ
  pub feed_ctx : Option ℕ
  pub sff_r : ℕ
  pub local_fd : ℤ
  pub buffer_size : ℕ
  pub received : List ℕ
  pub local_file : List ℕ
  pub sff : Option Sff
  pub keep_alive : Bool
  pub content_length : ℤ
  pub data_count : ℕ
  pub total_count : ℕ
  pub only_header : Bool
  pub http_version : ℕ
  pub tr_encoding : ℕ
  pub chunk_size : ℕ
  pub last_packet_sent : Bool
  pub inm : List ℕ
  pub ims : List ℕ
  pub x_token : List ℕ
