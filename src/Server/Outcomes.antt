-- ===== src/Server/Outcomes.antt =====
-- ffserver.c: what http_parse_request meets, and what it leads to.
use ffmpeg_streaming.Base.{ℕ, List, Bool, Option, length, take, same_bytes}
use ffmpeg_streaming.Base.Int.{ℤ}
use ffmpeg_streaming.Server.{HttpContext}
use ffmpeg_streaming.Server.Connections.{put}
use ffmpeg_streaming.Server.Receive.Data.{World}
use ffmpeg_streaming.Server.Libs.{Libs}
use ffmpeg_streaming.Server.Files.{Opened}
use ffmpeg_streaming.Server.Listing.{Disk}

-- What the server runs on: the functions on text; the file system, with the file that a name opens
-- for reading and the descriptor or the error that a name opens for writing; `sUploadToken`; whether
-- the memory of a segment is given, and the byte before a name; and what is in `msg` once bytes with
-- no end of a line are copied over its text.
pub record System : Type 0 where
  pub libs : Libs
  pub disk : Disk
  pub opens : List ℕ → Option Opened
  pub creates : List ℕ → ℤ
  pub token : List ℕ
  pub allocated : Bool
  pub before : ℕ
  pub left_over : List ℕ → List ℕ → List ℕ

-- what a request does to the files of the server, or the program it starts
pub data Effect : Type 0 where
  nothing : Effect
  removes creates runs : List ℕ → Effect

-- What `http_parse_request` leads to: -1; a connection, the server's state, what was done, and what
-- the socket still holds; a loop with no end; or a write past the end of a buffer, or a read with a
-- negative size.
pub data Parsed : Type 0 where
  closes loops fault : Parsed
  answers : HttpContext → World → Effect → List ℕ → Parsed

-- the connection and its place in the list
unfoldable pub settle : HttpContext → World → Effect → List ℕ → Parsed
settle c w e socket = answers c (record w { connections = put c w.connections }) e socket

-- `checkToken` is 0
unfoldable pub has_token : System → HttpContext → Bool
has_token s c = same_bytes (take 63 c.x_token) (take 63 s.token)

-- the name begins with the prefix
unfoldable pub starts : List ℕ → List ℕ → Bool
starts prefix name = same_bytes (take (length prefix) name) prefix
