-- ===== src/Server/Dispatch.antt =====
-- ffserver.c: http_parse_request, a whole request and the answer to it, in a build without
-- PLUGIN_DVB: the lines of the request, then uploads, removals and sign_apk, then segments, feeds and
-- files.
pub mod Guards
pub mod Requests
pub mod Streams
use ffmpeg_streaming.Base.{
  ℕ, zero, suc, ◌+◌, ◌-◌, ◌%◌, ◌^◌, List, [], ◌∷◌, ◌++◌, Bool, true, false, ◌&&◌, ◌||◌, not, Option,
  none, some, ltb, leb, ◌==◌, if◌then◌else◌, length, take, drop, same_bytes,
}
use ffmpeg_streaming.Base.Text.{codes}
use ffmpeg_streaming.Base.Int.{ℤ, pos, negsuc, ltb_ℤ}
use ffmpeg_streaming.Text.{Line, ended, line, hangs, get_line}
use ffmpeg_streaming.Server.{HttpContext, State, send_header, receive_data}
use ffmpeg_streaming.Server.Segments
use ffmpeg_streaming.Server.Segments.{Table}
use ffmpeg_streaming.Server.Connections.{find_feed, put, count_at, increment}
use ffmpeg_streaming.Server.Receive.Data.{World}
use ffmpeg_streaming.Server.Libs.{Libs}
use ffmpeg_streaming.Server.Response.{
  prepare_response, first_tag, send_stream_header, send_error, signed,
}
use ffmpeg_streaming.Server.Request.{
  RequestData, Taken, refused, overruns, taken, handle_line, until_nul,
}
use ffmpeg_streaming.Server.Files.{Opened, Served, not_served, served, misreads, prepare_local_file}
use ffmpeg_streaming.Server.Listing.{Disk, dir_list_local, dir_delete_file}
use ffmpeg_streaming.Server.Numbers.{strtoll10}
use ffmpeg_streaming.Server.Outcomes.{
  System, Effect, Parsed, settle, has_token, starts, nothing, removes, creates, runs, closes, loops,
  fault, answers,
}
use ffmpeg_streaming.Server.Content.{low_bits, asked, read_request_content, read_content}
use ffmpeg_streaming.Server.Uploads.{
  delete_branch, upload_max_size, upload_path, open_error, upload_with, upload_branch, sign_content,
  sign_branch,
}
use ffmpeg_streaming.Server.Joining.{
  atoi, is_channel, is_header, segment_answer, feed_branch, join_branch, after_file, file_branch,
}

-- what the lines give: the connection, the request, and what `msg` holds at the end
pub data Lines : Type 0 where
  bad stuck broken : Lines
  read : HttpContext → RequestData → List ℕ → Lines

-- the loop over the lines, which ends at an empty line; a round for each byte is enough
pub read_lines : System → ℕ → HttpContext → RequestData → List ℕ → List ℕ → Lines
read_lines s zero c rd msg p = stuck
read_lines s (suc fuel) c rd msg p = elim (get_line 1024 p) [
  | ended ↦ read c rd (s.left_over p msg)
  | hangs ↦ stuck
  | line l rest ↦ elim l [
    | [] ↦ read c rd []
    | x ∷ xs ↦ elim (handle_line s.libs c rd (x ∷ xs)) [
      | refused ↦ bad
      | overruns ↦ broken
      | taken c' rd' ↦ read_lines s fuel c' rd' (x ∷ xs) rest
    ]
  ]
]

-- the last part: a segment, a feed, a file
pub stream_branch : System → RequestData → List ℕ → HttpContext → World → List ℕ → Parsed
unfolding segment_answer feed_branch file_branch
stream_branch s rd msg c w socket =
    if not (starts (codes "stream/") c.url)
      && (s.libs.match_ext c.url (codes "m3u8") || s.libs.match_ext c.url (codes "ts"))
    then segment_answer s rd msg
        (Segments.parse_request s.allocated s.before (not (s.libs.stristr rd.cookie first_tag))
          c.url w.table (record c { keep_alive = false }))
        w socket
    else if not (c.post == 0)
    then feed_branch c w socket
    else file_branch s rd c w socket

-- from the content on
pub content_branch : System → RequestData → List ℕ → HttpContext → World → List ℕ → Parsed
unfolding read_content stream_branch
content_branch s rd msg c w socket = elim (read_content s c socket) [
  | none ↦ fault
  | some r ↦ stream_branch s rd msg r.0 w r.1
]

-- once the lines are read
unfoldable pub dispatch : System → RequestData → List ℕ → HttpContext → World → List ℕ → Parsed
unfolding delete_branch upload_branch sign_branch content_branch settle
dispatch s rd msg c w socket =
    let r = dir_list_local s.disk c in
    if not c.has_url
    then closes
    else if c.post == 0 && r.1
    then settle (record r.0 { state = send_header }) w nothing socket
    else if c.post == 0
    then content_branch s rd msg r.0 w socket
    else if c.post == 3
    then delete_branch s c w socket
    else if c.post == 2 && starts (codes "upload/") c.url
    then upload_branch s c rd w socket
    else if c.post == 1 && starts (codes "sign_apk") c.url
    then sign_branch s c w socket
    else content_branch s rd msg c w socket

abbrev pub no_data : RequestData
no_data = record { domain = []; cookie = []; range = []; expect = [] }

-- `http_parse_request`, of the bytes in the buffer and those in the socket
unfoldable pub http_parse_request : System → HttpContext → World → List ℕ → Parsed
unfolding read_lines dispatch
http_parse_request s c w socket =
    elim (read_lines s (suc (length c.received)) c no_data [] (until_nul c.received)) [
      | bad ↦ closes
      | stuck ↦ loops
      | broken ↦ fault
      | read c' rd msg ↦ dispatch s rd msg c' w socket
    ]
