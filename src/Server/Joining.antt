-- ===== src/Server/Joining.antt =====
-- ffserver.c: the requests of http_parse_request for segments, live streams and files.
use ffmpeg_streaming.Base.{
  ℕ, ◌-◌, ◌^◌, List, ◌++◌, Bool, true, false, ◌&&◌, not, none, some, ltb, leb, ◌==◌, if◌then◌else◌,
  length,
}
use ffmpeg_streaming.Base.Text.{codes}
use ffmpeg_streaming.Base.Int.{ℤ, pos, negsuc}
use ffmpeg_streaming.Server.{HttpContext, State, send_header, receive_data}
use ffmpeg_streaming.Server.Segments.{Table}
use ffmpeg_streaming.Server.Connections.{find_feed, put, count_at, increment}
use ffmpeg_streaming.Server.Receive.Data.{World}
use ffmpeg_streaming.Server.Response.{send_stream_header, send_error, signed}
use ffmpeg_streaming.Server.Request.{RequestData}
use ffmpeg_streaming.Server.Files.{
  Served, not_served, served, overflows, misreads, prepare_local_file,
}
use ffmpeg_streaming.Server.Numbers.{strtoll10}
use ffmpeg_streaming.Server.Outcomes.{System, Parsed, settle, starts, nothing, fault}
use ffmpeg_streaming.Server.Content.{low_bits}

-- atoi
unfoldable pub atoi : List ℕ → ℤ
unfolding low_bits
atoi text =
    let low = low_bits (strtoll10 text) in
    if ltb low (2 ^ 31) then pos low else negsuc (2 ^ 32 - 1 - low)

-- a channel is from 0 to 10000
unfoldable pub is_channel : ℤ → Bool
is_channel (pos n) = leb n 10000
is_channel (negsuc n) = false

unfoldable pub is_header : State → Bool
is_header send_header = true
is_header _ = false

-- what follows `hls_parse_request`
unfoldable pub segment_answer :
    System → RequestData → List ℕ → ℤ × Table × HttpContext → World → List ℕ → Parsed
unfolding atoi is_channel is_header settle
segment_answer s rd msg (ret, t, c) w socket =
    let w' : World = record w { table = t } in
    let answer : HttpContext =
      if is_header c.state then send_stream_header s.libs rd.domain c else c in
    elim ret [
      | negsuc n ↦ settle (send_error msg c) w' nothing socket
      | pos n ↦
          if n == 1 && not (is_channel (atoi c.url))
          then settle
              (send_error (codes "bad request: " ++ (c.url ++ (codes "-->" ++ signed (atoi c.url))))
                c)
              w' nothing socket
          else settle answer w' nothing socket
    ]

-- a POST or PUT of a stream
unfoldable pub feed_branch : HttpContext → World → List ℕ → Parsed
unfolding settle
feed_branch c w socket =
    let ready : HttpContext = record c { http_error = 0; state = receive_data } in
    elim (find_feed c.url (put c w.connections)) [
      | none ↦ settle ready w nothing socket
      | some ctx ↦
          if ctx.address == c.address
          then settle ready w nothing socket
          else if ltb 1002 (length c.url)
          then fault
          else settle (send_error (codes "file " ++ (c.url ++ codes " has been feeded")) c) w
              nothing socket
    ]

-- a GET of a stream
unfoldable pub join_branch : System → RequestData → HttpContext → World → List ℕ → Parsed
unfolding settle
join_branch s rd c w socket = elim (find_feed c.url (put c w.connections)) [
  | none ↦
      if ltb 1011 (length c.url)
      then fault
      else settle
          (send_stream_header s.libs rd.domain (record c { keep_alive = false; feed_ctx = none })) w
          nothing socket
  | some ctx ↦
      settle (send_stream_header s.libs rd.domain (record c { feed_ctx = some ctx.address }))
        (record w { connections = count_at (λ n. increment n 1) ctx.address w.connections }) nothing
        socket
]

-- what follows `prepare_local_file`
unfoldable pub after_file : System → RequestData → Served → World → List ℕ → Parsed
unfolding join_branch settle
after_file s rd overflows w socket = fault
after_file s rd misreads w socket = fault
after_file s rd (served c) w socket = settle (record c { state = send_header }) w nothing socket
after_file s rd (not_served c) w socket =
    if not (starts (codes "stream/") c.url)
    then settle (send_error (codes "404 Not Found") c) w nothing socket
    else join_branch s rd c w socket

-- a GET of a file, or else of a stream
unfoldable pub file_branch : System → RequestData → HttpContext → World → List ℕ → Parsed
unfolding after_file
file_branch s rd c w socket =
    after_file s rd (prepare_local_file s.libs (s.opens c.url) c rd.range) w socket
