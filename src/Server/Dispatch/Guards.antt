-- ===== src/Server/Dispatch/Guards.antt =====
-- What a request may do to the server's files, and in which states it leaves its connection.
use ffmpeg_streaming.Base.{
  ℕ, suc, ◌≡◌, refl, List, [], ◌++◌, Bool, true, false, ◌&&◌, ◌||◌, not, ◌==◌, Option, none, some,
  if◌then◌else◌, arith, length, take, same_bytes,
}
use ffmpeg_streaming.Base.Text.{codes}
use ffmpeg_streaming.Base.Int.{ℤ, pos, negsuc}
use ffmpeg_streaming.Server.{HttpContext, State, send_header, receive_data}
use ffmpeg_streaming.Server.Segments
use ffmpeg_streaming.Server.Segments.{Table}
use ffmpeg_streaming.Server.Receive.Data.{World}
use ffmpeg_streaming.Server.Response.{prepare_response, first_tag, send_stream_header, send_error}
use ffmpeg_streaming.Server.Request.{RequestData, until_nul}
use ffmpeg_streaming.Server.Files.{
  Served, not_served, served, overflows, misreads, prepare_local_file,
}
use ffmpeg_streaming.Server.Listing.{dir_list_local}
use ffmpeg_streaming.Server.Outcomes.{
  System, Effect, nothing, removes, creates, runs, Parsed, closes, loops, fault, answers, settle,
  has_token, starts,
}
use ffmpeg_streaming.Server.Dispatch.{
  Lines, bad, stuck, broken, read, stream_branch, content_branch, dispatch, http_parse_request,
  read_lines, no_data,
}
use ffmpeg_streaming.Server.Uploads.{
  delete_branch, upload_with, upload_branch, sign_branch, sign_content, upload_path,
}
use ffmpeg_streaming.Server.Joining.{
  after_file, segment_answer, feed_branch, join_branch, file_branch, is_header,
}
use ffmpeg_streaming.Server.Content.{read_content, read_request_content}

-- what was done is nothing, or it is what a connection with the server's token may do, under the names
-- that it may use
unfoldable pub is_permitted : System → HttpContext → Effect → Bool
is_permitted s c nothing = true
is_permitted s c (removes p) = has_token s c && starts (codes "upload/") p
is_permitted s c (creates p) = has_token s c && starts (codes "./upload/") p
is_permitted s c (runs p) = has_token s c && starts (codes "../sign_apk.sh ") p

unfoldable pub is_answered : State → Bool
is_answered send_header = true
is_answered receive_data = true
is_answered _ = false

-- a request that is answered does what is permitted, and leaves its connection to send a header or to
-- receive data
unfoldable pub is_guarded : System → Parsed → Bool
unfolding is_permitted is_answered
is_guarded s closes = true
is_guarded s loops = true
is_guarded s fault = true
is_guarded s (answers c w e rest) = is_permitted s c e && is_answered c.state

guarded-if :
    (s : System) (b : Bool) (x y : Parsed)
    → is_guarded s x ≡ true
    → is_guarded s y ≡ true
    → is_guarded s (if b then x else y) ≡ true
guarded-if s true x y p q = p
guarded-if s false x y p q = q

guarded-option :
    (s : System) {A : Type 0} (o : Option A) (f : A → Parsed)
    → ((r : A) → is_guarded s (f r) ≡ true)
    → is_guarded s (elim o [ none ↦ fault | some r ↦ f r ]) ≡ true
unfolding is_guarded
guarded-option s none f h = refl
guarded-option s (some r) f h = h r

starts-create : (c : HttpContext) → starts (codes "./upload/") (upload_path c) ≡ true
unfolding starts upload_path same_bytes
starts-create c = refl

starts-run :
    (p : List ℕ) → starts (codes "../sign_apk.sh ") (take 510 (codes "../sign_apk.sh " ++ p)) ≡ true
unfolding starts same_bytes
starts-run p = refl

guarded-delete_branch :
    (s : System) (c : HttpContext) (w : World) (socket : List ℕ)
    → is_guarded s (delete_branch s c w socket) ≡ true
unfolding delete_branch is_guarded settle prepare_response has_token is_permitted is_answered
guarded-delete_branch s c w socket = ground arith

guarded-upload_with :
    (s : System) (c : HttpContext) (first : ℕ) (reason : List ℕ) (w : World) (socket : List ℕ)
    → is_guarded s (upload_with s c first reason w socket) ≡ true
unfolding upload_with is_guarded settle prepare_response has_token is_permitted is_answered
guarded-upload_with s c first reason w socket = ground (arith, starts-create c)

guarded-sign_content :
    (s : System) (c : HttpContext) (content : List ℕ) (w : World) (socket : List ℕ)
    → is_guarded s (sign_content s c content w socket) ≡ true
unfolding sign_content is_guarded settle prepare_response has_token is_permitted is_answered
guarded-sign_content s c content w socket = ground (arith, starts-run (until_nul content))

guarded-sign_branch :
    (s : System) (c : HttpContext) (w : World) (socket : List ℕ)
    → is_guarded s (sign_branch s c w socket) ≡ true
unfolding sign_branch
guarded-sign_branch s c w socket =
    guarded-option s (read_request_content c socket)
      (λ r. sign_content s (record c { content_length = pos (length r.0) }) r.0 w r.1)
      (λ r. guarded-sign_content s (record c { content_length = pos (length r.0) }) r.0 w r.1)

guarded-feed_branch :
    (s : System) (c : HttpContext) (w : World) (socket : List ℕ)
    → is_guarded s (feed_branch c w socket) ≡ true
unfolding feed_branch is_guarded settle send_error is_permitted is_answered
guarded-feed_branch s c w socket = ground arith

guarded-join_branch :
    (s : System) (rd : RequestData) (c : HttpContext) (w : World) (socket : List ℕ)
    → is_guarded s (join_branch s rd c w socket) ≡ true
unfolding join_branch is_guarded settle send_stream_header is_permitted is_answered
guarded-join_branch s rd c w socket = ground arith

guarded-after_file :
    (s : System) (rd : RequestData) (r : Served) (w : World) (socket : List ℕ)
    → is_guarded s (after_file s rd r w socket) ≡ true
unfolding after_file is_guarded settle send_error is_permitted is_answered
guarded-after_file s rd overflows w socket = refl
guarded-after_file s rd misreads w socket = refl
guarded-after_file s rd (served c) w socket = refl
guarded-after_file s rd (not_served c) w socket =
    ground (arith, guarded-join_branch s rd c w socket)

-- what `hls_parse_request` gives: an error, or a connection that reads or writes
is_ready : ℤ × Table × HttpContext → Bool
unfolding is_answered
is_ready (negsuc n, t, c) = true
is_ready (pos n, t, c) = is_answered c.state

is_ready-parse_request :
    (allocated : Bool) (before : ℕ) (is_first : Bool) (name : List ℕ) (t : Table) (c : HttpContext)
    → is_ready (Segments.parse_request allocated before is_first name t c) ≡ true
unfolding Segments.parse_request Segments.open_reader Segments.open_writer is_ready is_answered
is_ready-parse_request allocated before is_first name t c = ground arith

guarded-segment_answer :
    (s : System) (rd : RequestData) (msg : List ℕ) (r : ℤ × Table × HttpContext) (w : World)
    (socket : List ℕ)
    → is_ready r ≡ true
    → is_guarded s (segment_answer s rd msg r w socket) ≡ true
unfolding segment_answer is_guarded settle send_error send_stream_header is_permitted is_answered
    is_ready is_header
guarded-segment_answer s rd msg (negsuc n, t, c) w socket h = refl
guarded-segment_answer s rd msg (pos n, t, c) w socket h = ground (arith, h)

guarded-stream_branch :
    (s : System) (rd : RequestData) (msg : List ℕ) (c : HttpContext) (w : World) (socket : List ℕ)
    → is_guarded s (stream_branch s rd msg c w socket) ≡ true
unfolding stream_branch
guarded-stream_branch s rd msg c w socket =
    let parsed =
      Segments.parse_request s.allocated s.before (not (s.libs.stristr rd.cookie first_tag)) c.url
        w.table (record c { keep_alive = false }) in
    guarded-if s
      (not (starts (codes "stream/") c.url)
        && (s.libs.match_ext c.url (codes "m3u8") || s.libs.match_ext c.url (codes "ts")))
      (segment_answer s rd msg parsed w socket)
      (if not (c.post == 0) then feed_branch c w socket else file_branch s rd c w socket)
      (guarded-segment_answer s rd msg parsed w socket (
        is_ready-parse_request s.allocated s.before (not (s.libs.stristr rd.cookie first_tag)) c.url
          w.table (record c { keep_alive = false })))
      (guarded-if s (not (c.post == 0)) (feed_branch c w socket) (file_branch s rd c w socket)
        (guarded-feed_branch s c w socket)
        (guarded-after_file s rd (prepare_local_file s.libs (s.opens c.url) c rd.range) w socket))

guarded-content_branch :
    (s : System) (rd : RequestData) (msg : List ℕ) (c : HttpContext) (w : World) (socket : List ℕ)
    → is_guarded s (content_branch s rd msg c w socket) ≡ true
unfolding content_branch
guarded-content_branch s rd msg c w socket =
    guarded-option s (read_content s c socket) (λ r. stream_branch s rd msg r.0 w r.1)
      (λ r. guarded-stream_branch s rd msg r.0 w r.1)

guarded-upload_branch :
    (s : System) (c : HttpContext) (rd : RequestData) (w : World) (socket : List ℕ)
    → is_guarded s (upload_branch s c rd w socket) ≡ true
unfolding upload_branch
guarded-upload_branch s c rd w socket =
    guarded-if s (s.libs.same_fold rd.expect (codes "100-continue"))
      (upload_with s c 100 (codes "continue") w socket) (upload_with s c 0 [] w socket)
      (guarded-upload_with s c 100 (codes "continue") w socket)
      (guarded-upload_with s c 0 [] w socket)

guarded-dispatch :
    (s : System) (rd : RequestData) (msg : List ℕ) (c : HttpContext) (w : World) (socket : List ℕ)
    → is_guarded s (dispatch s rd msg c w socket) ≡ true
unfolding dispatch is_guarded settle is_permitted is_answered
guarded-dispatch s rd msg c w socket = ground (
  arith,
  guarded-content_branch s rd msg c w socket,
  guarded-content_branch s rd msg (dir_list_local s.disk c).0 w socket,
  guarded-delete_branch s c w socket,
  guarded-upload_branch s c rd w socket,
  guarded-sign_branch s c w socket,
)

guarded-lines :
    (s : System) (r : Lines) (w : World) (socket : List ℕ)
    → is_guarded s (elim r [
      | bad ↦ closes
      | stuck ↦ loops
      | broken ↦ fault
      | read c rd msg ↦ dispatch s rd msg c w socket
    ])
      ≡ true
unfolding is_guarded
guarded-lines s bad w socket = refl
guarded-lines s stuck w socket = refl
guarded-lines s broken w socket = refl
guarded-lines s (read c rd msg) w socket = guarded-dispatch s rd msg c w socket

-- A request that is answered removes a name, writes a file or starts a program only where the token
-- of its connection is the server's, on their first 63 bytes; what is removed begins with upload/, what
-- is written with ./upload/, and the line that is given to system begins with ../sign_apk.sh and a
-- space. The connection is left to send a header or to receive data.
pub is_guarded-http_parse_request :
    (s : System) (c : HttpContext) (w : World) (socket : List ℕ)
    → is_guarded s (http_parse_request s c w socket) ≡ true
unfolding http_parse_request
is_guarded-http_parse_request s c w socket =
    guarded-lines s (read_lines s (suc (length c.received)) c no_data [] (until_nul c.received)) w
      socket
