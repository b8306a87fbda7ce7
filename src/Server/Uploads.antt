-- ===== src/Server/Uploads.antt =====
-- ffserver.c: the requests of http_parse_request that change the files of the server: uploads, removals
-- and sign_apk.
use ffmpeg_streaming.Base.{
  ℕ, ◌^◌, List, [], ◌++◌, ◌||◌, not, none, some, ◌==◌, if◌then◌else◌, length, take, drop,
}
use ffmpeg_streaming.Base.Text.{codes}
use ffmpeg_streaming.Base.Int.{ℤ, pos, negsuc, ltb_ℤ}
use ffmpeg_streaming.Server.{HttpContext, receive_data}
use ffmpeg_streaming.Server.Receive.Data.{World}
use ffmpeg_streaming.Server.Response.{prepare_response, signed}
use ffmpeg_streaming.Server.Request.{RequestData, until_nul}
use ffmpeg_streaming.Server.Listing.{dir_delete_file}
use ffmpeg_streaming.Server.Outcomes.{
  System, Parsed, settle, has_token, starts, nothing, removes, creates, runs, fault,
}
use ffmpeg_streaming.Server.Content.{read_request_content}

-- DELETE
unfoldable pub delete_branch : System → HttpContext → World → List ℕ → Parsed
unfolding settle
delete_branch s c w socket =
    if not (starts (codes "upload/") c.url) || not (has_token s c)
    then settle (prepare_response (record c { http_error = 403 }) 403 []) w nothing socket
    else let r = dir_delete_file s.disk c.url in
      settle (prepare_response (record c { http_error = r.0 }) r.0 []) w
        (if r.1 then removes c.url else nothing) socket

-- DIR_UPLOAD_MAX_SIZE
abbrev pub upload_max_size : ℕ
upload_max_size = 2 ^ 41

-- the path that an upload is stored at
unfoldable pub upload_path : HttpContext → List ℕ
upload_path c = take 1023 (codes "./upload/" ++ drop 7 c.url)

-- ff_neterrno() as text
unfoldable pub open_error : ℤ → List ℕ
open_error e = take 1023 (codes "bad file path error " ++ signed e)

-- PUT of a name in upload/: `first` and `reason` are the status so far, 0 or 100 ("continue")
unfoldable pub upload_with : System → HttpContext → ℕ → List ℕ → World → List ℕ → Parsed
unfolding upload_path open_error settle
upload_with s c first reason w socket =
    if ltb_ℤ (pos upload_max_size) c.content_length
    then settle
        (prepare_response (record c { http_error = 417 }) 417 (codes "upload too large file")) w
        nothing socket
    else if not (has_token s c)
    then settle (prepare_response (record c { http_error = 417 }) 417 (codes "bad token")) w nothing
        socket
    else elim (s.creates (upload_path c)) [
      | negsuc e ↦
          settle
            (prepare_response (record c { http_error = 417; local_fd = negsuc 0 }) 417
              (open_error (negsuc e)))
            w nothing socket
      | pos fd ↦
          let c' : HttpContext = record c { http_error = first; local_fd = pos fd } in
          settle
            (if first == 0
              then record c' { state = receive_data }
              else prepare_response c' first reason)
            w (creates (upload_path c)) socket
    ]

unfoldable pub upload_branch : System → HttpContext → RequestData → World → List ℕ → Parsed
unfolding upload_with
upload_branch s c rd w socket =
    if s.libs.same_fold rd.expect (codes "100-continue")
    then upload_with s c 100 (codes "continue") w socket
    else upload_with s c 0 [] w socket

-- POST of sign_apk, once its content is read
unfoldable pub sign_content : System → HttpContext → List ℕ → World → List ℕ → Parsed
unfolding settle
sign_content s c content w socket =
    let denied : HttpContext = record c { http_error = 403 } in
    let path = until_nul content in
    if length content == 0
    then settle (prepare_response denied 403 (codes "no content")) w nothing socket
    else if not (has_token s c)
    then settle (prepare_response denied 403 (codes "bad token")) w nothing socket
    else if length content == 512
    then fault
    else elim (s.disk.stat path) [
      | none ↦ settle (prepare_response (record c { http_error = 404 }) 404 []) w nothing socket
      | some is_directory ↦
          settle (prepare_response (record c { http_error = 200 }) 200 []) w
            (runs (take 510 (codes "../sign_apk.sh " ++ path))) socket
    ]

-- POST of sign_apk
unfoldable pub sign_branch : System → HttpContext → World → List ℕ → Parsed
unfolding sign_content
sign_branch s c w socket = elim (read_request_content c socket) [
  | none ↦ fault
  | some r ↦ sign_content s (record c { content_length = pos (length r.0) }) r.0 w r.1
]
