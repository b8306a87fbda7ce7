-- ===== src/Tests/Dispatch.antt =====
-- Requests that are read and answered.
use ffmpeg_streaming.Base.{
  ◌≡◌, refl, ℕ, [], ◌∷◌, ◌++◌, List, none, some, true, false, not, ◌||◌, arith, length, same_bytes,
}
use ffmpeg_streaming.Base.Text.{codes}
use ffmpeg_streaming.Base.Int.{pos, negsuc}
use ffmpeg_streaming.Text.Words.{join_lines}
use ffmpeg_streaming.Text.Utf8.{is_utf8}
use ffmpeg_streaming.Server.{HttpContext, wait_request, receive_data}
use ffmpeg_streaming.Server.Libs.{Libs}
use ffmpeg_streaming.Server.Receive.Data.{World}
use ffmpeg_streaming.Server.Connections.{is_fed}
use ffmpeg_streaming.Server.Connections.Feeds.{fed}
use ffmpeg_streaming.Server.Connections.Listed.{occurs}
use ffmpeg_streaming.Server.Files.{Opened, dir_is_modifed, etag_of}
use ffmpeg_streaming.Server.Files.Cached.{dir_is_modifed_lem}
use ffmpeg_streaming.Server.Listing.{Disk, dir2html, listed, list_head, dir_list_local}
use ffmpeg_streaming.Server.Listing.Pages.{dir_list_local-page}
use ffmpeg_streaming.Server.Request.Get.{line_of_get}
use ffmpeg_streaming.Server.Outcomes.{System, settle, nothing}
use ffmpeg_streaming.Server.Dispatch.{http_parse_request, read_lines, no_data}
use ffmpeg_streaming.Server.Joining.{feed_branch, join_branch}
use ffmpeg_streaming.Server.Dispatch.Guards.{is_guarded, is_guarded-http_parse_request}
use ffmpeg_streaming.Server.Dispatch.Requests.{take_lines, read_lines-get}
use ffmpeg_streaming.Server.Dispatch.Streams.{IsCounted, feed_branch-first, join_branch-IsCounted}
use ffmpeg_streaming.Tests.Streaming.{connection, table, live}

-- no part of a name is found, names are compared as they are, and no name is converted
abbrev pub libs : Libs
libs = record {
  stristr = λ s t. false;
  match_ext = λ s t. false;
  same_fold = same_bytes;
  to_utf8 = λ s. none;
}

-- a directory with one file
abbrev disk : Disk
disk = record {
  stat = λ s. some true;
  entries = λ s.
      some (
        record { d_name = codes "a.ts"; is_directory = false; st_size = 2048; modified = [] } ∷ []);
  removes = λ s. true;
  megabytes = λ n. [];
  allocated = true;
}

abbrev pub system : System
system = record {
  libs = libs;
  disk = disk;
  opens = λ s. none;
  creates = λ s. pos 7;
  token = codes "key";
  allocated = true;
  before = 0;
  left_over = λ s t. t;
}

-- a connection that has sent the whole of a request
abbrev removing : HttpContext
removing = record (connection 1 wait_request (negsuc 0) 0 none (pos 0)) {
  received =
      join_lines (codes "DELETE /upload/a HTTP/1.1" ∷ codes "X-TOKEN: key" ∷ []) ++ 13 ∷ 10 ∷ [];
}

abbrev world : World
world = record { table = table; connections = removing ∷ [] }

is_guarded-http_parse_request_example :
    is_guarded system (http_parse_request system removing world []) ≡ true
is_guarded-http_parse_request_example = is_guarded-http_parse_request system removing world []

read_lines-get_example :
    read_lines system 4 removing no_data []
      (join_lines (line_of_get (codes "a.ts") ∷ codes "Host: x" ∷ []) ++ 13 ∷ 10 ∷ [])
    ≡ take_lines system
        (record removing { post = 0; has_url = true; url = codes "a.ts"; http_version = 1 })
        no_data
        (codes "Host: x" ∷ [])
unfolding is_utf8
read_lines-get_example =
    read_lines-get system b'a' (codes ".ts") (codes "Host: x" ∷ []) 4 removing no_data [] []
      (refl, (refl, (refl, (refl, tt)))) refl refl (omega arith)
      (((refl, (refl, (refl, (refl, (refl, (refl, (refl, tt))))))), omega arith, omega arith), tt)
      (omega arith)

-- a second connection that posts a stream which the first one feeds
abbrev feeder : HttpContext
feeder = record (connection 1 receive_data (negsuc 0) 0 none (pos 0)) { post = 1 }

abbrev second : HttpContext
second = record (connection 2 wait_request (negsuc 0) 0 none (pos 0)) { post = 1 }

abbrev streams : World
streams = record { table = table; connections = second ∷ feeder ∷ [] }

feed_branch-first_example :
    feed_branch second streams []
    ≡ settle (record second { http_error = 0; state = receive_data }) streams nothing []
feed_branch-first_example = feed_branch-first second second (feeder ∷ []) streams [] refl refl refl

-- a connection that asks for the stream
abbrev viewer : HttpContext
viewer = record (connection 3 wait_request (negsuc 0) 0 none (pos 0)) { post = 0 }

abbrev viewers : World
viewers = record { table = table; connections = viewer ∷ feeder ∷ [] }

join_branch-IsCounted_example : IsCounted (join_branch system no_data viewer viewers [])
unfolding fed is_fed occurs
join_branch-IsCounted_example =
    join_branch-IsCounted system no_data viewer viewers [] refl (refl, (refl, tt)) refl refl
      (refl, (refl, tt))

dir_list_local-page_example :
    (page : List ℕ) × (dir2html disk live (codes "/s/1/") ≡ page ++ 10 ∷ [])
    × ((dir_list_local disk viewer).0.pending
        ≡ list_head (length (page ++ 0 ∷ [])) ++ (page ++ 0 ∷ []))
unfolding listed
dir_list_local-page_example =
    dir_list_local-page disk viewer live (codes "/s/1/") _ refl refl refl refl

-- a file, and a client that has it already
abbrev kept : Opened
kept = record { fd = 5; bytes = 1 ∷ 2 ∷ []; mtime = 255; last_modified = [] }

abbrev caching : HttpContext
caching = record viewer { inm = codes "W/" ++ b'"' ∷ (codes "ff.2" ++ b'"' ∷ []) }

dir_is_modifed_lem_example :
    dir_is_modifed caching kept
    ≡ not (
        same_bytes caching.inm (codes "*")
        || same_bytes caching.inm (etag_of kept)
        || same_bytes caching.inm (codes "W/" ++ etag_of kept))
dir_is_modifed_lem_example = dir_is_modifed_lem caching kept
