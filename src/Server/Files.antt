-- ===== src/Server/Files.antt =====
-- ffserver.c: a request for a local file (prepare_local_file), in a build without compression. Reads
-- of the file succeed.
pub mod Cached
pub mod Ranges
use ffmpeg_streaming.Base.{
  ℕ, ◌+◌, ◌-◌, List, [], ◌∷◌, ◌++◌, Bool, false, ◌&&◌, not, Option, none, some, ltb, leb, ◌==◌,
  if◌then◌else◌, min, length, take, drop, same_bytes,
}
use ffmpeg_streaming.Base.Int.{ℤ, pos, negsuc, sub_ℕ, pos_part, neg_part, ltb_ℤ}
use ffmpeg_streaming.Server.{HttpContext}
use ffmpeg_streaming.Server.Numbers.{strtoll10}
use ffmpeg_streaming.Server.Libs.{Libs}
use ffmpeg_streaming.Server.Response.{crlf, decimal, signed, get_mine_type, connection_line}
use ffmpeg_streaming.Server.Send.{digits, hex_text}
use ffmpeg_streaming.Base.Text.{codes}

-- MIN_SIZE_OF_LOCAL_FILE_FOR_CHUNKED and FILE_BUF_SIZE
abbrev pub min_size_of_local_file_for_chunked : ℕ
min_size_of_local_file_for_chunked = 8192

abbrev pub file_buf_size : ℕ
file_buf_size = 2097152

-- strchr(s, '-'): what follows the first dash
pub after_dash : List ℕ → Option (List ℕ)
after_dash [] = none
after_dash (c ∷ cs) = let rest = after_dash cs in if c == b'-' then some cs else rest

-- "bytes="
abbrev pub bytes_prefix : List ℕ
bytes_prefix = b'b' ∷ b'y' ∷ b't' ∷ b'e' ∷ b's' ∷ b'=' ∷ []

pub end_of : List ℕ → ℤ
unfolding after_dash
end_of ptr = elim (after_dash ptr) [
  | none ↦ pos 0
  | some rest ↦ if ltb 0 (length rest) then strtoll10 rest else pos 0
]

-- The first and the last byte that a range asks for, of a file of `size` bytes, as the code has them;
-- `none` where there is no range.
pub range_of : ℕ → List ℕ → Option (ℤ × ℤ)
unfolding end_of
range_of size range =
    if same_bytes (take 6 range) bytes_prefix
    then (let last = end_of (drop 6 range) in
        some (
          strtoll10 (drop 6 range),
          if ltb_ℤ (pos 0) last && ltb_ℤ last (pos size) then last else sub_ℕ size 1,
        ))
    else none

-- `off_end - off_start + 1`, or the size of the file
pub wanted_of : ℕ → Option (ℤ × ℤ) → ℤ
wanted_of size none = pos size
wanted_of size (some (first, last)) =
    sub_ℕ (pos_part last + neg_part first + 1) (pos_part first + neg_part last)

start_of : Option (ℤ × ℤ) → ℤ
start_of none = pos 0
start_of (some (first, last)) = first

last_of : ℕ → Option (ℤ × ℤ) → ℤ
last_of size none = sub_ℕ size 1
last_of size (some (first, last)) = last

-- What `prepare_local_file` does: there is no such file (or no memory), the connection has a header
-- and bytes to send, the header is written past the end of its buffer, or read is called with a
-- negative number as its size_t.
pub data Served : Type 0 where
  not_served : HttpContext → Served
  served : HttpContext → Served
  overflows : Served
  misreads : Served

-- The file as opened and read: its descriptor, its bytes, the time of its last change, and that time
-- as strftime prints it.
pub record Opened : Type 0 where
  pub fd : ℕ
  pub bytes : List ℕ
  pub mtime : ℕ
  pub last_modified : List ℕ

-- `"%lx.%lx"` in quotes
unfoldable pub etag_of : Opened → List ℕ
etag_of f =
    b'"'
    ∷ (hex_text (digits 16 f.mtime) ++ b'.' ∷ (hex_text (digits 16 (length f.bytes)) ++ b'"' ∷ []))

-- `dir_is_modifed`: the test of `c->inm`, an array, always holds, so that `ims` is not looked at
unfoldable pub dir_is_modifed : HttpContext → Opened → Bool
unfolding etag_of
dir_is_modifed c f =
    if same_bytes c.inm (codes "*")
    then false
    else if same_bytes (take 2 c.inm) (codes "W/")
    then not (same_bytes (drop 2 c.inm) (etag_of f))
    else not (same_bytes c.inm (etag_of f))

lm_etag : Opened → List ℕ
unfolding etag_of
lm_etag f =
    codes "Cache-Control:max-age=0, must-revalidate"
    ++ (crlf
        ++ (codes "Last-Modified: "
            ++ (f.last_modified ++ (crlf ++ (codes "Etag: " ++ (etag_of f ++ crlf))))))

prepare_not_modified : Opened → HttpContext → HttpContext
unfolding lm_etag
prepare_not_modified f c = record c {
  http_error = 304;
  local_fd = negsuc 0;
  pending = codes "HTTP/1.1 304 Not Modified" ++ (crlf ++ (lm_etag f ++ connection_line c));
}

-- a large file on a connection that stays open is sent in chunks, or up to the close
prepare_chunked : Libs → Opened → HttpContext → HttpContext
unfolding lm_etag
prepare_chunked l f c =
    let chunked = leb 1 c.http_version in
    let c' : HttpContext = record c {
      tr_encoding = if chunked then 1 else 0;
      keep_alive = chunked && c.keep_alive;
      local_fd = pos f.fd;
      local_file = f.bytes;
      http_error = 0;
    } in
    record c' {
      pending =
          codes "HTTP/1.1 200 OK"
          ++ (crlf
              ++ ((if chunked then codes "Transfer-Encoding: chunked" ++ crlf else [])
                  ++ (codes "Content-type: "
                      ++ (get_mine_type l c.url ++ (crlf ++ (lm_etag f ++ connection_line c'))))));
    }

-- the header of a range, or of the whole of a file
pub range_head : Libs → Opened → HttpContext → Option (ℤ × ℤ) → ℤ → List ℕ
unfolding lm_etag
range_head l f c r wanted =
    let size = length f.bytes in
    codes "HTTP/1.1 "
    ++ ((elim r [ none ↦ codes "200 OK" | some p ↦ codes "206 Partial Content" ])
        ++ (crlf
            ++ (codes "Content-type: "
                ++ (get_mine_type l c.url
                    ++ (crlf
                        ++ (codes "Accept-Ranges: bytes"
                            ++ (crlf
                                ++ (codes "Content-Range: bytes "
                                    ++ (signed (start_of r)
                                        ++ b'-'
                                          ∷ (signed (last_of size r)
                                              ++ b'/'
                                                ∷ (decimal 20 size
                                                    ++ (crlf
                                                        ++ (codes "Content-Length: "
                                                            ++ (signed wanted
                                                            ++ (crlf
                                                            ++ ((elim r [
                                                              | none ↦ lm_etag f
                                                              | some p ↦ []
                                                            ])
                                                            ++ connection_line c))))))))))))))))

-- the memory that is allocated for the header and the first bytes, where some is
unfoldable pub buffer_of : ℤ → ℕ
buffer_of (pos n) = min (n + 1024) file_buf_size
buffer_of (negsuc n) = 1023 - n

-- sprintf of the header, with its 0, goes past the end of the buffer
unfoldable pub is_too_long : List ℕ → ℤ → Bool
unfolding buffer_of
is_too_long head wanted = ltb (buffer_of wanted) (length head + 1)

-- the first read; a start that lseek refuses leaves the file at its beginning
first_read : Libs → Opened → HttpContext → Option (ℤ × ℤ) → ℕ → Served
unfolding range_head buffer_of
first_read l f c r wanted =
    let head = range_head l f c r (pos wanted) in
    let from = drop (pos_part (start_of r)) f.bytes in
    let tried = min (buffer_of (pos wanted) - length head) wanted in
    let body = take tried from in
    let sent_now = head ++ (if c.only_header then [] else body) in
    if length body == wanted
    then served (record c { http_error = 200; local_fd = negsuc 0; pending = sent_now })
    else served (record c {
      local_fd = pos f.fd;
      local_file = drop tried from;
      http_error = 0;
      total_count = length head + wanted;
      pending = sent_now;
    })

-- a range, or the whole of a file
prepare_range : Libs → Opened → HttpContext → List ℕ → Served
unfolding range_of wanted_of first_read is_too_long
prepare_range l f c range =
    let r = range_of (length f.bytes) range in
    elim (wanted_of (length f.bytes) r) [
      | pos n ↦
          if is_too_long (range_head l f c r (pos n)) (pos n)
          then overflows
          else first_read l f c r n
      | negsuc n ↦
          if not (ltb n 1024)
          then not_served (record c { pending = [] })
          else if is_too_long (range_head l f c r (negsuc n)) (negsuc n)
          then overflows
          else misreads
    ]

-- `prepare_local_file`, of the file at the connection's name if there is one
pub prepare_local_file : Libs → Option Opened → HttpContext → List ℕ → Served
unfolding dir_is_modifed prepare_not_modified prepare_chunked prepare_range
prepare_local_file l none c range = not_served c
prepare_local_file l (some f) c range =
    if not (dir_is_modifed c f)
    then served (prepare_not_modified f c)
    else if leb min_size_of_local_file_for_chunked (length f.bytes) && c.keep_alive
    then served (prepare_chunked l f c)
    else prepare_range l f c range
