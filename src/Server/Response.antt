-- ===== src/Server/Response.antt =====
-- ffserver.c: the responses that the server writes itself (prepare_response, get_mine_type, the
-- headers and the error page of http_parse_request).
use ffmpeg_streaming.Base.{
  ℕ, zero, suc, ◌+◌, ◌/◌, ◌%◌, List, [], ◌∷◌, ◌++◌, ltb, if◌then◌else◌, false,
}
use ffmpeg_streaming.Base.Text.{codes}
use ffmpeg_streaming.Base.Int.{ℤ, pos, negsuc}
use ffmpeg_streaming.Text.{htmlstrip}
use ffmpeg_streaming.Server.{HttpContext, send_header}
use ffmpeg_streaming.Server.Libs.{Libs}

-- `%d`, the digits of a number in base 10; more rounds than it has digits are enough
unfoldable pub decimal : ℕ → ℕ → List ℕ
decimal zero n = []
decimal (suc fuel) n =
    let high = decimal fuel (n / 10) in
    if ltb n 10 then (b'0' + n) ∷ [] else high ++ (b'0' + n % 10) ∷ []

-- `%lld`
unfoldable pub signed : ℤ → List ℕ
unfolding decimal
signed (pos n) = decimal 20 n
signed (negsuc n) = b'-' ∷ decimal 20 (n + 1)

abbrev pub crlf : List ℕ
crlf = 13 ∷ 10 ∷ []

-- `prepare_response`; a status has three digits
unfoldable pub prepare_response : HttpContext → ℕ → List ℕ → HttpContext
unfolding decimal
prepare_response c code reason = record c {
  pending = codes "HTTP/1.1 " ++ (decimal 10 code ++ 32 ∷ (reason ++ crlf ++ crlf ++ crlf));
  state = send_header;
}

-- the table of `get_mine_type`, in its order, which is searched anywhere in the name
abbrev pub mine_types : List (List ℕ × List ℕ)
mine_types =
    (codes ".htm", codes "text/html")
    ∷ (codes ".m3u8", codes "text/plain")
    ∷ (codes ".ts", codes "video/MP2T")
    ∷ (codes ".flv", codes "video/MP2T")
    ∷ (codes ".xml", codes "text/xml")
    ∷ (codes ".css", codes "text/css")
    ∷ (codes ".h", codes "text/plain")
    ∷ (codes ".c", codes "text/plain")
    ∷ (codes ".txt", codes "text/plain")
    ∷ []

first_type : Libs → List ℕ → List (List ℕ × List ℕ) → List ℕ
first_type l name [] = codes "application/octet-stream"
first_type l name ((part, type) ∷ ts) =
    let rest = first_type l name ts in if l.stristr name part then type else rest

-- `get_mine_type` of a name
pub get_mine_type : Libs → List ℕ → List ℕ
unfolding first_type
get_mine_type l name = first_type l name mine_types

-- the last line of a header, and the empty line after it
unfoldable pub connection_line : HttpContext → List ℕ
connection_line c =
    codes "Connection: "
    ++ ((if c.keep_alive then codes "keep-alive" else codes "close") ++ (crlf ++ crlf))

-- "First-Request=0"
abbrev pub first_tag : List ℕ
first_tag = codes "First-Request=0"

-- the label send_header of `http_parse_request`, for the domain that was asked
unfoldable pub send_stream_header : Libs → List ℕ → HttpContext → HttpContext
unfolding get_mine_type
send_stream_header l domain c = record c {
  pending =
      codes "HTTP/1.1 200 OK"
      ++ (crlf
          ++ (codes "Pragma: no-cache"
              ++ (crlf
                  ++ (codes "Content-Type: "
                      ++ (get_mine_type l c.url
                          ++ (crlf
                              ++ (codes "Connection: "
                                  ++ ((if c.keep_alive then codes "keep-alive" else codes "close")
                                      ++ (crlf
                                          ++ (codes "Set-Cookie: "
                                              ++ (first_tag
                                                  ++ (codes "; Path=/; Domain="
                                                      ++ (domain ++ (crlf ++ crlf))))))))))))));
  http_error = 0;
  state = send_header;
}

-- the label send_error, with its message
unfoldable pub send_error : List ℕ → HttpContext → HttpContext
send_error msg c = record c {
  keep_alive = false;
  http_error = 404;
  pending =
      codes "HTTP/1.1 404 Not Found"
      ++ (crlf
          ++ (codes "Content-type: text/html"
              ++ (crlf
                  ++ (crlf
                      ++ (codes "<html>"
                          ++ 10
                            ∷ (codes "<head><title>404 Not Found</title></head>"
                                ++ 10
                                  ∷ (codes "<body>"
                                      ++ (htmlstrip msg
                                          ++ (codes "</body>"
                                              ++ 10 ∷ (codes "</html>" ++ 10 ∷ []))))))))));
  state = send_header;
}
