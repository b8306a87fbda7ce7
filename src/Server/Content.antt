-- ===== src/Server/Content.antt =====
-- ffserver.c: the content of a request (read_request_content).
use ffmpeg_streaming.Base.{
  ℕ, ◌+◌, ◌-◌, ◌%◌, ◌^◌, List, ◌&&◌, ◌||◌, not, Option, none, some, ltb, ◌==◌, if◌then◌else◌,
  length, take, drop,
}
use ffmpeg_streaming.Base.Text.{codes}
use ffmpeg_streaming.Base.Int.{ℤ, pos, negsuc, ltb_ℤ}
use ffmpeg_streaming.Server.{HttpContext}
use ffmpeg_streaming.Server.Outcomes.{System, starts}

-- the low 32 bits
unfoldable pub low_bits : ℤ → ℕ
low_bits (pos n) = n % 2 ^ 32
low_bits (negsuc n) = 2 ^ 32 - 1 - n % 2 ^ 32

-- the size that recv is called with: FFMIN(510, content_length) as an int, and then as a size_t
unfoldable pub asked : ℤ → ℕ
unfolding low_bits
asked n =
    let low = low_bits (if ltb_ℤ n (pos 510) then n else pos 510) in
    if ltb low (2 ^ 31) then low else low + (2 ^ 64 - 2 ^ 32)

-- `read_request_content` into 512 bytes: the bytes, and what the socket still holds; or more bytes
-- than that
unfoldable pub read_request_content : HttpContext → List ℕ → Option (List ℕ × List ℕ)
unfolding asked
read_request_content c socket =
    let n = asked c.content_length in
    if ltb 512 (length (take n socket)) then none else some (take n socket, drop n socket)

-- the content of a POST or PUT that is neither a feed nor a segment; such a request is then a GET
unfoldable pub read_content : System → HttpContext → List ℕ → Option (HttpContext × List ℕ)
read_content s c socket =
    if not (c.post == 0)
      && (ltb_ℤ c.content_length (pos 0) || ltb_ℤ (pos 0) c.content_length)
      && not (starts (codes "stream/") c.url)
      && not (s.libs.match_ext c.url (codes "m3u8"))
      && not (s.libs.match_ext c.url (codes "ts"))
      && not (s.libs.match_ext c.url (codes "flv"))
    then elim (read_request_content c socket) [
      | none ↦ none
      | some r ↦ some (record c { post = 0; content_length = pos (length r.0) }, r.1)
    ]
    else some (c, socket)
