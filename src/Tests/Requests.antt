-- ===== src/Tests/Requests.antt =====
-- Runs on the text of requests.
use ffmpeg_streaming.Base.{ℕ, ◌≡◌, refl, List, [], ◌∷◌, ◌++◌, ◌==◌, not, arith}
use ffmpeg_streaming.Text.{url_decode, copy_line, hangs}
use ffmpeg_streaming.Text.Url.{url_encode, url_decode-url_encode}
use ffmpeg_streaming.Text.Words.{get_line-hangs}

-- "a b%", of which only the percent sign is coded
abbrev name : List ℕ
name = b'a' ∷ 32 ∷ b'b' ∷ b'%' ∷ 255 ∷ []

url_decode-url_encode_example : url_decode (url_encode (λ c. not (c == b'%')) name) ≡ name
url_decode-url_encode_example =
    url_decode-url_encode (λ c. not (c == b'%')) name refl
      (omega arith, (omega arith, (omega arith, (omega arith, (omega arith, tt)))))

get_line-hangs_example : copy_line 1000 2 ((b'a' ∷ b'b' ∷ b'c' ∷ []) ++ 13 ∷ 10 ∷ []) ≡ hangs
get_line-hangs_example =
    get_line-hangs 3 1000 (b'a' ∷ b'b' ∷ b'c' ∷ []) (13 ∷ 10 ∷ []) (refl, (refl, (refl, tt)))
      (omega arith)
