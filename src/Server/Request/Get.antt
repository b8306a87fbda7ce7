-- ===== src/Server/Request/Get.antt =====
-- The line of a GET.
use ffmpeg_streaming.Base.{
  ℕ, ◌+◌, ◌-◌, ◌≡◌, ◌≤◌, refl, ap, ◌∙◌, List, [], ◌∷◌, ◌++◌, ◌==◌, ◌&&◌, not, Bool, true, false,
  arith, length, All, ltb, take_all, length-append, same_bytes,
}
use ffmpeg_streaming.Base.Text.{codes}
use ffmpeg_streaming.Text.{is_space, copy_word, skip_spaces, get_word, url_decode}
use ffmpeg_streaming.Text.Utf8.{is_utf8}
use ffmpeg_streaming.Text.Words.{copy_word-word, in_line}
use ffmpeg_streaming.Text.Url.{url_decode-nil, url_decode-plain}
use ffmpeg_streaming.Server.{HttpContext}
use ffmpeg_streaming.Server.Libs.{Libs}
use ffmpeg_streaming.Server.Request.{
  RequestData, taken, handle_line, request_line, set_request, word_length, name_asked, until_nul,
  url_local, strip_slashes, drop_last_slash, before_query, version_of, set_method, name_of,
  is_method,
}

-- a byte of a name that a request line can carry as it is
abbrev pub is_plain : ℕ → Bool
is_plain c = not (is_space c) && not (c == 0) && not (c == b'%') && not (c == b'?')

decoded : (xs : List ℕ) → All (λ c. is_plain c ≡ true) xs → url_decode xs ≡ xs
decoded [] h = url_decode-nil
decoded (c ∷ xs) (h, hs) =
    url_decode-plain c xs (ground (arith, h)) ∙ ap (λ k. c ∷ k) (decoded xs hs)

until_nul-plain : (xs : List ℕ) → All (λ c. is_plain c ≡ true) xs → until_nul xs ≡ xs
unfolding until_nul
until_nul-plain [] h = refl
until_nul-plain (c ∷ xs) (h, hs) = ground (arith, h, until_nul-plain xs hs)

before_query-plain : (xs : List ℕ) → All (λ c. is_plain c ≡ true) xs → before_query xs ≡ xs
unfolding before_query
before_query-plain [] h = refl
before_query-plain (c ∷ xs) (h, hs) = ground (arith, h, before_query-plain xs hs)

plain-no_space : (xs : List ℕ) → All (λ c. is_plain c ≡ true) xs → All (λ c. is_space c ≡ false) xs
plain-no_space [] h = tt
plain-no_space (c ∷ xs) (h, hs) = (ground (arith, h), plain-no_space xs hs)

-- the last byte of a name that is not empty
abbrev pub ends_at : ℕ → List ℕ → ℕ
ends_at c [] = c
ends_at c (d ∷ xs) = ends_at d xs

drop_last_slash_none :
    (c : ℕ) (xs : List ℕ) → (ends_at c xs == b'/') ≡ false → drop_last_slash (c ∷ xs) ≡ c ∷ xs
unfolding drop_last_slash
drop_last_slash_none c [] h = ground (arith, h)
drop_last_slash_none c (d ∷ xs) h = ap (λ k. c ∷ k) (drop_last_slash_none d xs h)

name_asked-plain :
    (l : Libs) (len : ℕ) (c : ℕ) (xs : List ℕ)
    → All (λ b. is_plain b ≡ true) (c ∷ xs)
    → is_utf8 (b'/' ∷ c ∷ xs) ≡ true
    → (ends_at c xs == b'/') ≡ false
    → name_asked l len (b'/' ∷ c ∷ xs) ≡ c ∷ xs
unfolding name_asked url_local strip_slashes
name_asked-plain l len c xs h u e = rw (decoded (b'/' ∷ c ∷ xs) (refl, h)) (
    rw (until_nul-plain (b'/' ∷ c ∷ xs) (refl, h))
      (rw u (rw (drop_last_slash_none c xs e) (ground arith))))

-- a word that begins the rest of a line, after one space
copy_word_whole :
    (room : ℕ) (w rest : List ℕ)
    → All (λ c. is_plain c ≡ true) w
    → length w ≤ room
    → copy_word room (w ++ 32 ∷ rest) ≡ (w, 32 ∷ rest)
copy_word_whole room w rest h n =
    copy_word-word room w rest 32 (plain-no_space w h) refl
    ∙ ap (λ k. (k, 32 ∷ rest)) (take_all w room n)

-- the words of a line that has been split
request_line-words :
    (l : Libs) (c : HttpContext) (rd : RequestData) (tmp p w p2 name : List ℕ) (m : ℕ)
    → word_length p ≡ m
    → get_word (m + 16) p ≡ (w, p2)
    → get_word 32 p2 ≡ (codes "HTTP/1.1", [])
    → name_asked l (m + 16) w ≡ name
    → before_query name ≡ name
    → m ≤ 8000
    → request_line l c rd tmp p
      ≡ taken (record (set_method tmp c) { has_url = true; url = name; http_version = 1 }) rd
unfolding request_line version_of set_request same_bytes
request_line-words l c rd tmp p w p2 name m e1 e2 e3 e4 e5 n =
    let small : ltb 8192 (m + 16) ≡ false = ground (arith, n) in
    rw e1 (rw small (rw e2 (rw e4 (rw e5 (rw e3 refl)))))

request_line-get :
    (l : Libs) (c : HttpContext) (rd : RequestData) (b : ℕ) (name : List ℕ)
    → All (λ d. is_plain d ≡ true) (b ∷ name)
    → is_utf8 (b'/' ∷ b ∷ name) ≡ true
    → (ends_at b name == b'/') ≡ false
    → length name ≤ 7998
    → request_line l c rd (codes "GET") (32 ∷ b'/' ∷ b ∷ (name ++ codes " HTTP/1.1"))
      ≡ taken (record c { post = 0; has_url = true; url = b ∷ name; http_version = 1 }) rd
unfolding word_length get_word skip_spaces set_method
request_line-get l c rd b name h u e n =
    let word : List ℕ = b'/' ∷ b ∷ name in
    let rest : List ℕ = codes "HTTP/1.1" in
    let p : List ℕ = 32 ∷ (word ++ 32 ∷ rest) in
    request_line-words l c rd (codes "GET") p word (32 ∷ rest) (b ∷ name) (length word)
      (ap (λ k. length k.0)
        (copy_word_whole (length p) word rest (refl, h)
          (omega (arith, length-append word (32 ∷ rest)))))
      (copy_word_whole (length word + 16 - 1) word rest (refl, h) (omega arith)) refl
      (name_asked-plain l (length word + 16) b name h u e) (before_query-plain (b ∷ name) h)
      (omega arith)

-- the line of a GET
abbrev pub line_of_get : List ℕ → List ℕ
line_of_get name = codes "GET /" ++ (name ++ codes " HTTP/1.1")

-- The line of a GET of a name, with HTTP/1.1, is taken, and the connection is given the name: if its
-- bytes are neither spaces nor 0, nor a percent or question mark, if it does not end with a slash, if
-- it is UTF-8, and if it has at most 7999 bytes.
pub handle_line-get :
    (l : Libs) (c : HttpContext) (rd : RequestData) (b : ℕ) (name : List ℕ)
    → All (λ d. is_plain d ≡ true) (b ∷ name)
    → is_utf8 (b'/' ∷ b ∷ name) ≡ true
    → (ends_at b name == b'/') ≡ false
    → length name ≤ 7998
    → handle_line l c rd (line_of_get (b ∷ name))
      ≡ taken (record c { post = 0; has_url = true; url = b ∷ name; http_version = 1 }) rd
unfolding handle_line name_of is_method same_bytes get_word skip_spaces copy_word
handle_line-get l c rd b name h u e n = request_line-get l c rd b name h u e n

plain-in_line :
    (xs : List ℕ)
    → All (λ c. is_plain c ≡ true) xs
    → All (λ c. in_line c ≡ true) (xs ++ codes " HTTP/1.1")
plain-in_line [] h = (refl, (refl, (refl, (refl, (refl, (refl, (refl, (refl, (refl, tt)))))))))
plain-in_line (c ∷ xs) (h, hs) = (ground (arith, h), plain-in_line xs hs)

pub line_of_get-in_line :
    (name : List ℕ)
    → All (λ c. is_plain c ≡ true) name
    → All (λ c. in_line c ≡ true) (line_of_get name)
line_of_get-in_line name h = (refl, (refl, (refl, (refl, (refl, plain-in_line name h)))))
