-- ===== src/Server/Request.antt =====
-- ffserver.c: the lines of a request (handle_line), in a build without compression.
pub mod Get
use ffmpeg_streaming.Base.{
  ℕ, zero, suc, ◌+◌, ◌-◌, List, [], ◌∷◌, ◌++◌, Bool, true, false, ◌&&◌, ◌||◌, not, Option, none,
  some, ltb, leb, ◌==◌, if◌then◌else◌, length, take, drop, same_bytes, get_or,
}
use ffmpeg_streaming.Base.Text.{codes}
use ffmpeg_streaming.Text.{url_decode, copy_word, skip_spaces, get_word}
use ffmpeg_streaming.Text.Utf8.{is_utf8}
use ffmpeg_streaming.Server.{HttpContext}
use ffmpeg_streaming.Server.Libs.{Libs}
use ffmpeg_streaming.Server.Numbers.{strtoll10}

-- `RequestData`, without the content, which is read later
pub record RequestData : Type 0 where
  pub domain : List ℕ
  pub cookie : List ℕ
  pub range : List ℕ
  pub expect : List ℕ

-- what the first word of a line says that the line is
pub data Name : Type 0 where
  method host cookie connection content_length range expect : Name
  if_none_match if_modified_since transfer_encoding x_token unknown : Name

unfoldable pub is_method : List ℕ → Bool
is_method tmp =
    same_bytes tmp (codes "GET")
    || same_bytes tmp (codes "POST")
    || same_bytes tmp (codes "PUT")
    || same_bytes tmp (codes "DELETE")
    || same_bytes tmp (codes "HEAD")

unfoldable pub name_of : Libs → List ℕ → Name
unfolding is_method
name_of l tmp =
    if is_method tmp
    then method
    else if same_bytes tmp (codes "Host:")
    then host
    else if same_bytes tmp (codes "Cookie:")
    then cookie
    else if same_bytes tmp (codes "Connection:")
    then connection
    else if l.same_fold tmp (codes "Content-Length:")
    then content_length
    else if l.same_fold tmp (codes "Range:")
    then range
    else if l.same_fold tmp (codes "Expect:")
    then expect
    else if l.same_fold tmp (codes "If-None-Match:")
    then if_none_match
    else if l.same_fold tmp (codes "If-Modified-Since:")
    then if_modified_since
    else if l.same_fold tmp (codes "Transfer-Encoding:")
    then transfer_encoding
    else if l.same_fold tmp (codes "X-TOKEN:")
    then x_token
    else unknown

-- `post`, and HEAD's `only_header`, which no other method resets
unfoldable pub set_method : List ℕ → HttpContext → HttpContext
set_method tmp c =
    if get_or tmp 0 0 == b'G'
    then record c { post = 0 }
    else if get_or tmp 0 0 == b'P'
    then record c { post = if get_or tmp 1 0 == b'O' then 1 else 2 }
    else if get_or tmp 0 0 == b'D'
    then record c { post = 3 }
    else record c { post = 0; only_header = true }

-- the length of the next word, `get_word` with no buffer
unfoldable pub word_length : List ℕ → ℕ
word_length p = length (copy_word (length p) (skip_spaces p)).0

-- a string in C ends at its first 0
unfoldable pub until_nul : List ℕ → List ℕ
until_nul [] = []
until_nul (c ∷ cs) = let rest = until_nul cs in if c == 0 then [] else c ∷ rest

-- `url_local` of a name in a buffer of `len` bytes
unfoldable pub url_local : Libs → ℕ → List ℕ → List ℕ
url_local l len uri =
    if is_utf8 uri
    then uri
    else elim (l.to_utf8 uri) [ none ↦ uri | some s ↦ until_nul (take (len - 1) s) ]

-- one slash at the end is dropped
unfoldable pub drop_last_slash : List ℕ → List ℕ
drop_last_slash [] = []
drop_last_slash (c ∷ []) = if c == b'/' then [] else c ∷ []
drop_last_slash (c ∷ d ∷ cs) = c ∷ drop_last_slash (d ∷ cs)

-- the slash in front, and then one at the end
unfoldable pub strip_slashes : List ℕ → List ℕ
unfolding drop_last_slash
strip_slashes [] = []
strip_slashes (c ∷ cs) = if c == b'/' then drop_last_slash cs else c ∷ cs

-- strchr(s, '?'): what stands before it
unfoldable pub before_query : List ℕ → List ℕ
before_query [] = []
before_query (c ∷ cs) = let rest = before_query cs in if c == b'?' then [] else c ∷ rest

-- the name that a request line asks for, before its version is looked at
unfoldable pub name_asked : Libs → ℕ → List ℕ → List ℕ
unfolding until_nul url_local strip_slashes
name_asked l len word =
    let name = strip_slashes (url_local l len (until_nul (url_decode word))) in
    if length name == 0 then codes "index.html" else name

-- What a line does: it is refused, or it is taken, or it runs over the end of `ims`.
pub data Taken : Type 0 where
  refused overruns : Taken
  taken : HttpContext → RequestData → Taken

-- "HTTP/1.0" or "HTTP/1.1"
unfoldable pub version_of : List ℕ → Option ℕ
version_of tmp =
    if same_bytes tmp (codes "HTTP/1.0")
    then some 0
    else if same_bytes tmp (codes "HTTP/1.1")
    then some 1
    else none

-- the name and the version, once they are read
unfoldable pub set_request : HttpContext → RequestData → List ℕ → Option ℕ → Taken
set_request c rd name none = refused
set_request c rd name (some v) =
    taken (record c { has_url = true; url = name; http_version = v }) rd

-- the line of a method, from the second word on
unfoldable pub request_line : Libs → HttpContext → RequestData → List ℕ → List ℕ → Taken
unfolding set_request
request_line l c rd tmp p =
    let len0 = word_length p + 16 in
    let word = get_word len0 p in
    if ltb 8192 len0
    then refused
    else set_request (set_method tmp c) rd (before_query (name_asked l len0 word.0))
        (version_of (get_word 32 word.1).0)

-- the words of a date, with a space after each; a round for each byte is enough
pub date_words : ℕ → List ℕ → List ℕ
date_words zero p = []
date_words (suc fuel) p =
    let (info, rest) = get_word 64 p in
    elim info [ [] ↦ [] | c ∷ cs ↦ c ∷ (cs ++ 32 ∷ date_words fuel rest) ]

-- the last space is dropped
pub drop_last : List ℕ → List ℕ
drop_last [] = []
drop_last (c ∷ []) = []
drop_last (c ∷ d ∷ cs) = c ∷ drop_last (d ∷ cs)

-- `ims` holds 32 bytes, the 0 at its end among them
modified_since : HttpContext → RequestData → List ℕ → Taken
unfolding date_words drop_last
modified_since c rd p =
    let text = date_words (suc (length p)) p in
    if length text == 0
    then taken c rd
    else if ltb 31 (length text)
    then overruns
    else taken (record c { ims = drop_last text }) rd

-- `handle_line`
unfoldable pub handle_line : Libs → HttpContext → RequestData → List ℕ → Taken
unfolding name_of request_line modified_since
handle_line l c rd line =
    let (tmp, p) = get_word 32 line in
    elim (name_of l tmp) [
      | method ↦ request_line l c rd tmp p
      | host ↦ taken c (record rd { domain = (get_word 64 p).0 })
      | cookie ↦ taken c (record rd { cookie = (get_word 512 p).0 })
      | connection ↦
          taken
            (if l.same_fold (get_word 64 p).0 (codes "keep-alive")
              then record c { keep_alive = true }
              else c)
            rd
      | content_length ↦ taken (record c { content_length = strtoll10 (get_word 64 p).0 }) rd
      | range ↦ taken c (record rd { range = (get_word 32 p).0 })
      | expect ↦ taken c (record rd { expect = (get_word 32 p).0 })
      | if_none_match ↦ taken (record c { inm = (get_word 32 p).0 }) rd
      | if_modified_since ↦ modified_since c rd p
      | transfer_encoding ↦
          taken
            (if l.same_fold (get_word 64 p).0 (codes "chunked")
              then record c { tr_encoding = 1 }
              else c)
            rd
      | x_token ↦ taken (record c { x_token = (get_word 64 p).0 }) rd
      | unknown ↦ taken c rd
    ]
