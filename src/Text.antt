-- ===== src/Text.antt =====
-- ffserver.c: the text of a request, as strings of non-zero bytes (hex2int, url_decode, skip_spaces,
-- get_word, get_line, htmlstrip).
pub mod Url
pub mod Words
pub mod Utf8
use ffmpeg_streaming.Base.{
  ℕ, zero, suc, ◌+◌, ◌-◌, ◌*◌, ◌%◌, ◌^◌, List, [], ◌∷◌, leb, ◌==◌, ◌&&◌, ◌||◌, Bool, if◌then◌else◌,
  length,
}

-- isdigit and isxdigit of the C locale
abbrev pub is_digit : ℕ → Bool
is_digit c = leb b'0' c && leb c b'9'

abbrev pub is_xdigit : ℕ → Bool
is_xdigit c = is_digit c || (leb b'a' c && leb c b'f') || (leb b'A' c && leb c b'F')

-- toupper of the C locale
abbrev pub to_upper : ℕ → ℕ
to_upper c = if leb b'a' c && leb c b'z' then c - 32 else c

-- `hex2int`, an unsigned of 32 bits
pub hex2int : ℕ → ℕ
hex2int c = let u = to_upper c in if is_digit u then u - b'0' else (2 ^ 32 + u + 10 - b'A') % 2 ^ 32

-- `url_decode`: what it leaves in the buffer, before the 0 that it ends it with
pub url_decode : List ℕ → List ℕ
unfolding hex2int
url_decode [] = []
url_decode (c ∷ []) = c ∷ []
url_decode (c ∷ d ∷ []) = c ∷ d ∷ []
url_decode (c ∷ d ∷ e ∷ cs) =
    let decoded = url_decode cs in
    let kept = url_decode (d ∷ e ∷ cs) in
    if c == b'%' && (is_xdigit d && is_xdigit e)
    then (hex2int d * 16 + hex2int e) % 256 ∷ decoded
    else c ∷ kept

-- `skip_spaces`
unfoldable pub skip_spaces : List ℕ → List ℕ
skip_spaces [] = []
skip_spaces (c ∷ cs) = let rest = skip_spaces cs in if c == 32 || c == 9 then rest else c ∷ cs

-- av_isspace
abbrev pub is_space : ℕ → Bool
is_space c = c == 32 || (leb 9 c && leb c 13)

-- the loop of `get_word`, with room for so many bytes more: the word, and what follows it
unfoldable pub copy_word : ℕ → List ℕ → List ℕ × List ℕ
copy_word room [] = ([], [])
copy_word zero (c ∷ cs) =
    let (w, rest) = copy_word zero cs in if is_space c then ([], c ∷ cs) else (w, rest)
copy_word (suc room) (c ∷ cs) =
    let (w, rest) = copy_word room cs in if is_space c then ([], c ∷ cs) else (c ∷ w, rest)

-- `get_word` into a buffer
unfoldable pub get_word : ℕ → List ℕ → List ℕ × List ℕ
unfolding skip_spaces copy_word
get_word buf_size s = copy_word (buf_size - 1) (skip_spaces s)

-- What `get_line` does: 0 at the end of the text, a line and what follows it, or more rounds than it
-- is given.
pub data Line : Type 0 where
  ended : Line
  line : List ℕ → List ℕ → Line
  hangs : Line

skip_lf : List ℕ → List ℕ
skip_lf [] = []
skip_lf (c ∷ cs) = if c == 10 then cs else c ∷ cs

-- the line's end, of one byte or two
skip_eol : List ℕ → List ℕ
unfolding skip_lf
skip_eol [] = []
skip_eol (c ∷ cs) = if c == 13 then skip_lf cs else skip_lf (c ∷ cs)

prepend : ℕ → Line → Line
prepend c ended = ended
prepend c (line l rest) = line (c ∷ l) rest
prepend c hangs = hangs

-- The loop of `get_line`, with so many rounds left and room for so many bytes more. A byte that it has
-- no room for is looked at again, since the pointer is advanced only where a byte is copied.
unfoldable pub copy_line : ℕ → ℕ → List ℕ → Line
unfolding skip_eol prepend
copy_line zero room s = hangs
copy_line (suc fuel) room [] = ended
copy_line (suc fuel) zero (c ∷ cs) =
    let again = copy_line fuel zero (c ∷ cs) in
    if c == 13 || c == 10 then line [] (skip_eol (c ∷ cs)) else again
copy_line (suc fuel) (suc room) (c ∷ cs) =
    let rest = copy_line fuel room cs in
    if c == 13 || c == 10 then line [] (skip_eol (c ∷ cs)) else prepend c rest

-- `get_line`. A loop that advances ends after a round for each byte and one more.
unfoldable pub get_line : ℕ → List ℕ → Line
unfolding copy_line
get_line buf_size s = copy_line (suc (length s)) (buf_size - 1) s

-- the bytes that `htmlstrip` lets through
pub is_harmless : ℕ → Bool
is_harmless c =
    is_digit c
    || (leb b'a' c && leb c b'z')
    || (leb b'A' c && leb c b'Z')
    || c == b','
    || c == b'.'
    || c == 32

-- `htmlstrip`
pub htmlstrip : List ℕ → List ℕ
unfolding is_harmless
htmlstrip [] = []
htmlstrip (c ∷ cs) = (if is_harmless c then c else b'?') ∷ htmlstrip cs
