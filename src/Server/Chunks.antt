-- ===== src/Server/Chunks.antt =====
-- ffserver.c: a request body sent in chunks (recv_chunked), from a connection that has received the
-- bytes `input` and may block for no more.
pub mod Digits
pub mod Body
use ffmpeg_streaming.Base.{
  ℕ, zero, suc, ◌+◌, ◌-◌, ◌*◌, ◌%◌, ◌^◌, List, [], ◌∷◌, ◌++◌, Bool, true, false, ◌&&◌, ◌||◌, min,
  ltb, leb, ◌==◌, if◌then◌else◌, length, take, drop, get_or, not, Option, none, some,
}
use ffmpeg_streaming.Base.Int.{ℤ, pos, negsuc}
use ffmpeg_streaming.Text.{is_digit, is_xdigit, is_space, to_upper}

-- the digits in front of a text, as a number in base 16
hex_value : ℕ → ℕ
hex_value c = let u = to_upper c in if is_digit u then u - b'0' else u + 10 - b'A'

pub hex_digits : ℕ → List ℕ → ℕ
unfolding hex_value
hex_digits n [] = n
hex_digits n (c ∷ cs) =
    let rest = hex_digits (n * 16 + hex_value c) cs in if is_xdigit c then rest else n

-- What follows a sign: an optional 0x that a digit follows, and the digits.
hex_number : List ℕ → ℕ
unfolding hex_digits
hex_number (z ∷ x ∷ d ∷ cs) =
    if (z == b'0' && (x == b'x' || x == b'X')) && is_xdigit d
    then hex_digits 0 (d ∷ cs)
    else hex_digits 0 (z ∷ x ∷ d ∷ cs)
hex_number cs = hex_digits 0 cs

-- a long as an int, by its low 32 bits
to_int : ℕ → ℤ
to_int n = let low = n % 2 ^ 32 in if ltb low (2 ^ 31) then pos low else negsuc (2 ^ 32 - 1 - low)

-- `(int)strtol(s, NULL, 16)`, a long of 64 bits
pub strtol16 : List ℕ → ℤ
unfolding hex_number to_int
strtol16 [] = pos 0
strtol16 (c ∷ cs) =
    let skipped = strtol16 cs in
    if is_space c
    then skipped
    else if c == b'-'
    then to_int (2 ^ 64 - min (hex_number cs) (2 ^ 63))
    else if c == b'+'
    then to_int (min (hex_number cs) (2 ^ 63 - 1))
    else to_int (min (hex_number (c ∷ cs)) (2 ^ 63 - 1))

ends_crlf : List ℕ → Bool
ends_crlf [] = false
ends_crlf (c ∷ []) = false
ends_crlf (c ∷ d ∷ []) = c == 13 && d == 10
ends_crlf (c ∷ d ∷ e ∷ cs) = ends_crlf (d ∷ e ∷ cs)

-- The loop for the header of a chunk, with room for so many bytes more after those `seen`: the size of
-- the chunk, and the bytes that follow. The size is read from the buffer, in which bytes of earlier
-- use come after those seen.
pub chunk_head : List ℕ → ℕ → List ℕ → List ℕ → Option (ℤ × List ℕ)
unfolding strtol16 ends_crlf
chunk_head buffer zero seen input = none
chunk_head buffer (suc room) seen [] = none
chunk_head buffer (suc room) seen (b ∷ input) =
    let seen' = seen ++ b ∷ [] in
    let rest = chunk_head buffer room seen' input in
    if leb 3 (length seen') && ends_crlf seen'
    then some (strtol16 (seen' ++ drop (length seen') buffer), input)
    else rest

-- What `recv_chunked` does: it fails in a header, with the bytes that follow; it finds the end; its
-- second recv has nothing to receive, with the size of the chunk; or it receives bytes, with the size
-- that is left of the chunk and the bytes that follow. A negative size overruns: it is handed to recv
-- as a size_t.
pub data Received : Type 0 where
  failed eof : List ℕ → Received
  dry : ℕ → Received
  overruns : Received
  got : List ℕ → ℕ → List ℕ → Received

-- the second recv
pub recv_body : ℕ → ℕ → List ℕ → Received
recv_body buffer_size size [] = dry size
recv_body buffer_size size (b ∷ input) =
    let bytes = take (min size buffer_size) (b ∷ input) in
    got bytes (size - length bytes) (drop (min size buffer_size) (b ∷ input))

-- `recv_chunked`; a header that fails has taken 32 bytes, or those there are
pub recv_chunked : List ℕ → ℕ → ℕ → List ℕ → Received
unfolding chunk_head recv_body
recv_chunked buffer buffer_size zero input = elim (chunk_head buffer 32 [] input) [
  | none ↦ failed (drop 32 input)
  | some (pos n, rest) ↦ if n == 0 then eof rest else recv_body buffer_size n rest
  | some (negsuc n, rest) ↦ overruns
]
recv_chunked buffer buffer_size (suc n) input = recv_body buffer_size (suc n) input
