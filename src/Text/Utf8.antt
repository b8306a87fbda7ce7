-- ===== src/Text/Utf8.antt =====
-- ffserver.c: the test whether a name is in UTF-8 (is_utf8), on strings of non-zero bytes.
pub mod Encoded
use ffmpeg_streaming.Base.{
  ℕ, zero, suc, ◌/◌, List, [], ◌∷◌, Bool, true, false, ◌&&◌, ◌==◌, if◌then◌else◌, length, get_or,
  drop, Option, none, some,
}

-- `(s[i] >> 6) == 0x2`
abbrev pub is_continued : ℕ → Bool
is_continued c = c / 64 == 2

-- One round of the loop at the byte `c`, with `s` after it: how many bytes more it passes, or an error.
-- The byte after the last is the 0 that ends the string.
pub utf8_step : ℕ → List ℕ → Option ℕ
utf8_step c s =
    if c / 128 == 0
    then some 0
    else if c / 32 == 6
    then (if is_continued (get_or s 0 0) then some 1 else none)
    else if c / 16 == 14
    then (if is_continued (get_or s 0 0) && is_continued (get_or s 1 0) then some 2 else none)
    else if c / 8 == 30
    then (if is_continued (get_or s 0 0)
          && (is_continued (get_or s 1 0) && is_continued (get_or s 2 0))
        then some 3
        else none)
    else some 0

-- The loop; a round for each byte is enough.
pub utf8_loop : ℕ → List ℕ → Bool
unfolding utf8_step
utf8_loop fuel [] = true
utf8_loop zero (c ∷ s) = false
utf8_loop (suc fuel) (c ∷ s) = elim (utf8_step c s) [
  | none ↦ false
  | some k ↦ utf8_loop fuel (drop k s)
]

-- `is_utf8`
unfoldable pub is_utf8 : List ℕ → Bool
unfolding utf8_loop
is_utf8 s = utf8_loop (length s) s
