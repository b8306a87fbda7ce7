-- ===== src/Server/Numbers.antt =====
-- Numbers in requests: strtoll in ffserver.c.
use ffmpeg_streaming.Base.{ℕ, ◌+◌, ◌-◌, ◌*◌, ◌^◌, List, [], ◌∷◌, ◌==◌, if◌then◌else◌, min}
use ffmpeg_streaming.Base.Int.{ℤ, pos, sub_ℕ}
use ffmpeg_streaming.Text.{is_digit, is_space}

-- the digits in front of a text, as a number in base 10
unfoldable pub digits_value : ℕ → List ℕ → ℕ
digits_value n [] = n
digits_value n (c ∷ cs) =
    let rest = digits_value (n * 10 + (c - b'0')) cs in if is_digit c then rest else n

-- `strtoll(s, NULL, 10)`
unfoldable pub strtoll10 : List ℕ → ℤ
unfolding digits_value
strtoll10 [] = pos 0
strtoll10 (c ∷ cs) =
    let skipped = strtoll10 cs in
    if is_space c
    then skipped
    else if c == b'-'
    then sub_ℕ 0 (min (digits_value 0 cs) (2 ^ 63))
    else if c == b'+'
    then pos (min (digits_value 0 cs) (2 ^ 63 - 1))
    else pos (min (digits_value 0 (c ∷ cs)) (2 ^ 63 - 1))
