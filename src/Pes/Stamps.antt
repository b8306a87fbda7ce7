-- ===== src/Pes/Stamps.antt =====
-- Time stamps: parse_pes_pts reads what the MPEG-2 Systems standard writes.
use ffmpeg_streaming.Base.{ℕ, ◌+◌, ◌*◌, ◌/◌, ◌%◌, ◌^◌, ◌<◌, ◌≡◌, List, [], ◌∷◌, ◌++◌, arith}
use ffmpeg_streaming.Pes.{parse_pes_pts}

-- A time stamp of 33 bits in five bytes: four bits of a mark, and after each of the parts of 3, 15 and
-- 15 bits a bit that is set.
abbrev pub pts_bytes : ℕ → ℕ → List ℕ
pts_bytes mark n =
    (mark * 16 + n / 2 ^ 30 * 2 + 1)
    ∷ (n / 2 ^ 22 % 256)
    ∷ (n / 2 ^ 15 % 128 * 2 + 1)
    ∷ (n / 2 ^ 7 % 256)
    ∷ (n % 128 * 2 + 1)
    ∷ []

-- A time stamp of 33 bits, whatever its mark of four bits and whatever follows it, is read back.
pub parse_pes_pts-pts_bytes :
    (mark n : ℕ) (rest : List ℕ)
    → mark < 16
    → n < 2 ^ 33
    → parse_pes_pts (pts_bytes mark n ++ rest) ≡ n
unfolding parse_pes_pts
parse_pes_pts-pts_bytes mark n rest h k = omega arith
