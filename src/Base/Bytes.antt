-- ===== src/Base/Bytes.antt =====
-- Big-endian words in byte strings: the AV_RB and AV_WB macros. A byte past the end reads as 0.
use ffmpeg_streaming.Base.{ℕ, ◌+◌, ◌*◌, ◌/◌, ◌%◌, ◌^◌, ◌≡◌, List, [], ◌∷◌, ◌++◌, arith, get_or}

-- AV_RB16, AV_RB24, AV_RB32 and AV_RB64 at the front of `bs`
abbrev pub rb16 : List ℕ → ℕ
rb16 bs = get_or bs 0 0 * 2 ^ 8 + get_or bs 1 0

abbrev pub rb24 : List ℕ → ℕ
rb24 bs = get_or bs 0 0 * 2 ^ 16 + get_or bs 1 0 * 2 ^ 8 + get_or bs 2 0

abbrev pub rb32 : List ℕ → ℕ
rb32 bs = get_or bs 0 0 * 2 ^ 24 + get_or bs 1 0 * 2 ^ 16 + get_or bs 2 0 * 2 ^ 8 + get_or bs 3 0

-- AV_WB16 and AV_WB32: the low bytes of a word, the highest first
abbrev pub wb16 : ℕ → List ℕ
wb16 n = n / 2 ^ 8 % 256 ∷ n % 256 ∷ []

abbrev pub wb32 : ℕ → List ℕ
wb32 n = n / 2 ^ 24 % 256 ∷ n / 2 ^ 16 % 256 ∷ n / 2 ^ 8 % 256 ∷ n % 256 ∷ []

pub rb16-wb16 : (n : ℕ) (rest : List ℕ) → rb16 (wb16 n ++ rest) ≡ n % 2 ^ 16
rb16-wb16 n rest = omega arith

pub rb32-wb32 : (n : ℕ) (rest : List ℕ) → rb32 (wb32 n ++ rest) ≡ n % 2 ^ 32
rb32-wb32 n rest = omega arith
