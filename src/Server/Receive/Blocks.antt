-- ===== src/Server/Receive/Blocks.antt =====
-- ff_utils.c: the blocks that an encoder writes (sff_write_block).
use ffmpeg_streaming.Base.{
  ℕ, ◌+◌, ◌-◌, ◌%◌, true, ◌&&◌, leb, ◌∙◌, ◌≡◌, ◌≤◌, ◌<◌, refl, List, [], ◌∷◌, ◌++◌, arith, length,
  some,
}
use ffmpeg_streaming.Base.Bytes.{wb32, rb32, rb32-wb32}
use ffmpeg_streaming.Server.Receive.{want_s, want_size, found, scan, good_size}

pub record Block : Type 0 where
  pub type : ℕ
  pub payload : List ℕ

abbrev pub block_header : ℕ → ℕ → List ℕ
block_header type size = b'S' ∷ b'F' ∷ b'F' ∷ (b'0' + type % 10) ∷ wb32 size

-- `sff_write_block`: what it writes, the decimal digit of the type in front
unfoldable pub sff_write_block : Block → List ℕ
sff_write_block b = block_header b.type (length b.payload) ++ b.payload

-- what the server takes for a packet
pub record Fits (b : Block) : Type 0 where
  pub type_digit : b.type < 10
  pub not_empty : 0 < length b.payload
  pub small : length b.payload ≤ 1000000

scan-found : (t n : ℕ) (tmp rest : List ℕ) → scan (found t n) tmp rest ≡ some (t, n, rest)
unfolding scan
scan-found t n tmp [] = refl
scan-found t n tmp (c ∷ rest) = refl

scan-size :
    (t n x : ℕ) (rest : List ℕ)
    → 0 < n
    → n ≤ 1000000
    → scan (want_size t 0) (x ∷ 0 ∷ 0 ∷ 0 ∷ []) (wb32 n ++ rest) ≡ some (t, n, rest)
unfolding scan
scan-size t n x rest pos small =
    let word : rb32 (wb32 n) ≡ n = omega (arith, rb32-wb32 n []) in
    let good : good_size (rb32 (wb32 n)) ≡ true = rw word (ground arith) in
    rw good (rw word (scan-found t n (wb32 n) rest))

scan-letters :
    (t n : ℕ) (rest : List ℕ)
    → t < 10
    → scan want_s (0 ∷ 0 ∷ 0 ∷ 0 ∷ []) (b'S' ∷ b'F' ∷ b'F' ∷ (b'0' + t % 10) ∷ rest)
      ≡ scan (want_size t 0) ((b'0' + t % 10) ∷ 0 ∷ 0 ∷ 0 ∷ []) rest
unfolding scan
scan-letters t n rest h =
    let digit : (leb b'0' (b'0' + t % 10) && leb (b'0' + t % 10) b'9') ≡ true = ground arith in
    let value : b'0' + t % 10 - b'0' ≡ t = omega arith in rw digit (rw value refl)

-- The loop finds a block that its bytes begin with.
pub scan-sff_write_block :
    (t n : ℕ) (rest : List ℕ)
    → t < 10
    → 0 < n
    → n ≤ 1000000
    → scan want_s (0 ∷ 0 ∷ 0 ∷ 0 ∷ []) (block_header t n ++ rest) ≡ some (t, n, rest)
scan-sff_write_block t n rest h k l =
    scan-letters t n (wb32 n ++ rest) h ∙ scan-size t n (b'0' + t % 10) rest k l
