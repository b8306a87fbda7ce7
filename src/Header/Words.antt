-- ===== src/Header/Words.antt =====
-- The macros of ff_header.c that write and read a word and move the pointer.
use ffmpeg_streaming.Base.{
  ℕ, ◌+◌, ◌*◌, ◌/◌, ◌%◌, ◌^◌, ◌≡◌, refl, ap, List, [], ◌∷◌, ◌++◌, arith, get_or, drop,
}
use ffmpeg_streaming.Base.Bytes.{rb16, rb32, wb16, wb32}

-- WB64, WB32, WB16 and W8: the bytes written
unfoldable pub w32 : ℕ → List ℕ
w32 n = wb32 n

unfoldable pub w64 : ℕ → List ℕ
w64 n = wb32 (n / 2 ^ 32) ++ wb32 n

unfoldable pub w16 : ℕ → List ℕ
w16 n = wb16 n

unfoldable pub w8 : ℕ → List ℕ
w8 n = n % 256 ∷ []

-- The reader's pointer is the bytes from it on, with their offset from the start.
abbrev pub Pointer : Type 0
Pointer = List ℕ × ℕ

abbrev pub Reader {ℓ} : Type ℓ → Type ℓ
Reader A = Pointer → A × Pointer

infixl 5 ◌>>=◌ ◌>>◌
abbrev pub ◌>>=◌ {ℓ κ} : {A : Type ℓ} {B : Type κ} → Reader A → (A → Reader B) → Reader B
◌>>=◌ m f p = f (m p).0 (m p).1

abbrev pub ◌>>◌ {ℓ κ} : {A : Type ℓ} {B : Type κ} → Reader A → Reader B → Reader B
◌>>◌ m k p = k (m p).1

abbrev pub done {ℓ} : {A : Type ℓ} → A → Reader A
done a p = (a, p)

-- RB64, RB32, RB16 and R8
unfoldable pub r32 : Reader ℕ
r32 (bs, k) = (rb32 bs, (drop 4 bs, k + 4))

unfoldable pub r64 : Reader ℕ
r64 (bs, k) = (rb32 bs * 2 ^ 32 + rb32 (drop 4 bs), (drop 8 bs, k + 8))

unfoldable pub r16 : Reader ℕ
r16 (bs, k) = (rb16 bs, (drop 2 bs, k + 2))

unfoldable pub r8 : Reader ℕ
r8 (bs, k) = (get_or bs 0 0, (drop 1 bs, k + 1))

pub r32-w32 : (n k : ℕ) (rest : List ℕ) → r32 (w32 n ++ rest, k) ≡ (n % 2 ^ 32, (rest, k + 4))
unfolding r32 w32
r32-w32 n k rest = ap (λ (x : ℕ). (x, (rest, k + 4))) (omega arith)

pub r64-w64 : (n k : ℕ) (rest : List ℕ) → r64 (w64 n ++ rest, k) ≡ (n % 2 ^ 64, (rest, k + 8))
unfolding r64 w64
r64-w64 n k rest = ap (λ (x : ℕ). (x, (rest, k + 8))) (omega arith)

pub r16-w16 : (n k : ℕ) (rest : List ℕ) → r16 (w16 n ++ rest, k) ≡ (n % 2 ^ 16, (rest, k + 2))
unfolding r16 w16
r16-w16 n k rest = ap (λ (x : ℕ). (x, (rest, k + 2))) (omega arith)

pub r8-w8 : (n k : ℕ) (rest : List ℕ) → r8 (w8 n ++ rest, k) ≡ (n % 256, (rest, k + 1))
unfolding r8 w8
r8-w8 n k rest = refl

pub ruleset words = (r32-w32, r64-w64, r16-w16, r8-w8)
