-- ===== src/Server/Chunks/Digits.antt =====
-- The size in front of a chunk, as the code reads it (strtol in recv_chunked).
use ffmpeg_streaming.Base.{
  ℕ, ◌+◌, ◌-◌, ◌*◌, ◌^◌, ◌≡◌, ◌≤◌, ◌<◌, ◌≢◌, refl, ap, ◌∙◌, List, [], ◌∷◌, ◌++◌, true, false, ◌||◌,
  min, ltb, ◌==◌, if◌then◌else◌, length, arith, All,
}
use ffmpeg_streaming.Base.Int.{pos}
use ffmpeg_streaming.Text.{is_xdigit, is_space}
use ffmpeg_streaming.Server.Chunks.{hex_value, hex_digits, hex_number, to_int, strtol16}

-- the character of a digit, and the number that digits stand for, the highest first
abbrev pub digit : ℕ → ℕ
digit d = if ltb d 10 then b'0' + d else b'a' + d - 10

unfoldable pub number : ℕ → List ℕ → ℕ
number n [] = n
number n (d ∷ ds) = number (n * 16 + d) ds

unfoldable pub text : List ℕ → List ℕ
text [] = []
text (d ∷ ds) = digit d ∷ text ds

pub digit-is_xdigit : (d : ℕ) → d < 16 → is_xdigit (digit d) ≡ true
digit-is_xdigit d h = ground arith

pub digit-ne : (d : ℕ) → digit d ≢ 10
digit-ne d e = ground arith

hex_value-digit : (d : ℕ) → d < 16 → hex_value (digit d) ≡ d
unfolding hex_value
hex_value-digit d h = ground arith

pub hex_digits-text :
    (n : ℕ) (ds : List ℕ) (rest : List ℕ)
    → All (λ d. d < 16) ds
    → hex_digits n (text ds ++ 13 ∷ rest) ≡ number n ds
unfolding hex_digits text number
hex_digits-text n [] rest h = refl
hex_digits-text n (d ∷ ds) rest (h, hs) =
    rw (digit-is_xdigit d h) (rw (hex_value-digit d h) (hex_digits-text (n * 16 + d) ds rest hs))

pub strtol16-space : (c : ℕ) (cs : List ℕ) → is_space c ≡ true → strtol16 (c ∷ cs) ≡ strtol16 cs
unfolding strtol16
strtol16-space c cs h = ground (arith, h)

hex_number-plain :
    (z x : ℕ) (cs : List ℕ)
    → (x == b'x' || x == b'X') ≡ false
    → hex_number (z ∷ x ∷ cs) ≡ hex_digits 0 (z ∷ x ∷ cs)
unfolding hex_number
hex_number-plain z x [] h = refl
hex_number-plain z x (d ∷ cs) h = ground (arith, h)

hex_number-text :
    (d : ℕ) (ds junk : List ℕ)
    → All (λ d. d < 16) (d ∷ ds)
    → hex_number (text (d ∷ ds) ++ 13 ∷ junk) ≡ number 0 (d ∷ ds)
unfolding text
hex_number-text d [] junk h =
    hex_number-plain (digit d) 13 junk refl ∙ hex_digits-text 0 (d ∷ []) junk h
hex_number-text d (e ∷ ds) junk (h, (he, hs)) =
    hex_number-plain (digit d) (digit e) (text ds ++ 13 ∷ junk) (ground arith)
    ∙ hex_digits-text 0 (d ∷ e ∷ ds) junk (h, (he, hs))

to_int-small : (n : ℕ) → n < 2 ^ 31 → to_int (min n (2 ^ 63 - 1)) ≡ pos n
unfolding to_int
to_int-small n u = ground arith

strtol16-plain :
    (c n : ℕ) (cs : List ℕ)
    → is_space c ≡ false
    → (c == b'-') ≡ false
    → (c == b'+') ≡ false
    → hex_number (c ∷ cs) ≡ n
    → n < 2 ^ 31
    → strtol16 (c ∷ cs) ≡ pos n
unfolding strtol16
strtol16-plain c n cs s p q e u =
    rw s (rw p (rw q (ap (λ k. to_int (min k (2 ^ 63 - 1))) e ∙ to_int-small n u)))

-- Digits in front of the end of a line are read as the number that they stand for.
pub strtol16-text :
    (ds junk : List ℕ)
    → All (λ d. d < 16) ds
    → 1 ≤ length ds
    → number 0 ds < 2 ^ 31
    → strtol16 (text ds ++ 13 ∷ junk) ≡ pos (number 0 ds)
unfolding text
strtol16-text [] junk h l u = absurd (omega arith)
strtol16-text (d ∷ ds) junk (h, hs) l u =
    strtol16-plain (digit d) (number 0 (d ∷ ds)) (text ds ++ 13 ∷ junk) (ground arith)
      (ground arith) (ground arith) (hex_number-text d ds junk (h, hs)) u
