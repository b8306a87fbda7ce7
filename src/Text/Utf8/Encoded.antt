-- ===== src/Text/Utf8/Encoded.antt =====
-- Every text in UTF-8 passes, and so do bytes that begin no character.
use ffmpeg_streaming.Base.{
  ℕ, zero, suc, ◌+◌, ◌/◌, ◌%◌, ◌≡◌, ◌≤◌, ◌<◌, refl, ◌∙◌, List, [], ◌∷◌, ◌++◌, true, ltb,
  if◌then◌else◌, length, arith, All, Bool-cases, inl, inr, length-append,
}
use ffmpeg_streaming.Text.Utf8.{utf8_step, utf8_loop, is_utf8}

-- The bytes of a character, and of a text.
unfoldable pub encode_char : ℕ → List ℕ
encode_char p =
    if ltb p 128
    then p ∷ []
    else if ltb p 2048
    then (192 + p / 64) ∷ (128 + p % 64) ∷ []
    else if ltb p 65536
    then (224 + p / 4096) ∷ (128 + p / 64 % 64) ∷ (128 + p % 64) ∷ []
    else (240 + p / 262144) ∷ (128 + p / 4096 % 64) ∷ (128 + p / 64 % 64) ∷ (128 + p % 64) ∷ []

unfoldable pub encode : List ℕ → List ℕ
encode [] = []
encode (p ∷ ps) = encode_char p ++ encode ps

-- One round of the loop passes one character.
utf8_loop-one : (n a : ℕ) (s : List ℕ) → a < 128 → utf8_loop (suc n) (a ∷ s) ≡ utf8_loop n s
unfolding utf8_loop utf8_step
utf8_loop-one n a s h = ground arith

utf8_loop-two :
    (n a b : ℕ) (s : List ℕ)
    → a / 32 ≡ 6
    → b / 64 ≡ 2
    → utf8_loop (suc n) (a ∷ b ∷ s) ≡ utf8_loop n s
unfolding utf8_loop utf8_step
utf8_loop-two n a b s h i = ground arith

utf8_loop-three :
    (n a b c : ℕ) (s : List ℕ)
    → a / 16 ≡ 14
    → b / 64 ≡ 2
    → c / 64 ≡ 2
    → utf8_loop (suc n) (a ∷ b ∷ c ∷ s) ≡ utf8_loop n s
unfolding utf8_loop utf8_step
utf8_loop-three n a b c s h i j = ground arith

utf8_loop-four :
    (n a b c d : ℕ) (s : List ℕ)
    → a / 8 ≡ 30
    → b / 64 ≡ 2
    → c / 64 ≡ 2
    → d / 64 ≡ 2
    → utf8_loop (suc n) (a ∷ b ∷ c ∷ d ∷ s) ≡ utf8_loop n s
unfolding utf8_loop utf8_step
utf8_loop-four n a b c d s h i j k = ground arith

utf8_loop-char :
    (n p : ℕ) (s : List ℕ) → p < 1114112 → utf8_loop (suc n) (encode_char p ++ s) ≡ utf8_loop n s
unfolding encode_char
utf8_loop-char n p s h = elim (Bool-cases (ltb p 128)) [
  | inl e ↦ rw e (utf8_loop-one n p s (ground (arith, e)))
  | inr e ↦ rw e (elim (Bool-cases (ltb p 2048)) [
    | inl f ↦
        rw f (utf8_loop-two n (192 + p / 64) (128 + p % 64) s (ground (arith, e, f)) (omega arith))
    | inr f ↦ rw f (elim (Bool-cases (ltb p 65536)) [
      | inl g ↦ rw g (
          utf8_loop-three n (224 + p / 4096) (128 + p / 64 % 64) (128 + p % 64) s
            (ground (arith, f, g)) (omega arith) (omega arith))
      | inr g ↦ rw g (
          utf8_loop-four n (240 + p / 262144) (128 + p / 4096 % 64) (128 + p / 64 % 64)
            (128 + p % 64) s (ground (arith, g)) (omega arith) (omega arith) (omega arith))
    ])
  ])
]

length-encode_char : (p : ℕ) → 1 ≤ length (encode_char p)
unfolding encode_char
length-encode_char p = ground arith

utf8_loop-nil : (n : ℕ) → utf8_loop n [] ≡ true
unfolding utf8_loop
utf8_loop-nil zero = refl
utf8_loop-nil (suc n) = refl

utf8_loop-encode :
    (ps : List ℕ) (n : ℕ)
    → All (λ p. p < 1114112) ps
    → length (encode ps) ≤ n
    → utf8_loop n (encode ps) ≡ true
unfolding encode
utf8_loop-encode [] n h l = utf8_loop-nil n
utf8_loop-encode (p ∷ ps) zero h l =
    absurd (omega (arith, length-append (encode_char p) (encode ps), length-encode_char p))
utf8_loop-encode (p ∷ ps) (suc n) (h, hs) l =
    utf8_loop-char n p (encode ps) h
    ∙ utf8_loop-encode ps n hs
        (omega (arith, length-append (encode_char p) (encode ps), length-encode_char p))

-- Text in UTF-8, of characters below 0x110000, passes the test.
pub is_utf8-encode : (ps : List ℕ) → All (λ p. p < 1114112) ps → is_utf8 (encode ps) ≡ true
unfolding is_utf8
is_utf8-encode ps h = utf8_loop-encode ps (length (encode ps)) h (omega arith)

utf8_loop-stray : (n c : ℕ) (s : List ℕ) → c / 64 ≡ 2 → utf8_loop (suc n) (c ∷ s) ≡ utf8_loop n s
unfolding utf8_loop utf8_step
utf8_loop-stray n c s h = ground arith

-- A byte that continues a character passes where no character is begun: what follows it decides.
pub is_utf8-stray : (c : ℕ) (s : List ℕ) → c / 64 ≡ 2 → is_utf8 (c ∷ s) ≡ is_utf8 s
unfolding is_utf8
is_utf8-stray c s h = utf8_loop-stray (length s) c s h
