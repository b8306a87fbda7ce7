-- ===== src/Text/Url.antt =====
-- Percent-encoded text: url_decode undoes every encoding of it.
use ffmpeg_streaming.Base.{
  ℕ, ◌+◌, ◌-◌, ◌*◌, ◌/◌, ◌%◌, ◌≡◌, ◌≤◌, ◌<◌, refl, ap, ◌∙◌, List, [], ◌∷◌, ◌==◌, ltb, Bool, true,
  false, if◌then◌else◌, arith, length, All, ◌&&◌, Bool-cases, inl, inr, sym, ==_iff,
}
use ffmpeg_streaming.Text.{hex2int, url_decode, is_xdigit}

-- The other way: `plain` says which bytes stand for themselves.
hex_digit : ℕ → ℕ
hex_digit n = if ltb n 10 then b'0' + n else b'A' + n - 10

unfoldable pub url_encode : (ℕ → Bool) → List ℕ → List ℕ
unfolding hex_digit
url_encode plain [] = []
url_encode plain (c ∷ cs) =
    let rest = url_encode plain cs in
    if plain c then c ∷ rest else b'%' ∷ hex_digit (c / 16) ∷ hex_digit (c % 16) ∷ rest

pub url_decode-nil : url_decode [] ≡ []
unfolding url_decode
url_decode-nil = refl

pub url_decode-plain :
    (c : ℕ) (cs : List ℕ) → (c == b'%') ≡ false → url_decode (c ∷ cs) ≡ c ∷ url_decode cs
unfolding url_decode
url_decode-plain c [] h = refl
url_decode-plain c (d ∷ []) h = refl
url_decode-plain c (d ∷ e ∷ cs) h = ground (arith, h)

hex2int-hex_digit :
    (n : ℕ) → n < 16 → (hex2int (hex_digit n) ≡ n) × (is_xdigit (hex_digit n) ≡ true)
unfolding hex_digit hex2int
hex2int-hex_digit n h = (ground arith, ground arith)

url_decode-coded :
    (n : ℕ) (d e : ℕ) (cs : List ℕ)
    → n < 256
    → hex2int d ≡ n / 16
    → is_xdigit d ≡ true
    → hex2int e ≡ n % 16
    → is_xdigit e ≡ true
    → url_decode (b'%' ∷ d ∷ e ∷ cs) ≡ n ∷ url_decode cs
unfolding url_decode
url_decode-coded n d e cs h a a' b b' =
    let byte : (hex2int d * 16 + hex2int e) % 256 ≡ n = omega arith in rw (a', b', byte) refl

not_percent : (plain : ℕ → Bool) (c : ℕ) → plain b'%' ≡ false → plain c ≡ true → (c == b'%') ≡ false
not_percent plain c p e = elim (Bool-cases (c == b'%')) [
  | inl same ↦ same ∙ sym e ∙ ap plain ((==_iff c b'%').0 same) ∙ p
  | inr other ↦ other
]

-- Whichever bytes an encoding leaves as they are, the percent sign not among them: decoding gives
-- the bytes that were encoded.
pub url_decode-url_encode :
    (plain : ℕ → Bool) (bs : List ℕ)
    → plain b'%' ≡ false
    → All (λ c. c < 256) bs
    → url_decode (url_encode plain bs) ≡ bs
unfolding url_encode
url_decode-url_encode plain [] p h = url_decode-nil
url_decode-url_encode plain (c ∷ cs) p (h, hs) = elim (Bool-cases (plain c)) [
  | inl e ↦ rw e (
      url_decode-plain c (url_encode plain cs) (not_percent plain c p e)
      ∙ ap (λ k. c ∷ k) (url_decode-url_encode plain cs p hs))
  | inr e ↦
      let (a, a') = hex2int-hex_digit (c / 16) (omega arith) in
      let (b, b') = hex2int-hex_digit (c % 16) (omega arith) in
      rw e (
        url_decode-coded c (hex_digit (c / 16)) (hex_digit (c % 16)) (url_encode plain cs) h a a' b
          b'
        ∙ ap (λ k. c ∷ k) (url_decode-url_encode plain cs p hs))
]

length-either :
    (b : Bool) (xs ys : List ℕ) (n : ℕ)
    → length xs ≤ n
    → length ys ≤ n
    → length (if b then xs else ys) ≤ n
length-either true xs ys n h k = h
length-either false xs ys n h k = k

-- Decoding never makes a text longer, so it fits the buffer that it is decoded in.
pub length-url_decode : (bs : List ℕ) → length (url_decode bs) ≤ length bs
unfolding url_decode
length-url_decode [] = omega arith
length-url_decode (c ∷ []) = omega arith
length-url_decode (c ∷ d ∷ []) = omega arith
length-url_decode (c ∷ d ∷ e ∷ cs) =
    let decoded = length-url_decode cs in
    let kept = length-url_decode (d ∷ e ∷ cs) in
    length-either (c == b'%' && (is_xdigit d && is_xdigit e))
      ((hex2int d * 16 + hex2int e) % 256 ∷ url_decode cs) (c ∷ url_decode (d ∷ e ∷ cs))
      (length (c ∷ d ∷ e ∷ cs)) (omega (arith, decoded)) (omega (arith, kept))
