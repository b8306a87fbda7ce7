-- ===== src/Server/Send/Framing.antt =====
-- Chunks that the server writes, as its own reader of chunks takes them: both ends of a body are in
-- ffserver.c (http_send_data, recv_chunked).
use ffmpeg_streaming.Base.{
  ℕ, zero, suc, ◌+◌, ◌*◌, ◌/◌, ◌%◌, ◌≡◌, ◌≤◌, ◌<◌, refl, sym, ap, ◌∙◌, List, [], ◌∷◌, ◌++◌, Bool,
  true, false, ltb, if◌then◌else◌, Option, none, some, length, join, arith, All, append-nil,
  append_assoc, length-append,
}
use ffmpeg_streaming.Base.Int.{pos}
use ffmpeg_streaming.Server.Chunks.{chunk_head, recv_chunked, failed, eof, dry, overruns, got}
use ffmpeg_streaming.Server.Chunks.Digits.{digit, number, text}
use ffmpeg_streaming.Server.Chunks.Body.{
  chunk_head-size, recv_chunked-head, recv_chunked-eof, recv_body-all,
}
use ffmpeg_streaming.Server.Send.{digits, hex_char, hex_text, chunk}

hex_text-text : (ds : List ℕ) → hex_text ds ≡ text ds
unfolding hex_text text hex_char
hex_text-text [] = refl
hex_text-text (d ∷ ds) = ap (λ k. digit d ∷ k) (hex_text-text ds)

number-append : (n : ℕ) (ds : List ℕ) (d : ℕ) → number n (ds ++ d ∷ []) ≡ number n ds * 16 + d
unfolding number
number-append n [] d = refl
number-append n (e ∷ ds) d = number-append (n * 16 + e) ds d

All-append : (P : ℕ → Type 0) (xs : List ℕ) (y : ℕ) → All P xs → P y → All P (xs ++ y ∷ [])
All-append P [] y h p = (p, tt)
All-append P (x ∷ xs) y (h, hs) p = (h, All-append P xs y hs p)

if-elim :
    (P : List ℕ → Type 0) (b : Bool) (x y : List ℕ)
    → (b ≡ true → P x)
    → (b ≡ false → P y)
    → P (if b then x else y)
if-elim P true x y p q = p refl
if-elim P false x y p q = q refl

All-digits : (fuel n : ℕ) → All (λ d. d < 16) (digits fuel n)
unfolding digits
All-digits zero n = tt
All-digits (suc fuel) n =
    if-elim (All (λ d. d < 16)) (ltb n 16) (n ∷ []) (digits fuel (n / 16) ++ (n % 16) ∷ [])
      (λ h. (ground (arith, h), tt))
      (λ h.
        All-append (λ d. d < 16) (digits fuel (n / 16)) (n % 16) (All-digits fuel (n / 16))
          (omega arith))

number-digits : (fuel n : ℕ) → n < fuel → number 0 (digits fuel n) ≡ n
unfolding digits number
number-digits zero n h = absurd (omega arith)
number-digits (suc fuel) n h =
    if-elim (λ ds. number 0 ds ≡ n) (ltb n 16) (n ∷ []) (digits fuel (n / 16) ++ (n % 16) ∷ [])
      (λ k. let e : 0 + n ≡ n = omega arith in e)
      (λ k.
        number-append 0 (digits fuel (n / 16)) (n % 16)
        ∙ ap (λ m. m * 16 + n % 16) (number-digits fuel (n / 16) (ground (arith, h, k)))
        ∙ omega arith)

length-digits_more :
    (k m : ℕ)
    → ((fuel n : ℕ) → n < m → length (digits fuel n) ≤ k)
    → (fuel n : ℕ) → n < m * 16
    → length (digits fuel n) ≤ k + 1
unfolding digits
length-digits_more k m h zero n l = omega arith
length-digits_more k m h (suc fuel) n l =
    if-elim (λ ds. length ds ≤ k + 1) (ltb n 16) (n ∷ []) (digits fuel (n / 16) ++ (n % 16) ∷ [])
      (λ e. omega arith)
      (λ e. omega (
        arith,
        length-append (digits fuel (n / 16)) ((n % 16) ∷ []),
        h fuel (n / 16) (omega arith),
      ))

length-digits_one : (fuel n : ℕ) → n < 16 → length (digits fuel n) ≤ 1
unfolding digits
length-digits_one zero n h = omega arith
length-digits_one (suc fuel) n h =
    if-elim (λ ds. length ds ≤ 1) (ltb n 16) (n ∷ []) (digits fuel (n / 16) ++ (n % 16) ∷ [])
      (λ e. omega arith) (λ e. absurd (ground (arith, e, h)))

length-digits : (fuel n : ℕ) → n < 65536 → length (digits fuel n) ≤ 4
length-digits fuel n h =
    length-digits_more 3 4096 (length-digits_more 2 256 (length-digits_more 1 16 length-digits_one))
      fuel n h

digits-some : (fuel n : ℕ) → 1 ≤ length (digits (suc fuel) n)
unfolding digits
digits-some fuel n =
    if-elim (λ ds. 1 ≤ length ds) (ltb n 16) (n ∷ []) (digits fuel (n / 16) ++ (n % 16) ∷ [])
      (λ e. omega arith) (λ e. omega (arith, length-append (digits fuel (n / 16)) ((n % 16) ∷ [])))

-- the head and the tail of a chunk
chunk-text :
    (bs more : List ℕ)
    → chunk bs ++ more
      ≡ text (digits (suc (length bs)) (length bs)) ++ 13 ∷ 10 ∷ (bs ++ 13 ∷ 10 ∷ more)
unfolding chunk
chunk-text bs more =
    let ds = digits (suc (length bs)) (length bs) in
    append_assoc (hex_text ds) (13 ∷ 10 ∷ (bs ++ 13 ∷ 10 ∷ [])) more
    ∙ ap (λ k. hex_text ds ++ 13 ∷ 10 ∷ k) (append_assoc bs (13 ∷ 10 ∷ []) more)
    ∙ ap (λ k. k ++ 13 ∷ 10 ∷ (bs ++ 13 ∷ 10 ∷ more)) (hex_text-text ds)

chunk-size :
    (bs more : List ℕ)
    → length bs < 65536
    → (chunk_head [] 32 [] (chunk bs ++ more) ≡ some (pos (length bs), bs ++ 13 ∷ 10 ∷ more))
      × (chunk_head [] 32 [] (13 ∷ 10 ∷ (chunk bs ++ more))
          ≡ some (pos (length bs), bs ++ 13 ∷ 10 ∷ more))
chunk-size bs more h =
    let n = length bs in
    let ds = digits (suc n) n in
    let few = length-digits (suc n) n h in
    let value : number 0 ds ≡ n = number-digits (suc n) n (omega arith) in
    let (e, e2) =
      chunk_head-size [] ds (bs ++ 13 ∷ 10 ∷ more) (All-digits (suc n) n) (digits-some n n)
        (omega arith) (omega (arith, value)) in
    (
      ap (chunk_head [] 32 []) (chunk-text bs more)
          ∙ e
          ∙ ap (λ k. some (pos k, bs ++ 13 ∷ 10 ∷ more)) value,
      ap (λ k. chunk_head [] 32 [] (13 ∷ 10 ∷ k)) (chunk-text bs more)
          ∙ e2
          ∙ ap (λ k. some (pos k, bs ++ 13 ∷ 10 ∷ more)) value,
    )

-- a body of chunks, the last one empty
unfoldable pub chunks : List (List ℕ) → List ℕ
chunks [] = chunk []
chunks (bs ∷ bss) = chunk bs ++ chunks bss

-- what calls of `recv_chunked` receive until the last chunk; `none` if one fails, or if there are
-- more than `fuel`
unfoldable pub decode : ℕ → ℕ → ℕ → List ℕ → Option (List ℕ)
decode zero buffer_size size input = none
decode (suc fuel) buffer_size size input = elim (recv_chunked [] buffer_size size input) [
  | failed rest ↦ none
  | eof rest ↦ some []
  | dry n ↦ none
  | overruns ↦ none
  | got bs size' rest ↦ elim (decode fuel buffer_size size' rest) [
    | none ↦ none
    | some out ↦ some (bs ++ out)
  ]
]

-- the blocks that a chunk can carry to a reader with so large a buffer
unfoldable pub Carried : ℕ → List ℕ → Type 0
Carried buffer_size bs = (1 ≤ length bs) × (length bs ≤ buffer_size) × (length bs < 65536)

decode-eof :
    (fuel buffer_size : ℕ) (input rest : List ℕ)
    → recv_chunked [] buffer_size 0 input ≡ eof rest
    → decode (suc fuel) buffer_size 0 input ≡ some []
unfolding decode
decode-eof fuel buffer_size input rest e = rw (e, decode) refl

decode-got :
    (fuel buffer_size : ℕ) (input bs rest out : List ℕ)
    → recv_chunked [] buffer_size 0 input ≡ got bs 0 rest
    → decode fuel buffer_size 0 rest ≡ some out
    → decode (suc fuel) buffer_size 0 input ≡ some (bs ++ out)
unfolding decode
decode-got fuel buffer_size input bs rest out e d = rw (e, decode) (rw (d, decode) refl)

recv-chunk :
    (buffer_size : ℕ) (bs more input : List ℕ)
    → Carried buffer_size bs
    → chunk_head [] 32 [] input ≡ some (pos (length bs), bs ++ more)
    → recv_chunked [] buffer_size 0 input ≡ got bs 0 more
unfolding Carried
recv-chunk buffer_size bs more input (l, h, u) e =
    recv_chunked-head [] buffer_size (length bs) input (bs ++ more) e (ground (arith, l))
    ∙ recv_body-all buffer_size bs more l h

-- A body whose blocks are not empty, each fit the reader's buffer and are shorter than 65536 bytes,
-- sent in chunks, is received as it was, by one call of `recv_chunked` for each block and one for the
-- last chunk, whether it comes first on the connection or after the end of the chunk before.
pub decode-chunks :
    (buffer_size : ℕ) (bss : List (List ℕ))
    → All (Carried buffer_size) bss
    → (decode (suc (length bss)) buffer_size 0 (chunks bss) ≡ some (join bss))
      × (decode (suc (length bss)) buffer_size 0 (13 ∷ 10 ∷ chunks bss) ≡ some (join bss))
unfolding chunks Carried
decode-chunks buffer_size [] h =
    let (e, e2) = chunk-size [] [] (omega arith) in
    (
      decode-eof 0 buffer_size (chunk []) (13 ∷ 10 ∷ []) (
          recv_chunked-eof [] buffer_size (chunk []) (13 ∷ 10 ∷ [])
            (ap (chunk_head [] 32 []) (sym (append-nil (chunk []))) ∙ e)),
      decode-eof 0 buffer_size (13 ∷ 10 ∷ chunk []) (13 ∷ 10 ∷ []) (
          recv_chunked-eof [] buffer_size (13 ∷ 10 ∷ chunk []) (13 ∷ 10 ∷ [])
            (ap (λ k. chunk_head [] 32 [] (13 ∷ 10 ∷ k)) (sym (append-nil (chunk []))) ∙ e2)),
    )
decode-chunks buffer_size (bs ∷ bss) (h, hs) =
    let (e, e2) = chunk-size bs (chunks bss) h.2 in
    let rest = (decode-chunks buffer_size bss hs).1 in
    (
      decode-got (suc (length bss)) buffer_size (chunk bs ++ chunks bss) bs (13 ∷ 10 ∷ chunks bss)
          (join bss) (recv-chunk buffer_size bs (13 ∷ 10 ∷ chunks bss) (chunk bs ++ chunks bss) h e)
          rest,
      decode-got (suc (length bss)) buffer_size (13 ∷ 10 ∷ (chunk bs ++ chunks bss)) bs
          (13 ∷ 10 ∷ chunks bss) (join bss)
          (recv-chunk buffer_size bs (13 ∷ 10 ∷ chunks bss) (13 ∷ 10 ∷ (chunk bs ++ chunks bss)) h
            e2)
          rest,
    )
