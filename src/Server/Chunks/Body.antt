-- ===== src/Server/Chunks/Body.antt =====
-- The chunks of a body: recv_chunked reads the size in front of a chunk and hands over its bytes.
use ffmpeg_streaming.Base.{
  ℕ, zero, suc, ◌+◌, ◌-◌, ◌^◌, ◌≡◌, ◌≤◌, ◌<◌, ◌≢◌, refl, ap, ◌∙◌, List, [], ◌∷◌, ◌++◌, true, false,
  ◌&&◌, min, leb, ◌==◌, length, drop, take-length_append, drop-length_append, some, arith, All,
  append_assoc, length-append,
}
use ffmpeg_streaming.Base.Int.{pos}
use ffmpeg_streaming.Server.Chunks.{
  strtol16, ends_crlf, chunk_head, eof, got, recv_body, recv_chunked,
}
use ffmpeg_streaming.Server.Chunks.Digits.{
  digit, number, text, digit-ne, strtol16-space, strtol16-text,
}

ends_crlf-other : (xs : List ℕ) (c : ℕ) → c ≢ 10 → ends_crlf (xs ++ c ∷ []) ≡ false
unfolding ends_crlf
ends_crlf-other [] c h = refl
ends_crlf-other (x ∷ []) c h = ground (arith, h)
ends_crlf-other (x ∷ y ∷ xs) c h = ends_crlf-deep x y xs c (ends_crlf-other (y ∷ xs) c h)
  where
    ends_crlf-deep :
        (x y : ℕ) (xs : List ℕ) (c : ℕ)
        → ends_crlf (y ∷ xs ++ c ∷ []) ≡ false
        → ends_crlf (x ∷ y ∷ xs ++ c ∷ []) ≡ false
    ends_crlf-deep x y [] c k = k
    ends_crlf-deep x y (z ∷ zs) c k = k

ends_crlf-here : (xs : List ℕ) → ends_crlf ((xs ++ 13 ∷ []) ++ 10 ∷ []) ≡ true
unfolding ends_crlf
ends_crlf-here [] = refl
ends_crlf-here (x ∷ []) = refl
ends_crlf-here (x ∷ y ∷ []) = refl
ends_crlf-here (x ∷ y ∷ z ∷ xs) = ends_crlf-here (y ∷ z ∷ xs)

chunk_head-on :
    (buffer : List ℕ) (room : ℕ) (seen : List ℕ) (b : ℕ) (input : List ℕ)
    → (leb 3 (length (seen ++ b ∷ [])) && ends_crlf (seen ++ b ∷ [])) ≡ false
    → chunk_head buffer (suc room) seen (b ∷ input) ≡ chunk_head buffer room (seen ++ b ∷ []) input
unfolding chunk_head
chunk_head-on buffer room seen b input e = ground (arith, e)

chunk_head-other :
    (buffer : List ℕ) (room : ℕ) (seen : List ℕ) (b : ℕ) (input : List ℕ)
    → b ≢ 10
    → chunk_head buffer (suc room) seen (b ∷ input) ≡ chunk_head buffer room (seen ++ b ∷ []) input
chunk_head-other buffer room seen b input h =
    chunk_head-on buffer room seen b input (ground (arith, ends_crlf-other seen b h))

chunk_head-end :
    (buffer : List ℕ) (room : ℕ) (seen : List ℕ) (b : ℕ) (input : List ℕ)
    → leb 3 (length (seen ++ b ∷ [])) ≡ true
    → ends_crlf (seen ++ b ∷ []) ≡ true
    → chunk_head buffer (suc room) seen (b ∷ input)
      ≡ some (strtol16 ((seen ++ b ∷ []) ++ drop (length (seen ++ b ∷ [])) buffer), input)
unfolding chunk_head
chunk_head-end buffer room seen b input l e = ground (arith, l, e)

-- The loop for the header, when digits and the end of the line follow the bytes seen.
chunk_head-text :
    (buffer : List ℕ) (room : ℕ) (seen ds body : List ℕ)
    → All (λ d. d < 16) ds
    → length ds + 2 ≤ room
    → 1 ≤ length seen + length ds
    → (junk : List ℕ) × (chunk_head buffer room seen (text ds ++ 13 ∷ 10 ∷ body)
        ≡ some (strtol16 (seen ++ (text ds ++ 13 ∷ junk)), body))
unfolding text
chunk_head-text buffer zero seen ds body h r l = absurd (omega arith)
chunk_head-text buffer (suc zero) seen [] body h r l = absurd (omega arith)
chunk_head-text buffer (suc (suc room)) seen [] body h r l =
    let there : List ℕ = (seen ++ 13 ∷ []) ++ 10 ∷ [] in
    let junk : List ℕ = 10 ∷ drop (length there) buffer in
    let size : leb 3 (length there) ≡ true =
      ground (arith, length-append (seen ++ 13 ∷ []) (10 ∷ []), length-append seen (13 ∷ [])) in
    let same : there ++ drop (length there) buffer ≡ seen ++ 13 ∷ junk =
      append_assoc (seen ++ 13 ∷ []) (10 ∷ []) (drop (length there) buffer)
      ∙ append_assoc seen (13 ∷ []) junk in
    (
      junk,
      chunk_head-other buffer (suc room) seen 13 (10 ∷ body) (λ e. omega arith)
          ∙ chunk_head-end buffer room (seen ++ 13 ∷ []) 10 body size (ends_crlf-here seen)
          ∙ ap (λ k. some (strtol16 k, body)) same,
    )
chunk_head-text buffer (suc room) seen (d ∷ ds) body (h, hs) r l =
    let (junk, e) =
      chunk_head-text buffer room (seen ++ digit d ∷ []) ds body hs (omega arith)
        (omega (arith, length-append seen (digit d ∷ []))) in
    (
      junk,
      chunk_head-other buffer room seen (digit d) (text ds ++ 13 ∷ 10 ∷ body) (digit-ne d)
          ∙ e
          ∙ ap (λ k. some (strtol16 k, body))
              (append_assoc seen (digit d ∷ []) (text ds ++ 13 ∷ junk)),
    )

-- The header of a chunk, first in a body or after the end of the chunk before.
pub chunk_head-size :
    (buffer : List ℕ) (ds body : List ℕ)
    → All (λ d. d < 16) ds
    → 1 ≤ length ds
    → length ds ≤ 27
    → number 0 ds < 2 ^ 31
    → (chunk_head buffer 32 [] (text ds ++ 13 ∷ 10 ∷ body) ≡ some (pos (number 0 ds), body))
      × (chunk_head buffer 32 [] (13 ∷ 10 ∷ text ds ++ 13 ∷ 10 ∷ body)
          ≡ some (pos (number 0 ds), body))
chunk_head-size buffer ds body h l few u =
    let (junk, e) = chunk_head-text buffer 32 [] ds body h (omega arith) (omega arith) in
    let (junk2, e2) =
      chunk_head-text buffer 30 (13 ∷ 10 ∷ []) ds body h (omega arith) (omega arith) in
    let size2 : strtol16 (13 ∷ 10 ∷ text ds ++ 13 ∷ junk2) ≡ pos (number 0 ds) =
      strtol16-space 13 (10 ∷ text ds ++ 13 ∷ junk2) refl
      ∙ strtol16-space 10 (text ds ++ 13 ∷ junk2) refl
      ∙ strtol16-text ds junk2 h l u in
    (
      e ∙ ap (λ z. some (z, body)) (strtol16-text ds junk h l u),
      chunk_head-on buffer 31 [] 13 (10 ∷ text ds ++ 13 ∷ 10 ∷ body) (ground arith)
          ∙ chunk_head-on buffer 30 (13 ∷ []) 10 (text ds ++ 13 ∷ 10 ∷ body) (ground arith)
          ∙ e2
          ∙ ap (λ z. some (z, body)) size2,
    )

pub recv_chunked-head :
    (buffer : List ℕ) (buffer_size n : ℕ) (input rest : List ℕ)
    → chunk_head buffer 32 [] input ≡ some (pos n, rest)
    → (n == 0) ≡ false
    → recv_chunked buffer buffer_size 0 input ≡ recv_body buffer_size n rest
unfolding recv_chunked
recv_chunked-head buffer buffer_size n input rest e z = rw (e, recv_chunked) (rw z refl)

pub recv_chunked-eof :
    (buffer : List ℕ) (buffer_size : ℕ) (input rest : List ℕ)
    → chunk_head buffer 32 [] input ≡ some (pos 0, rest)
    → recv_chunked buffer buffer_size 0 input ≡ eof rest
unfolding recv_chunked
recv_chunked-eof buffer buffer_size input rest e = rw (e, recv_chunked) refl

pub recv_body-all :
    (buffer_size : ℕ) (bs more : List ℕ)
    → 1 ≤ length bs
    → length bs ≤ buffer_size
    → recv_body buffer_size (length bs) (bs ++ more) ≡ got bs 0 more
unfolding recv_body
recv_body-all buffer_size [] more l h = absurd (omega arith)
recv_body-all buffer_size (b ∷ bs) more l h =
    let all : min (length (b ∷ bs)) buffer_size ≡ length (b ∷ bs) = omega (arith, h) in
    let none_left : length (b ∷ bs) - length (b ∷ bs) ≡ 0 = omega arith in
    rw all (
      ap (λ k. got k (length (b ∷ bs) - length k) (drop (length (b ∷ bs)) (b ∷ bs ++ more)))
        (take-length_append (b ∷ bs) more)
      ∙ ap (λ k. got (b ∷ bs) (length (b ∷ bs) - length (b ∷ bs)) k)
          (drop-length_append (b ∷ bs) more)
      ∙ ap (λ k. got (b ∷ bs) k more) none_left)

-- A chunk whose size stands in front of it in at most 27 digits, its value neither 0 nor above the
-- largest int: `recv_chunked` receives the first of its bytes, as many as the buffer holds, and keeps
-- the size that is left. It does so where the end of the chunk before stands in front of the size.
pub recv_chunked-text :
    (buffer : List ℕ) (buffer_size : ℕ) (ds body : List ℕ)
    → All (λ d. d < 16) ds
    → 1 ≤ length ds
    → length ds ≤ 27
    → 0 < number 0 ds
    → number 0 ds < 2 ^ 31
    → (recv_chunked buffer buffer_size 0 (text ds ++ 13 ∷ 10 ∷ body)
        ≡ recv_body buffer_size (number 0 ds) body)
      × (recv_chunked buffer buffer_size 0 (13 ∷ 10 ∷ text ds ++ 13 ∷ 10 ∷ body)
          ≡ recv_body buffer_size (number 0 ds) body)
recv_chunked-text buffer buffer_size ds body h l few n u =
    let (e, e2) = chunk_head-size buffer ds body h l few u in
    let some_size : (number 0 ds == 0) ≡ false = ground (arith, n) in
    (
      recv_chunked-head buffer buffer_size (number 0 ds) (text ds ++ 13 ∷ 10 ∷ body) body e
          some_size,
      recv_chunked-head buffer buffer_size (number 0 ds) (13 ∷ 10 ∷ text ds ++ 13 ∷ 10 ∷ body) body
          e2 some_size,
    )
