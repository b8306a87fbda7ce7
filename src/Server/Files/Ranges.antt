-- ===== src/Server/Files/Ranges.antt =====
-- The ranges of a file that a client asks for.
use ffmpeg_streaming.Base.{
  ℕ, suc, ◌+◌, ◌-◌, ◌*◌, ◌^◌, ◌≡◌, ◌≤◌, ◌<◌, refl, ap, ◌∙◌, List, [], ◌∷◌, ◌++◌, Bool, true, false,
  ◌&&◌, Option, some, ltb, leb, ◌==◌, if◌then◌else◌, min, length, arith, All, same_bytes,
  Bool-cases, inl, inr,
}
use ffmpeg_streaming.Base.Int.{ℤ, pos, negsuc, sub_ℕ, ltb_ℤ}
use ffmpeg_streaming.Text.{is_space}
use ffmpeg_streaming.Server.{HttpContext}
use ffmpeg_streaming.Server.Numbers.{digits_value, strtoll10}
use ffmpeg_streaming.Server.Libs.{Libs}
use ffmpeg_streaming.Server.Files.{
  dir_is_modifed, after_dash, bytes_prefix, end_of, range_of, wanted_of, overflows, misreads,
  Opened, range_head, is_too_long, buffer_of, prepare_range, prepare_local_file,
}

-- digits in base 10, as a text and as the number that they stand for
unfoldable pub text : List ℕ → List ℕ
text [] = []
text (d ∷ ds) = (b'0' + d) ∷ text ds

unfoldable pub number : ℕ → List ℕ → ℕ
number n [] = n
number n (d ∷ ds) = number (n * 10 + d) ds

digits_value-text :
    (n : ℕ) (ds rest : List ℕ)
    → All (λ d. d < 10) ds
    → digits_value n (text ds ++ b'-' ∷ rest) ≡ number n ds
unfolding digits_value text number
digits_value-text n [] rest h = refl
digits_value-text n (d ∷ ds) rest (h, hs) =
    ground (arith, h, digits_value-text (n * 10 + d) ds rest hs)

digits_value-text_end :
    (n : ℕ) (ds : List ℕ) → All (λ d. d < 10) ds → digits_value n (text ds) ≡ number n ds
unfolding digits_value text number
digits_value-text_end n [] h = refl
digits_value-text_end n (d ∷ ds) (h, hs) =
    ground (arith, h, digits_value-text_end (n * 10 + d) ds hs)

length-text : (ds : List ℕ) → length (text ds) ≡ length ds
unfolding text
length-text [] = refl
length-text (d ∷ ds) = ap suc (length-text ds)

after_dash-text :
    (ds rest : List ℕ) → All (λ d. d < 10) ds → after_dash (text ds ++ b'-' ∷ rest) ≡ some rest
unfolding after_dash text
after_dash-text [] rest h = refl
after_dash-text (d ∷ ds) rest (h, hs) = ground (arith, h, after_dash-text ds rest hs)

pos-small : (n : ℕ) → n < 2 ^ 63 → pos (min n (2 ^ 63 - 1)) ≡ pos n
pos-small n u = ap pos (omega arith)

strtoll10-plain :
    (c n : ℕ) (cs : List ℕ)
    → is_space c ≡ false
    → (c == b'-') ≡ false
    → (c == b'+') ≡ false
    → digits_value 0 (c ∷ cs) ≡ n
    → n < 2 ^ 63
    → strtoll10 (c ∷ cs) ≡ pos n
unfolding strtoll10
strtoll10-plain c n cs s p q e u =
    rw s (rw p (rw q (ap (λ k. pos (min k (2 ^ 63 - 1))) e ∙ pos-small n u)))

strtoll10-text :
    (ds rest : List ℕ)
    → All (λ d. d < 10) ds
    → 1 ≤ length ds
    → number 0 ds < 2 ^ 63
    → strtoll10 (text ds ++ b'-' ∷ rest) ≡ pos (number 0 ds)
unfolding text
strtoll10-text [] rest h l u = absurd (omega arith)
strtoll10-text (d ∷ ds) rest (h, hs) l u =
    strtoll10-plain (b'0' + d) (number 0 (d ∷ ds)) (text ds ++ b'-' ∷ rest) (ground arith)
      (ground arith) (ground arith) (digits_value-text 0 (d ∷ ds) rest (h, hs)) u

strtoll10-text_end :
    (ds : List ℕ)
    → All (λ d. d < 10) ds
    → 1 ≤ length ds
    → number 0 ds < 2 ^ 63
    → strtoll10 (text ds) ≡ pos (number 0 ds)
unfolding text
strtoll10-text_end [] h l u = absurd (omega arith)
strtoll10-text_end (d ∷ ds) (h, hs) l u =
    strtoll10-plain (b'0' + d) (number 0 (d ∷ ds)) (text ds) (ground arith) (ground arith)
      (ground arith) (digits_value-text_end 0 (d ∷ ds) (h, hs)) u

end_of-text :
    (xs ys : List ℕ)
    → All (λ d. d < 10) xs
    → All (λ d. d < 10) ys
    → 1 ≤ length ys
    → number 0 ys < 2 ^ 63
    → end_of (text xs ++ b'-' ∷ text ys) ≡ pos (number 0 ys)
unfolding end_of
end_of-text xs ys h k l u =
    let some_digits : ltb 0 (length (text ys)) ≡ true = ground (arith, length-text ys, l) in
    rw (after_dash-text xs (text ys) h, end_of)
      (rw (some_digits, end_of) (strtoll10-text_end ys k l u))

-- a range as a client writes it
abbrev pub range_text : List ℕ → List ℕ → List ℕ
range_text xs ys = bytes_prefix ++ (text xs ++ b'-' ∷ text ys)

last_byte :
    (size last : ℕ)
    → 1 ≤ size
    → (if ltb_ℤ (pos 0) (pos last) && ltb_ℤ (pos last) (pos size) then pos last else sub_ℕ size 1)
      ≡ pos (if ltb 0 last && ltb last size then last else size - 1)
last_byte size last s = elim (Bool-cases (ltb 0 last)) [
  | inr e ↦ ground (arith, s, e)
  | inl e ↦ elim (Bool-cases (ltb last size)) [
    | inl k ↦ ground (arith, s, e, k)
    | inr k ↦ ground (arith, s, e, k)
  ]
]

-- For a range of two numbers, each below 2^63, of a file that is not empty, the first byte is the first
-- number and the last byte is the second, if that is above 0 and below the size of the file; otherwise
-- it is the last byte of the file: so the range "0-0" stands for the whole of the file.
pub range_of-range_text :
    (size : ℕ) (xs ys : List ℕ)
    → All (λ d. d < 10) xs
    → All (λ d. d < 10) ys
    → 1 ≤ length xs
    → 1 ≤ length ys
    → number 0 xs < 2 ^ 63
    → number 0 ys < 2 ^ 63
    → 1 ≤ size
    → range_of size (range_text xs ys)
      ≡ some (
        pos (number 0 xs),
        pos (if ltb 0 (number 0 ys) && ltb (number 0 ys) size then number 0 ys else size - 1),
      )
unfolding range_of same_bytes
range_of-range_text size xs ys h k l m u v s =
    rw (strtoll10-text xs (text ys) h l u, range_of)
      (rw (end_of-text xs ys h k m v, range_of)
        (ap (λ z. some (pos (number 0 xs), z)) (last_byte size (number 0 ys) s)))

prepare_range-misreads :
    (l : Libs) (f : Opened) (c : HttpContext) (range : List ℕ) (r : Option (ℤ × ℤ)) (n : ℕ)
    → range_of (length f.bytes) range ≡ r
    → wanted_of (length f.bytes) r ≡ negsuc n
    → ltb n 1024 ≡ true
    → prepare_range l f c range
      ≡ (if is_too_long (range_head l f c r (negsuc n)) (negsuc n) then overflows else misreads)
unfolding prepare_range
prepare_range-misreads l f c range r n e w m =
    rw (e, prepare_range)
      (rw (w, prepare_range)
        (rw m (
          ap
            (λ k.
              if is_too_long (range_head l f c k (negsuc n)) (negsuc n)
              then overflows
              else misreads)
            e)))

and-false : (a b : Bool) → b ≡ false → (a && b) ≡ false
and-false true b e = e
and-false false b e = refl

prepare_local_file-range :
    (l : Libs) (f : Opened) (c : HttpContext) (range : List ℕ)
    → dir_is_modifed c f ≡ true
    → c.keep_alive ≡ false
    → prepare_local_file l (some f) c range ≡ prepare_range l f c range
unfolding prepare_local_file
prepare_local_file-range l f c range n a =
    rw n (rw (and-false (leb 8192 (length f.bytes)) c.keep_alive a) refl)

-- A range of two numbers, the first below 2^63, whose second is above 0, below the size of the file and
-- below the first by two or more, but not by more than 1025, is at fault, if the client does not have the
-- file and the connection is not kept alive. The memory for the header is 1025 bytes less the difference
-- of the two: a header that with its 0 is longer is written past the end of it, and otherwise the server
-- calls read with a negative number of bytes.
pub prepare_local_file-misreads :
    (l : Libs) (f : Opened) (c : HttpContext) (xs ys : List ℕ)
    → dir_is_modifed c f ≡ true
    → c.keep_alive ≡ false
    → All (λ d. d < 10) xs
    → All (λ d. d < 10) ys
    → 1 ≤ length xs
    → 1 ≤ length ys
    → number 0 xs < 2 ^ 63
    → 0 < number 0 ys
    → number 0 ys < length f.bytes
    → number 0 ys + 2 ≤ number 0 xs
    → number 0 xs ≤ number 0 ys + 1025
    → prepare_local_file l (some f) c (range_text xs ys) ≡ (
        if ltb (1025 - (number 0 xs - number 0 ys)) (
          length (
            range_head l f c
              (some (pos (number 0 xs), pos (number 0 ys)))
              (negsuc (number 0 xs - number 0 ys - 2)))
          + 1)
        then overflows
        else misreads)
unfolding wanted_of is_too_long buffer_of
prepare_local_file-misreads l f c xs ys n a h k j m u z v x y =
    let size = length f.bytes in
    let first = number 0 xs in
    let last = number 0 ys in
    let ranged : (if ltb 0 last && ltb last size then last else size - 1) ≡ last =
      ground (arith, z, v) in
    prepare_local_file-range l f c (range_text xs ys) n a
    ∙ prepare_range-misreads l f c (range_text xs ys) (some (pos first, pos last))
        (first - last - 2)
        (range_of-range_text size xs ys h k j m u (omega arith) (omega arith)
          ∙ ap (λ b. some (pos first, pos b)) ranged)
        (ground (arith, x)) (ground (arith, x, y))
    ∙ ap
        (λ k.
          if ltb k
            (length (range_head l f c (some (pos first, pos last)) (negsuc (first - last - 2))) + 1)
          then overflows
          else misreads)
        (omega (arith, x, y))
