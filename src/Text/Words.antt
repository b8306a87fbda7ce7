-- ===== src/Text/Words.antt =====
-- The words and the lines of a request.
use ffmpeg_streaming.Base.{
  ℕ, zero, suc, ◌+◌, ◌-◌, ◌≡◌, ◌≤◌, ◌<◌, refl, ap, ◌∙◌, List, [], ◌∷◌, ◌++◌, ◌==◌, ◌||◌, Bool, true,
  false, arith, length, take, All, Bool-cases, inl, inr, length-append,
}
use ffmpeg_streaming.Text.{
  Line, skip_spaces, is_space, copy_word, get_word, ended, line, hangs, skip_lf, skip_eol, prepend,
  copy_line, get_line, is_harmless, htmlstrip,
}

pub copy_word-word :
    (room : ℕ) (w rest : List ℕ) (sep : ℕ)
    → All (λ c. is_space c ≡ false) w
    → is_space sep ≡ true
    → copy_word room (w ++ sep ∷ rest) ≡ (take room w, sep ∷ rest)
unfolding copy_word
copy_word-word zero [] rest sep h s = ground (arith, s)
copy_word-word (suc room) [] rest sep h s = ground (arith, s)
copy_word-word zero (c ∷ w) rest sep (h, hs) s =
    ground (arith, h, copy_word-word zero w rest sep hs s)
copy_word-word (suc room) (c ∷ w) rest sep (h, hs) s =
    ground (arith, h, copy_word-word room w rest sep hs s)

skip_spaces-blank :
    (blank rest : List ℕ) (c : ℕ)
    → All (λ b. (b == 32 || b == 9) ≡ true) blank
    → is_space c ≡ false
    → skip_spaces (blank ++ c ∷ rest) ≡ c ∷ rest
unfolding skip_spaces
skip_spaces-blank [] rest c h s = ground (arith, s)
skip_spaces-blank (b ∷ blank) rest c (h, hs) s =
    ground (arith, h, skip_spaces-blank blank rest c hs s)

-- After spaces and tabs, `get_word` takes the bytes up to the next space, keeps those that the buffer
-- has room for, and leaves the text at that space.
pub get_word-word :
    (buf_size : ℕ) (blank w rest : List ℕ) (c sep : ℕ)
    → All (λ b. (b == 32 || b == 9) ≡ true) blank
    → All (λ b. is_space b ≡ false) (c ∷ w)
    → is_space sep ≡ true
    → get_word buf_size (blank ++ c ∷ (w ++ sep ∷ rest)) ≡ (take (buf_size - 1) (c ∷ w), sep ∷ rest)
unfolding get_word
get_word-word buf_size blank w rest c sep h (hc, hw) s =
    rw (skip_spaces-blank blank (w ++ sep ∷ rest) c h hc)
      (copy_word-word (buf_size - 1) (c ∷ w) rest sep (hc, hw) s)

-- a byte that stands in a line
abbrev pub in_line : ℕ → Bool
in_line c = elim (c == 13 || c == 10) [ true ↦ false | false ↦ true ]

copy_line-line :
    (fuel room : ℕ) (l rest : List ℕ)
    → All (λ c. in_line c ≡ true) l
    → length l ≤ room
    → length l < fuel
    → copy_line fuel room (l ++ 13 ∷ 10 ∷ rest) ≡ line l rest
unfolding copy_line skip_eol skip_lf prepend
copy_line-line zero room l rest h n f = absurd (omega arith)
copy_line-line (suc fuel) zero [] rest h n f = refl
copy_line-line (suc fuel) (suc room) [] rest h n f = refl
copy_line-line (suc fuel) zero (c ∷ l) rest (h, hs) n f = absurd (omega arith)
copy_line-line (suc fuel) (suc room) (c ∷ l) rest (h, hs) n f =
    ground (arith, h, copy_line-line fuel room l rest hs (omega arith) (omega arith))

-- the lines of a text, each ended as HTTP ends them, and all that `get_line` gives of a text
unfoldable pub join_lines : List (List ℕ) → List ℕ
join_lines [] = []
join_lines (l ∷ ls) = l ++ 13 ∷ 10 ∷ join_lines ls

unfoldable pub get_lines : ℕ → ℕ → List ℕ → List (List ℕ)
unfolding get_line
get_lines buf_size zero s = []
get_lines buf_size (suc n) s = elim (get_line buf_size s) [
  | line l rest ↦ l ∷ get_lines buf_size n rest
  | ended ↦ []
  | hangs ↦ []
]

get_lines-nil : (buf_size n : ℕ) → get_lines buf_size n [] ≡ []
unfolding get_lines get_line copy_line
get_lines-nil buf_size zero = refl
get_lines-nil buf_size (suc n) = ground arith

get_lines-line :
    (buf_size n : ℕ) (s l rest : List ℕ)
    → get_line buf_size s ≡ line l rest
    → get_lines buf_size (suc n) s ≡ l ∷ get_lines buf_size n rest
unfolding get_lines
get_lines-line buf_size n s l rest e = rw (e, get_lines) refl

pub get_line-line :
    (buf_size : ℕ) (l rest : List ℕ)
    → All (λ c. in_line c ≡ true) l
    → length l + 1 ≤ buf_size
    → get_line buf_size (l ++ 13 ∷ 10 ∷ rest) ≡ line l rest
unfolding get_line
get_line-line buf_size l rest h n =
    copy_line-line (suc (length (l ++ 13 ∷ 10 ∷ rest))) (buf_size - 1) l rest h (omega arith)
      (omega (arith, length-append l (13 ∷ 10 ∷ rest)))

-- A text of lines that each fit the buffer is read line by line: `get_line` gives those lines, in
-- order, and then finds the end.
pub get_lines-join_lines :
    (buf_size : ℕ) (ls : List (List ℕ)) (more : ℕ)
    → All (λ l. All (λ c. in_line c ≡ true) l × (length l + 1 ≤ buf_size)) ls
    → get_lines buf_size (length ls + more) (join_lines ls) ≡ ls
unfolding join_lines
get_lines-join_lines buf_size [] more h = get_lines-nil buf_size (0 + more)
get_lines-join_lines buf_size (l ∷ ls) more ((h, n), hs) =
    let count : length (l ∷ ls) + more ≡ suc (length ls + more) = omega arith in
    ap (λ k. get_lines buf_size k (l ++ 13 ∷ 10 ∷ join_lines ls)) count
    ∙ get_lines-line buf_size (length ls + more) (l ++ 13 ∷ 10 ∷ join_lines ls) l (join_lines ls)
        (get_line-line buf_size l (join_lines ls) h n)
    ∙ ap (λ k. l ∷ k) (get_lines-join_lines buf_size ls more hs)

-- A line of more bytes than the buffer has room for beside the 0 is never got past: whatever the
-- number of rounds, the loop of `get_line` has not come to the line's end nor to the end of the text.
pub get_line-hangs :
    (buf_size fuel : ℕ) (l rest : List ℕ)
    → All (λ c. in_line c ≡ true) l
    → buf_size - 1 < length l
    → copy_line fuel (buf_size - 1) (l ++ rest) ≡ hangs
unfolding copy_line prepend
get_line-hangs buf_size fuel l rest h n = stuck fuel (buf_size - 1) l h n
  where
    stuck :
        (k room : ℕ) (m : List ℕ)
        → All (λ c. in_line c ≡ true) m
        → room < length m
        → copy_line k room (m ++ rest) ≡ hangs
    stuck zero room m v f = refl
    stuck (suc k) room [] v f = absurd (omega arith)
    stuck (suc k) zero (c ∷ m) (v, vs) f = ground (arith, v, stuck k zero (c ∷ m) (v, vs) f)
    stuck (suc k) (suc room) (c ∷ m) (v, vs) f = ground (arith, v, stuck k room m vs (omega arith))

prepend-hangs : (c : ℕ) (x : Line) → prepend c x ≡ hangs → x ≡ hangs
unfolding prepend
prepend-hangs c ended h = absurd (ground (arith, h))
prepend-hangs c (line l rest) h = absurd (ground (arith, h))
prepend-hangs c hangs h = refl

-- The rounds of `get_line` are enough: a text that it has not got past after a round for each byte and
-- one more, it never gets past.
pub copy_line-enough :
    (fuel room : ℕ) (s : List ℕ)
    → copy_line (suc (length s)) room s ≡ hangs
    → copy_line fuel room s ≡ hangs
unfolding copy_line
copy_line-enough zero room s h = refl
copy_line-enough (suc fuel) room [] h = absurd (ground (arith, h))
copy_line-enough (suc fuel) zero (c ∷ cs) h = elim (Bool-cases (c == 13 || c == 10)) [
  | inl e ↦ absurd (ground (arith, h, e))
  | inr e ↦ rw e (copy_line-enough fuel zero (c ∷ cs) h)
]
copy_line-enough (suc fuel) (suc room) (c ∷ cs) h = elim (Bool-cases (c == 13 || c == 10)) [
  | inl e ↦ absurd (ground (arith, h, e))
  | inr e ↦
      let stuck : copy_line (suc (length cs)) room cs ≡ hangs =
        prepend-hangs c (copy_line (suc (length cs)) room cs) (ground (arith, h, e)) in
      rw e (ap (prepend c) (copy_line-enough fuel room cs stuck) ∙ ground arith)
]

-- What is written into a page has only bytes that are harmless there, or question marks, and as many
-- bytes as before; text of such bytes is left as it is.
pub htmlstrip_lem :
    (s : List ℕ)
    → All (λ c. (is_harmless c || (c == b'?')) ≡ true) (htmlstrip s)
      × (length (htmlstrip s) ≡ length s)
      × (htmlstrip (htmlstrip s) ≡ htmlstrip s)
unfolding htmlstrip
htmlstrip_lem [] = (tt, refl, refl)
htmlstrip_lem (c ∷ s) =
    let (a, b, d) = htmlstrip_lem s in
    elim (Bool-cases (is_harmless c)) [
      | inl e ↦ ((rw e (rw e refl), a), ap suc b, rw e (rw e (ap (λ k. c ∷ k) d)))
      | inr e ↦ ((rw e refl, a), ap suc b, rw e (ap (λ k. b'?' ∷ k) d))
    ]
