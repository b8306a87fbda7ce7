-- ===== src/Server/Dispatch/Requests.antt =====
-- The lines of a request, and the line of a GET.
use ffmpeg_streaming.Base.{
  ℕ, zero, suc, ◌+◌, ◌≡◌, ◌≤◌, ◌<◌, refl, ap, ◌∙◌, List, [], ◌∷◌, ◌++◌, ◌==◌, true, false, arith,
  length, All, append_assoc, length-append,
}
use ffmpeg_streaming.Base.Text.{codes}
use ffmpeg_streaming.Text.{line, get_line}
use ffmpeg_streaming.Text.Utf8.{is_utf8}
use ffmpeg_streaming.Text.Words.{in_line, join_lines, get_line-line}
use ffmpeg_streaming.Server.{HttpContext}
use ffmpeg_streaming.Server.Request.{RequestData, Taken, refused, overruns, taken, handle_line}
use ffmpeg_streaming.Server.Request.Get.{
  is_plain, ends_at, line_of_get, handle_line-get, line_of_get-in_line,
}
use ffmpeg_streaming.Server.Outcomes.{System}
use ffmpeg_streaming.Server.Dispatch.{Lines, bad, broken, read, read_lines}

-- the lines, taken one by one
unfoldable pub take_lines : System → HttpContext → RequestData → List (List ℕ) → Lines
take_lines s c rd [] = read c rd []
take_lines s c rd (l ∷ ls) = elim (handle_line s.libs c rd l) [
  | refused ↦ bad
  | overruns ↦ broken
  | taken c' rd' ↦ take_lines s c' rd' ls
]

-- what follows one line of a text
after_line : System → ℕ → List ℕ → List ℕ → Taken → Lines
after_line s fuel msg rest refused = bad
after_line s fuel msg rest overruns = broken
after_line s fuel msg rest (taken c rd) = read_lines s fuel c rd msg rest

after_line_lem :
    (s : System) (fuel : ℕ) (msg rest : List ℕ) (r : Taken)
    → elim r [ refused ↦ bad | overruns ↦ broken | taken c rd ↦ read_lines s fuel c rd msg rest ]
      ≡ after_line s fuel msg rest r
unfolding after_line
after_line_lem s fuel msg rest refused = refl
after_line_lem s fuel msg rest overruns = refl
after_line_lem s fuel msg rest (taken c rd) = refl

read_lines-line :
    (s : System) (fuel : ℕ) (c : HttpContext) (rd : RequestData) (msg p l rest : List ℕ)
    → get_line 1024 p ≡ line l rest
    → 1 ≤ length l
    → read_lines s (suc fuel) c rd msg p ≡ after_line s fuel l rest (handle_line s.libs c rd l)
unfolding read_lines
read_lines-line s fuel c rd msg p [] rest e n = absurd (omega arith)
read_lines-line s fuel c rd msg p (x ∷ xs) rest e n =
    rw (e, read_lines) (after_line_lem s fuel (x ∷ xs) rest (handle_line s.libs c rd (x ∷ xs)))

read_lines-end :
    (s : System) (fuel : ℕ) (c : HttpContext) (rd : RequestData) (msg p rest : List ℕ)
    → get_line 1024 p ≡ line [] rest
    → read_lines s (suc fuel) c rd msg p ≡ read c rd []
unfolding read_lines
read_lines-end s fuel c rd msg p rest e = rw (e, read_lines) refl

after_lines :
    (s : System) (fuel : ℕ) (msg text : List ℕ) (ls : List (List ℕ))
    → ((c : HttpContext) (rd : RequestData)
        → read_lines s fuel c rd msg text ≡ take_lines s c rd ls)
    → (r : Taken)
    → after_line s fuel msg text r
      ≡ elim r [ refused ↦ bad | overruns ↦ broken | taken c rd ↦ take_lines s c rd ls ]
unfolding after_line
after_lines s fuel msg text ls h refused = refl
after_lines s fuel msg text ls h overruns = refl
after_lines s fuel msg text ls h (taken c rd) = h c rd

-- a line as a request may have it
abbrev pub IsHeader : List ℕ → Type 0
IsHeader l = All (λ c. in_line c ≡ true) l × (1 ≤ length l) × (length l ≤ 1023)

-- A request of lines of 1 to 1023 bytes, each ended as HTTP ends them, with an empty line and any bytes
-- after it, is read line by line, in order, up to the empty line, or until a line is refused or overruns;
-- more rounds than there are lines are enough.
pub read_lines-join_lines :
    (s : System) (ls : List (List ℕ)) (fuel : ℕ) (c : HttpContext) (rd : RequestData)
    (msg rest : List ℕ)
    → All IsHeader ls
    → length ls < fuel
    → read_lines s fuel c rd msg (join_lines ls ++ 13 ∷ 10 ∷ rest) ≡ take_lines s c rd ls
unfolding join_lines take_lines
read_lines-join_lines s ls zero c rd msg rest h n = absurd (omega arith)
read_lines-join_lines s [] (suc fuel) c rd msg rest h n =
    read_lines-end s fuel c rd msg (13 ∷ 10 ∷ rest) rest
      (get_line-line 1024 [] rest tt (omega arith))
read_lines-join_lines s (l ∷ ls) (suc fuel) c rd msg rest ((h, one, m), hs) n =
    let text : List ℕ = join_lines ls ++ 13 ∷ 10 ∷ rest in
    ap (read_lines s (suc fuel) c rd msg)
      (append_assoc l (13 ∷ 10 ∷ join_lines ls) (13 ∷ 10 ∷ rest))
    ∙ read_lines-line s fuel c rd msg (l ++ 13 ∷ 10 ∷ text) l text
        (get_line-line 1024 l text h (omega arith)) one
    ∙ after_lines s fuel l text ls
        (λ c' rd'. read_lines-join_lines s ls fuel c' rd' l rest hs (omega arith))
        (handle_line s.libs c rd l)

-- A GET of a name, with HTTP/1.1 and any header lines, is read: the connection is given the name, and
-- the header lines are then taken one by one. The bytes of the name are neither spaces nor 0, nor a
-- percent or question mark, it does not end with a slash, it is UTF-8 and has at most 1009 bytes, and
-- a header line has 1 to 1023.
pub read_lines-get :
    (s : System) (b : ℕ) (name : List ℕ) (ls : List (List ℕ)) (fuel : ℕ) (c : HttpContext)
    (rd : RequestData) (msg rest : List ℕ)
    → All (λ d. is_plain d ≡ true) (b ∷ name)
    → is_utf8 (b'/' ∷ b ∷ name) ≡ true
    → (ends_at b name == b'/') ≡ false
    → length name ≤ 1008
    → All IsHeader ls
    → length ls + 1 < fuel
    → read_lines s fuel c rd msg (join_lines (line_of_get (b ∷ name) ∷ ls) ++ 13 ∷ 10 ∷ rest)
      ≡ take_lines s (record c { post = 0; has_url = true; url = b ∷ name; http_version = 1 }) rd ls
unfolding take_lines
read_lines-get s b name ls fuel c rd msg rest h u e n hs m =
    let fits : length (line_of_get (b ∷ name)) ≤ 1023 =
      omega (arith, length-append name (codes " HTTP/1.1")) in
    read_lines-join_lines s (line_of_get (b ∷ name) ∷ ls) fuel c rd msg rest
      ((line_of_get-in_line (b ∷ name) h, omega arith, fits), hs) (omega arith)
    ∙ rw (handle_line-get s.libs c rd b name h u e (omega arith), take_lines) refl
