-- ===== src/Server/Handle/Pieces.antt =====
-- A request is found wherever it is cut into pieces.
use ffmpeg_streaming.Base.{
  ℕ, ◌≡◌, refl, sym, ap, ◌∙◌, List, [], ◌∷◌, ◌++◌, Bool, true, false, join, leb, if◌then◌else◌,
  length, ◌-◌, append-nil, append_assoc,
}
use ffmpeg_streaming.Server.{HttpContext}
use ffmpeg_streaming.Server.Receive.{Quiet, again}
use ffmpeg_streaming.Server.Handle.{Reading, waits, found, refused, read_loop, is_request, unread}

-- what more bytes make of a reading
unfoldable pub more : Quiet → List ℕ → Reading → Reading
more q bs (waits c) = read_loop q bs c
more q bs (found c rest) = found c (rest ++ bs)
more q bs refused = refused

more-if :
    (q : Quiet) (ys : List ℕ) (c : HttpContext) (bs : List ℕ) (a b : Bool) (r : Reading)
    → more q ys (if a then found c bs else if b then refused else r)
      ≡ (if a then found c (bs ++ ys) else if b then refused else more q ys r)
unfolding more
more-if q ys c bs true b r = refl
more-if q ys c bs false true r = refl
more-if q ys c bs false false r = refl

read_loop-append :
    (q : Quiet) (xs ys : List ℕ) (c : HttpContext)
    → read_loop q (xs ++ ys) c ≡ more q ys (read_loop again xs c)
unfolding read_loop unread more
read_loop-append q [] ys c = refl
read_loop-append q (b ∷ xs) ys c =
    let c' : HttpContext = record c { received = c.received ++ b ∷ [] } in
    let full = leb (c.buffer_size - 1) (length c'.received) in
    ap (λ r. if is_request c'.received then found c' (xs ++ ys) else if full then refused else r)
      (read_loop-append q xs ys c')
    ∙ sym (more-if q ys c' xs (is_request c'.received) full (read_loop again xs c'))

-- the pieces, with a call for each as it arrives
unfoldable pub readings : List (List ℕ) → Reading → Reading
unfolding more
readings [] r = r
readings (bs ∷ bss) r = readings bss (more again bs r)

more-more :
    (xs ys : List ℕ) (r : Reading) → more again (xs ++ ys) r ≡ more again ys (more again xs r)
unfolding more
more-more xs ys (waits c) = read_loop-append again xs ys c
more-more xs ys (found c rest) = ap (found c) (sym (append_assoc rest xs ys))
more-more xs ys refused = refl

readings-join :
    (bs : List ℕ) (bss : List (List ℕ)) (r : Reading)
    → readings bss (more again bs r) ≡ more again (bs ++ join bss) r
unfolding readings
readings-join bs [] r = ap (λ k. more again k r) (sym (append-nil bs))
readings-join bs (cs ∷ css) r =
    ap (readings css) (sym (more-more bs cs r))
    ∙ readings-join (bs ++ cs) css r
    ∙ ap (λ k. more again k r) (append_assoc bs cs (join css))

-- Reading a request in pieces, with a call for each as it arrives, gives what reading all of the bytes
-- at once gives: the same request, the same bytes after it, or the same refusal.
pub readings_lem :
    (bs : List ℕ) (bss : List (List ℕ)) (c : HttpContext)
    → readings bss (read_loop again bs c) ≡ read_loop again (bs ++ join bss) c
unfolding more
readings_lem bs bss c = readings-join bs bss (waits c)
