-- ===== src/Server/Listing/Pages.antt =====
-- The page of a directory: its length, and its last byte.
use ffmpeg_streaming.Base.{
  ℕ, ◌≡◌, refl, sym, ap, ◌∙◌, List, [], ◌∷◌, ◌++◌, false, true, some, arith, length, take,
  length-append, join, replicate, drop, ◌+◌, ◌-◌, ◌<◌, ltb, blit, length-blit, take_all,
  take-append, length-take, append_assoc, append-nil, drop_all, length-replicate,
}
use ffmpeg_streaming.Server.{HttpContext}
use ffmpeg_streaming.Server.Listing.{
  Disk, Entry, rows, page_head, page_foot, dir2html, pieces, print_at, print_all, in_buffer, listed,
  list_head, dir_list_local,
}

take-last : (xs : List ℕ) (x : ℕ) → take (length xs) (xs ++ x ∷ []) ≡ xs
take-last [] x = refl
take-last (y ∷ xs) x = ap (λ k. y ∷ k) (take-last xs x)

-- A text that is shorter than the room is printed whole; the 0 is after it.
print_at-whole :
    (buf text : List ℕ) (ret : ℕ)
    → ret + length text < length buf
    → (length (print_at buf ret text) ≡ length buf)
      × (take (ret + length text) (print_at buf ret text) ≡ take ret buf ++ text)
unfolding print_at
print_at-whole buf text ret h =
    let room : ltb ret (length buf) ≡ true = ground (arith, h) in
    let whole : take (length buf - ret - 1) text ≡ text =
      take_all text (length buf - ret - 1) (omega (arith, h)) in
    let one : length (text ++ 0 ∷ []) ≡ length text + 1 = length-append text (0 ∷ []) in
    let after : List ℕ = drop (ret + length (text ++ 0 ∷ [])) buf in
    let front : List ℕ = take ret buf ++ text in
    let split : blit buf ret (text ++ 0 ∷ []) ≡ front ++ 0 ∷ after =
      ap (λ k. take ret buf ++ k) (append_assoc text (0 ∷ []) after)
      ∙ sym (append_assoc (take ret buf) text (0 ∷ after)) in
    let size : length front ≡ ret + length text =
      omega (arith, h, length-append (take ret buf) text, length-take ret buf) in
    (
      rw room (rw whole (length-blit buf (text ++ 0 ∷ []) ret (omega (arith, h, one)))),
      rw room (
          rw whole (
            ap (take (ret + length text)) split
            ∙ take-append (ret + length text) front (0 ∷ after) (omega (arith, size))
            ∙ take_all front (ret + length text) (omega (arith, size)))),
    )

-- A text that is as long as the room loses its last byte to the 0.
print_at-last :
    (buf text : List ℕ) (x ret : ℕ)
    → ret + length text + 1 ≡ length buf
    → print_at buf ret (text ++ x ∷ []) ≡ take ret buf ++ (text ++ 0 ∷ [])
unfolding print_at
print_at-last buf text x ret h =
    let room : ltb ret (length buf) ≡ true = ground (arith, h) in
    let size : length buf - ret - 1 ≡ length text = omega (arith, h) in
    let cut : take (length buf - ret - 1) (text ++ x ∷ []) ≡ text =
      ap (λ k. take k (text ++ x ∷ [])) size ∙ take-last text x in
    let one : length (text ++ 0 ∷ []) ≡ length text + 1 = length-append text (0 ∷ []) in
    rw room (
      rw cut (
        ap (λ k. take ret buf ++ ((text ++ 0 ∷ []) ++ k))
          (drop_all buf (ret + length (text ++ 0 ∷ [])) (omega (arith, h, one)))
        ∙ ap (λ k. take ret buf ++ k) (append-nil (text ++ 0 ∷ []))))

-- All texts but the last are printed whole, each over the 0 of the one before it.
print_all-page :
    (texts : List (List ℕ)) (buf text : List ℕ) (x ret : ℕ)
    → ret + length (join texts) + length text + 1 ≡ length buf
    → print_all buf ret (texts ++ (text ++ x ∷ []) ∷ [])
      ≡ take ret buf ++ (join texts ++ (text ++ 0 ∷ []))
unfolding print_all
print_all-page [] buf text x ret h = print_at-last buf text x ret (omega (arith, h))
print_all-page (t ∷ texts) buf text x ret h =
    let size = length-append t (join texts) in
    let (n, front) = print_at-whole buf t ret (omega (arith, h, size)) in
    print_all-page texts (print_at buf ret t) text x (ret + length t) (omega (arith, h, size, n))
    ∙ ap (λ k. k ++ (join texts ++ (text ++ 0 ∷ []))) front
    ∙ append_assoc (take ret buf) t (join texts ++ (text ++ 0 ∷ []))
    ∙ ap (λ k. take ret buf ++ k) (sym (append_assoc t (join texts) (text ++ 0 ∷ [])))

join-last : (texts : List (List ℕ)) (text : List ℕ) → join (texts ++ text ∷ []) ≡ join texts ++ text
join-last [] text = append-nil text
join-last (t ∷ texts) text =
    ap (λ k. t ++ k) (join-last texts text) ∙ sym (append_assoc t (join texts) text)

-- the texts of a page, with the last one cut at its end
page_parts :
    (d : Disk) (path uri : List ℕ) (es : List Entry)
    → d.entries path ≡ some es
    → pieces d path uri ≡ (page_head uri ∷ rows d uri es) ++ (page_foot ++ 10 ∷ []) ∷ []
unfolding pieces
page_parts d path uri es e = rw (e, pieces) refl

-- The page of a directory that opens is sent with its own length as Content-Length, but with a 0 in the
-- place of its last byte, the end of a line.
pub dir_list_local-page :
    (d : Disk) (c : HttpContext) (path uri : List ℕ) (es : List Entry)
    → listed d c.url ≡ some (path, uri)
    → d.entries path ≡ some es
    → d.allocated ≡ true
    → c.only_header ≡ false
    → (page : List ℕ) × (dir2html d path uri ≡ page ++ 10 ∷ [])
      × ((dir_list_local d c).0.pending ≡ list_head (length (page ++ 0 ∷ [])) ++ (page ++ 0 ∷ []))
unfolding dir_list_local dir2html in_buffer
dir_list_local-page d c path uri es l e a o =
    let texts : List (List ℕ) = page_head uri ∷ rows d uri es in
    let page : List ℕ = join texts ++ page_foot in
    let parts = page_parts d path uri es e in
    let t : dir2html d path uri ≡ page ++ 10 ∷ [] =
      ap join parts
      ∙ join-last texts (page_foot ++ 10 ∷ [])
      ∙ sym (append_assoc (join texts) page_foot (10 ∷ [])) in
    let size : length (join (pieces d path uri)) ≡ length (page ++ 0 ∷ []) =
      ap length t ∙ length-append page (10 ∷ []) ∙ sym (length-append page (0 ∷ [])) in
    let len : ℕ = length (page ++ 0 ∷ []) in
    let filled : in_buffer len (pieces d path uri) ≡ page ++ 0 ∷ [] =
      ap (print_all (replicate len 255) 0) parts
      ∙ print_all-page texts (replicate len 255) page_foot 10 0 (
          omega (
            arith,
            length-replicate {A = ℕ} len 255,
            length-append page (0 ∷ []),
            length-append (join texts) page_foot,
          ))
      ∙ sym (append_assoc (join texts) page_foot (0 ∷ [])) in
    let whole : (dir_list_local d c).0.pending
        ≡ list_head (length (join (pieces d path uri)))
          ++ in_buffer (length (join (pieces d path uri))) (pieces d path uri) =
      rw (l, dir_list_local) (rw a (rw o refl)) in
    (
      page,
      t,
      whole
          ∙ ap (λ k. list_head k ++ in_buffer k (pieces d path uri)) size
          ∙ ap (λ k. list_head len ++ k) filled,
    )
