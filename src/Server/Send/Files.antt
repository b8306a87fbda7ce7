-- ===== src/Server/Send/Files.antt =====
-- A local file on its way to a client in chunks (http_send_data with local_prepare_data), while the
-- socket takes as many bytes as it likes at each call.
use ffmpeg_streaming.Base.{
  ℕ, zero, suc, ◌≡◌, ◌≤◌, ◌<◌, refl, ap, ◌∙◌, ◌⊎◌, inl, inr, join, List, [], ◌∷◌, ◌++◌, true, false,
  length, take, drop, arith, All, length-append, length-take, length-drop, take-append-drop,
}
use ffmpeg_streaming.Base.Int.{ℤ, pos, negsuc}
use ffmpeg_streaming.Server.{HttpContext, send_data_header}
use ffmpeg_streaming.Server.Send.{is_open, room, chunk, digits, hex_text}
use ffmpeg_streaming.Server.Send.Framing.{chunks, Carried}

-- the file in pieces of `size` bytes
unfoldable pub blocks : ℕ → ℕ → List ℕ → List (List ℕ)
blocks zero size file = []
blocks (suc fuel) size [] = []
blocks (suc fuel) size (b ∷ bs) = take size (b ∷ bs) ∷ blocks fuel size (drop size (b ∷ bs))

-- the bytes that the server has yet to send of a file
unfoldable pub file_rest : ℤ → ℕ → List ℕ → List ℕ
file_rest (pos j) size file = chunks (blocks (length file) size file)
file_rest (negsuc j) size file = []

abbrev pub rest_of : HttpContext → List ℕ
rest_of c = file_rest c.local_fd (room c) c.local_file

unfoldable pub outstanding : HttpContext → List ℕ
unfolding file_rest
outstanding c = c.pending ++ rest_of c

-- a connection that sends a file in chunks, and waits for another request after it
pub record IsServing (c : HttpContext) : Type 0 where
  pub no_segment : c.hls_idx ≡ negsuc 0
  pub alive : c.keep_alive ≡ true
  pub unlimited : c.total_count ≡ 0
  pub chunked : c.tr_encoding ≡ 1
  pub roomy : 1 ≤ room c
  pub sending : c.state ≡ send_data_header
  pub file : (j : ℕ) × ((c.local_fd ≡ pos j) ⊎ (c.local_fd ≡ negsuc (suc j)))

blocks-fuel :
    (m n size : ℕ) (file : List ℕ)
    → 1 ≤ size
    → length file ≤ m
    → length file ≤ n
    → blocks m size file ≡ blocks n size file
unfolding blocks
blocks-fuel zero zero size file s h k = refl
blocks-fuel zero (suc n) size [] s h k = refl
blocks-fuel zero (suc n) size (b ∷ bs) s h k = absurd (omega arith)
blocks-fuel (suc m) zero size [] s h k = refl
blocks-fuel (suc m) zero size (b ∷ bs) s h k = absurd (omega arith)
blocks-fuel (suc m) (suc n) size [] s h k = refl
blocks-fuel (suc m) (suc n) size (b ∷ bs) s h k =
    ap (λ k. take size (b ∷ bs) ∷ k)
      (blocks-fuel m n size (drop size (b ∷ bs)) s (omega (arith, length-drop size (b ∷ bs)))
        (omega (arith, length-drop size (b ∷ bs))))

-- the blocks of a file that is not at its end
blocks-more :
    (size : ℕ) (file : List ℕ)
    → 1 ≤ size
    → 1 ≤ length file
    → blocks (length file) size file
      ≡ take size file ∷ blocks (length (drop size file)) size (drop size file)
unfolding blocks
blocks-more size [] s h = absurd (omega arith)
blocks-more size (b ∷ bs) s h =
    ap (λ k. take size (b ∷ bs) ∷ k)
      (blocks-fuel (length bs) (length (drop size (b ∷ bs))) size (drop size (b ∷ bs)) s
        (omega (arith, length-drop size (b ∷ bs))) (omega arith))

pub file_rest-open :
    (fd : ℤ) (size : ℕ) (file : List ℕ)
    → is_open fd ≡ true
    → file_rest fd size file ≡ chunks (blocks (length file) size file)
unfolding file_rest is_open
file_rest-open (pos j) size file o = refl
file_rest-open (negsuc j) size file o = ground (arith, o)

pub file_rest-more :
    (fd : ℤ) (size : ℕ) (file : List ℕ)
    → is_open fd ≡ true
    → 1 ≤ size
    → 1 ≤ length file
    → file_rest fd size file ≡ chunk (take size file) ++ file_rest fd size (drop size file)
unfolding file_rest is_open chunks
file_rest-more (pos j) size file o s l = ap chunks (blocks-more size file s l)
file_rest-more (negsuc j) size file o s l = ground (arith, o)

pub file_rest-end :
    (fd : ℤ) (size : ℕ) (file : List ℕ)
    → is_open fd ≡ true
    → file ≡ []
    → file_rest fd size file ≡ chunk []
unfolding file_rest is_open chunks blocks
file_rest-end (pos j) size file o e = rw e refl
file_rest-end (negsuc j) size file o e = ground (arith, o)

pub file_rest-shut :
    (fd : ℤ) (size : ℕ) (file : List ℕ) → is_open fd ≡ false → file_rest fd size file ≡ []
unfolding file_rest is_open
file_rest-shut (pos j) size file o = ground (arith, o)
file_rest-shut (negsuc j) size file o = refl

pub List-cases : (xs : List ℕ) → (xs ≡ []) ⊎ (1 ≤ length xs)
List-cases [] = inl refl
List-cases (x ∷ xs) = inr (omega arith)

pub chunk-some : (bs : List ℕ) → 1 ≤ length (chunk bs)
unfolding chunk
chunk-some bs =
    let ds = hex_text (digits (suc (length bs)) (length bs)) in
    omega (arith, length-append ds (13 ∷ 10 ∷ (bs ++ 13 ∷ 10 ∷ [])))

pub join-blocks :
    (fuel size : ℕ) (file : List ℕ)
    → 1 ≤ size
    → length file ≤ fuel
    → join (blocks fuel size file) ≡ file
unfolding blocks
join-blocks zero size [] s h = refl
join-blocks zero size (b ∷ bs) s h = absurd (omega arith)
join-blocks (suc fuel) size [] s h = refl
join-blocks (suc fuel) size (b ∷ bs) s h =
    ap (λ k. take size (b ∷ bs) ++ k)
      (join-blocks fuel size (drop size (b ∷ bs)) s (omega (arith, length-drop size (b ∷ bs))))
    ∙ take-append-drop size (b ∷ bs)

pub All-blocks :
    (fuel size buffer_size : ℕ) (file : List ℕ)
    → 1 ≤ size
    → size ≤ buffer_size
    → size < 65536
    → All (Carried buffer_size) (blocks fuel size file)
unfolding blocks Carried
All-blocks zero size buffer_size file s m l = tt
All-blocks (suc fuel) size buffer_size [] s m l = tt
All-blocks (suc fuel) size buffer_size (b ∷ bs) s m l = (
  (
    omega (arith, length-take size (b ∷ bs)),
    omega (arith, length-take size (b ∷ bs)),
    omega (arith, length-take size (b ∷ bs)),
  ),
  All-blocks fuel size buffer_size (drop size (b ∷ bs)) s m l,
)
