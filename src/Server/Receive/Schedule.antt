-- ===== src/Server/Receive/Schedule.antt =====
-- An encoder's stream arrives in pieces while the server calls http_receive_data from time to time.
use mathlib.Core.Path.{subst}
use ffmpeg_streaming.Base.{
  ℕ, ◌≡◌, ◌≤◌, refl, sym, ap, ◌∙◌, ◌⊎◌, inl, inr, List, [], ◌∷◌, ◌++◌, Option, none, some, arith,
  length, All, append_assoc, append-nil, map, Option-cases, length-append,
}
use ffmpeg_streaming.Server.{Sff, HttpContext}
use ffmpeg_streaming.Server.Receive.Blocks.{Block, Fits}
use ffmpeg_streaming.Server.Receive.Delivery.{
  Left, Result, Event, arrived, served, serve, run, arrivals, Whole, packet_of, stream_of,
  serve-begun, serve-header, serve-none,
}

All-parts : (xs ys zs : List Block) → xs ≡ ys ++ zs → All Fits xs → All Fits zs
All-parts xs ys zs e h = go ys (subst (All Fits) e h)
  where
    go : (ys : List Block) → All Fits (ys ++ zs) → All Fits zs
    go [] h = h
    go (y ∷ ys) (a, h) = go ys h

map-append : (xs ys : List Block) → map packet_of (xs ++ ys) ≡ map packet_of xs ++ map packet_of ys
map-append [] ys = refl
map-append (x ∷ xs) ys = ap (λ k. packet_of x ∷ k) (map-append xs ys)

serve-idle :
    (c : HttpContext) (input more : List ℕ) (bs : List Block)
    → All Fits bs
    → c.sff ≡ none
    → input ++ more ≡ stream_of bs
    → (input ≡ []) ⊎ (8 ≤ length input)
    → Result (serve c input).0.sff ((serve c input).1 ++ more) (serve c input).2 bs
serve-idle c input more bs v e h (inl empty) =
    let step : serve c input ≡ (c, [], []) = ap (serve c) empty ∙ serve-none c e in
    subst (λ r. Result r.0.sff (r.1 ++ more) r.2 bs) (sym step)
      (
        [],
        bs,
        refl,
        refl,
        subst (λ o. Left o more bs) (sym e) (sym (ap (λ k. k ++ more) empty) ∙ h),
      )
serve-idle c input more [] v e h (inr l) =
    absurd (omega (arith, ap length h, length-append input more))
serve-idle c input more (b ∷ bs) v e h (inr l) = serve-header c input more b bs e v.0 l h

serve-Left :
    (c : HttpContext) (input more : List ℕ) (bs : List Block)
    → All Fits bs
    → Left c.sff (input ++ more) bs
    → elim c.sff as (λ o. Type 0) [ none ↦ (input ≡ []) ⊎ (8 ≤ length input) | some s ↦ Unit {0} ]
    → Result (serve c input).0.sff ((serve c input).1 ++ more) (serve c input).2 bs
serve-Left c input more bs v l w = elim (Option-cases c.sff) [
  | inl e ↦ serve-idle c input more bs v e (subst (λ o. Left o (input ++ more) bs) e l) (
      subst
        (λ (o : Option Sff). elim o as (λ o. Type 0) [
          | none ↦ (input ≡ []) ⊎ (8 ≤ length input)
          | some s ↦ Unit {0}
        ])
        e w)
  | inr (s, e) ↦ serve-begun c s input more bs e (subst (λ o. Left o (input ++ more) bs) e l)
]

-- A stream of blocks from an encoder, each with a type of one digit and 1 to 1000000 bytes, whose rest
-- is what is begun at the connection, in the socket, and still to arrive: however the arrivals and the
-- server's calls follow one another, if no call comes while part of a header alone is in the socket,
-- the packets completed are those of the first blocks, in order and with all their bytes, and what is
-- left is the rest of the stream.
pub run-delivers :
    (c : HttpContext) (input : List ℕ) (es : List Event) (bs : List Block)
    → All Fits bs
    → Left c.sff (input ++ arrivals es) bs
    → Whole c input es
    → let (c', rest, out) = run c input es in
      (done : List Block) × (left : List Block) × (bs ≡ done ++ left)
      × (out ≡ map packet_of done)
      × Left c'.sff rest left
unfolding run
run-delivers c input [] bs v l w =
    ([], bs, refl, refl, subst (λ k. Left c.sff k bs) (append-nil input) l)
run-delivers c input (arrived xs ∷ es) bs v l w =
    run-delivers c (input ++ xs) es bs v
      (subst (λ k. Left c.sff k bs) (sym (append_assoc input xs (arrivals es))) l) w
run-delivers c input (served ∷ es) bs v l (now, later) =
    let (done, left, e, o, l') = serve-Left c input (arrivals es) bs v l now in
    let (done2, left2, e2, o2, l2) =
      run-delivers (serve c input).0 (serve c input).1 es left (All-parts bs done left e v) l'
        later in
    (
      done ++ done2,
      left2,
      e ∙ ap (λ k. done ++ k) e2 ∙ sym (append_assoc done done2 left2),
      ap (λ k. k ++ (run (serve c input).0 (serve c input).1 es).2) o
          ∙ ap (λ k. map packet_of done ++ k) o2
          ∙ sym (map-append done done2),
      l2,
    )
