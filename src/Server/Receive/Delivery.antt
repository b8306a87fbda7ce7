-- ===== src/Server/Receive/Delivery.antt =====
-- What an encoder writes is what the server stores, in whatever pieces it arrives.
use mathlib.Core.Path.{subst}
use ffmpeg_streaming.Base.{
  ℕ, ◌-◌, ◌≡◌, ◌≤◌, ◌<◌, refl, sym, ap, ◌∙◌, ◌⊎◌, inl, inr, List, [], ◌∷◌, ◌++◌, true, false,
  Option, none, some, arith, ◌==◌, if◌then◌else◌, length, take, drop, Bool-cases, length-append,
  append_assoc, take-append-drop, length-take, map,
}
use ffmpeg_streaming.Server.{Sff, HttpContext}
use ffmpeg_streaming.Server.Receive.{
  again, receipt, error, receive_packet, settle, filled, started, scan,
}
use ffmpeg_streaming.Server.Receive.Blocks.{
  Block, Fits, block_header, sff_write_block, scan-sff_write_block,
}

-- the packet of a block, with all of its bytes
abbrev pub packet_of : Block → Sff
packet_of b = record {
  type = b.type;
  size = length b.payload;
  bytes = b.payload;
  wpos = length b.payload;
  wflag = 0;
}

abbrev pub stream_of : List Block → List ℕ
stream_of [] = []
stream_of (b ∷ bs) = sff_write_block b ++ stream_of bs

-- Bytes arrive at the socket, or the server calls `http_receive_data` for what is there.
pub data Event : Type 0 where
  arrived : List ℕ → Event
  served : Event

-- one call: the connection, the bytes left in the socket, and the packet if it is complete
unfoldable pub serve : HttpContext → List ℕ → HttpContext × List ℕ × List Sff
serve c input = elim (receive_packet c again input) [
  | error ↦ (c, input, [])
  | receipt len none c' rest ↦ (c', rest, [])
  | receipt len (some s) c' rest ↦ (c', rest, if s.wpos == s.size then s ∷ [] else [])
]

-- the connection, the bytes left in the socket, and the packets completed
unfoldable pub run : HttpContext → List ℕ → List Event → HttpContext × List ℕ × List Sff
run c input [] = (c, input, [])
run c input (arrived bs ∷ es) = run c (input ++ bs) es
run c input (served ∷ es) =
    let (c', rest, out) = serve c input in
    let (c2, rest2, out2) = run c' rest es in (c2, rest2, out ++ out2)

abbrev pub arrivals : List Event → List ℕ
arrivals [] = []
arrivals (arrived bs ∷ es) = bs ++ arrivals es
arrivals (served ∷ es) = arrivals es

-- No call comes while a part of a header alone is in the socket.
abbrev pub Whole : HttpContext → List ℕ → List Event → Type 0
Whole c input [] = Unit {0}
Whole c input (arrived bs ∷ es) = Whole c (input ++ bs) es
Whole c input (served ∷ es) =
    (elim c.sff as (λ o. Type 0) [ none ↦ (input ≡ []) ⊎ (8 ≤ length input) | some s ↦ Unit {0} ])
    × Whole (serve c input).0 (serve c input).1 es

-- The packet that a connection is at has its bytes so far, and is not complete.
pub record IsOpen (s : Sff) : Type 0 where
  pub at : s.wpos ≡ length s.bytes
  pub open_end : s.wpos < s.size
  pub fresh : s.wflag ≡ 0

-- What is left of the stream to deliver: the packet begun, if there is one, and the blocks after it
-- are the bytes `q`.
abbrev pub Left : Option Sff → List ℕ → List Block → Type 0
Left none q bs = q ≡ stream_of bs
Left (some s) q [] = ⊥
Left (some s) q (b ∷ bs) =
    IsOpen s
    × (s.type ≡ b.type)
    × (s.size ≡ length b.payload)
    × (s.bytes ++ q ≡ b.payload ++ stream_of bs)

-- A call for a packet that is begun: its rest is taken from the socket.
serve-more :
    (c : HttpContext) (s : Sff) (input : List ℕ)
    → c.sff ≡ some s
    → IsOpen s
    → serve c input ≡ (
      settle c (filled s (take (s.size - s.wpos) input)),
      drop (s.size - s.wpos) input,
      if (filled s (take (s.size - s.wpos) input)).wpos == s.size
          then filled s (take (s.size - s.wpos) input) ∷ []
          else [],
    )
unfolding serve receive_packet filled
serve-more c s input e v = ground (arith, e, v.open_end)

pub serve-none : (c : HttpContext) → c.sff ≡ none → serve c [] ≡ (c, [], [])
unfolding serve receive_packet scan
serve-none c e = ground (arith, e)

serve-new :
    (c : HttpContext) (t n : ℕ) (rest : List ℕ)
    → c.sff ≡ none
    → t < 10
    → 0 < n
    → n ≤ 1000000
    → serve c (block_header t n ++ rest) ≡ (
      settle c (started t n rest),
      drop n rest,
      if length (take n rest) == n then started t n rest ∷ [] else [],
    )
unfolding serve receive_packet started
serve-new c t n rest e h k l = ground (arith, e, scan-sff_write_block t n rest h k l)

settle_full : (c : HttpContext) (s : Sff) → (s.wpos == s.size) ≡ true → (settle c s).sff ≡ none
unfolding settle
settle_full c s e = ground (arith, e)

settle_open : (c : HttpContext) (s : Sff) → (s.wpos == s.size) ≡ false → (settle c s).sff ≡ some s
unfolding settle
settle_open c s e = ground (arith, e)

append_split :
    (xs ys us vs : List ℕ) → length xs ≡ length us → xs ++ ys ≡ us ++ vs → (xs ≡ us) × (ys ≡ vs)
append_split [] ys [] vs h e = (refl, e)
append_split [] ys (u ∷ us) vs h e = absurd (omega arith)
append_split (x ∷ xs) ys [] vs h e = absurd (omega arith)
append_split (x ∷ xs) ys (u ∷ us) vs h e =
    let (p, q) = append_split xs ys us vs (omega arith) (cc) in (cc, q)

-- What a call that worked on the packet of `b` makes of the stream.
abbrev pub Result : Option Sff → List ℕ → List Sff → List Block → Type 0
Result o q out bs =
    (done : List Block) × (left : List Block) × (bs ≡ done ++ left)
    × (out ≡ map packet_of done)
    × Left o q left

settle-Left :
    (c : HttpContext) (s : Sff) (b : Block) (bs : List Block) (q : List ℕ)
    → s.type ≡ b.type
    → s.size ≡ length b.payload
    → s.wflag ≡ 0
    → s.wpos ≡ length s.bytes
    → s.wpos ≤ s.size
    → s.bytes ++ q ≡ b.payload ++ stream_of bs
    → Result (settle c s).sff q (if s.wpos == s.size then s ∷ [] else []) (b ∷ bs)
settle-Left c s b bs q t n f w le e = elim (Bool-cases (s.wpos == s.size)) [
  | inl full ↦
      let same : length s.bytes ≡ length b.payload = ground (arith, full, w, n) in
      let (p, r) = append_split s.bytes q b.payload (stream_of bs) same e in
      let whole : s ≡ packet_of b = ground (arith, t, n, f, w, p, same) in
      (
        b ∷ [],
        bs,
        refl,
        rw full (ap (λ k. k ∷ []) whole),
        subst (λ o. Left o q bs) (sym (settle_full c s full)) r,
      )
  | inr open' ↦ (
    [],
    b ∷ bs,
    refl,
    rw open' refl,
    subst (λ o. Left o q (b ∷ bs)) (sym (settle_open c s open'))
        (record { at = w; open_end = ground (arith, open'); fresh = f }, t, n, e),
  )
]

take-drop_regroup :
    (xs ys zs : List ℕ) (n : ℕ) → (xs ++ take n ys) ++ (drop n ys ++ zs) ≡ xs ++ (ys ++ zs)
take-drop_regroup xs ys zs n =
    append_assoc xs (take n ys) (drop n ys ++ zs)
    ∙ ap (λ k. xs ++ k)
        (sym (append_assoc (take n ys) (drop n ys) zs) ∙ ap (λ k. k ++ zs) (take-append-drop n ys))

pub serve-begun :
    (c : HttpContext) (s : Sff) (input more : List ℕ) (bs : List Block)
    → c.sff ≡ some s
    → Left (some s) (input ++ more) bs
    → Result (serve c input).0.sff ((serve c input).1 ++ more) (serve c input).2 bs
unfolding filled
serve-begun c s input more [] e l = elim l [ ]
serve-begun c s input more (b ∷ bs) e (v, t, n, h) =
    let missing : ℕ = s.size - s.wpos in
    let taken : List ℕ = take missing input in
    let sizes : length taken ≤ missing = omega (arith, length-take missing input) in
    subst (λ r. Result r.0.sff (r.1 ++ more) r.2 (b ∷ bs)) (sym (serve-more c s input e v))
      (settle-Left c (filled s taken) b bs (drop missing input ++ more) t n v.fresh
        (omega (arith, v.at, length-append s.bytes taken)) (omega (arith, v.open_end, sizes))
        (take-drop_regroup s.bytes input more missing ∙ h))

pub serve-header :
    (c : HttpContext) (input more : List ℕ) (b : Block) (bs : List Block)
    → c.sff ≡ none
    → Fits b
    → 8 ≤ length input
    → input ++ more ≡ stream_of (b ∷ bs)
    → Result (serve c input).0.sff ((serve c input).1 ++ more) (serve c input).2 (b ∷ bs)
unfolding sff_write_block started
serve-header c input more b bs e v l h =
    let n : ℕ = length b.payload in
    let head : List ℕ = block_header b.type n in
    let whole : input ++ more ≡ head ++ (b.payload ++ stream_of bs) =
      h ∙ append_assoc head b.payload (stream_of bs) in
    let parts : take 8 input ++ (drop 8 input ++ more) ≡ head ++ (b.payload ++ stream_of bs) =
      take-drop_regroup [] input more 8 ∙ whole in
    let (front, back) =
      append_split (take 8 input) (drop 8 input ++ more) head (b.payload ++ stream_of bs)
        (omega (arith, length-take 8 input)) parts in
    let rest : List ℕ = drop 8 input in
    let split : input ≡ head ++ rest = sym (take-append-drop 8 input) ∙ ap (λ k. k ++ rest) front in
    let step : serve c input ≡ (
      settle c (started b.type n rest),
      drop n rest,
      if length (take n rest) == n then started b.type n rest ∷ [] else [],
    ) =
      ap (serve c) split ∙ serve-new c b.type n rest e v.type_digit v.not_empty v.small in
    subst (λ r. Result r.0.sff (r.1 ++ more) r.2 (b ∷ bs)) (sym step)
      (settle-Left c (started b.type n rest) b bs (drop n rest ++ more) refl refl refl refl
        (omega (arith, length-take n rest)) (take-drop_regroup [] rest more n ∙ back))
