-- ===== src/Server/Segments/Streaming.antt =====
-- A writer and a reader of one HLS segment at work, and the switch of channels.
use mathlib.Core.Path.{subst}
use ffmpeg_streaming.Base.{
  ℕ, ◌+◌, ◌-◌, ◌≤◌, ◌<◌, ◌≡◌, refl, sym, ap, ◌∙◌, inl, inr, List, [], ◌∷◌, ◌++◌, Bool, true, arith,
  leb, length, take, drop, set, same_bytes_refl, drop-take, drop-append, take-append, length-take,
  append_assoc, append-nil, take_all, get_or-set_self, length-set, Bool-cases, drop_all,
  take-append-drop, Option, none, some, ltb,
}
use ffmpeg_streaming.Base.Int.{pos, negsuc, pos_part}
use ffmpeg_streaming.Server.{Hls, HttpContext}
use ffmpeg_streaming.Server.Segment.{append, contents, IsValid, Appended, append_lem}
use ffmpeg_streaming.Server.Segments.{
  Table, segment, no_segment, write, read, open_reader, playlist, Event, received, served, sent,
  stream, accepted, dangles, serve, Streamed, prepended,
}

-- what the reader has still to be given of a segment, and what it has still to be sent
abbrev pub unread : Table → HttpContext → List ℕ
unread t r = drop r.hls_rpos (contents (segment t (pos_part r.hls_idx)))

abbrev pub unsent : Table → HttpContext → List ℕ
unsent t r = r.pending ++ unread t r

-- Writer and reader are at the same segment of the table, which has its memory, and the reader is
-- not beyond its end.
pub record Linked (t : Table) (w r : HttpContext) : Type 0 where
  pub block : List ℕ
  pub valid : IsValid (segment t (pos_part r.hls_idx)) block
  pub shared : w.hls_idx ≡ r.hls_idx
  pub in_table : pos_part r.hls_idx < length t.segments
  pub behind : r.hls_rpos ≤ (segment t (pos_part r.hls_idx)).csize

pub length-contents : (s : Hls) (block : List ℕ) → IsValid s block → length (contents s) ≡ s.csize
length-contents s block v = ground (arith, v.here, v.storage, v.fits, length-take s.csize block)

-- What serving the reader does: it gets all that is unread, and nothing is left unread.
read-unread :
    (t : Table) (w r : HttpContext)
    → Linked t w r
    → ((read t r).1.pending ≡ unread t r) × (unread t (read t r).1 ≡ []) × Linked t w (read t r).1
unfolding read
read-unread t w r v =
    let s = segment t (pos_part r.hls_idx) in
    let all = length-contents s v.block v.valid in
    elim (Bool-cases (leb s.csize r.hls_rpos)) [
      | inl e ↦ (
        ground (arith, v.valid.here, e, drop_all (contents s) r.hls_rpos (ground (arith, all, e))),
        ground (arith, v.valid.here, e, drop_all (contents s) r.hls_rpos (ground (arith, all, e))),
        record {
          block = v.block;
          valid = ground (arith, v.valid.here, v.valid, e);
          shared = ground (arith, v.valid.here, v.shared, e);
          in_table = ground (arith, v.valid.here, v.in_table, e);
          behind = ground (arith, v.valid.here, v.behind, e);
        },
      )
      | inr e ↦ (
        ground (arith, v.valid.here, e, drop-take r.hls_rpos s.csize v.block),
        ground (
          arith,
          v.valid.here,
          e,
          drop_all (contents s) (r.hls_rpos + (s.csize - r.hls_rpos)) (ground (arith, all, e)),
        ),
        record {
          block = v.block;
          valid = ground (arith, v.valid.here, v.valid, e);
          shared = ground (arith, v.valid.here, v.shared, e);
          in_table = ground (arith, v.valid.here, v.in_table, e);
          behind = ground (arith, v.valid.here, v.behind, e);
        },
      )
    ]

pub write_appended :
    (t : Table) (w : HttpContext) (i : ℕ) (allocated : Bool) (bs : List ℕ) (s' : Hls)
    → pos_part w.hls_idx ≡ i
    → append allocated (segment t i) bs ≡ some (pos 0, s')
    → write allocated t w bs
      ≡ some (
        pos 0,
        record t { segments = set t.segments i s' },
        record w { hls_wpos = w.hls_wpos + length bs },
      )
unfolding write
write_appended t w i allocated bs s' idx e = ground (arith, idx, e)

write_refused :
    (t : Table) (w : HttpContext) (i : ℕ) (allocated : Bool) (bs : List ℕ) (s' : Hls)
    → pos_part w.hls_idx ≡ i
    → append allocated (segment t i) bs ≡ some (negsuc 1, s')
    → write allocated t w bs ≡ some (negsuc 1, t, w)
unfolding write
write_refused t w i allocated bs s' idx e = ground (arith, idx, e)

write_overflowed :
    (t : Table) (w : HttpContext) (i : ℕ) (allocated : Bool) (bs : List ℕ)
    → pos_part w.hls_idx ≡ i
    → append allocated (segment t i) bs ≡ none
    → write allocated t w bs ≡ none
unfolding write
write_overflowed t w i allocated bs idx e = ground (arith, idx, e)

-- The segment with the bytes appended, in the table.
Linked-Appended :
    (t : Table) (w r : HttpContext) (bs : List ℕ) (s' : Hls)
    → Linked t w r
    → Appended (segment t (pos_part r.hls_idx)) bs s'
    → let t' : Table = record t { segments = set t.segments (pos_part r.hls_idx) s' } in
      (segment t' (pos_part r.hls_idx) ≡ s')
      × (unread t' r ≡ unread t r ++ bs)
      × Linked t' (record w { hls_wpos = w.hls_wpos + length bs }) r
Linked-Appended t w r bs s' v a =
    let i : ℕ = pos_part r.hls_idx in
    let all = length-contents (segment t i) v.block v.valid in
    let placed : segment (record t { segments = set t.segments i s' }) i ≡ s' =
      get_or-set_self t.segments i s' no_segment v.in_table in
    (
      placed,
      ap (λ s. drop r.hls_rpos (contents s)) placed
          ∙ ap (drop r.hls_rpos) a.bytes
          ∙ drop-append r.hls_rpos (contents (segment t i)) bs (omega (arith, all, v.behind)),
      record {
        block = a.block;
        valid = rw placed a.valid;
        shared = v.shared;
        in_table = omega (arith, length-set t.segments i s', v.in_table);
        behind = rw placed (omega (arith, a.size, v.behind));
      },
    )

-- all the bytes that arrive
unfoldable pub arriving : List Event → ℕ
arriving [] = 0
arriving (received allocated bs ∷ es) = length bs + arriving es
arriving (served ∷ es) = arriving es
arriving (sent k ∷ es) = arriving es

-- What is claimed of a run: a fault comes only where the bytes outgrow the memory, and otherwise what
-- is unsent at first and then what the writes accept is what is sent and then what is unsent.
unfoldable pub IsOrderly : ℕ → ℕ → List ℕ → Option Streamed → Type 0
IsOrderly room needed before none = room < needed
IsOrderly room needed before (some (t, r, given, out)) = before ++ given ≡ out ++ unsent t r

IsOrderly-prepended :
    (room needed room' needed' : ℕ) (before before' given out : List ℕ) (x : Option Streamed)
    → room + needed' ≤ room' + needed
    → before ++ given ≡ out ++ before'
    → IsOrderly room' needed' before' x
    → IsOrderly room needed before (prepended given out x)
unfolding IsOrderly prepended
IsOrderly-prepended room needed room' needed' before before' given out none h e k =
    omega (arith, h, k)
IsOrderly-prepended room needed room' needed' before before' given out (some (t, r, g, o)) h e k =
    sym (append_assoc before given g)
    ∙ ap (λ z. z ++ g) e
    ∙ append_assoc out before' g
    ∙ ap (λ z. out ++ z) k
    ∙ sym (append_assoc out o (unsent t r))

-- What hls_read does where nothing is left to send: nothing is lost.
serve-unsent :
    (t : Table) (w r : HttpContext)
    → Linked t w r
    → (unsent t (serve t r) ≡ unsent t r)
      × Linked t w (serve t r)
      × ((serve t r).hls_idx ≡ r.hls_idx)
unfolding serve read
serve-unsent t w r v = elim (Bool-cases (ltb 0 (length r.pending))) [
  | inl e ↦ rw e (refl, v, refl)
  | inr e ↦
      let (p, u, v') = read-unread t w r v in
      let idle : r.pending ≡ [] = length-zero r.pending (ground (arith, e)) in
      rw e (
        ap (λ k. (read t r).1.pending ++ k) u
            ∙ append-nil (read t r).1.pending
            ∙ p
            ∙ ap (λ k. k ++ unread t r) (sym idle),
        v',
        ground arith,
      )
]
  where
    length-zero : (xs : List ℕ) → length xs ≡ 0 → xs ≡ []
    length-zero [] h = refl
    length-zero (x ∷ xs) h = absurd (omega (arith, h))

-- the claim for a segment and a reader
abbrev pub Orderly : Table → HttpContext → List Event → Option Streamed → Type 0
Orderly t r es x =
    let s = segment t (pos_part r.hls_idx) in
    IsOrderly s.msize (s.csize + arriving es) (unsent t r) x

received-Orderly :
    (t : Table) (w r : HttpContext) (allocated : Bool) (bs : List ℕ) (es : List Event)
    → Linked t w r
    → ((t' : Table) (w' : HttpContext) → Linked t' w' r → Orderly t' r es (stream t' w' r es))
    → Orderly t r (received allocated bs ∷ es) (stream t w r (received allocated bs ∷ es))
unfolding stream dangles IsOrderly arriving accepted
received-Orderly t w r allocated bs es v ih =
    elim (Bool-cases (dangles allocated (segment t (pos_part w.hls_idx)) (length bs) r)) [
      | inl e ↦ rw e (ground (arith, e, idx))
      | inr e ↦ rw e (elim (append_lem allocated s v.block bs v.valid) [
        | inl (f, m, k) ↦ rw (write_overflowed t w i allocated bs idx f) (omega (arith, m))
        | inr (inl (f, k)) ↦ rw (write_refused t w i allocated bs s idx f) (
            IsOrderly-prepended s.msize (s.csize + (length bs + arriving es)) s.msize
              (s.csize + arriving es) (unsent t r) (unsent t r) [] [] (stream t w r es)
              (omega arith) (append-nil (unsent t r)) (ih t w v))
        | inr (inr (s', f, a)) ↦
            let (placed, u, v') = Linked-Appended t w r bs s' v a in
            let t' : Table = record t { segments = set t.segments i s' } in
            let w' : HttpContext = record w { hls_wpos = w.hls_wpos + length bs } in
            let size : (segment t' i).csize ≡ s'.csize = ap (λ k. k.csize) placed in
            let room : (segment t' i).msize ≡ s'.msize = ap (λ k. k.msize) placed in
            rw (write_appended t w i allocated bs s' idx f) (
              IsOrderly-prepended s.msize (s.csize + (length bs + arriving es)) (segment t' i).msize
                ((segment t' i).csize + arriving es) (unsent t r) (unsent t' r) bs []
                (stream t' w' r es) (omega (arith, size, room, a.size, a.wider))
                (append_assoc r.pending (unread t r) bs ∙ ap (λ k. r.pending ++ k) (sym u))
                (ih t' w' v'))
      ])
    ]
  where
    i : ℕ
    i = pos_part r.hls_idx

    s : Hls
    s = segment t i

    idx : pos_part w.hls_idx ≡ i
    idx = ap pos_part v.shared

-- With the writer and the reader at the same segment of the table, which has its memory, the reader not
-- beyond its end, and whatever the order of writes, reads and sends: a run meets a fault, which is memory given back under the reader or a size past the
-- largest int, only where what the segment holds and all that arrives outgrow the memory it has.
-- Otherwise what the reader has still to be sent at first, and then the bytes that the writes accepted,
-- are the bytes that it was sent, and then what it has still to be sent in the end: nothing is missed,
-- and nothing is sent twice or out of order.
pub stream-fifo :
    (t : Table) (w r : HttpContext) (es : List Event)
    → Linked t w r
    → Orderly t r es (stream t w r es)
unfolding stream IsOrderly arriving
stream-fifo t w r [] v = append-nil (unsent t r)
stream-fifo t w r (received allocated bs ∷ es) v =
    received-Orderly t w r allocated bs es v (λ t' w' v'. stream-fifo t' w' r es v')
stream-fifo t w r (served ∷ es) v =
    let (u, v', same) = serve-unsent t w r v in
    let x = stream t w (serve t r) es in
    subst
      (λ n.
        let s = segment t (pos_part n) in IsOrderly s.msize (s.csize + arriving es) (unsent t r) x)
      same
      (subst
        (λ k.
          let s = segment t (pos_part (serve t r).hls_idx) in
          IsOrderly s.msize (s.csize + arriving es) k x)
        u (stream-fifo t w (serve t r) es v'))
stream-fifo t w r (sent k ∷ es) v =
    let r' : HttpContext = record r { pending = drop k r.pending } in
    let s = segment t (pos_part r.hls_idx) in
    IsOrderly-prepended s.msize (s.csize + arriving es) s.msize (s.csize + arriving es) (unsent t r)
      (unsent t r') [] (take k r.pending) (stream t w r' es) (omega arith)
      (append-nil (unsent t r)
        ∙ ap (λ z. z ++ unread t r) (sym (take-append-drop k r.pending))
        ∙ append_assoc (take k r.pending) (drop k r.pending) (unread t r))
      (stream-fifo t w r' es (record {
        block = v.block;
        valid = v.valid;
        shared = v.shared;
        in_table = v.in_table;
        behind = v.behind;
      }))

-- A first request for a playlist whose name begins that of the current channel is not taken for a
-- request of another channel.
pub open_reader-prefix :
    (stem more : List ℕ) (t : Table) (c : HttpContext)
    → t.name ≡ stem ++ more
    → ((open_reader true playlist stem t c).0 ≡ pos 0)
      × ((open_reader true playlist stem t c).1 ≡ t)
unfolding open_reader
open_reader-prefix stem more t c e =
    let same : take (length stem) t.name ≡ stem =
      ap (take (length stem)) e
      ∙ take-append (length stem) stem more (omega arith)
      ∙ take_all stem (length stem) (omega arith) in
    (ground (arith, same, same_bytes_refl stem), ground (arith, same, same_bytes_refl stem))
