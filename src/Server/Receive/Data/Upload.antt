-- ===== src/Server/Receive/Data/Upload.antt =====
-- The upload of an HLS segment by calls of http_receive_data, and the connections that wait for it.
use ffmpeg_streaming.Base.{
  ℕ, ◌≡◌, ◌≤◌, ◌<◌, refl, ap, ◌∙◌, ◌⊎◌, inl, inr, List, [], ◌∷◌, true, false, ◌&&◌, not, none, some,
  Bool-cases, ltb, ◌==◌, length, take, drop, arith,
}
use ffmpeg_streaming.Base.Int.{pos, ltb_ℤ, pos_part}
use ffmpeg_streaming.Server.{send_data, send_data_trailer, HttpContext}
use ffmpeg_streaming.Server.Segment.{IsValid}
use ffmpeg_streaming.Server.Segments.{Table, segment, write}
use ffmpeg_streaming.Server.Connections.{wake_others, put}
use ffmpeg_streaming.Server.Receive.{again, closed}
use ffmpeg_streaming.Server.Receive.Data.{
  World, Input, http_receive_data, receive, target, to_segment, receive_segment, receive_piece,
  is_over, finish, notify, notice, complete, closes, continues, progress, faulty, Upshot, filled,
  idle,
}

-- A connection that uploads the segment `n`, not in chunks, and is not at the end of its content.
pub record IsUploading (n : ℕ) (c : HttpContext) : Type 0 where
  pub at : c.hls_idx ≡ pos n
  pub plain : (c.tr_encoding == 1) ≡ false
  pub wanted :
      (ltb_ℤ (pos 0) c.content_length && not (ltb_ℤ (pos c.data_count) c.content_length)) ≡ false
  pub roomy : 1 ≤ c.buffer_size

-- The segment `n` has its memory.
pub record HasSegment (n : ℕ) (t : Table) : Type 0 where
  pub block : List ℕ
  pub valid : IsValid (segment t n) block
  pub in_table : n < length t.segments

pub target-segment : (n : ℕ) (c : HttpContext) → c.hls_idx ≡ pos n → target c ≡ to_segment
unfolding target
target-segment n c e = rw (e, target) refl

pub receive-arrived :
    (n : ℕ) (i : Input) (t : Table) (c : HttpContext) (b : ℕ) (bs : List ℕ)
    → IsUploading n c
    → take c.buffer_size i.socket ≡ b ∷ bs
    → receive i t c ≡ (elim (write i.allocated t c (b ∷ bs)) [
      | none ↦ faulty
      | some (r, t', c2) ↦ progress filled none c2 t' (drop c.buffer_size i.socket)
    ])
unfolding receive receive_segment receive_piece
receive-arrived n i t c b bs h e =
    rw (target-segment n c h.at, receive)
      (rw (h.plain, receive_segment) (rw (e, receive_segment) refl))

pub receive-quiet :
    (n : ℕ) (i : Input) (t : Table) (c : HttpContext)
    → IsUploading n c
    → take c.buffer_size i.socket ≡ []
    → receive i t c ≡ progress (idle i.quiet) none c t i.socket
unfolding receive receive_segment receive_piece
receive-quiet n i t c h e =
    rw (target-segment n c h.at, receive)
      (rw (h.plain, receive_segment) (rw (e, receive_segment) refl))

pub http_receive_data-on :
    (i : Input) (c : HttpContext) (w : World) (u : Upshot) (c' : HttpContext) (t : Table)
    (rest : List ℕ)
    → receive i w.table c ≡ progress u none c' t rest
    → is_over u c' ≡ false
    → http_receive_data i c w ≡ notify none c' t (put c' w.connections) rest
unfolding http_receive_data
http_receive_data-on i c w u c' t rest e o =
    rw (e, http_receive_data) (rw (o, http_receive_data) refl)

pub http_receive_data-over :
    (i : Input) (c : HttpContext) (w : World) (u : Upshot) (c' : HttpContext) (t : Table)
    (rest : List ℕ)
    → receive i w.table c ≡ progress u none c' t rest
    → is_over u c' ≡ true
    → http_receive_data i c w ≡ finish none c' t (put c' w.connections) rest
unfolding http_receive_data
http_receive_data-over i c w u c' t rest e o =
    rw (e, http_receive_data) (rw (o, http_receive_data) refl)

pub notify-segment :
    (n : ℕ) (c : HttpContext) (t : Table) (cs : List HttpContext) (rest : List ℕ)
    → c.hls_idx ≡ pos n
    → 0 < (segment t n).csize
    → notify none c t cs rest
      ≡ continues (record { table = t; connections = wake_others c send_data cs }) rest
unfolding notify notice
notify-segment n c t cs rest e l =
    let some_bytes : ltb 0 (segment t (pos_part c.hls_idx)).csize ≡ true =
      ap (λ k. ltb 0 (segment t (pos_part k)).csize) e ∙ ground (arith, l) in
    rw (target-segment n c e, notify) (rw (some_bytes, notify) refl)

pub finish-segment :
    (n : ℕ) (c : HttpContext) (t : Table) (cs : List HttpContext) (rest : List ℕ)
    → c.hls_idx ≡ pos n
    → finish none c t cs rest
      ≡ closes
          (record { table = complete t n; connections = wake_others c send_data_trailer cs })
          rest
unfolding finish
finish-segment n c t cs rest e =
    rw (target-segment n c e, finish)
      (ap
        (λ k.
          closes
            (record {
              table = complete t (pos_part k);
              connections = wake_others c send_data_trailer cs;
            })
            rest)
        e)

pub is_over-filled : (n : ℕ) (c : HttpContext) → IsUploading n c → is_over filled c ≡ false
unfolding is_over
is_over-filled n c h = h.wanted

pub is_over-again : (n : ℕ) (c : HttpContext) → IsUploading n c → is_over (idle again) c ≡ false
unfolding is_over
is_over-again n c h = h.wanted

pub is_over-closed : (c : HttpContext) → is_over (idle closed) c ≡ true
unfolding is_over
is_over-closed c = refl

-- a call that meets no bytes changes no table
pub notify-idle :
    (n : ℕ) (c : HttpContext) (t : Table) (cs : List HttpContext) (rest : List ℕ)
    → c.hls_idx ≡ pos n
    → (notify none c t cs rest ≡ continues (record { table = t; connections = cs }) rest)
      ⊎ (notify none c t cs rest
          ≡ continues (record { table = t; connections = wake_others c send_data cs }) rest)
unfolding notify notice
notify-idle n c t cs rest e = elim (Bool-cases (ltb 0 (segment t (pos_part c.hls_idx)).csize)) [
  | inl l ↦ inr (rw (target-segment n c e, notify) (rw (l, notify) refl))
  | inr l ↦ inl (rw (target-segment n c e, notify) (rw (l, notify) refl))
]
