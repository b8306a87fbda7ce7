-- ===== src/Server/Receive/Data/Stored.antt =====
-- What an encoder uploads as a segment is what the segment holds, and who waits for it is woken.
use mathlib.Core.Path.{subst}
use ffmpeg_streaming.Base.{
  ℕ, ◌+◌, ◌≡◌, ◌≤◌, ◌<◌, refl, sym, ap, ◌∙◌, ◌⊎◌, inl, inr, List, [], ◌∷◌, ◌++◌, true, false, ◌&&◌,
  not, none, some, Option, ◌^◌, ◌==◌, length, take, drop, set, arith, All, get_or-set_self,
  length-set, length-take, take-nil,
}
use ffmpeg_streaming.Base.Int.{ℤ, pos, ltb_ℤ, pos_part}
use ffmpeg_streaming.Server.{State, send_data, send_data_trailer, Hls, HttpContext}
use ffmpeg_streaming.Server.Segment.{contents, append_lem}
use ffmpeg_streaming.Server.Segments.{Table, segment, no_segment, write}
use ffmpeg_streaming.Server.Segments.Streaming.{write_appended, length-contents}
use ffmpeg_streaming.Server.Connections.{wake_others, put, look, joins, is_waiting}
use ffmpeg_streaming.Server.Connections.Waking.{lasting, look-wake_others, look-put}
use ffmpeg_streaming.Server.Connections.Feeds.{sleeps, wake_others-wakes}
use ffmpeg_streaming.Server.Receive.{again, closed}
use ffmpeg_streaming.Server.Receive.Data.{
  World, Input, http_receive_data, receive, is_over, finish, notify, complete, closes, continues,
  Progress, progress, faulty, filled, idle,
}
use ffmpeg_streaming.Server.Receive.Data.Upload.{
  IsUploading, HasSegment, receive-arrived, receive-quiet, http_receive_data-on,
  http_receive_data-over, notify-segment, finish-segment, is_over-filled, is_over-again,
  is_over-closed, notify-idle,
}

IsUploading-lasting :
    (n : ℕ) (c d : HttpContext) → lasting d ≡ lasting c → IsUploading n c → IsUploading n d
unfolding lasting
IsUploading-lasting n c d e h = record {
  at = ap (λ k. k.hls_idx) e ∙ h.at;
  plain = ap (λ k. k.tr_encoding == 1) e ∙ h.plain;
  wanted =
      ap (λ k. ltb_ℤ (pos 0) k.content_length && not (ltb_ℤ (pos k.data_count) k.content_length)) e
      ∙ h.wanted;
  roomy = subst (λ k. 1 ≤ k) (sym (ap (λ k. k.buffer_size) e)) h.roomy;
}

-- the connection as the next call finds it
IsUploading-next :
    (n : ℕ) (c c' : HttpContext) (to : State) (cs : List HttpContext)
    → c'.address ≡ c.address
    → IsUploading n c
    → IsUploading n c'
    → IsUploading n (look c (wake_others c' to (put c' cs)))
IsUploading-next n c c' to cs a h h' =
    IsUploading-lasting n (look c (put c' cs)) (look c (wake_others c' to (put c' cs)))
      (look-wake_others c c' to (put c' cs))
      (elim (look-put c c' cs a) [
        | inl e ↦ subst (IsUploading n) (sym e) h
        | inr e ↦ subst (IsUploading n) (sym e) h'
      ])

-- what a call leaves for the next: the segment, and the connection in the list
unfoldable pub Ready : ℕ → HttpContext → World → Type 0
Ready n c w = HasSegment n w.table × IsUploading n (look c w.connections)

List-cases : (xs : List ℕ) → (xs ≡ []) ⊎ ((b : ℕ) × (bs : List ℕ) × (xs ≡ b ∷ bs))
List-cases [] = inl refl
List-cases (x ∷ xs) = inr (x, xs, refl)

write-stored :
    (n : ℕ) (t : Table) (c : HttpContext) (bs : List ℕ)
    → c.hls_idx ≡ pos n
    → HasSegment n t
    → 1 ≤ length bs
    → length (contents (segment t n)) + length bs + 4096 < 2 ^ 31
    → (t' : Table) × (write true t c bs
        ≡ some (pos 0, t', record c { hls_wpos = c.hls_wpos + length bs }))
      × (contents (segment t' n) ≡ contents (segment t n) ++ bs)
      × HasSegment n t'
      × (0 < (segment t' n).csize)
write-stored n t c bs e h l few = elim (append_lem true (segment t n) h.block bs h.valid) [
  | inl (x, y, z) ↦ absurd (omega (arith, z, few, length-contents (segment t n) h.block h.valid))
  | inr (inl (x, f)) ↦ absurd (ground (arith, f))
  | inr (inr (s', a, k)) ↦
      let at_n : segment (record t { segments = set t.segments n s' }) n ≡ s' =
        get_or-set_self t.segments n s' no_segment h.in_table in
      (
        record t { segments = set t.segments n s' },
        write_appended t c n true bs s' (ap pos_part e) a,
        ap contents at_n ∙ k.bytes,
        record {
          block = k.block;
          valid = rw at_n k.valid;
          in_table = omega (arith, length-set t.segments n s', h.in_table);
        },
        rw at_n (omega (arith, k.size, l)),
      )
]

-- what follows a write
abbrev written : Option (ℤ × Table × HttpContext) → List ℕ → Progress
written x rest = elim x [ none ↦ faulty | some (r, t', c2) ↦ progress filled none c2 t' rest ]

-- A call that meets bytes: the first of them, as many as the buffer holds, are stored.
pub stored-arrived :
    (n : ℕ) (i : Input) (c : HttpContext) (w : World)
    → IsUploading n c
    → HasSegment n w.table
    → i.allocated ≡ true
    → length (contents (segment w.table n)) + length i.socket + 4096 < 2 ^ 31
    → 1 ≤ length i.socket
    → (w' : World) × (http_receive_data i c w ≡ continues w' (drop c.buffer_size i.socket))
      × (contents (segment w'.table n)
          ≡ contents (segment w.table n) ++ take c.buffer_size i.socket)
      × Ready n c w'
      × All (λ d. sleeps c d ≡ false) w'.connections
unfolding Ready joins is_waiting
stored-arrived n i c w h s ok few l = elim (List-cases (take c.buffer_size i.socket)) [
  | inl e ↦ absurd (omega (arith, ap length e, length-take c.buffer_size i.socket, h.roomy, l))
  | inr (b, bs, e) ↦
      let c' : HttpContext = record c { hls_wpos = c.hls_wpos + length (b ∷ bs) } in
      let (t', wr, k, s', some_bytes) =
        write-stored n w.table c (b ∷ bs) h.at s (omega arith)
          (omega (arith, few, ap length e, length-take c.buffer_size i.socket)) in
      let cs = put c' w.connections in
      let rest = drop c.buffer_size i.socket in
      let h' : IsUploading n c' = record {
        at = h.at;
        plain = h.plain;
        wanted = h.wanted;
        roomy = h.roomy;
      } in
      let stored : receive i w.table c ≡ progress filled none c' t' rest =
        receive-arrived n i w.table c b bs h e
        ∙ ap (λ ok. written (write ok w.table c (b ∷ bs)) rest) ok
        ∙ ap (λ r. written r rest) wr in
      (
        record { table = t'; connections = wake_others c' send_data cs },
        http_receive_data-on i c w filled c' t' rest stored (is_over-filled n c' h')
            ∙ notify-segment n c' t' cs rest h.at some_bytes,
        k ∙ ap (λ z. contents (segment w.table n) ++ z) (sym e),
        (s', IsUploading-next n c c' send_data w.connections refl h h'),
        wake_others-wakes c' send_data cs refl,
      )
]

-- A call that meets no bytes yet.
pub stored-idle :
    (n : ℕ) (i : Input) (c : HttpContext) (w : World)
    → IsUploading n c
    → HasSegment n w.table
    → i.quiet ≡ again
    → i.socket ≡ []
    → (w' : World) × (http_receive_data i c w ≡ continues w' [])
      × (w'.table ≡ w.table)
      × Ready n c w'
unfolding Ready
stored-idle n i c w h s q e =
    let cs = put c w.connections in
    let none_taken : take c.buffer_size i.socket ≡ [] =
      ap (take c.buffer_size) e ∙ take-nil c.buffer_size in
    let call : http_receive_data i c w ≡ notify none c w.table cs [] =
      http_receive_data-on i c w (idle i.quiet) c w.table i.socket
        (receive-quiet n i w.table c h none_taken)
        (ap (λ q. is_over (idle q) c) q ∙ is_over-again n c h)
      ∙ ap (notify none c w.table cs) e in
    elim (notify-idle n c w.table cs [] h.at) [
      | inl k ↦ (
        record { table = w.table; connections = cs },
        call ∙ k,
        refl,
        (
          s,
          elim (look-put c c w.connections refl) [
            | inl p ↦ subst (IsUploading n) (sym p) h
            | inr p ↦ subst (IsUploading n) (sym p) h
          ],
        ),
      )
      | inr k ↦ (
        record { table = w.table; connections = wake_others c send_data cs },
        call ∙ k,
        refl,
        (s, IsUploading-next n c c send_data w.connections refl h h),
      )
    ]

-- The call that meets the end: the segment is complete, and no connection is left waiting for it.
pub stored-closed :
    (n : ℕ) (i : Input) (c : HttpContext) (w : World)
    → IsUploading n c
    → HasSegment n w.table
    → i.quiet ≡ closed
    → i.socket ≡ []
    → (w' : World) × (http_receive_data i c w ≡ closes w' [])
      × (contents (segment w'.table n) ≡ contents (segment w.table n))
      × ((segment w'.table n).flag ≡ 2)
      × All (λ d. sleeps c d ≡ false) w'.connections
unfolding complete is_waiting
stored-closed n i c w h s q e =
    let cs = put c w.connections in
    let done : Hls = record (segment w.table n) { flag = 2 } in
    let none_taken : take c.buffer_size i.socket ≡ [] =
      ap (take c.buffer_size) e ∙ take-nil c.buffer_size in
    let at_n : segment (complete w.table n) n ≡ done =
      get_or-set_self w.table.segments n done no_segment s.in_table in
    (
      record { table = complete w.table n; connections = wake_others c send_data_trailer cs },
      http_receive_data-over i c w (idle i.quiet) c w.table i.socket
            (receive-quiet n i w.table c h none_taken)
            (ap (λ q. is_over (idle q) c) q ∙ is_over-closed c)
          ∙ ap (finish none c w.table cs) e
          ∙ finish-segment n c w.table cs [] h.at,
      ap contents at_n,
      ap (λ s. s.flag) at_n,
      wake_others-wakes c send_data_trailer cs refl,
    )
