-- ===== src/Server/Receive/Data/Whole.antt =====
-- The whole upload of an HLS segment, whatever the pieces it arrives in.
use ffmpeg_streaming.Base.{
  ℕ, zero, suc, ◌≡◌, ◌≤◌, ◌<◌, refl, sym, ap, ◌∙◌, ◌⊎◌, inl, inr, List, [], ◌∷◌, ◌++◌, true, false,
  ◌&&◌, length, take, drop, join, arith, All, append_assoc, append-nil, take-append-drop,
  length-drop, length-append, length-take, ◌+◌, ◌^◌,
}
use ffmpeg_streaming.Base.Int.{pos}
use ffmpeg_streaming.Server.{HttpContext}
use ffmpeg_streaming.Server.Segment.{contents}
use ffmpeg_streaming.Server.Segments.{segment}
use ffmpeg_streaming.Server.Connections.{look, is_waiting, same_segment}
use ffmpeg_streaming.Server.Connections.Feeds.{sleeps}
use ffmpeg_streaming.Server.Receive.{again, closed}
use ffmpeg_streaming.Server.Receive.Data.{
  World, Input, http_receive_data, Return, closes, continues, fault,
}
use ffmpeg_streaming.Server.Receive.Data.Upload.{IsUploading, HasSegment}
use ffmpeg_streaming.Server.Receive.Data.Stored.{Ready, stored-arrived, stored-idle, stored-closed}

-- at most so many calls, until one does not return 0
calls : ℕ → Input → HttpContext → World → Return
calls zero i c w = continues w i.socket
calls (suc fuel) i c w = elim (http_receive_data i c w) [
  | continues w' rest ↦ calls fuel (record i { socket = rest }) (look c w'.connections) w'
  | closes w' rest ↦ closes w' rest
  | fault ↦ fault
]

-- The pieces arrive one by one, with a call after each; then the other end closes, and the server
-- calls until it is done.
pub upload : Input → List (List ℕ) → HttpContext → World → Return
unfolding calls
upload i [] c w = calls (suc (length i.socket)) (record i { quiet = closed }) c w
upload i (bs ∷ bss) c w = elim (http_receive_data (record i { socket = i.socket ++ bs }) c w) [
  | continues w' rest ↦ upload (record i { socket = rest }) bss (look c w'.connections) w'
  | closes w' rest ↦ closes w' rest
  | fault ↦ fault
]

-- no connection waits for the segment `n`
abbrev pub Served : ℕ → List HttpContext → Type 0
Served n cs = All (λ d. (is_waiting d.state && same_segment (pos n) d.hls_idx) ≡ false) cs

-- a segment that is complete and holds `bs`
abbrev pub Complete : ℕ → List ℕ → World → Type 0
Complete n bs w =
    (contents (segment w.table n) ≡ bs) × ((segment w.table n).flag ≡ 2) × Served n w.connections

Served-sleeps :
    (n : ℕ) (c : HttpContext) (cs : List HttpContext)
    → c.hls_idx ≡ pos n
    → All (λ d. sleeps c d ≡ false) cs
    → Served n cs
Served-sleeps n c [] e h = tt
Served-sleeps n c (d ∷ cs) e (h, hs) =
    (ground (arith, h, ap (λ k. same_segment k d.hls_idx) e), Served-sleeps n c cs e hs)

calls-continues :
    (fuel : ℕ) (i : Input) (c : HttpContext) (w w' : World) (rest : List ℕ)
    → http_receive_data i c w ≡ continues w' rest
    → calls (suc fuel) i c w ≡ calls fuel (record i { socket = rest }) (look c w'.connections) w'
unfolding calls
calls-continues fuel i c w w' rest e = rw (e, calls) refl

calls-closes :
    (fuel : ℕ) (i : Input) (c : HttpContext) (w w' : World) (rest : List ℕ)
    → http_receive_data i c w ≡ closes w' rest
    → calls (suc fuel) i c w ≡ closes w' rest
unfolding calls
calls-closes fuel i c w w' rest e = rw (e, calls) refl

List-cases : (xs : List ℕ) → (xs ≡ []) ⊎ (1 ≤ length xs)
List-cases [] = inl refl
List-cases (x ∷ xs) = inr (omega arith)

calls-stores :
    (fuel n : ℕ) (i : Input) (c : HttpContext) (w : World)
    → IsUploading n c
    → HasSegment n w.table
    → i.allocated ≡ true
    → i.quiet ≡ closed
    → length (contents (segment w.table n)) + length i.socket + 4096 < 2 ^ 31
    → length i.socket < fuel
    → (w' : World) × (calls fuel i c w ≡ closes w' [])
      × Complete n (contents (segment w.table n) ++ i.socket) w'
unfolding Ready
calls-stores zero n i c w h s ok q few l = absurd (omega arith)
calls-stores (suc fuel) n i c w h s ok q few l = elim (List-cases i.socket) [
  | inl e ↦
      let (w', k, b, f, z) = stored-closed n i c w h s q e in
      (
        w',
        calls-closes fuel i c w w' [] k,
        (
          b
              ∙ sym (append-nil (contents (segment w.table n)))
              ∙ ap (λ x. contents (segment w.table n) ++ x) (sym e),
          f,
          Served-sleeps n c w'.connections h.at z,
        ),
      )
  | inr m ↦
      let (w1, k, b, (s1, h1), z) = stored-arrived n i c w h s ok few m in
      let size = c.buffer_size in
      let (w', k2, (b2, f, v)) =
        calls-stores fuel n (record i { socket = drop size i.socket }) (look c w1.connections) w1 h1
          s1 ok q
          (omega (
            arith,
            few,
            ap length b,
            length-append (contents (segment w.table n)) (take size i.socket),
            length-take size i.socket,
            length-drop size i.socket,
          ))
          (omega (arith, length-drop size i.socket, h.roomy)) in
      (
        w',
        calls-continues fuel i c w w1 (drop size i.socket) k ∙ k2,
        (
          b2
              ∙ ap (λ x. x ++ drop size i.socket) b
              ∙ append_assoc (contents (segment w.table n)) (take size i.socket)
                  (drop size i.socket)
              ∙ ap (λ x. contents (segment w.table n) ++ x) (take-append-drop size i.socket),
          f,
          v,
        ),
      )
]

upload-continues :
    (i : Input) (bs : List ℕ) (bss : List (List ℕ)) (c : HttpContext) (w w' : World) (rest : List ℕ)
    → http_receive_data (record i { socket = i.socket ++ bs }) c w ≡ continues w' rest
    → upload i (bs ∷ bss) c w ≡ upload (record i { socket = rest }) bss (look c w'.connections) w'
unfolding upload
upload-continues i bs bss c w w' rest e = rw (e, upload) refl

-- one call between two pieces
stored-call :
    (n : ℕ) (i : Input) (c : HttpContext) (w : World)
    → IsUploading n c
    → HasSegment n w.table
    → i.allocated ≡ true
    → i.quiet ≡ again
    → length (contents (segment w.table n)) + length i.socket + 4096 < 2 ^ 31
    → (w' : World) × (rest : List ℕ) × (http_receive_data i c w ≡ continues w' rest)
      × (contents (segment w'.table n) ++ rest ≡ contents (segment w.table n) ++ i.socket)
      × Ready n c w'
stored-call n i c w h s ok q few = elim (List-cases i.socket) [
  | inl e ↦
      let (w', k, same, r) = stored-idle n i c w h s q e in
      (
        w',
        [],
        k,
        ap (λ t. contents (segment t n) ++ []) same
            ∙ ap (λ x. contents (segment w.table n) ++ x) (sym e),
        r,
      )
  | inr m ↦
      let (w', k, b, r, z) = stored-arrived n i c w h s ok few m in
      (
        w',
        drop c.buffer_size i.socket,
        k,
        ap (λ x. x ++ drop c.buffer_size i.socket) b
            ∙ append_assoc (contents (segment w.table n)) (take c.buffer_size i.socket)
                (drop c.buffer_size i.socket)
            ∙ ap (λ x. contents (segment w.table n) ++ x) (take-append-drop c.buffer_size i.socket),
        r,
      )
]

-- An encoder uploads a segment in any pieces, not chunked and without a content length that ends it
-- sooner, and then closes. If the segment has its memory, the connection a buffer, each allocation
-- succeeds, and all the bytes that the segment comes to hold are fewer than 2^31 less 4096, the server ends up closing the connection, the segment holds what it held at first and
-- then all the bytes, in order, it is marked as complete, and no connection is left waiting for it.
pub upload-stores :
    (n : ℕ) (i : Input) (bss : List (List ℕ)) (c : HttpContext) (w : World)
    → IsUploading n c
    → HasSegment n w.table
    → i.allocated ≡ true
    → i.quiet ≡ again
    → length (contents (segment w.table n)) + length (i.socket ++ join bss) + 4096 < 2 ^ 31
    → (w' : World) × (upload i bss c w ≡ closes w' [])
      × Complete n (contents (segment w.table n) ++ (i.socket ++ join bss)) w'
unfolding upload Ready
upload-stores n i [] c w h s ok q few =
    let (w', k, (b, f, v)) =
      calls-stores (suc (length i.socket)) n (record i { quiet = closed }) c w h s ok refl
        (omega (arith, few, length-append i.socket [])) (omega arith) in
    (w', k, (b ∙ ap (λ x. contents (segment w.table n) ++ x) (sym (append-nil i.socket)), f, v))
upload-stores n i (bs ∷ bss) c w h s ok q few =
    let old : List ℕ = contents (segment w.table n) in
    let all_bytes : length (i.socket ++ join (bs ∷ bss))
        ≡ length (i.socket ++ bs) + length (join bss) =
      ap length (sym (append_assoc i.socket bs (join bss)))
      ∙ length-append (i.socket ++ bs) (join bss) in
    let (w1, rest, k, b, (s1, h1)) =
      stored-call n (record i { socket = i.socket ++ bs }) c w h s ok q
        (omega (arith, few, all_bytes)) in
    let kept : length (contents (segment w1.table n)) + length rest
        ≡ length old + length (i.socket ++ bs) =
      sym (length-append (contents (segment w1.table n)) rest)
      ∙ ap length b
      ∙ length-append old (i.socket ++ bs) in
    let (w', k2, (b2, f, v)) =
      upload-stores n (record i { socket = rest }) bss (look c w1.connections) w1 h1 s1 ok q
        (omega (arith, few, all_bytes, kept, length-append rest (join bss))) in
    (
      w',
      upload-continues i bs bss c w w1 rest k ∙ k2,
      (
        b2
            ∙ sym (append_assoc (contents (segment w1.table n)) rest (join bss))
            ∙ ap (λ x. x ++ join bss) b
            ∙ append_assoc (contents (segment w.table n)) (i.socket ++ bs) (join bss)
            ∙ ap (λ x. contents (segment w.table n) ++ x) (append_assoc i.socket bs (join bss)),
        f,
        v,
      ),
    )
