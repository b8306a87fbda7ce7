-- ===== src/Control/Sending.antt =====
-- ff_ctl_send and ctl_msg_recv over valid buffers, and the way of messages from one to the other.
use ffmpeg_streaming.Base.{
  ℕ, ◌+◌, ◌≤◌, ◌≡◌, refl, sym, ap, ◌∙◌, List, [], ◌∷◌, ◌++◌, map, Option, some, ◌>>=◌, arith,
  length, length-append, append_assoc, All, append-nil,
}
use ffmpeg_streaming.Base.Int.{ℤ, pos}
use ffmpeg_streaming.StreamBuffer.{StreamBuffer}
use ffmpeg_streaming.StreamBuffer.Contents.{IsValid, contents}
use ffmpeg_streaming.StreamBuffer.Calls.{Holds, write-room}
use ffmpeg_streaming.Control.{no_msg, send, send_frame, msg_recv, recv, frame_header}
use ffmpeg_streaming.Control.Frame.{Message, IsMessage, frame, delivered}
use ffmpeg_streaming.Control.Delivery.{frames, recv-frames}

-- `ff_ctl_send` of a message
abbrev pub send_message : StreamBuffer → Message → Option (ℤ × Option StreamBuffer)
send_message s m =
    send (some s) (pos m.cmd) (some m.name) (pos (length m.name)) (some m.payload)
      (pos (length m.payload))

pub send-send_frame :
    (s : StreamBuffer) (m : Message)
    → IsMessage m
    → send_message s m
      ≡ send_frame s m.cmd m.name (length m.name) (some m.payload) (length m.payload)
unfolding send
send-send_frame s m v = ground (arith, v.cmd_pos, v.cmd_byte, v.name_pos, v.payload_pos)

-- Where the whole message fits, `ff_ctl_send` returns 0 and appends exactly its frame.
pub send-frame :
    (s : StreamBuffer) (m : Message)
    → IsValid s
    → IsMessage m
    → length (contents s) + length (frame m) ≤ s.msize
    → (s' : StreamBuffer) × (send_message s m ≡ some (pos 0, some s'))
      × Holds s (contents s ++ frame m) s'
unfolding send_frame
send-frame s m v w h =
    let size : length (frame m) ≡ 12 + length m.name + length m.payload =
      omega (arith, length-append m.name m.payload) in
    let head : List ℕ = frame_header m.cmd (length m.name) (length m.payload) in
    let (s1, e1, (v1, m1, q1)) = write-room s head v (omega (arith, size)) in
    let l1 : length (contents s1) ≡ length (contents s) + 12 =
      ap length q1 ∙ length-append (contents s) head in
    let (s2, e2, (v2, m2, q2)) = write-room s1 m.name v1 (omega (arith, size, l1, m1)) in
    let l2 : length (contents s2) ≡ length (contents s1) + length m.name =
      ap length q2 ∙ length-append (contents s1) m.name in
    let (s3, e3, (v3, m3, q3)) = write-room s2 m.payload v2 (omega (arith, size, l1, l2, m1, m2)) in
    (
      s3,
      send-send_frame s m w ∙ rw (e1, e2, e3),
      (
        v3,
        m3 ∙ m2 ∙ m1,
        q3
            ∙ ap (λ k. k ++ m.payload) q2
            ∙ ap (λ k. (k ++ m.name) ++ m.payload) q1
            ∙ append_assoc (contents s ++ head) m.name m.payload
            ∙ append_assoc (contents s) head (m.name ++ m.payload),
      ),
    )

-- `ff_ctl_send` of several messages
pub send_all : StreamBuffer → List Message → Option StreamBuffer
send_all s [] = some s
send_all s (m ∷ ms) = do (r, sb) ← send_message s m; s' ← sb; send_all s' ms

send_all-frames :
    (s : StreamBuffer) (ms : List Message)
    → IsValid s
    → All IsMessage ms
    → length (contents s) + length (frames ms) ≤ s.msize
    → (s' : StreamBuffer) × (send_all s ms ≡ some s') × Holds s (contents s ++ frames ms) s'
unfolding send_all
send_all-frames s [] v w h = (s, refl, (v, refl, sym (append-nil (contents s))))
send_all-frames s (m ∷ ms) v w h =
    let sizes : length (frames (m ∷ ms)) ≡ length (frame m) + length (frames ms) =
      length-append (frame m) (frames ms) in
    let (s1, e1, (v1, m1, q1)) = send-frame s m v w.0 (omega (arith, sizes)) in
    let l1 : length (contents s1) ≡ length (contents s) + length (frame m) =
      ap length q1 ∙ length-append (contents s) (frame m) in
    let (s2, e2, (v2, m2, q2)) = send_all-frames s1 ms v1 w.1 (omega (arith, sizes, l1, m1)) in
    (
      s2,
      rw (e1, e2),
      (
        v2,
        m2 ∙ m1,
        q2 ∙ ap (λ k. k ++ frames ms) q1 ∙ append_assoc (contents s) (frame m) (frames ms),
      ),
    )

-- the bytes of the blocks that a socket hands over, one block after another
abbrev pub join : List (List ℕ) → List ℕ
join [] = []
join (bs ∷ rest) = bs ++ join rest

-- Blocks for which there is room reach the buffer unchanged and in order, however they are cut.
pub msg_recv-join :
    (s : StreamBuffer) (blocks : List (List ℕ))
    → IsValid s
    → length (contents s) + length (join blocks) ≤ s.msize
    → (s' : StreamBuffer) × (msg_recv (some s) blocks ≡ some (some s'))
      × Holds s (contents s ++ join blocks) s'
unfolding msg_recv
msg_recv-join s [] v h = (s, refl, (v, refl, sym (append-nil (contents s))))
msg_recv-join s (bs ∷ rest) v h =
    let sizes : length (bs ++ join rest) ≡ length bs + length (join rest) =
      length-append bs (join rest) in
    let (s1, e1, (v1, m1, q1)) = write-room s bs v (omega (arith, sizes)) in
    let l1 : length (contents s1) ≡ length (contents s) + length bs =
      ap length q1 ∙ length-append (contents s) bs in
    let (s2, e2, (v2, m2, q2)) = msg_recv-join s1 rest v1 (omega (arith, sizes, l1, m1)) in
    (
      s2,
      rw (e1, e2),
      (v2, m2 ∙ m1, q2 ∙ ap (λ k. k ++ join rest) q1 ∙ append_assoc (contents s) bs (join rest)),
    )

-- Messages sent into an empty valid buffer that has room for them are in it as their frames, in
-- order; and blocks that are those bytes, however they are cut, received into another empty valid
-- buffer with room for them, make `ff_ctl_recv` deliver exactly those messages, in order, and read
-- the buffer empty.
pub channel_roundtrip :
    (out inp : StreamBuffer) (ms : List Message) (blocks : List (List ℕ)) (fuel : ℕ)
    → IsValid out
    → IsValid inp
    → All IsMessage ms
    → contents out ≡ []
    → contents inp ≡ []
    → length (frames ms) ≤ out.msize
    → length (frames ms) ≤ inp.msize
    → join blocks ≡ frames ms
    → length ms ≤ fuel
    → ((out' : StreamBuffer) × (send_all out ms ≡ some out') × (contents out' ≡ join blocks))
      × ((inp' : StreamBuffer) × (msg_recv (some inp) blocks ≡ some (some inp'))
          × (recv fuel (some inp') no_msg
              ≡ some (pos 0, some (record inp' { rpos = inp'.wpos }), no_msg, map delivered ms)))
channel_roundtrip out inp ms blocks fuel v w all eo ei ho hi b f =
    let (out', e, (v', m, q)) = send_all-frames out ms v all (omega (arith, ap length eo)) in
    let (inp', e2, (v2, m2, q2)) =
      msg_recv-join inp blocks w (omega (arith, ap length ei, ap length b)) in
    (
      (out', e, q ∙ ap (λ k. k ++ frames ms) eo ∙ sym b),
      (inp', e2, recv-frames ms inp' fuel all v2 (q2 ∙ ap (λ k. k ++ join blocks) ei ∙ b) f),
    )
