-- ===== src/Control/Faults.antt =====
-- Where the control channel goes wrong: messages that arrive in parts, and a full output buffer.
use ffmpeg_streaming.Base.{
  ℕ, zero, suc, ◌+◌, ◌≤◌, ◌<◌, ◌≡◌, refl, ap, ◌∙◌, List, [], ◌++◌, none, some, arith, length, drop,
  length-append, append_assoc,
}
use ffmpeg_streaming.Base.Int.{pos}
use ffmpeg_streaming.StreamBuffer.{StreamBuffer}
use ffmpeg_streaming.StreamBuffer.Contents.{IsValid, contents, length-contents}
use ffmpeg_streaming.StreamBuffer.Calls.{Holds, write-room, write-no_room}
use ffmpeg_streaming.Control.{
  CtrlMsg, no_msg, again, at_data, recv_round, recv_loop, recv, frame_header, send_frame,
}
use ffmpeg_streaming.Control.Frame.{Message, IsMessage, named, recv_round-at_data}
use ffmpeg_streaming.Control.Delivery.{drop-contents}
use ffmpeg_streaming.Control.Sending.{send_message, send-send_frame}

-- A round that changes neither pointer nor message is repeated for ever.
loop_stuck :
    (buf : List ℕ) (end ptr : ℕ) (m : CtrlMsg)
    → ptr + 4 < end
    → recv_round buf end ptr m ≡ again ptr m []
    → (fuel : ℕ) → recv_loop buf end fuel ptr m ≡ none
unfolding recv_loop
loop_stuck buf end ptr m h e zero = ground arith
loop_stuck buf end ptr m h e (suc fuel) = ground (arith, e, loop_stuck buf end ptr m h e fuel)

payload_short :
    (buf : List ℕ) (end ptr : ℕ) (m : Message)
    → end < ptr + length m.payload
    → at_data buf end ptr (named m) ≡ again ptr (named m) []
unfolding at_data
payload_short buf end ptr m h = ground arith

named-at_data :
    (buf : List ℕ) (end ptr : ℕ) (m : Message)
    → recv_round buf end ptr (named m) ≡ at_data buf end ptr (named m)
unfolding recv_round at_data
named-at_data buf end ptr m = refl

-- With no message begun, and a valid buffer that holds a message less the end of its payload, of
-- which at least five bytes are there, `ff_ctl_recv` never returns: no number of rounds is enough.
pub recv_hangs :
    (s : StreamBuffer) (m : Message) (part : List ℕ) (fuel : ℕ)
    → IsValid s
    → IsMessage m
    → contents s ≡ frame_header m.cmd (length m.name) (length m.payload) ++ (m.name ++ part)
    → 5 ≤ length part
    → length part < length m.payload
    → recv fuel (some s) no_msg ≡ none
unfolding recv recv_loop
recv_hangs s m part fuel v w e h k =
    let head : List ℕ = frame_header m.cmd (length m.name) (length m.payload) in
    let behind : List ℕ = drop s.wpos s.buf in
    let front : drop s.rpos s.buf ≡ head ++ (m.name ++ (part ++ behind)) =
      drop-contents s v
      ∙ ap (λ q. q ++ behind) e
      ∙ ap (λ q. head ++ q) (append_assoc m.name part behind) in
    let size : s.wpos ≡ s.rpos + 12 + length m.name + length part =
      omega (arith, v.order, length-contents s v, ap length e, length-append m.name part) in
    let ptr : ℕ = s.rpos + 12 + length m.name in
    let short : at_data s.buf s.wpos ptr (named m) ≡ again ptr (named m) [] =
      payload_short s.buf s.wpos ptr m (omega (arith, size)) in
    let first : recv_round s.buf s.wpos s.rpos no_msg ≡ again ptr (named m) [] =
      recv_round-at_data s.buf s.wpos m w (part ++ behind) s.rpos front (omega (arith, size))
      ∙ short in
    let stuck : (f : ℕ) → recv_loop s.buf s.wpos f ptr (named m) ≡ none =
      loop_stuck s.buf s.wpos ptr (named m) (omega (arith, size))
        (named-at_data s.buf s.wpos ptr m ∙ short) in
    rw (at_rest s.buf s.wpos ptr s.rpos (named m) first stuck (omega (arith, size)) fuel)
  where
    at_rest :
        (buf : List ℕ) (end ptr p : ℕ) (m' : CtrlMsg)
        → recv_round buf end p no_msg ≡ again ptr m' []
        → ((f : ℕ) → recv_loop buf end f ptr m' ≡ none)
        → p + 4 < end
        → (f : ℕ) → recv_loop buf end f p no_msg ≡ none
    at_rest buf end ptr p m' e stuck h zero = ground arith
    at_rest buf end ptr p m' e stuck h (suc f) = ground (arith, e, stuck f)

-- Where the sizes and the name fit and the payload does not, `ff_ctl_send` returns 0 all the same,
-- and leaves the message in the buffer without its payload.
pub send_tears :
    (s : StreamBuffer) (m : Message)
    → IsValid s
    → IsMessage m
    → length (contents s) + 12 + length m.name ≤ s.msize
    → s.msize < length (contents s) + 12 + length m.name + length m.payload
    → (s' : StreamBuffer) × (send_message s m ≡ some (pos 0, some s'))
      × Holds s (contents s ++ (frame_header m.cmd (length m.name) (length m.payload) ++ m.name)) s'
unfolding send_frame
send_tears s m v w h k =
    let head : List ℕ = frame_header m.cmd (length m.name) (length m.payload) in
    let (s1, e1, (v1, m1, q1)) = write-room s head v (omega arith) in
    let l1 : length (contents s1) ≡ length (contents s) + 12 =
      ap length q1 ∙ length-append (contents s) head in
    let (s2, e2, (v2, m2, q2)) = write-room s1 m.name v1 (omega (arith, l1, m1)) in
    let l2 : length (contents s2) ≡ length (contents s1) + length m.name =
      ap length q2 ∙ length-append (contents s1) m.name in
    let (s3, e3, (v3, m3, q3)) = write-no_room s2 m.payload v2 (omega (arith, l1, l2, m1, m2)) in
    (
      s3,
      send-send_frame s m w ∙ rw (e1, e2, e3),
      (
        v3,
        m3 ∙ m2 ∙ m1,
        q3 ∙ q2 ∙ ap (λ q. q ++ m.name) q1 ∙ append_assoc (contents s) head m.name,
      ),
    )
