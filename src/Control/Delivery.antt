-- ===== src/Control/Delivery.antt =====
-- ff_ctl_recv over a buffer that holds whole messages.
use ffmpeg_streaming.Base.{
  ℕ, zero, suc, ◌+◌, ◌≤◌, ◌≡◌, sym, ap, ◌∙◌, List, [], ◌∷◌, ◌++◌, map, some, arith, length, take,
  drop, length-append, drop-drop, drop-length_append, append_assoc, drop-append, take-append-drop,
  length-take, All,
}
use ffmpeg_streaming.Base.Int.{pos}
use ffmpeg_streaming.StreamBuffer.{StreamBuffer}
use ffmpeg_streaming.StreamBuffer.Contents.{IsValid, contents, length-contents}
use ffmpeg_streaming.Control.{no_msg, again, recv_round, recv_loop, recv}
use ffmpeg_streaming.Control.Frame.{Message, IsMessage, frame, delivered, recv_round-frame}

-- the messages one after another
abbrev pub frames : List Message → List ℕ
frames [] = []
frames (m ∷ ms) = frame m ++ frames ms

recv_loop-frames :
    (buf : List ℕ) (end : ℕ) (ms : List Message) (fuel ptr : ℕ) (rest : List ℕ)
    → All IsMessage ms
    → length ms ≤ fuel
    → drop ptr buf ≡ frames ms ++ rest
    → end ≡ ptr + length (frames ms)
    → recv_loop buf end fuel ptr no_msg ≡ some (end, no_msg, map delivered ms)
unfolding recv_loop
recv_loop-frames buf end [] zero ptr rest v h e l = ground arith
recv_loop-frames buf end [] (suc fuel) ptr rest v h e l = ground arith
recv_loop-frames buf end (m ∷ ms) zero ptr rest v h e l = absurd (omega arith)
recv_loop-frames buf end (m ∷ ms) (suc fuel) ptr rest v h e l =
    let sizes : length (frames (m ∷ ms)) ≡ length (frame m) + length (frames ms) =
      length-append (frame m) (frames ms) in
    let here : drop ptr buf ≡ frame m ++ (frames ms ++ rest) =
      e ∙ append_assoc (frame m) (frames ms) rest in
    let next : drop (ptr + length (frame m)) buf ≡ frames ms ++ rest =
      sym (drop-drop (length (frame m)) ptr buf)
      ∙ ap (drop (length (frame m))) here
      ∙ drop-length_append (frame m) (frames ms ++ rest) in
    let tail : recv_loop buf end fuel (ptr + length (frame m)) no_msg
        ≡ some (end, no_msg, map delivered ms) =
      recv_loop-frames buf end ms fuel (ptr + length (frame m)) rest v.1 (omega arith) next
        (omega (arith, sizes)) in
    let step : recv_round buf end ptr no_msg
        ≡ again (ptr + length (frame m)) no_msg (delivered m ∷ []) =
      recv_round-frame buf end m v.0 ptr (frames ms ++ rest) here (omega (arith, sizes)) in
    ground (arith, step, tail, sizes)

-- The bytes from the read position on are the contents, and what lies behind the write position.
pub drop-contents :
    (s : StreamBuffer) → IsValid s → drop s.rpos s.buf ≡ contents s ++ drop s.wpos s.buf
drop-contents s v =
    ap (drop s.rpos) (sym (take-append-drop s.wpos s.buf))
    ∙ drop-append s.rpos (take s.wpos s.buf) (drop s.wpos s.buf)
        (omega (arith, length-take s.wpos s.buf, v.order, v.room, v.block))

-- With no message begun, and a valid buffer that holds whole messages, `ff_ctl_recv` returns 0 and
-- gives the callback exactly those messages, in order; it reads the buffer empty and leaves no
-- message begun. One round of the loop for each message is enough.
pub recv-frames :
    (ms : List Message) (s : StreamBuffer) (fuel : ℕ)
    → All IsMessage ms
    → IsValid s
    → contents s ≡ frames ms
    → length ms ≤ fuel
    → recv fuel (some s) no_msg
      ≡ some (pos 0, some (record s { rpos = s.wpos }), no_msg, map delivered ms)
unfolding recv
recv-frames ms s fuel v w e h = rw (
    recv_loop-frames s.buf s.wpos ms fuel s.rpos (drop s.wpos s.buf) v h
      (drop-contents s w ∙ ap (λ k. k ++ drop s.wpos s.buf) e)
      (omega (arith, length-contents s w, ap length e, w.order)))
