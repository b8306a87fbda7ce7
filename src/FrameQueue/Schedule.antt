-- ===== src/FrameQueue/Schedule.antt =====
-- The decoder and the display at work on one frame queue, in any order of their calls.
use ffmpeg_streaming.Base.{
  ◌≡◌, refl, sym, ap, ◌∙◌, ◌⊎◌, inl, inr, List, [], ◌∷◌, ◌++◌, append_assoc, append-nil, get_or, ℕ,
}
use ffmpeg_streaming.FrameQueue.{
  FrameQueue, blank, put, next, peek_writable, peek_readable, Peek, waits, aborted, at, Event,
  decoded, refresh, run,
}
use ffmpeg_streaming.FrameQueue.Ring.{IsValid, put-IsValid, next-IsValid}
use ffmpeg_streaming.FrameQueue.Order.{remaining, remaining-put, remaining-next}

Peek-cases : (p : Peek) → ((i : ℕ) × (p ≡ at i)) ⊎ ((p ≡ waits) ⊎ (p ≡ aborted))
Peek-cases (at i) = inl (i, refl)
Peek-cases waits = inr (inl refl)
Peek-cases aborted = inr (inr refl)

-- On a valid queue: the frames that the display passes, and after them those still to be shown, are the frames that
-- were to be shown at first and after them those put in: none is lost, doubled or out of order.
-- The queue stays valid.
pub run-fifo :
    (f : FrameQueue) (es : List Event)
    → IsValid f
    → let (g, given, shown) = run f es in (remaining f ++ given ≡ shown ++ remaining g) × IsValid g
unfolding run
run-fifo f [] v = (append-nil (remaining f), v)
run-fifo f (decoded vp ∷ es) v = elim (Peek-cases (peek_writable f)) [
  | inl (i, e) ↦
      let (fifo, w) = run-fifo (put f vp) es (put-IsValid vp v e) in
      rw (e, run)
        (
          sym (append_assoc (remaining f) (vp ∷ []) (run (put f vp) es).1)
              ∙ ap (λ k. k ++ (run (put f vp) es).1) (sym (remaining-put vp v e))
              ∙ fifo,
          w,
        )
  | inr (inl e) ↦ rw (e, run) (run-fifo f es v)
  | inr (inr e) ↦ rw (e, run) (run-fifo f es v)
]
run-fifo f (refresh ∷ es) v = elim (Peek-cases (peek_readable f)) [
  | inl (i, e) ↦
      let (fifo, w) = run-fifo (next f) es (next-IsValid v e) in
      rw (e, run)
        (
          ap (λ k. k ++ (run (next f) es).1) (remaining-next v e)
              ∙ ap (λ k. get_or f.queue i blank ∷ k) fifo,
          w,
        )
  | inr (inl e) ↦ rw (e, run) (run-fifo f es v)
  | inr (inr e) ↦ rw (e, run) (run-fifo f es v)
]
