-- ===== src/Player/Refresh/Rounds.antt =====
-- The display does not look at pictures for ever.
use mathlib.Core.Path.{subst}
use ffmpeg_streaming.Base.{
  ℕ, zero, suc, ◌+◌, ◌≡◌, ◌≤◌, ◌<◌, refl, sym, ap, ◌∙◌, List, [], ◌==◌, ◌&&◌, not, Bool, true,
  false, arith, if◌then◌else◌, Bool-cases, inl, inr, Option, some,
}
use ffmpeg_streaming.Base.Int.{pos, ltb_ℤ}
use ffmpeg_streaming.FrameQueue.{FrameQueue, peek, next, prev, nb_remaining}
use ffmpeg_streaming.Player.{Double, Floating, min_double}
use ffmpeg_streaming.Player.State.{
  VideoState, update_video_pts, check_external_clock_speed, set_speed, is_external,
  get_master_sync_type,
}
use ffmpeg_streaming.Player.Refresh.{
  frame_at, is_empty, is_late, drop_subtitles, Turn, ends, retries, returns, displays, endless,
  displays_after, is_over, restarted, delay_of, current_turn, updated, due_turn, timed_turn, turn,
  Refreshed, refreshed, spent, display, refresh_loop, skip, show_sound, show_video_frames,
  video_refresh, with_shown, Picture,
}
use ffmpeg_streaming.Player.Refresh.Shown.{updated-pictq, restarted-pictq}

-- The first queue is that of the pictures, the second that of the subtitles. A round that goes on has
-- passed the first picture, and the loop over the subtitles ends.
Passes : FrameQueue → FrameQueue → Turn → Type 0
Passes q s (ends p) = Unit {0}
Passes q s (retries p) = (p.pictq ≡ next q) × (p.subpq ≡ s)
Passes q s (returns p t) = Unit {0}
Passes q s (displays p) = Unit {0}
Passes q s endless = true ≡ false

Passes-if :
    (q s : FrameQueue) (b : Bool) (x y : Turn)
    → Passes q s x
    → Passes q s y
    → Passes q s (if b then x else y)
Passes-if q s true x y h k = h
Passes-if q s false x y h k = k

next-smaller :
    (q : FrameQueue)
    → is_empty q ≡ false
    → q.rindex_shown ≤ q.size
    → ((next q).rindex_shown ≤ (next q).size)
      × ((next q).size + 1 + q.rindex_shown ≤ q.size + (next q).rindex_shown)
unfolding next is_empty nb_remaining
next-smaller q h n = ground (arith, h)

Passes-after :
    (q s : FrameQueue) (b : Bool) (x y : Option VideoState)
    → Passes q s (displays_after x)
    → Passes q s (displays_after y)
    → Passes q s (displays_after (if b then x else y))
Passes-after q s true x y h k = h
Passes-after q s false x y h k = k

left-is_empty : (q : FrameQueue) → ltb_ℤ (pos 0) (nb_remaining q) ≡ true → is_empty q ≡ false
unfolding is_empty nb_remaining
left-is_empty q h = ground (arith, h)

-- a round for each subtitle that is left, and one more, are enough
Passes-drop_subtitles :
    (fl : Floating) (fuel : ℕ) (p : VideoState) (q s : FrameQueue)
    → p.subpq.rindex_shown ≤ p.subpq.size
    → p.subpq.size < fuel + p.subpq.rindex_shown
    → Passes q s (displays_after (drop_subtitles fl fuel p))
unfolding drop_subtitles displays_after Passes
Passes-drop_subtitles fl zero p q s h n = absurd (omega arith)
Passes-drop_subtitles fl (suc fuel) p q s h n =
    elim (Bool-cases (ltb_ℤ (pos 0) (nb_remaining p.subpq))) [
      | inr e ↦ rw e tt
      | inl e ↦
          let p' : VideoState = record p { subpq = next p.subpq } in
          let (a, b) = next-smaller p.subpq (left-is_empty p.subpq e) h in
          rw e (
            Passes-after q s (is_over fl p) (drop_subtitles fl fuel p') (some p)
              (Passes-drop_subtitles fl fuel p' q s a (omega (arith, b, n))) tt)
    ]

Passes-due_turn :
    (fl : Floating) (time : Double) (redisplay : Bool) (p : VideoState) (q s : FrameQueue)
    → p.pictq ≡ q
    → p.subpq ≡ s
    → p.subpq.rindex_shown ≤ p.subpq.size
    → Passes q s (due_turn fl time redisplay p)
unfolding due_turn Passes skip displays_after
Passes-due_turn fl time redisplay p q s e f h =
    let d = drop_subtitles fl (suc p.subpq.size) p in
    Passes-if q s (is_late fl time redisplay p)
      (retries (
        skip (record p {
          frame_drops_late = if redisplay then p.frame_drops_late else p.frame_drops_late + 1;
        })))
      (displays_after (if p.subtitle_st then d else some p)) (ap next e, f)
      (Passes-after q s p.subtitle_st d (some p)
        (Passes-drop_subtitles fl (suc p.subpq.size) p q s h (omega arith)) tt)

updated-subpq :
    (fl : Floating) (time : Double) (redisplay : Bool) (p : VideoState) (delay : Double)
    → (updated fl time redisplay p delay).subpq ≡ p.subpq
unfolding updated update_video_pts
updated-subpq fl time redisplay p delay = ground arith

restarted-subpq :
    (time : Double) (redisplay : Bool) (p : VideoState)
    → (restarted time redisplay p).subpq ≡ p.subpq
unfolding restarted
restarted-subpq time redisplay p = ground arith

-- a queue that has at least the frame that it has shown
abbrev Shows : FrameQueue → Type 0
Shows q = q.rindex_shown ≤ q.size

Passes-current_turn :
    (fl : Floating) (time : Double) (redisplay : Bool) (p : VideoState) (t : Double)
    (q s : FrameQueue)
    → p.pictq ≡ q
    → p.subpq ≡ s
    → Shows s
    → Passes q s (current_turn fl time redisplay p t)
unfolding current_turn timed_turn Passes
Passes-current_turn fl time redisplay p t q s e f h =
    let delay = delay_of fl time redisplay p in
    let p' = updated fl time redisplay p delay in
    let due = fl.add p.frame_timer delay in
    let f' : p'.subpq ≡ s = updated-subpq fl time redisplay p delay ∙ f in
    Passes-if q s p.paused (displays p) (timed_turn fl time redisplay p delay t) tt (
      Passes-if q s (fl.lt time due && not redisplay)
        (returns p (min_double fl (fl.sub due time) t)) (due_turn fl time redisplay p') tt
        (Passes-due_turn fl time redisplay p' q s (updated-pictq fl time redisplay p delay ∙ e) f'
          (subst Shows (sym f') h)))

-- a round that goes on has a picture to pass
Advances : FrameQueue → FrameQueue → Turn → Type 0
Advances q s (ends p) = Unit {0}
Advances q s (retries p) = (is_empty q ≡ false) × (p.pictq ≡ next q) × (p.subpq ≡ s)
Advances q s (returns p t) = Unit {0}
Advances q s (displays p) = Unit {0}
Advances q s endless = true ≡ false

Advances-Passes : (q s : FrameQueue) (x : Turn) → is_empty q ≡ false → Passes q s x → Advances q s x
unfolding Passes Advances
Advances-Passes q s (ends p) h k = tt
Advances-Passes q s (retries p) h (k, l) = (h, k, l)
Advances-Passes q s (returns p t) h k = tt
Advances-Passes q s (displays p) h k = tt
Advances-Passes q s endless h k = k

Advances-turn :
    (fl : Floating) (time : Double) (redisplay : Bool) (p : VideoState) (t : Double)
    → Shows p.subpq
    → Advances p.pictq p.subpq (turn fl time redisplay p t)
unfolding turn Advances Passes skip
Advances-turn fl time redisplay p t h = elim (Bool-cases (is_empty p.pictq)) [
  | inl e ↦ rw e tt
  | inr e ↦
      let r = restarted time redisplay p in
      let going = current_turn fl time redisplay r t in
      let stale = not ((frame_at p.pictq (peek p.pictq)).serial == p.videoq_serial) in
      let passes : Passes p.pictq p.subpq (if stale then retries (skip p) else going) =
        Passes-if p.pictq p.subpq stale (retries (skip p)) going (refl, refl)
          (Passes-current_turn fl time redisplay r t p.pictq p.subpq
            (restarted-pictq time redisplay p) (restarted-subpq time redisplay p) h) in
      rw e (Advances-Passes p.pictq p.subpq (if stale then retries (skip p) else going) e passes)
]

unfoldable pub is_spent : Refreshed → Bool
is_spent spent = true
is_spent (refreshed p t shown) = false

is_spent-turn :
    (fl : Floating) (now : ℕ → Double) (fuel : ℕ) (t : Double) (q s : FrameQueue) (x : Turn)
    → Advances q s x
    → ((p : VideoState)
        → is_empty q ≡ false
        → p.pictq ≡ next q
        → p.subpq ≡ s
        → is_spent (refresh_loop fl now fuel false p t) ≡ false)
    → is_spent (elim x [
      | ends p ↦ refreshed (record p { force_refresh = false }) t []
      | returns p u ↦ refreshed p u []
      | retries p ↦ refresh_loop fl now fuel false p t
      | endless ↦ spent
      | displays p ↦
          refreshed
            (record (display fl (now fuel) p).0 { force_refresh = false })
            t
            (display fl (now fuel) p).1
    ])
      ≡ false
unfolding is_spent Advances
is_spent-turn fl now fuel t q s (ends p) h k = refl
is_spent-turn fl now fuel t q s (returns p u) h k = refl
is_spent-turn fl now fuel t q s (retries p) (h, e, f) k = k p h e f
is_spent-turn fl now fuel t q s (displays p) h k = refl
is_spent-turn fl now fuel t q s endless h k = h

-- more rounds than there are pictures to show are enough
refresh_loop-is_spent :
    (fl : Floating) (now : ℕ → Double) (fuel : ℕ) (redisplay : Bool) (p : VideoState) (t : Double)
    → Shows p.subpq
    → Shows p.pictq
    → p.pictq.size < fuel + p.pictq.rindex_shown
    → is_spent (refresh_loop fl now fuel redisplay p t) ≡ false
unfolding refresh_loop
refresh_loop-is_spent fl now zero redisplay p t s h n = absurd (omega arith)
refresh_loop-is_spent fl now (suc fuel) redisplay p t s h n =
    is_spent-turn fl now fuel t p.pictq p.subpq (turn fl (now fuel) redisplay p t)
      (Advances-turn fl (now fuel) redisplay p t s)
      (λ p' k e f.
        let (a, b) = next-smaller p.pictq k h in
        let size : p'.pictq.size ≡ (next p.pictq).size = ap (λ q. q.size) e in
        let shown : p'.pictq.rindex_shown ≡ (next p.pictq).rindex_shown =
          ap (λ q. q.rindex_shown) e in
        refresh_loop-is_spent fl now fuel false p' t (subst Shows (sym f) s) (subst Shows (sym e) a)
          (omega (arith, size, shown, b, n)))

is_spent-if :
    (b : Bool) (x y : Refreshed)
    → is_spent x ≡ false
    → is_spent y ≡ false
    → is_spent (if b then x else y) ≡ false
is_spent-if true x y h k = h
is_spent-if false x y h k = k

show_video_frames-is_spent :
    (fl : Floating) (now : ℕ → Double) (p : VideoState) (t : Double)
    → Shows p.subpq
    → Shows p.pictq
    → is_spent (show_video_frames fl now p t) ≡ false
unfolding show_video_frames is_spent prev
show_video_frames-is_spent fl now p t s h =
    let redisplay = p.force_refresh && not ((prev p.pictq).0 == 0) in
    let p' : VideoState = if p.force_refresh then record p { pictq = (prev p.pictq).1 } else p in
    is_spent-if p.video_st (refresh_loop fl now (suc p'.pictq.size) redisplay p' t)
      (refreshed (record p { force_refresh = false }) t [])
      (refresh_loop-is_spent fl now (suc p'.pictq.size) redisplay p' t (ground (arith, s))
        (ground (arith, h)) (omega arith))
      refl

is_spent-with_shown :
    (before : List Picture) (r : Refreshed) → is_spent (with_shown before r) ≡ is_spent r
unfolding is_spent with_shown
is_spent-with_shown before spent = refl
is_spent-with_shown before (refreshed p t shown) = refl

show_sound-pictq :
    (fl : Floating) (r time : Double) (p : VideoState) (t : Double)
    → (show_sound fl r time p t).0.pictq ≡ p.pictq
unfolding show_sound
show_sound-pictq fl r time p t = ground arith

external-pictq :
    (fl : Floating) (time : Double) (b : Bool) (p : VideoState)
    → (if b then check_external_clock_speed fl time p else p).pictq ≡ p.pictq
unfolding check_external_clock_speed set_speed
external-pictq fl time b p = ground arith

show_sound-subpq :
    (fl : Floating) (r time : Double) (p : VideoState) (t : Double)
    → (show_sound fl r time p t).0.subpq ≡ p.subpq
unfolding show_sound
show_sound-subpq fl r time p t = ground arith

external-subpq :
    (fl : Floating) (time : Double) (b : Bool) (p : VideoState)
    → (if b then check_external_clock_speed fl time p else p).subpq ≡ p.subpq
unfolding check_external_clock_speed set_speed
external-subpq fl time b p = ground arith

-- A call of video_refresh returns, where the queues of pictures and of subtitles each have at least the
-- frame that they have shown: neither its loop over the pictures nor, in any round of it, the loop over
-- the subtitles runs out of the rounds that the model gives them, one for each frame in the queue and
-- one more.
pub video_refresh-is_spent :
    (fl : Floating) (rdftspeed : Double) (now : ℕ → Double) (p : VideoState) (t : Double)
    → p.subpq.rindex_shown ≤ p.subpq.size
    → p.pictq.rindex_shown ≤ p.pictq.size
    → is_spent (video_refresh fl rdftspeed now p t) ≡ false
unfolding video_refresh
video_refresh-is_spent fl rdftspeed now p t s h =
    let time = now (suc p.pictq.size) in
    let b = (not p.paused && is_external (get_master_sync_type p)) && p.realtime in
    let p' : VideoState = if b then check_external_clock_speed fl time p else p in
    let q = (show_sound fl rdftspeed time p' t).0 in
    let kept : q.pictq ≡ p.pictq =
      show_sound-pictq fl rdftspeed time p' t ∙ external-pictq fl time b p in
    let kept' : q.subpq ≡ p.subpq =
      show_sound-subpq fl rdftspeed time p' t ∙ external-subpq fl time b p in
    is_spent-with_shown (show_sound fl rdftspeed time p' t).2
      (show_video_frames fl now q (show_sound fl rdftspeed time p' t).1)
    ∙ show_video_frames-is_spent fl now q (show_sound fl rdftspeed time p' t).1
        (subst Shows (sym kept') s) (subst Shows (sym kept) h)
