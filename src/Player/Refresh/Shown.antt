-- ===== src/Player/Refresh/Shown.antt =====
-- Which pictures are displayed, and that the display does not loop for ever.
use ffmpeg_streaming.Base.{
  ℕ, zero, suc, ◌+◌, ◌≡◌, refl, sym, ap, ◌∙◌, List, [], ◌∷◌, ◌==◌, ◌&&◌, ◌||◌, not, Bool, true,
  false, arith, All, if◌then◌else◌, Bool-cases, inl, inr, Option, some,
}
use ffmpeg_streaming.Base.Int.{pos, ltb_ℤ}
use ffmpeg_streaming.FrameQueue.{FrameQueue, Frame, peek, next, prev, nb_remaining}
use ffmpeg_streaming.Player.{Double, Floating, min_double}
use ffmpeg_streaming.Player.State.{
  VideoState, update_video_pts, check_external_clock_speed, set_speed, is_external,
  get_master_sync_type,
}
use ffmpeg_streaming.Player.Refresh.{
  Picture, frame, sound, frame_at, is_empty, is_late, drop_subtitles, Turn, ends, retries, returns,
  displays, endless, displays_after, is_over, restarted, delay_of, current_turn, updated, due_turn,
  timed_turn, turn, Refreshed, refreshed, spent, display, refresh_loop, show_sound,
  show_video_frames, video_refresh, with_shown, skip,
}

-- the frame at the front
abbrev front : FrameQueue → Frame
front f = frame_at f (peek f)

-- what one round shows is of the serial, and a round that goes on keeps the serial
is_current : ℕ → Turn → Bool
is_current serial (ends p) = true
is_current serial (retries p) = p.videoq_serial == serial
is_current serial (returns p t) = true
is_current serial (displays p) = (front p.pictq).serial == serial
is_current serial endless = true

pub updated-pictq :
    (fl : Floating) (time : Double) (redisplay : Bool) (p : VideoState) (delay : Double)
    → (updated fl time redisplay p delay).pictq ≡ p.pictq
unfolding updated update_video_pts
updated-pictq fl time redisplay p delay = ground arith

updated-serial :
    (fl : Floating) (time : Double) (redisplay : Bool) (p : VideoState) (delay : Double)
    → (updated fl time redisplay p delay).videoq_serial ≡ p.videoq_serial
unfolding updated update_video_pts
updated-serial fl time redisplay p delay = ground arith

is_current-if :
    (serial : ℕ) (b : Bool) (x y : Turn)
    → is_current serial x ≡ true
    → is_current serial y ≡ true
    → is_current serial (if b then x else y) ≡ true
is_current-if serial true x y h k = h
is_current-if serial false x y h k = k

is_current-after :
    (serial : ℕ) (b : Bool) (x y : Option VideoState)
    → is_current serial (displays_after x) ≡ true
    → is_current serial (displays_after y) ≡ true
    → is_current serial (displays_after (if b then x else y)) ≡ true
is_current-after serial true x y h k = h
is_current-after serial false x y h k = k

drop_subtitles-is_current :
    (fl : Floating) (n : ℕ) (p : VideoState) (serial : ℕ)
    → (front p.pictq).serial ≡ serial
    → is_current serial (displays_after (drop_subtitles fl n p)) ≡ true
unfolding drop_subtitles displays_after is_current
drop_subtitles-is_current fl zero p serial k = refl
drop_subtitles-is_current fl (suc n) p serial k =
    let rest = drop_subtitles fl n (record p { subpq = next p.subpq }) in
    let shown : is_current serial (displays p) ≡ true = ground (arith, k) in
    is_current-after serial (not (ltb_ℤ (pos 0) (nb_remaining p.subpq))) (some p)
      (if is_over fl p then rest else some p) shown
      (is_current-after serial (is_over fl p) rest (some p)
        (drop_subtitles-is_current fl n (record p { subpq = next p.subpq }) serial k) shown)

due_turn-is_current :
    (fl : Floating) (time : Double) (redisplay : Bool) (p : VideoState) (serial : ℕ)
    → p.videoq_serial ≡ serial
    → (front p.pictq).serial ≡ serial
    → is_current serial (due_turn fl time redisplay p) ≡ true
unfolding due_turn is_current skip displays_after
due_turn-is_current fl time redisplay p serial h k =
    let d = drop_subtitles fl (suc p.subpq.size) p in
    is_current-if serial (is_late fl time redisplay p)
      (retries (
        skip (record p {
          frame_drops_late = if redisplay then p.frame_drops_late else p.frame_drops_late + 1;
        })))
      (displays_after (if p.subtitle_st then d else some p)) (ground (arith, h))
      (is_current-after serial p.subtitle_st d (some p)
        (drop_subtitles-is_current fl (suc p.subpq.size) p serial k) (ground (arith, k)))

current_turn-is_current :
    (fl : Floating) (time : Double) (redisplay : Bool) (p : VideoState) (t : Double) (serial : ℕ)
    → p.videoq_serial ≡ serial
    → (front p.pictq).serial ≡ serial
    → is_current serial (current_turn fl time redisplay p t) ≡ true
unfolding current_turn timed_turn is_current
current_turn-is_current fl time redisplay p t serial h k =
    let delay = delay_of fl time redisplay p in
    let p' = updated fl time redisplay p delay in
    let due = fl.add p.frame_timer delay in
    is_current-if serial p.paused (displays p) (timed_turn fl time redisplay p delay t)
      (ground (arith, k))
      (is_current-if serial (fl.lt time due && not redisplay)
        (returns p (min_double fl (fl.sub due time) t)) (due_turn fl time redisplay p') refl
        (due_turn-is_current fl time redisplay p' serial
          (updated-serial fl time redisplay p delay ∙ h)
          (ap (λ q. (front q).serial) (updated-pictq fl time redisplay p delay) ∙ k)))

pub restarted-pictq :
    (time : Double) (redisplay : Bool) (p : VideoState)
    → (restarted time redisplay p).pictq ≡ p.pictq
unfolding restarted
restarted-pictq time redisplay p = ground arith

restarted-serial :
    (time : Double) (redisplay : Bool) (p : VideoState)
    → (restarted time redisplay p).videoq_serial ≡ p.videoq_serial
unfolding restarted
restarted-serial time redisplay p = ground arith

turn-is_current :
    (fl : Floating) (time : Double) (redisplay : Bool) (p : VideoState) (t : Double)
    → is_current p.videoq_serial (turn fl time redisplay p t) ≡ true
unfolding turn is_current skip
turn-is_current fl time redisplay p t =
    let serial = p.videoq_serial in
    let r = restarted time redisplay p in
    let going = current_turn fl time redisplay r t in
    elim (Bool-cases ((front p.pictq).serial == serial)) [
      | inl e ↦
          let k : (front r.pictq).serial ≡ serial =
            ap (λ q. (front q).serial) (restarted-pictq time redisplay p) ∙ ground (arith, e) in
          is_current-if serial (is_empty p.pictq) (ends p)
            (if not ((front p.pictq).serial == serial) then retries (skip p) else going) refl
            (is_current-if serial (not ((front p.pictq).serial == serial)) (retries (skip p)) going
              (ground arith)
              (current_turn-is_current fl time redisplay r t serial
                (restarted-serial time redisplay p) k))
      | inr e ↦
          is_current-if serial (is_empty p.pictq) (ends p)
            (if not ((front p.pictq).serial == serial) then retries (skip p) else going) refl
            (rw e (ground arith))
    ]

-- the pictures on the screen are of the serial
unfoldable pub AllCurrent : ℕ → Refreshed → Type 0
AllCurrent serial (refreshed p t shown) =
    All (λ x. elim x [ frame f ↦ f.serial ≡ serial | sound ↦ Unit {0} ]) shown
AllCurrent serial spent = Unit {0}

AllCurrent-display :
    (fl : Floating) (time : Double) (p : VideoState) (t : Double) (serial : ℕ)
    → (front p.pictq).serial ≡ serial
    → AllCurrent serial (refreshed (display fl time p).0 t (display fl time p).1)
unfolding AllCurrent display
AllCurrent-display fl time p t serial h =
    elim (Bool-cases (not p.display_disable && p.show_video)) [
      | inl e ↦ rw e (h, tt)
      | inr e ↦ rw e tt
    ]

spent_lem : (serial : ℕ) → AllCurrent serial spent
unfolding AllCurrent
spent_lem serial = tt

nothing_lem :
    (serial : ℕ) (p : VideoState) (t : Double)
    → AllCurrent serial (refreshed (record p { force_refresh = false }) t [])
unfolding AllCurrent
nothing_lem serial p t = tt

-- what follows a round
AllCurrent-turn :
    (fl : Floating) (now : ℕ → Double) (fuel : ℕ) (t : Double) (serial : ℕ) (x : Turn)
    → is_current serial x ≡ true
    → ((p : VideoState)
        → p.videoq_serial ≡ serial
        → AllCurrent serial (refresh_loop fl now fuel false p t))
    → AllCurrent serial (elim x [
      | ends p ↦ refreshed (record p { force_refresh = false }) t []
      | returns p u ↦ refreshed p u []
      | retries p ↦ refresh_loop fl now fuel false p t
      | endless ↦ spent
      | displays p ↦
          refreshed
            (record (display fl (now fuel) p).0 { force_refresh = false })
            t
            (display fl (now fuel) p).1
    ])
unfolding AllCurrent is_current
AllCurrent-turn fl now fuel t serial (ends p) h k = tt
AllCurrent-turn fl now fuel t serial (returns p u) h k = tt
AllCurrent-turn fl now fuel t serial (retries p) h k = k p (ground (arith, h))
AllCurrent-turn fl now fuel t serial endless h k = tt
AllCurrent-turn fl now fuel t serial (displays p) h k =
    AllCurrent-display fl (now fuel) p t serial (ground (arith, h))

refresh_loop-AllCurrent :
    (fl : Floating) (now : ℕ → Double) (fuel : ℕ) (redisplay : Bool) (p : VideoState) (t : Double)
    (serial : ℕ)
    → p.videoq_serial ≡ serial
    → AllCurrent serial (refresh_loop fl now fuel redisplay p t)
unfolding refresh_loop
refresh_loop-AllCurrent fl now zero redisplay p t serial h = spent_lem serial
refresh_loop-AllCurrent fl now (suc fuel) redisplay p t serial h =
    AllCurrent-turn fl now fuel t serial (turn fl (now fuel) redisplay p t)
      (ap (λ n. is_current n (turn fl (now fuel) redisplay p t)) (sym h)
        ∙ turn-is_current fl (now fuel) redisplay p t)
      (λ p' k. refresh_loop-AllCurrent fl now fuel false p' t serial k)

AllCurrent-if :
    (serial : ℕ) (b : Bool) (x y : Refreshed)
    → AllCurrent serial x
    → AllCurrent serial y
    → AllCurrent serial (if b then x else y)
AllCurrent-if serial true x y h k = h
AllCurrent-if serial false x y h k = k

show_video_frames-AllCurrent :
    (fl : Floating) (now : ℕ → Double) (p : VideoState) (t : Double) (serial : ℕ)
    → p.videoq_serial ≡ serial
    → AllCurrent serial (show_video_frames fl now p t)
unfolding show_video_frames
show_video_frames-AllCurrent fl now p t serial h =
    let back = prev p.pictq in
    let redisplay = p.force_refresh && not (back.0 == 0) in
    let p' : VideoState = if p.force_refresh then record p { pictq = back.1 } else p in
    let k : p'.videoq_serial ≡ serial = ground (arith, h) in
    AllCurrent-if serial p.video_st (refresh_loop fl now (suc p'.pictq.size) redisplay p' t)
      (refreshed (record p { force_refresh = false }) t [])
      (refresh_loop-AllCurrent fl now (suc p'.pictq.size) redisplay p' t serial k)
      (nothing_lem serial p t)

AllCurrent-with_shown :
    (serial : ℕ) (before : List Picture) (r : Refreshed)
    → All (λ x. elim x [ frame f ↦ f.serial ≡ serial | sound ↦ Unit {0} ]) before
    → AllCurrent serial r
    → AllCurrent serial (with_shown before r)
unfolding AllCurrent with_shown
AllCurrent-with_shown serial before spent h k = tt
AllCurrent-with_shown serial [] (refreshed p t shown) h k = k
AllCurrent-with_shown serial (x ∷ before) (refreshed p t shown) (h, hs) k =
    (h, AllCurrent-with_shown serial before (refreshed p t shown) hs k)

external-serial :
    (fl : Floating) (time : Double) (p : VideoState)
    → (check_external_clock_speed fl time p).videoq_serial ≡ p.videoq_serial
unfolding check_external_clock_speed set_speed
external-serial fl time p = ground arith

show_sound_lem :
    (fl : Floating) (r time : Double) (p : VideoState) (t : Double) (serial : ℕ)
    → ((show_sound fl r time p t).0.videoq_serial ≡ p.videoq_serial)
      × All
          (λ x. elim x [ frame f ↦ f.serial ≡ serial | sound ↦ Unit {0} ])
          (show_sound fl r time p t).2
unfolding show_sound
show_sound_lem fl r time p t serial = (
  ground arith,
  elim (Bool-cases (not p.display_disable && not p.show_video && p.audio_st)) [
    | inl e ↦ elim (Bool-cases (p.force_refresh || fl.lt (fl.add p.last_vis_time r) time)) [
      | inl d ↦ rw e (rw d (tt, tt))
      | inr d ↦ rw e (rw d tt)
    ]
    | inr e ↦ rw e tt
  ],
)

-- Every frame that a call of video_refresh puts on the screen has the serial that the packet queue of
-- the video has then: no frame from before a seek is displayed after it, whatever the clocks say and
-- whether the player is paused, steps or displays a frame again.
pub video_refresh-AllCurrent :
    (fl : Floating) (rdftspeed : Double) (now : ℕ → Double) (p : VideoState) (t : Double)
    → AllCurrent p.videoq_serial (video_refresh fl rdftspeed now p t)
unfolding video_refresh
video_refresh-AllCurrent fl rdftspeed now p t =
    let time = now (suc p.pictq.size) in
    let b = (not p.paused && is_external (get_master_sync_type p)) && p.realtime in
    let p' : VideoState = if b then check_external_clock_speed fl time p else p in
    let k : p'.videoq_serial ≡ p.videoq_serial = ground (arith, external-serial fl time p) in
    let (h, shown) = show_sound_lem fl rdftspeed time p' t p.videoq_serial in
    AllCurrent-with_shown p.videoq_serial (show_sound fl rdftspeed time p' t).2
      (show_video_frames fl now (show_sound fl rdftspeed time p' t).0
        (show_sound fl rdftspeed time p' t).1)
      shown
      (show_video_frames-AllCurrent fl now (show_sound fl rdftspeed time p' t).0
        (show_sound fl rdftspeed time p' t).1 p.videoq_serial (h ∙ k))
