-- ===== src/Player/Refresh.antt =====
-- ffplay2.c: what is displayed, and when (video_refresh, without the status line that it prints). The
-- time is read once for each picture that is looked at.

pub mod Shown
pub mod Rounds
use ffmpeg_streaming.Base.{
  ℕ, zero, suc, ◌+◌, List, [], ◌∷◌, ◌++◌, Bool, false, ◌&&◌, ◌||◌, not, ◌==◌, if◌then◌else◌, get_or,
  Option, none, some,
}
use ffmpeg_streaming.Base.Int.{pos, negsuc, ltb_ℤ}
use ffmpeg_streaming.FrameQueue.{
  FrameQueue, Frame, blank, peek, peek_next, peek_last, next, prev, nb_remaining,
}
use ffmpeg_streaming.Player.{Double, Floating, zero_double, sync_threshold_max, min_double}
use ffmpeg_streaming.Player.State.{
  VideoState, is_video, is_external, get_master_sync_type, check_external_clock_speed,
  stream_toggle_pause, compute_target_delay, vp_duration, update_video_pts,
}

-- what `video_display` puts on the screen: the frame that `frame_queue_peek` gives, or the sound
pub data Picture : Type 0 where
  frame : Frame → Picture
  sound : Picture

-- the frame at an index
abbrev pub frame_at : FrameQueue → ℕ → Frame
frame_at f i = get_or f.queue i blank

unfoldable pub is_empty : FrameQueue → Bool
is_empty f = elim (nb_remaining f) [ pos n ↦ n == 0 | negsuc n ↦ false ]

unfoldable pub has_next : FrameQueue → Bool
has_next f = ltb_ℤ (pos 1) (nb_remaining f)

-- the test of the first subtitle: it is of another serial, it is over, or the next one has begun
unfoldable pub is_over : Floating → VideoState → Bool
unfolding has_next
is_over fl p =
    let sp = frame_at p.subpq (peek p.subpq) in
    let sp2 = frame_at p.subpq (peek_next p.subpq) in
    not (sp.serial == p.subtitleq_serial)
    || fl.lt (fl.add sp.pts (fl.seconds sp.end_display_time)) p.vidclk.pts
    || (has_next p.subpq && fl.lt (fl.add sp2.pts (fl.seconds sp2.start_display_time)) p.vidclk.pts)

-- the loop over the subtitles, with so many rounds; `none`: they are not enough
unfoldable pub drop_subtitles : Floating → ℕ → VideoState → Option VideoState
unfolding is_over
drop_subtitles fl zero p = none
drop_subtitles fl (suc fuel) p =
    let rest = drop_subtitles fl fuel (record p { subpq = next p.subpq }) in
    if not (ltb_ℤ (pos 0) (nb_remaining p.subpq))
    then some p
    else if is_over fl p
    then rest
    else some p

-- What one picture leads to: none is left; it is passed over, and the next is looked at; it is not time
-- yet, and the call returns; or it comes to the label display. `endless`: the rounds of the loop over the
-- subtitles are not enough.
pub data Turn : Type 0 where
  ends : VideoState → Turn
  retries : VideoState → Turn
  returns : VideoState → Double → Turn
  displays : VideoState → Turn
  endless : Turn

unfoldable pub skip : VideoState → VideoState
skip p = record p { pictq = next p.pictq }

-- a picture that is late is dropped, where that is wanted
unfoldable pub is_late : Floating → Double → Bool → VideoState → Bool
unfolding has_next is_video
is_late fl time redisplay p =
    let vp = frame_at p.pictq (peek p.pictq) in
    let nextvp = frame_at p.pictq (peek_next p.pictq) in
    has_next p.pictq
    && not p.step
    && (redisplay
        || ltb_ℤ (pos 0) p.framedrop
        || (ltb_ℤ p.framedrop (pos 0) && not (is_video (get_master_sync_type p))))
    && fl.lt (fl.add p.frame_timer (vp_duration fl p vp nextvp)) time

-- the time and the clocks, once the picture is due
unfoldable pub updated : Floating → Double → Bool → VideoState → Double → VideoState
updated fl time redisplay p delay =
    let vp = frame_at p.pictq (peek p.pictq) in
    let due = fl.add p.frame_timer delay in
    let p' : VideoState = record p {
      frame_timer =
          if fl.lt zero_double delay && fl.lt sync_threshold_max (fl.sub time due)
          then time
          else due;
    } in
    if not redisplay && not (fl.is_nan vp.pts)
    then update_video_pts fl time vp.pts vp.serial p'
    else p'

-- the label display, after the loop over the subtitles
unfoldable pub displays_after : Option VideoState → Turn
displays_after none = endless
displays_after (some p) = displays p

-- a picture that is due is dropped or displayed
unfoldable pub due_turn : Floating → Double → Bool → VideoState → Turn
unfolding is_late drop_subtitles skip displays_after
due_turn fl time redisplay p =
    if is_late fl time redisplay p
    then retries (
        skip (record p {
          frame_drops_late = if redisplay then p.frame_drops_late else p.frame_drops_late + 1;
        }))
    else displays_after (if p.subtitle_st then drop_subtitles fl (suc p.subpq.size) p else some p)

-- from the test of the time on, with the delay
unfoldable pub timed_turn : Floating → Double → Bool → VideoState → Double → Double → Turn
unfolding due_turn updated min_double
timed_turn fl time redisplay p delay remaining_time =
    let due = fl.add p.frame_timer delay in
    if fl.lt time due && not redisplay
    then returns p (min_double fl (fl.sub due time) remaining_time)
    else due_turn fl time redisplay (updated fl time redisplay p delay)

-- the first picture of a serial starts the timer
unfoldable pub restarted : Double → Bool → VideoState → VideoState
restarted time redisplay p =
    let lastvp = frame_at p.pictq (peek_last p.pictq) in
    let vp = frame_at p.pictq (peek p.pictq) in
    if not (lastvp.serial == vp.serial) && not redisplay then record p { frame_timer = time } else p

-- the delay of the picture at the front
unfoldable pub delay_of : Floating → Double → Bool → VideoState → Double
delay_of fl time redisplay p =
    let lastvp = frame_at p.pictq (peek_last p.pictq) in
    let vp = frame_at p.pictq (peek p.pictq) in
    if redisplay then zero_double else compute_target_delay fl time (vp_duration fl p lastvp vp) p

-- a picture of the current serial
unfoldable pub current_turn : Floating → Double → Bool → VideoState → Double → Turn
unfolding timed_turn delay_of
current_turn fl time redisplay p remaining_time =
    if p.paused
    then displays p
    else timed_turn fl time redisplay p (delay_of fl time redisplay p) remaining_time

-- one round from the label retry
unfoldable pub turn : Floating → Double → Bool → VideoState → Double → Turn
unfolding current_turn restarted is_empty skip
turn fl time redisplay p remaining_time =
    if is_empty p.pictq
    then ends p
    else if not ((frame_at p.pictq (peek p.pictq)).serial == p.videoq_serial)
    then retries (skip p)
    else current_turn fl time redisplay (restarted time redisplay p) remaining_time

-- What a call leads to: the player, the remaining time, and what was put on the screen. `spent`: the
-- rounds are not enough.
pub data Refreshed : Type 0 where
  refreshed : VideoState → Double → List Picture → Refreshed
  spent : Refreshed

-- the label display
unfoldable pub display : Floating → Double → VideoState → VideoState × List Picture
unfolding skip
display fl time p =
    let p' = skip p in
    (
      if p'.step && not p'.paused then stream_toggle_pause fl time p' else p',
      if not p.display_disable && p.show_video
          then frame (frame_at p.pictq (peek p.pictq)) ∷ []
          else [],
    )

-- the loop from the label retry, with the time of each round
unfoldable pub refresh_loop : Floating → (ℕ → Double) → ℕ → Bool → VideoState → Double → Refreshed
unfolding turn display
refresh_loop fl now zero redisplay p remaining_time = spent
refresh_loop fl now (suc fuel) redisplay p remaining_time =
    elim (turn fl (now fuel) redisplay p remaining_time) [
      | ends p' ↦ refreshed (record p' { force_refresh = false }) remaining_time []
      | returns p' t ↦ refreshed p' t []
      | retries p' ↦ refresh_loop fl now fuel false p' remaining_time
      | endless ↦ spent
      | displays p' ↦
          let (p2, shown) = display fl (now fuel) p' in
          refreshed (record p2 { force_refresh = false }) remaining_time shown
    ]

-- the sound that is shown in place of a video, every `rdftspeed`
unfoldable pub show_sound :
    Floating → Double → Double → VideoState → Double → VideoState × Double × List Picture
unfolding min_double
show_sound fl rdftspeed time p remaining_time =
    let is_due = p.force_refresh || fl.lt (fl.add p.last_vis_time rdftspeed) time in
    let p' : VideoState = if is_due then record p { last_vis_time = time } else p in
    if not p.display_disable && not p.show_video && p.audio_st
    then (
      p',
      min_double fl remaining_time (fl.sub (fl.add p'.last_vis_time rdftspeed) time),
      if is_due then sound ∷ [] else [],
    )
    else (p, remaining_time, [])

unfoldable pub with_shown : List Picture → Refreshed → Refreshed
with_shown before (refreshed p t shown) = refreshed p t (before ++ shown)
with_shown before spent = spent

-- the part for a player that has a video
unfoldable pub show_video_frames : Floating → (ℕ → Double) → VideoState → Double → Refreshed
unfolding refresh_loop
show_video_frames fl now p remaining_time =
    let back = prev p.pictq in
    let redisplay = p.force_refresh && not (back.0 == 0) in
    let p' : VideoState = if p.force_refresh then record p { pictq = back.1 } else p in
    if p.video_st
    then refresh_loop fl now (suc p'.pictq.size) redisplay p' remaining_time
    else refreshed (record p { force_refresh = false }) remaining_time []

-- `video_refresh`
unfoldable pub video_refresh : Floating → Double → (ℕ → Double) → VideoState → Double → Refreshed
unfolding show_sound show_video_frames with_shown is_external
video_refresh fl rdftspeed now p remaining_time =
    let time = now (suc p.pictq.size) in
    let p' : VideoState =
      if (not p.paused && is_external (get_master_sync_type p)) && p.realtime
      then check_external_clock_speed fl time p
      else p in
    let (p2, t, shown) = show_sound fl rdftspeed time p' remaining_time in
    with_shown shown (show_video_frames fl now p2 t)
