-- ===== src/Player/State.antt =====
-- ffplay2.c: the state that paces the display, and what is done to it (get_master_sync_type to
-- update_video_pts).
use ffmpeg_streaming.Base.{
  ℕ, ◌*◌, ◌/◌, Bool, true, false, ◌&&◌, ◌||◌, not, ltb, leb, ◌==◌, if◌then◌else◌,
}
use ffmpeg_streaming.Base.Int.{ℤ, pos}
use ffmpeg_streaming.FrameQueue.{FrameQueue, Frame}
use ffmpeg_streaming.Player.{
  Double, Floating, zero_double, one_double, two_double, sync_threshold_min, sync_threshold_max,
  framedup_threshold, speed_min, speed_max, speed_step, min_frames, max_double, min_double, Clock,
  get_clock, set_clock, set_clock_speed, sync_clock_to_slave,
}

-- AV_SYNC_VIDEO_MASTER, AV_SYNC_AUDIO_MASTER and AV_SYNC_EXTERNAL_CLOCK
pub data Sync : Type 0 where
  video_master audio_master external_clock : Sync

unfoldable pub is_video : Sync → Bool
is_video video_master = true
is_video _ = false

unfoldable pub is_external : Sync → Bool
is_external external_clock = true
is_external _ = false

-- `VideoState`, as much of it as paces the display. The streams are there or not, `video_stream` and
-- `audio_stream` say whether the index is 0 or more, `can_pause` whether the input can be paused, and
-- the last three are settings. The external clock points to its own serial.
pub record VideoState : Type 0 where
  pub vidclk : Clock
  pub audclk : Clock
  pub extclk : Clock
  pub videoq_serial : ℕ
  pub audioq_serial : ℕ
  pub subtitleq_serial : ℕ
  pub videoq_packets : ℕ
  pub audioq_packets : ℕ
  pub av_sync_type : Sync
  pub video_st : Bool
  pub audio_st : Bool
  pub subtitle_st : Bool
  pub video_stream : Bool
  pub audio_stream : Bool
  pub paused : Bool
  pub step : Bool
  pub force_refresh : Bool
  pub realtime : Bool
  pub can_pause : Bool
  pub seek_req : Bool
  pub seek_pos : ℤ
  pub seek_rel : ℤ
  pub seek_by_bytes : Bool
  pub frame_timer : Double
  pub max_frame_duration : Double
  pub last_vis_time : Double
  pub frame_drops_late : ℕ
  pub pictq : FrameQueue
  pub subpq : FrameQueue
  pub framedrop : ℤ
  pub display_disable : Bool
  pub show_video : Bool

unfoldable pub get_vidclk : Floating → Double → VideoState → Double
get_vidclk fl time p = get_clock fl time (pos p.videoq_serial) p.vidclk

unfoldable pub get_extclk : Floating → Double → VideoState → Double
get_extclk fl time p = get_clock fl time p.extclk.serial p.extclk

-- `get_master_sync_type`
unfoldable pub get_master_sync_type : VideoState → Sync
get_master_sync_type p = elim p.av_sync_type [
  | video_master ↦ if p.video_st then video_master else audio_master
  | audio_master ↦ if p.audio_st then audio_master else external_clock
  | external_clock ↦ external_clock
]

-- `get_master_clock`
unfoldable pub get_master_clock : Floating → Double → VideoState → Double
unfolding get_master_sync_type get_vidclk get_extclk
get_master_clock fl time p = elim (get_master_sync_type p) [
  | video_master ↦ get_vidclk fl time p
  | audio_master ↦ get_clock fl time (pos p.audioq_serial) p.audclk
  | external_clock ↦ get_extclk fl time p
]

unfoldable pub set_speed : Floating → Double → VideoState → Double → VideoState
unfolding set_clock_speed
set_speed fl time p speed = record p {
  extclk = set_clock_speed fl time p.extclk.serial p.extclk speed;
}

-- `check_external_clock_speed`
unfoldable pub check_external_clock_speed : Floating → Double → VideoState → VideoState
unfolding set_speed min_double max_double
check_external_clock_speed fl time p =
    let speed = p.extclk.speed in
    if (p.video_stream && leb p.videoq_packets (min_frames / 2))
      || (p.audio_stream && leb p.audioq_packets (min_frames / 2))
    then set_speed fl time p (max_double fl speed_min (fl.sub speed speed_step))
    else if (not p.video_stream || ltb (min_frames * 2) p.videoq_packets)
        && (not p.audio_stream || ltb (min_frames * 2) p.audioq_packets)
    then set_speed fl time p (min_double fl speed_max (fl.add speed speed_step))
    else if fl.le speed one_double && fl.le one_double speed
    then p
    else set_speed fl time p (
        fl.add speed
          (fl.div (fl.mul speed_step (fl.sub one_double speed)) (fl.abs (fl.sub one_double speed))))

-- `stream_seek`
unfoldable pub stream_seek : VideoState → ℤ → ℤ → Bool → VideoState
stream_seek p position rel by_bytes =
    if p.seek_req
    then p
    else record p { seek_pos = position; seek_rel = rel; seek_by_bytes = by_bytes; seek_req = true }

-- the part of `stream_toggle_pause` that only a paused player runs
unfoldable pub resume : Floating → Double → VideoState → VideoState
unfolding get_vidclk set_clock
resume fl time p =
    let p' : VideoState = record p {
      frame_timer = fl.add p.frame_timer (fl.sub (fl.add time p.vidclk.pts_drift) p.vidclk.pts);
      vidclk = if p.can_pause then record p.vidclk { paused = false } else p.vidclk;
    } in
    record p' { vidclk = set_clock fl time p'.vidclk (get_vidclk fl time p') p'.vidclk.serial }

-- `stream_toggle_pause`
unfoldable pub stream_toggle_pause : Floating → Double → VideoState → VideoState
unfolding resume set_clock get_extclk
stream_toggle_pause fl time p =
    let p' : VideoState = if p.paused then resume fl time p else p in
    let is_paused = not p.paused in
    record p' {
      extclk = record (set_clock fl time p'.extclk (get_extclk fl time p') p'.extclk.serial) {
        paused = is_paused;
      };
      vidclk = record p'.vidclk { paused = is_paused };
      audclk = record p'.audclk { paused = is_paused };
      paused = is_paused;
    }

-- `toggle_pause`
unfoldable pub toggle_pause : Floating → Double → VideoState → VideoState
unfolding stream_toggle_pause
toggle_pause fl time p = record (stream_toggle_pause fl time p) { step = false }

-- `step_to_next_frame`
unfoldable pub step_to_next_frame : Floating → Double → VideoState → VideoState
unfolding stream_toggle_pause
step_to_next_frame fl time p = record (if p.paused then stream_toggle_pause fl time p else p) {
  step = true;
}

-- `compute_target_delay`
unfoldable pub compute_target_delay : Floating → Double → Double → VideoState → Double
unfolding get_vidclk get_master_clock max_double min_double is_video
compute_target_delay fl time delay p =
    let diff = fl.sub (get_vidclk fl time p) (get_master_clock fl time p) in
    let threshold = max_double fl sync_threshold_min (min_double fl sync_threshold_max delay) in
    if is_video (get_master_sync_type p)
    then delay
    else if not (not (fl.is_nan diff) && fl.lt (fl.abs diff) p.max_frame_duration)
    then delay
    else if fl.le diff (fl.sub zero_double threshold)
    then max_double fl zero_double (fl.add delay diff)
    else if fl.le threshold diff && fl.lt framedup_threshold delay
    then fl.add delay diff
    else if fl.le threshold diff
    then fl.mul two_double delay
    else delay

-- `vp_duration`
unfoldable pub vp_duration : Floating → VideoState → Frame → Frame → Double
vp_duration fl p vp nextvp =
    let duration = fl.sub nextvp.pts vp.pts in
    if not (vp.serial == nextvp.serial)
    then zero_double
    else if fl.is_nan duration || fl.le duration zero_double || fl.lt p.max_frame_duration duration
    then vp.duration
    else duration

-- `update_video_pts`
unfoldable pub update_video_pts : Floating → Double → Double → ℕ → VideoState → VideoState
unfolding set_clock sync_clock_to_slave
update_video_pts fl time pts serial p =
    let vidclk = set_clock fl time p.vidclk pts (pos serial) in
    record p {
      vidclk = vidclk;
      extclk = sync_clock_to_slave fl time p.extclk.serial p.extclk (pos p.videoq_serial) vidclk;
    }
