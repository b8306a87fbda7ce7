-- ===== src/Tests/Display.antt =====
-- The display of a player with a picture of an old serial and one of the new.
use ffmpeg_streaming.Base.{◌≡◌, ◌+◌, ◌-◌, refl, [], ◌∷◌, some, true, false, arith, leb, ltb}
use ffmpeg_streaming.Base.Int.{pos}
use ffmpeg_streaming.FrameQueue.{FrameQueue, Frame, blank}
use ffmpeg_streaming.Player.{Floating, Clock, one_double}
use ffmpeg_streaming.Player.State.{VideoState, video_master, get_extclk, stream_toggle_pause}
use ffmpeg_streaming.Player.Pausing.{stream_toggle_pause-get_extclk}
use ffmpeg_streaming.Player.Refresh.{video_refresh}
use ffmpeg_streaming.Player.Refresh.Shown.{AllCurrent, video_refresh-AllCurrent}
use ffmpeg_streaming.Player.Refresh.Rounds.{is_spent, video_refresh-is_spent}

-- arithmetic of numbers in place of that of doubles
abbrev fl : Floating
fl = record {
  add = λ a b. a + b;
  sub = λ a b. a - b;
  mul = λ a b. 0;
  div = λ a b. 0;
  abs = λ a. a;
  lt = ltb;
  le = leb;
  is_nan = λ a. false;
  seconds = λ n. n;
}

abbrev clock : Clock
clock = record {
  pts = 5;
  pts_drift = 0;
  last_updated = 0;
  speed = one_double;
  serial = pos 2;
  paused = false;
}

abbrev old : Frame
old = record blank { picture = some 1; serial = 1 }

abbrev new : Frame
new = record blank { picture = some 2; serial = 2 }

abbrev pictures : FrameQueue
pictures = record {
  queue = old ∷ new ∷ blank ∷ [];
  rindex = 0;
  windex = 2;
  size = 2;
  max_size = 3;
  keep_last = 1;
  rindex_shown = 0;
  pktq_abort = false;
  pktq_serial = 2;
}

abbrev player : VideoState
player = record {
  vidclk = clock;
  audclk = clock;
  extclk = clock;
  videoq_serial = 2;
  audioq_serial = 2;
  subtitleq_serial = 2;
  videoq_packets = 4;
  audioq_packets = 4;
  av_sync_type = video_master;
  video_st = true;
  audio_st = true;
  subtitle_st = false;
  video_stream = true;
  audio_stream = true;
  paused = false;
  step = false;
  force_refresh = false;
  realtime = false;
  can_pause = true;
  seek_req = false;
  seek_pos = pos 0;
  seek_rel = pos 0;
  seek_by_bytes = false;
  frame_timer = 0;
  max_frame_duration = 10;
  last_vis_time = 0;
  frame_drops_late = 0;
  pictq = pictures;
  subpq = pictures;
  framedrop = pos 0;
  display_disable = false;
  show_video = true;
}

video_refresh-AllCurrent_example : AllCurrent 2 (video_refresh fl 20 (λ n. 100) player 10)
video_refresh-AllCurrent_example = video_refresh-AllCurrent fl 20 (λ n. 100) player 10

video_refresh-is_spent_example : is_spent (video_refresh fl 20 (λ n. 100) player 10) ≡ false
video_refresh-is_spent_example =
    video_refresh-is_spent fl 20 (λ n. 100) player 10 (omega arith) (omega arith)

stream_toggle_pause-get_extclk_example :
    get_extclk fl 900 (stream_toggle_pause fl 100 player) ≡ get_extclk fl 100 player
stream_toggle_pause-get_extclk_example = stream_toggle_pause-get_extclk fl 100 900 player refl
