-- ===== src/Player/Pausing.antt =====
-- What pausing does to the clocks.
use ffmpeg_streaming.Base.{◌≡◌, true, false, arith}
use ffmpeg_streaming.Base.Int.{ℤ, pos, negsuc}
use ffmpeg_streaming.Player.{Double, Floating, same_serial, get_clock}
use ffmpeg_streaming.Player.State.{VideoState, get_extclk, stream_toggle_pause}

same_serial_refl : (z : ℤ) → same_serial z z ≡ true
unfolding same_serial
same_serial_refl (pos n) = ground arith
same_serial_refl (negsuc n) = ground arith

-- Pausing stops the external clock: at any later time it says what it said at the pause.
pub stream_toggle_pause-get_extclk :
    (fl : Floating) (time later : Double) (p : VideoState)
    → p.paused ≡ false
    → get_extclk fl later (stream_toggle_pause fl time p) ≡ get_extclk fl time p
unfolding stream_toggle_pause get_extclk get_clock
stream_toggle_pause-get_extclk fl time later p h =
    ground (arith, h, same_serial_refl p.extclk.serial)
