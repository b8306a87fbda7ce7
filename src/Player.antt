-- ===== src/Player.antt =====
-- ffplay2.c: the clocks of the player (get_clock to sync_clock_to_slave). A double
-- is its 64 bits, and the operations of the machine on doubles are given. The readings of the time within
-- one call are the same.
pub mod State
pub mod Refresh
pub mod Pausing
use ffmpeg_streaming.Base.{
  ℕ, ◌*◌, ◌/◌, Bool, true, false, ◌&&◌, ◌||◌, not, ltb, leb, ◌==◌, if◌then◌else◌,
}
use ffmpeg_streaming.Base.Int.{ℤ, pos, negsuc}
use ffmpeg_streaming.FrameQueue.{FrameQueue, Frame}

abbrev pub Double : Type 0
Double = ℕ

-- the operations on doubles, as IEEE 754 has them; `seconds` is a number of milliseconds as a float,
-- divided by 1000
pub record Floating : Type 0 where
  pub add : Double → Double → Double
  pub sub : Double → Double → Double
  pub mul : Double → Double → Double
  pub div : Double → Double → Double
  pub abs : Double → Double
  pub lt : Double → Double → Bool
  pub le : Double → Double → Bool
  pub is_nan : Double → Bool
  pub seconds : ℕ → Double

abbrev pub zero_double : Double
zero_double = 0

-- 1.0 and 2.0
abbrev pub one_double : Double
one_double = 4607182418800017408

abbrev pub two_double : Double
two_double = 4611686018427387904

-- NAN
abbrev pub nan : Double
nan = 9221120237041090560

-- 0.04, 0.1, 0.1 and 10.0
abbrev pub sync_threshold_min : Double
sync_threshold_min = 4585925428558828667

abbrev pub sync_threshold_max : Double
sync_threshold_max = 4591870180066957722

abbrev pub framedup_threshold : Double
framedup_threshold = 4591870180066957722

abbrev pub nosync_threshold : Double
nosync_threshold = 4621819117588971520

-- 0.900, 1.010 and 0.001
abbrev pub speed_min : Double
speed_min = 4606281698874543309

abbrev pub speed_max : Double
speed_max = 4607227454796291113

abbrev pub speed_step : Double
speed_step = 4562254508917369340

abbrev pub min_frames : ℕ
min_frames = 5

-- FFMAX and FFMIN
unfoldable pub max_double : Floating → Double → Double → Double
max_double fl a b = if fl.lt b a then a else b

unfoldable pub min_double : Floating → Double → Double → Double
min_double fl a b = if fl.lt b a then b else a

-- `Clock`, without its pointer to a serial
pub record Clock : Type 0 where
  pub pts : Double
  pub pts_drift : Double
  pub last_updated : Double
  pub speed : Double
  pub serial : ℤ
  pub paused : Bool

unfoldable pub same_serial : ℤ → ℤ → Bool
same_serial (pos m) (pos n) = m == n
same_serial (negsuc m) (negsuc n) = m == n
same_serial (pos m) (negsuc n) = false
same_serial (negsuc m) (pos n) = false

-- `get_clock`; `queue_serial` is what the clock's pointer leads to, `time` is av_gettime_relative in
-- seconds
unfoldable pub get_clock : Floating → Double → ℤ → Clock → Double
unfolding same_serial
get_clock fl time queue_serial c =
    if not (same_serial queue_serial c.serial)
    then nan
    else if c.paused
    then c.pts
    else fl.sub (fl.add c.pts_drift time)
        (fl.mul (fl.sub time c.last_updated) (fl.sub one_double c.speed))

-- `set_clock_at`
unfoldable pub set_clock_at : Floating → Clock → Double → ℤ → Double → Clock
set_clock_at fl c pts serial time = record c {
  pts = pts;
  last_updated = time;
  pts_drift = fl.sub pts time;
  serial = serial;
}

-- `set_clock`
unfoldable pub set_clock : Floating → Double → Clock → Double → ℤ → Clock
unfolding set_clock_at
set_clock fl time c pts serial = set_clock_at fl c pts serial time

-- `set_clock_speed`
unfoldable pub set_clock_speed : Floating → Double → ℤ → Clock → Double → Clock
unfolding set_clock
set_clock_speed fl time queue_serial c speed =
    record (set_clock fl time c (get_clock fl time queue_serial c) c.serial) { speed = speed }

-- `init_clock`
unfoldable pub init_clock : Floating → Double → Clock
unfolding set_clock
init_clock fl time =
    set_clock fl time
      (record {
        pts = 0;
        pts_drift = 0;
        last_updated = 0;
        speed = one_double;
        serial = pos 0;
        paused = false;
      })
      nan (negsuc 0)

-- `sync_clock_to_slave`, with the serials that the two clocks point to
unfoldable pub sync_clock_to_slave : Floating → Double → ℤ → Clock → ℤ → Clock → Clock
unfolding set_clock
sync_clock_to_slave fl time queue_serial c slave_serial slave =
    let clock = get_clock fl time queue_serial c in
    let slave_clock = get_clock fl time slave_serial slave in
    if not (fl.is_nan slave_clock)
      && (fl.is_nan clock || fl.lt nosync_threshold (fl.abs (fl.sub clock slave_clock)))
    then set_clock fl time c slave_clock slave.serial
    else c
