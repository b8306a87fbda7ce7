-- ===== src/Header.antt =====
-- ff_header.c: stream parameters written to a file, and read back (header_write, header_read).
-- What the code takes from FFmpeg is the parameter `Libav`.
pub mod Words
pub mod Codec
pub mod Sections
pub mod File
pub mod OneStream
pub mod RoundTrip
pub mod Gap
use ffmpeg_streaming.Base.{ℕ, ◌+◌, ◌%◌, ◌^◌, ◌<◌, ◌≡◌, ◌≢◌, Bool, true}

-- FFmpeg's constants, flags and bit casts. A double is carried as its bits.
pub record Libav : Type 1 where
  pub Double : Type 0
  pub double2int : Double → ℕ
  pub int2double : ℕ → Double
  pub double_round : (d : Double) → int2double (double2int d) ≡ d
  pub double_bits : (d : Double) → double2int d < 2 ^ 64
  -- the low 16 bits of `(int)(d * 1000)`, and `n / 1000.0`
  pub thousandths : Double → ℕ
  pub from_thousandths : ℕ → Double
  pub media_video : ℕ
  pub media_audio : ℕ
  pub media_ne : media_video ≢ media_audio
  pub codec_none : ℕ
  -- `flags & CODEC_FLAG_GLOBAL_HEADER` and `flags | CODEC_FLAG_GLOBAL_HEADER`
  pub global_header : ℕ → Bool
  pub with_global_header : ℕ → ℕ
  pub with_global_header-global : (f : ℕ) → global_header (with_global_header f) ≡ true
  pub with_global_header-lt : (f : ℕ) → f < 2 ^ 32 → with_global_header f < 2 ^ 32
