-- ===== src/Server/Libs.antt =====
-- The functions of libavutil and iconv that ffserver.c calls on text.
use ffmpeg_streaming.Base.{ℕ, List, Bool, Option}

-- av_stristr (found or not), av_match_ext, av_strcasecmp (0 or not), and iconv from GBK to UTF-8
pub record Libs : Type 0 where
  pub stristr : List ℕ → List ℕ → Bool
  pub match_ext : List ℕ → List ℕ → Bool
  pub same_fold : List ℕ → List ℕ → Bool
  pub to_utf8 : List ℕ → Option (List ℕ)
