-- ===== src/Tests/Params.antt =====
-- Runs of the header of stream parameters, with FFmpeg's flag for a global header and doubles of
-- which two matter.
use ffmpeg_streaming.Base.{
  ℕ, ◌+◌, ◌/◌, ◌%◌, ◌^◌, ◌<◌, ◌≡◌, refl, List, [], ◌∷◌, ◌++◌, Bool, true, false, some, arith,
  length, ◌==◌, if◌then◌else◌,
}
use ffmpeg_streaming.Header.{Libav}
use ffmpeg_streaming.Header.Codec.{Picture, Quant, Motion, Audio, Stream}
use ffmpeg_streaming.Header.File.{
  Written, wrote, refused, header_write, header_read, write_streams, write_stream, write_generic,
  write_specific, marked_flags, after, total_bit_rate, ff_write, ff_read,
}
use ffmpeg_streaming.Header.Sections.{write_picture, write_quant, write_motion, write_audio}
use ffmpeg_streaming.Header.Words.{w8, w16, w32, w64}
use ffmpeg_streaming.Header.OneStream.{StreamFits, restored}
use ffmpeg_streaming.Header.RoundTrip.{header-roundtrip}
use ffmpeg_streaming.Header.Gap.{file-roundtrip, header_gap}

-- CODEC_FLAG_GLOBAL_HEADER is 1 << 22.
abbrev has_flag : ℕ → Bool
has_flag f = f / 2 ^ 22 % 2 == 1

abbrev with_flag : ℕ → ℕ
with_flag f = if has_flag f then f else f + 2 ^ 22

with_flag-has_flag : (f : ℕ) → has_flag (with_flag f) ≡ true
with_flag-has_flag f = ground arith

with_flag-lt : (f : ℕ) → f < 2 ^ 32 → with_flag f < 2 ^ 32
with_flag-lt f h = ground arith

bit-round : (b : Bool) → ((if b then 1 else 0) == 1) ≡ b
bit-round true = refl
bit-round false = refl

bit-lt : (b : Bool) → (if b then 1 else 0) < 2 ^ 64
bit-lt true = omega arith
bit-lt false = omega arith

abbrev av : Libav
av = record {
  Double = Bool;
  double2int = λ b. if b then 1 else 0;
  int2double = λ n. n == 1;
  double_round = bit-round;
  double_bits = bit-lt;
  thousandths = λ b. if b then 1000 else 0;
  from_thousandths = λ n. n == 1000;
  media_video = 0;
  media_audio = 1;
  media_ne = λ e. omega arith;
  codec_none = 0;
  global_header = has_flag;
  with_global_header = with_flag;
  with_global_header-global = with_flag-has_flag;
  with_global_header-lt = with_flag-lt;
}

abbrev picture : Picture
picture = record {
  time_base_num = 1;
  time_base_den = 25;
  width = 1280;
  height = 720;
  gop_size = 12;
  pix_fmt = 0;
  qmin = 2;
  qmax = 31;
  bit_rate_tolerance = 4000000;
  rc_max_rate = 0;
  rc_min_rate = 0;
  rc_buffer_size = 0;
}

abbrev quant : Quant Bool
quant = record {
  i_quant_factor = true;
  b_quant_factor = false;
  i_quant_offset = false;
  b_quant_offset = true;
  dct_algo = 0;
  strict_std_compliance = 0;
  max_b_frames = 3;
  mpeg_quant = 0;
  intra_dc_precision = 0;
  me_method = 5;
  mb_decision = 0;
  nsse_weight = 8;
  frame_skip_cmp = 13;
  rc_buffer_aggressivity = true;
}

abbrev motion : Motion Bool
motion = record {
  codec_tag = 0;
  thread_count = 4;
  coder_type = 1;
  me_cmp = 1;
  me_subpel_quality = 7;
  me_range = 16;
  keyint_min = 25;
  scenechange_threshold = 40;
  b_frame_strategy = 1;
  qcompress = true;
  qblur = false;
  max_qdiff = 4;
  refs = 3;
}

abbrev audio : Audio
audio = record { sample_rate = 44100; channels = 2; frame_size = 1024 }

abbrev stream : ℕ → ℕ → List ℕ → Stream Bool
stream codec_id codec_type extradata = record {
  pts_wrap_bits = 33;
  time_base_num = 1;
  time_base_den = 90000;
  codec = record {
    codec_id = codec_id;
    codec_type = codec_type;
    bit_rate = 400000;
    flags = 0;
    flags2 = 0;
    debug = 0;
    extradata = extradata;
    picture = picture;
    quant = quant;
    motion = motion;
    audio = audio;
  };
}

abbrev film : Stream Bool
film = stream 28 0 (1 ∷ 66 ∷ 0 ∷ 30 ∷ [])

abbrev sound : Stream Bool
sound = stream 86018 1 []

abbrev blank : Stream Bool
blank = stream 0 2 []

fits :
    (codec_id codec_type : ℕ) (extradata : List ℕ)
    → codec_id < 2 ^ 32
    → codec_type < 256
    → length extradata < 2 ^ 31
    → StreamFits av (stream codec_id codec_type extradata)
fits codec_id codec_type extradata i t n = record {
  pts_wrap_bits = omega arith;
  time_base_num = omega arith;
  time_base_den = omega arith;
  codec_id = i;
  codec_type = t;
  bit_rate = omega arith;
  flags = omega arith;
  flags2 = omega arith;
  debug = omega arith;
  extradata = n;
  picture = record {
    time_base_num = omega arith;
    time_base_den = omega arith;
    width = omega arith;
    height = omega arith;
    gop_size = omega arith;
    pix_fmt = omega arith;
    qmin = omega arith;
    qmax = omega arith;
    bit_rate_tolerance = omega arith;
    rc_max_rate = omega arith;
    rc_min_rate = omega arith;
    rc_buffer_size = omega arith;
  };
  quant = record {
    dct_algo = omega arith;
    strict_std_compliance = omega arith;
    max_b_frames = omega arith;
    mpeg_quant = omega arith;
    intra_dc_precision = omega arith;
    me_method = omega arith;
    mb_decision = omega arith;
    nsse_weight = omega arith;
    frame_skip_cmp = omega arith;
  };
  motion = record {
    codec_tag = omega arith;
    thread_count = omega arith;
    coder_type = omega arith;
    me_cmp = omega arith;
    me_subpel_quality = omega arith;
    me_range = omega arith;
    keyint_min = omega arith;
    scenechange_threshold = omega arith;
    b_frame_strategy = omega arith;
    max_qdiff = omega arith;
    refs = omega arith;
  };
  audio = record { sample_rate = omega arith; channels = omega arith; frame_size = omega arith };
}

abbrev bytes_of : Written → List ℕ
bytes_of (wrote bs) = bs
bytes_of (refused r) = []

abbrev header : ℕ → List (Stream Bool) → List ℕ
header size sts = bytes_of (header_write av size sts).0

header-roundtrip_example :
    header_read av 1004 blank (header 1000 (film ∷ sound ∷ []) ++ 7 ∷ [])
    ≡ some (
      length (header 1000 (film ∷ sound ∷ [])),
      restored av blank film ∷ restored av blank sound ∷ [],
    )
unfolding header_write write_streams write_stream write_generic write_specific marked_flags after
    total_bit_rate write_picture write_quant write_motion write_audio w8 w16 w32 w64
header-roundtrip_example =
    header-roundtrip av 1000 1004 blank (film ∷ sound ∷ []) (header 1000 (film ∷ sound ∷ []))
      (7 ∷ []) (omega arith) (omega arith) (omega arith)
      (
        fits 28 0 (1 ∷ 66 ∷ 0 ∷ 30 ∷ []) (omega arith) (omega arith) (omega arith),
        (fits 86018 1 [] (omega arith) (omega arith) (omega arith), tt),
      )
      refl

file-roundtrip_example :
    (ff_write av (film ∷ sound ∷ []) true
      ≡ some (length (header 8188 (film ∷ sound ∷ [])), some (header 8188 (film ∷ sound ∷ []))))
    × (ff_read av blank (some (header 8188 (film ∷ sound ∷ [])))
        ≡ some (
          length (header 8188 (film ∷ sound ∷ [])),
          restored av blank film ∷ restored av blank sound ∷ [],
        ))
unfolding header_write write_streams write_stream write_generic write_specific marked_flags after
    total_bit_rate write_picture write_quant write_motion write_audio w8 w16 w32 w64
file-roundtrip_example =
    file-roundtrip av blank film (sound ∷ []) (header 8188 (film ∷ sound ∷ [])) (omega arith)
      (
        fits 28 0 (1 ∷ 66 ∷ 0 ∷ 30 ∷ []) (omega arith) (omega arith) (omega arith),
        (fits 86018 1 [] (omega arith) (omega arith) (omega arith), tt),
      )
      refl (omega arith)

-- Of 273 bytes the code keeps 228 free: the writer reckons with 45 bytes up to the end of the extra
-- data, the reader with 49.
abbrev edge : Stream Bool
edge = stream 28 0 (1 ∷ 66 ∷ 0 ∷ 30 ∷ [])

abbrev edge_specific : List ℕ
edge_specific = elim (write_specific av edge.codec) [ wrote bs ↦ bs | refused r ↦ [] ]

header_gap_example :
    (bs : List ℕ) × ((header_write av 273 (edge ∷ [])).0 ≡ wrote bs)
    × (header_read av 273 blank (bs ++ []) ≡ some (0, []))
unfolding write_specific marked_flags write_picture write_quant write_motion write_audio w8 w16 w32
    w64
header_gap_example =
    header_gap av 273 blank edge edge_specific []
      (fits 28 0 (1 ∷ 66 ∷ 0 ∷ 30 ∷ []) (omega arith) (omega arith) (omega arith)) (omega arith)
      refl refl (omega arith) (omega arith)
