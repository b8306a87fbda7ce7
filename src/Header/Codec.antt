-- ===== src/Header/Codec.antt =====
-- The stream parameters that the header file carries, by the groups in which they are written.
use ffmpeg_streaming.Base.{ℕ, List, ◌<◌, ◌^◌}

-- Ints are the bit patterns of their 32 bits.
pub record Picture : Type 0 where
  pub time_base_num : ℕ
  pub time_base_den : ℕ
  pub width : ℕ
  pub height : ℕ
  pub gop_size : ℕ
  pub pix_fmt : ℕ
  pub qmin : ℕ
  pub qmax : ℕ
  pub bit_rate_tolerance : ℕ
  pub rc_max_rate : ℕ
  pub rc_min_rate : ℕ
  pub rc_buffer_size : ℕ

pub record Quant (D : Type 0) : Type 0 where
  pub i_quant_factor : D
  pub b_quant_factor : D
  pub i_quant_offset : D
  pub b_quant_offset : D
  pub dct_algo : ℕ
  pub strict_std_compliance : ℕ
  pub max_b_frames : ℕ
  pub mpeg_quant : ℕ
  pub intra_dc_precision : ℕ
  pub me_method : ℕ
  pub mb_decision : ℕ
  pub nsse_weight : ℕ
  pub frame_skip_cmp : ℕ
  pub rc_buffer_aggressivity : D

pub record Motion (D : Type 0) : Type 0 where
  pub codec_tag : ℕ
  pub thread_count : ℕ
  pub coder_type : ℕ
  pub me_cmp : ℕ
  pub me_subpel_quality : ℕ
  pub me_range : ℕ
  pub keyint_min : ℕ
  pub scenechange_threshold : ℕ
  pub b_frame_strategy : ℕ
  pub qcompress : D
  pub qblur : D
  pub max_qdiff : ℕ
  pub refs : ℕ

pub record Audio : Type 0 where
  pub sample_rate : ℕ
  pub channels : ℕ
  pub frame_size : ℕ

-- `AVCodecContext`
pub record CodecContext (D : Type 0) : Type 0 where
  pub codec_id : ℕ
  pub codec_type : ℕ
  pub bit_rate : ℕ
  pub flags : ℕ
  pub flags2 : ℕ
  pub debug : ℕ
  pub extradata : List ℕ
  pub picture : Picture
  pub quant : Quant D
  pub motion : Motion D
  pub audio : Audio

-- `AVStream`
pub record Stream (D : Type 0) : Type 0 where
  pub pts_wrap_bits : ℕ
  pub time_base_num : ℕ
  pub time_base_den : ℕ
  pub codec : CodecContext D

-- the values that the header file has room for
pub record PictureFits (p : Picture) : Type 0 where
  pub time_base_num : p.time_base_num < 2 ^ 32
  pub time_base_den : p.time_base_den < 2 ^ 32
  pub width : p.width < 2 ^ 16
  pub height : p.height < 2 ^ 16
  pub gop_size : p.gop_size < 2 ^ 16
  pub pix_fmt : p.pix_fmt < 2 ^ 32
  pub qmin : p.qmin < 256
  pub qmax : p.qmax < 256
  pub bit_rate_tolerance : p.bit_rate_tolerance < 2 ^ 32
  pub rc_max_rate : p.rc_max_rate < 2 ^ 32
  pub rc_min_rate : p.rc_min_rate < 2 ^ 32
  pub rc_buffer_size : p.rc_buffer_size < 2 ^ 32

pub record QuantFits {D : Type 0} (q : Quant D) : Type 0 where
  pub dct_algo : q.dct_algo < 2 ^ 32
  pub strict_std_compliance : q.strict_std_compliance < 2 ^ 32
  pub max_b_frames : q.max_b_frames < 2 ^ 32
  pub mpeg_quant : q.mpeg_quant < 2 ^ 32
  pub intra_dc_precision : q.intra_dc_precision < 2 ^ 32
  pub me_method : q.me_method < 2 ^ 32
  pub mb_decision : q.mb_decision < 2 ^ 32
  pub nsse_weight : q.nsse_weight < 2 ^ 32
  pub frame_skip_cmp : q.frame_skip_cmp < 2 ^ 32

pub record MotionFits {D : Type 0} (m : Motion D) : Type 0 where
  pub codec_tag : m.codec_tag < 2 ^ 32
  pub thread_count : m.thread_count < 256
  pub coder_type : m.coder_type < 2 ^ 32
  pub me_cmp : m.me_cmp < 2 ^ 32
  pub me_subpel_quality : m.me_subpel_quality < 2 ^ 32
  pub me_range : m.me_range < 2 ^ 32
  pub keyint_min : m.keyint_min < 2 ^ 32
  pub scenechange_threshold : m.scenechange_threshold < 2 ^ 32
  pub b_frame_strategy : m.b_frame_strategy < 2 ^ 32
  pub max_qdiff : m.max_qdiff < 2 ^ 32
  pub refs : m.refs < 2 ^ 32

pub record AudioFits (a : Audio) : Type 0 where
  pub sample_rate : a.sample_rate < 2 ^ 32
  pub channels : a.channels < 2 ^ 16
  pub frame_size : a.frame_size < 2 ^ 16
