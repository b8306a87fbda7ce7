-- ===== src/Header/Sections.antt =====
-- The specific parts of a stream in the header file: video parameters in three runs, and audio.
use ffmpeg_streaming.Base.{
  ℕ, ◌+◌, ◌%◌, ◌^◌, ◌≡◌, refl, ap, ◌∙◌, List, [], ◌++◌, arith, append_assoc, length,
}
use native.Mathlib.Nat.{mod-eq_of_lt}
use ffmpeg_streaming.Header.{Libav}
use ffmpeg_streaming.Header.Words.{w8, w16, w32, w64, r8, r16, r32, r64, Reader, ◌>>=◌, done, words}
use ffmpeg_streaming.Header.Codec.{
  Picture, Quant, Motion, Audio, PictureFits, QuantFits, MotionFits, AudioFits,
}

module _ (av : Libav) where
  open av use {Double, double2int, int2double, double_round, double_bits, thousandths}

  -- header_write from the time base to the buffer size. The two 16-bit rates and the first
  -- `max_qdiff` are written again further on, whole.
  unfoldable pub write_picture : Picture → Motion Double → List ℕ → List ℕ
  write_picture p m rest =
      w32 p.time_base_num
      ++ (w32 p.time_base_den
          ++ (w16 p.width
              ++ (w16 p.height
                  ++ (w16 p.gop_size
                      ++ (w32 p.pix_fmt
                          ++ (w8 p.qmin
                              ++ (w8 p.qmax
                                  ++ (w8 m.max_qdiff
                                      ++ (w16 (thousandths m.qcompress)
                                          ++ (w16 (thousandths m.qblur)
                                              ++ (w32 p.bit_rate_tolerance
                                                  ++ (w32 p.rc_max_rate
                                                      ++ (w32 p.rc_min_rate
                                                          ++ (w32 p.rc_buffer_size
                                                            ++ rest))))))))))))))

  unfoldable pub read_picture : Reader Picture
  read_picture = do
    time_base_num ← r32
    time_base_den ← r32
    width ← r16
    height ← r16
    gop_size ← r16
    pix_fmt ← r32
    qmin ← r8
    qmax ← r8
    max_qdiff ← r8
    qcompress ← r16
    qblur ← r16
    bit_rate_tolerance ← r32
    rc_max_rate ← r32
    rc_min_rate ← r32
    rc_buffer_size ← r32
    done (record {
      time_base_num = time_base_num;
      time_base_den = time_base_den;
      width = width;
      height = height;
      gop_size = gop_size;
      pix_fmt = pix_fmt;
      qmin = qmin;
      qmax = qmax;
      bit_rate_tolerance = bit_rate_tolerance;
      rc_max_rate = rc_max_rate;
      rc_min_rate = rc_min_rate;
      rc_buffer_size = rc_buffer_size;
    })

  pub read_picture-write :
      (p : Picture) (m : Motion Double) (rest : List ℕ) (k : ℕ)
      → PictureFits p
      → read_picture (write_picture p m rest, k) ≡ (p, (rest, k + 41))
  unfolding read_picture write_picture
  read_picture-write p m rest k v = simp words (ground (arith, v))

  -- from the first quantiser factor to the buffer aggressivity
  unfoldable pub write_quant : Quant Double → List ℕ → List ℕ
  write_quant q rest =
      w64 (double2int q.i_quant_factor)
      ++ (w64 (double2int q.b_quant_factor)
          ++ (w64 (double2int q.i_quant_offset)
              ++ (w64 (double2int q.b_quant_offset)
                  ++ (w32 q.dct_algo
                      ++ (w32 q.strict_std_compliance
                          ++ (w32 q.max_b_frames
                              ++ (w32 q.mpeg_quant
                                  ++ (w32 q.intra_dc_precision
                                      ++ (w32 q.me_method
                                          ++ (w32 q.mb_decision
                                              ++ (w32 q.nsse_weight
                                                  ++ (w32 q.frame_skip_cmp
                                                      ++ (w64 (double2int q.rc_buffer_aggressivity)
                                                          ++ rest)))))))))))))

  unfoldable pub read_quant : Reader (Quant Double)
  read_quant = do
    i_quant_factor ← r64
    b_quant_factor ← r64
    i_quant_offset ← r64
    b_quant_offset ← r64
    dct_algo ← r32
    strict_std_compliance ← r32
    max_b_frames ← r32
    mpeg_quant ← r32
    intra_dc_precision ← r32
    me_method ← r32
    mb_decision ← r32
    nsse_weight ← r32
    frame_skip_cmp ← r32
    rc_buffer_aggressivity ← r64
    done (record {
      i_quant_factor = int2double i_quant_factor;
      b_quant_factor = int2double b_quant_factor;
      i_quant_offset = int2double i_quant_offset;
      b_quant_offset = int2double b_quant_offset;
      dct_algo = dct_algo;
      strict_std_compliance = strict_std_compliance;
      max_b_frames = max_b_frames;
      mpeg_quant = mpeg_quant;
      intra_dc_precision = intra_dc_precision;
      me_method = me_method;
      mb_decision = mb_decision;
      nsse_weight = nsse_weight;
      frame_skip_cmp = frame_skip_cmp;
      rc_buffer_aggressivity = int2double rc_buffer_aggressivity;
    })

  double-mod : (d : Double) → int2double (double2int d % 2 ^ 64) ≡ d
  double-mod d = ap int2double (mod-eq_of_lt (double_bits d)) ∙ double_round d

  pub read_quant-write :
      (q : Quant Double) (rest : List ℕ) (k : ℕ)
      → QuantFits q
      → read_quant (write_quant q rest, k) ≡ (q, (rest, k + 76))
  unfolding read_quant write_quant
  read_quant-write q rest k v = simp (words, double-mod) (ground (arith, v))

  -- from the codec tag to the number of reference frames
  unfoldable pub write_motion : Motion Double → List ℕ → List ℕ
  write_motion m rest =
      w32 m.codec_tag
      ++ (w8 m.thread_count
          ++ (w32 m.coder_type
              ++ (w32 m.me_cmp
                  ++ (w32 m.me_subpel_quality
                      ++ (w32 m.me_range
                          ++ (w32 m.keyint_min
                              ++ (w32 m.scenechange_threshold
                                  ++ (w32 m.b_frame_strategy
                                      ++ (w64 (double2int m.qcompress)
                                          ++ (w64 (double2int m.qblur)
                                              ++ (w32 m.max_qdiff ++ (w32 m.refs ++ rest))))))))))))

  unfoldable pub read_motion : Reader (Motion Double)
  read_motion = do
    codec_tag ← r32
    thread_count ← r8
    coder_type ← r32
    me_cmp ← r32
    me_subpel_quality ← r32
    me_range ← r32
    keyint_min ← r32
    scenechange_threshold ← r32
    b_frame_strategy ← r32
    qcompress ← r64
    qblur ← r64
    max_qdiff ← r32
    refs ← r32
    done (record {
      codec_tag = codec_tag;
      thread_count = thread_count;
      coder_type = coder_type;
      me_cmp = me_cmp;
      me_subpel_quality = me_subpel_quality;
      me_range = me_range;
      keyint_min = keyint_min;
      scenechange_threshold = scenechange_threshold;
      b_frame_strategy = b_frame_strategy;
      qcompress = int2double qcompress;
      qblur = int2double qblur;
      max_qdiff = max_qdiff;
      refs = refs;
    })

  pub read_motion-write :
      (m : Motion Double) (rest : List ℕ) (k : ℕ)
      → MotionFits m
      → read_motion (write_motion m rest, k) ≡ (m, (rest, k + 57))
  unfolding read_motion write_motion
  read_motion-write m rest k v = simp (words, double-mod) (ground (arith, v))

  -- the case of an audio stream
  unfoldable pub write_audio : Audio → List ℕ → List ℕ
  write_audio a rest = w32 a.sample_rate ++ (w16 a.channels ++ (w16 a.frame_size ++ rest))

  unfoldable pub read_audio : Reader (Audio)
  read_audio = do
    sample_rate ← r32
    channels ← r16
    frame_size ← r16
    done (record { sample_rate = sample_rate; channels = channels; frame_size = frame_size })

  pub read_audio-write :
      (a : Audio) (rest : List ℕ) (k : ℕ)
      → AudioFits a
      → read_audio (write_audio a rest, k) ≡ (a, (rest, k + 8))
  unfolding read_audio write_audio
  read_audio-write a rest k v = simp words (ground (arith, v))

  pub read_video_bytes :
      (p : Picture) (q : Quant Double) (m : Motion Double) (rest : List ℕ)
      → write_picture p m (write_quant q (write_motion m [])) ++ rest
        ≡ write_picture p m (write_quant q (write_motion m rest))
  unfolding write_picture write_quant write_motion
  read_video_bytes p q m rest = simp append_assoc

  pub read_audio_bytes : (a : Audio) (rest : List ℕ) → write_audio a [] ++ rest ≡ write_audio a rest
  unfolding write_audio
  read_audio_bytes a rest = simp append_assoc

  pub length-write_video :
      (p : Picture) (q : Quant Double) (m : Motion Double)
      → length (write_picture p m (write_quant q (write_motion m []))) ≡ 174
  unfolding write_picture write_quant write_motion w8 w16 w32 w64
  length-write_video p q m = refl

  pub length-write_audio : (a : Audio) → length (write_audio a []) ≡ 8
  unfolding write_audio w16 w32
  length-write_audio a = refl
