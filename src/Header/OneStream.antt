-- ===== src/Header/OneStream.antt =====
-- One stream: what a round of header_write writes, a round of header_read reads.
use ffmpeg_streaming.Base.{
  ℕ, ◌+◌, ◌-◌, ◌^◌, ◌≤◌, ◌<◌, ◌≡◌, ◌≢◌, refl, ap, ◌∙◌, List, ◌++◌, true, false, arith, ◌==◌,
  if◌then◌else◌, length, append_assoc, Bool-cases, inl, inr, length-append, take-length_append,
  drop-length_append,
}
use ffmpeg_streaming.Header.{Libav}
use ffmpeg_streaming.Header.Words.{w8, w32, Pointer, words, r32-w32}
use ffmpeg_streaming.Header.Codec.{
  CodecContext, Stream, PictureFits, QuantFits, MotionFits, AudioFits,
}
use ffmpeg_streaming.Header.Sections.{
  read_picture-write, read_quant-write, read_motion-write, read_audio-write, read_video_bytes,
  read_audio_bytes, length-write_video, length-write_audio, write_picture, write_quant,
  write_motion, write_audio,
}
use ffmpeg_streaming.Header.File.{
  Written, wrote, refused, ok, marked_flags, after, write_generic, write_specific, write_stream,
  read_generic, read_extradata, read_video, read_specific, read_stream,
}

pub length-w32 : (n : ℕ) → length (w32 n) ≡ 4
unfolding w32
length-w32 n = refl

module _ (av : Libav) where
  open av use {
    Double, media_video, media_audio, media_ne, codec_none, global_header, with_global_header-lt,
  }

  -- the values that the header file has room for
  pub record StreamFits (st : Stream Double) : Type 0 where
    pub pts_wrap_bits : st.pts_wrap_bits < 2 ^ 32
    pub time_base_num : st.time_base_num < 2 ^ 32
    pub time_base_den : st.time_base_den < 2 ^ 32
    pub codec_id : st.codec.codec_id < 2 ^ 32
    pub codec_type : st.codec.codec_type < 256
    pub bit_rate : st.codec.bit_rate < 2 ^ 32
    pub flags : st.codec.flags < 2 ^ 32
    pub flags2 : st.codec.flags2 < 2 ^ 32
    pub debug : st.codec.debug < 2 ^ 32
    pub extradata : length st.codec.extradata < 2 ^ 31
    pub picture : PictureFits st.codec.picture
    pub quant : QuantFits st.codec.quant
    pub motion : MotionFits st.codec.motion
    pub audio : AudioFits st.codec.audio

  -- a new stream once the generic values of `st` are in it
  abbrev pub generic : Stream Double → Stream Double → Stream Double
  generic fresh st = record {
    pts_wrap_bits = st.pts_wrap_bits;
    time_base_num = st.time_base_num;
    time_base_den = st.time_base_den;
    codec = record (fresh.codec) {
      codec_id = st.codec.codec_id;
      codec_type = st.codec.codec_type;
      bit_rate = st.codec.bit_rate;
      flags = marked_flags av st.codec;
      flags2 = st.codec.flags2;
      debug = st.codec.debug;
    };
  }

  -- and its extra data, if its flags call for them
  abbrev pub with_extradata : Stream Double → Stream Double → Stream Double
  with_extradata st new =
      if global_header (marked_flags av st.codec)
      then record new { codec = record (new.codec) { extradata = st.codec.extradata } }
      else new

  -- and the parameters of its type
  abbrev pub with_specific : Stream Double → Stream Double → Stream Double
  with_specific st new =
      if st.codec.codec_type == media_video
      then record new {
        codec = record (new.codec) {
          picture = st.codec.picture;
          quant = st.codec.quant;
          motion = st.codec.motion;
        };
      }
      else record new { codec = record (new.codec) { audio = st.codec.audio } }

  -- a new stream once all that the file carries of `st` is in it
  abbrev pub restored : Stream Double → Stream Double → Stream Double
  restored fresh st = with_specific st (with_extradata st (generic fresh st))

  marked_flags-lt : (c : CodecContext Double) → c.flags < 2 ^ 32 → marked_flags av c < 2 ^ 32
  unfolding marked_flags
  marked_flags-lt c h = ground (arith, with_global_header-lt c.flags h)

  pub read_generic-write :
      (fresh st : Stream Double) (rest : List ℕ) (k : ℕ)
      → StreamFits st
      → read_generic av fresh (write_generic av st rest, k) ≡ (generic fresh st, (rest, k + 33))
  unfolding read_generic write_generic
  read_generic-write fresh st rest k v =
      simp words (ground (arith, v, marked_flags-lt st.codec v.flags))

  pub generic-append :
      (st : Stream Double) (xs rest : List ℕ)
      → write_generic av st xs ++ rest ≡ write_generic av st (xs ++ rest)
  unfolding write_generic
  generic-append st xs rest = simp append_assoc

  length-generic :
      (st : Stream Double) (rest : List ℕ) → length (write_generic av st rest) ≡ 33 + length rest
  unfolding write_generic w8 w32
  length-generic st rest = omega arith

  specific-video :
      (st new : Stream Double) (rest : List ℕ) (k : ℕ)
      → StreamFits st
      → st.codec.codec_type ≡ media_video
      → new.codec.codec_type ≡ st.codec.codec_type
      → read_specific av new (
        write_picture av st.codec.picture st.codec.motion
            (write_quant av st.codec.quant (write_motion av st.codec.motion rest)),
        k,
      )
        ≡ ok (with_specific st new, (rest, k + 174))
  unfolding read_specific read_video
  specific-video st new rest k v e f =
      let c : CodecContext Double = st.codec in
      let b : ((new.codec.codec_type == media_video) ≡ true) = ground arith in
      let d : ((c.codec_type == media_video) ≡ true) = ground arith in
      rw (b, d)
        (simp
          (
            read_picture-write av c.picture c.motion
                (write_quant av c.quant (write_motion av c.motion rest)) k v.picture,
            read_quant-write av c.quant (write_motion av c.motion rest) (k + 41) v.quant,
            read_motion-write av c.motion rest (k + 41 + 76) v.motion,
          )
          (ground arith))

  specific-audio :
      (st new : Stream Double) (rest : List ℕ) (k : ℕ)
      → StreamFits st
      → st.codec.codec_type ≢ media_video
      → st.codec.codec_type ≡ media_audio
      → new.codec.codec_type ≡ st.codec.codec_type
      → read_specific av new (write_audio av st.codec.audio rest, k)
        ≡ ok (with_specific st new, (rest, k + 8))
  unfolding read_specific
  specific-audio st new rest k v ne e f =
      ground (arith, read_audio-write av st.codec.audio rest k v.audio)

  specific-write :
      (st new : Stream Double) (bs rest : List ℕ) (k : ℕ)
      → StreamFits st
      → write_specific av st.codec ≡ wrote bs
      → new.codec.codec_type ≡ st.codec.codec_type
      → read_specific av new (bs ++ rest, k) ≡ ok (with_specific st new, (rest, k + length bs))
  unfolding write_specific
  specific-write st new bs rest k v e f =
      let c : CodecContext Double = st.codec in
      elim (Bool-cases (c.codec_type == media_video)) [
        | inl b ↦ ground (
          arith,
          read_video_bytes av c.picture c.quant c.motion rest,
          length-write_video av c.picture c.quant c.motion,
          specific-video st new rest k v (ground arith) f,
        )
        | inr b ↦ elim (Bool-cases (c.codec_type == media_audio)) [
          | inl d ↦ ground (
            arith,
            read_audio_bytes av c.audio rest,
            length-write_audio av c.audio,
            specific-audio st new rest k v (ground arith) (ground arith) f,
          )
          | inr d ↦ ground arith
        ]
      ]

  extradata-write :
      (size : ℕ) (st new : Stream Double) (rest : List ℕ) (k : ℕ)
      → StreamFits st
      → new.codec.flags ≡ marked_flags av st.codec
      → global_header (marked_flags av st.codec) ≡ true
      → k + 4 + length st.codec.extradata ≤ size - 228
      → read_extradata av size new
          (w32 (length st.codec.extradata) ++ (st.codec.extradata ++ rest), k)
        ≡ ok (with_extradata st new, (rest, k + 4 + length st.codec.extradata))
  unfolding read_extradata
  extradata-write size st new rest k v f g h =
      let e : List ℕ = st.codec.extradata in
      ground (
        arith,
        v.extradata,
        r32-w32 (length e) k (e ++ rest),
        take-length_append e rest,
        drop-length_append e rest,
      )

  no_extradata :
      (size : ℕ) (new : Stream Double) (p : Pointer)
      → global_header new.codec.flags ≡ false
      → read_extradata av size new p ≡ ok (new, p)
  unfolding read_extradata
  no_extradata size new p g = ground (arith, g)

  -- One stream that header_write accepts under a bound is read back under a bound larger by 4.
  pub stream-roundtrip :
      (wsize rsize at : ℕ) (fresh st : Stream Double) (bs rest : List ℕ)
      → 228 ≤ wsize
      → wsize + 4 ≤ rsize
      → StreamFits st
      → write_stream av wsize at st ≡ wrote bs
      → read_stream av rsize fresh (bs ++ rest, at) ≡ ok (restored fresh st, (rest, at + length bs))
  unfolding write_stream read_stream after
  stream-roundtrip wsize rsize at fresh st bs rest lo hi v e =
      spec (write_specific av st.codec) refl
    where
      c : CodecContext Double
      c = st.codec

      spec :
          (w : Written)
          → write_specific av st.codec ≡ w
          → read_stream av rsize fresh (bs ++ rest, at)
            ≡ ok (restored fresh st, (rest, at + length bs))
      spec (refused r) w = ground (arith, w)
      spec (wrote xs) w = elim (Bool-cases (global_header (marked_flags av c))) [
        | inl g ↦
            let tail : List ℕ = w32 (length c.extradata) ++ (c.extradata ++ xs) in
            let e1 : bs ≡ write_generic av st tail = ground (arith, w, g) in
            let regroup : tail ++ rest ≡ w32 (length c.extradata) ++ (c.extradata ++ (xs ++ rest)) =
              append_assoc (w32 (length c.extradata)) (c.extradata ++ xs) rest
              ∙ ap (λ k. w32 (length c.extradata) ++ k) (append_assoc c.extradata xs rest) in
            let size : length bs ≡ 33 + (4 + (length c.extradata + length xs)) =
              ap length e1
              ∙ length-generic st tail
              ∙ omega (
                arith,
                length-append (w32 (length c.extradata)) (c.extradata ++ xs),
                length-append c.extradata xs,
                length-w32 (length c.extradata),
              ) in
            let room : at + 33 + 4 + length c.extradata ≤ rsize - 228 = ground (arith, g) in
            ground (
              arith,
              w,
              g,
              size,
              ap (λ k. k ++ rest) e1 ∙ generic-append st tail rest,
              ap (λ k. write_generic av st k) regroup,
              read_generic-write fresh st
                  (w32 (length c.extradata) ++ (c.extradata ++ (xs ++ rest))) at v,
              extradata-write rsize st (generic fresh st) (xs ++ rest) (at + 33) v refl g room,
              specific-write st (with_extradata st (generic fresh st)) xs rest
                  (at + 33 + 4 + length c.extradata) v w (ground (arith, g)),
            )
        | inr g ↦
            let e1 : bs ≡ write_generic av st xs = ground (arith, w, g) in
            let size : length bs ≡ 33 + length xs = ap length e1 ∙ length-generic st xs in
            let none_read : read_extradata av rsize (generic fresh st) (xs ++ rest, at + 33)
                ≡ ok (generic fresh st, (xs ++ rest, at + 33)) =
              no_extradata rsize (generic fresh st) (xs ++ rest, at + 33) g in
            ground (
              arith,
              w,
              g,
              size,
              ap (λ k. k ++ rest) e1 ∙ generic-append st xs rest,
              read_generic-write fresh st (xs ++ rest) at v,
              none_read,
              specific-write st (generic fresh st) xs rest (at + 33) v w refl,
            )
      ]
