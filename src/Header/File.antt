-- ===== src/Header/File.antt =====
-- header_write and header_read over all streams, and ff_header_write and ff_header_read, which put
-- the bytes into a file. Allocations succeed. A list has no end of its own, so the code's writes past
-- its buffer of 8 KiB appear as a fault of `ff_write` alone, where every stream is written; where a
-- stream after them is refused, they do not appear.
use ffmpeg_streaming.Base.{
  ℕ, zero, suc, ◌+◌, ◌-◌, ◌%◌, ◌^◌, List, [], ◌∷◌, ◌++◌, Bool, Option, none, some, ltb, leb, ◌==◌,
  if◌then◌else◌, length, take, drop, replicate,
}
use ffmpeg_streaming.Base.Int.{ℤ, pos, negsuc}
use ffmpeg_streaming.Header.{Libav}
use ffmpeg_streaming.Header.Words.{w8, w32, r8, r32, Pointer, Reader, ◌>>=◌, done}
use ffmpeg_streaming.Header.Codec.{CodecContext, Stream}
use ffmpeg_streaming.Header.Sections.{
  write_picture, write_quant, write_motion, write_audio, read_picture, read_quant, read_motion,
  read_audio,
}

-- HEADER_SIZE
abbrev pub header_size : ℕ
header_size = 8192

-- the bytes written, or the value returned instead
pub data Written : Type 0 where
  wrote : List ℕ → Written
  refused : ℤ → Written

-- what a read gives: a value, the jump to `fail`, or a copy of a negative size
pub data Outcome {ℓ} (A : Type ℓ) : Type ℓ where
  ok : A → Outcome A
  failed : Outcome A
  faulted : Outcome A

module _ (av : Libav) where
  open av use {Double, media_video, media_audio, codec_none, global_header, with_global_header}

  -- `flags |= CODEC_FLAG_GLOBAL_HEADER` where there is extra data
  unfoldable pub marked_flags : CodecContext Double → ℕ
  marked_flags c = if ltb 0 (length c.extradata) then with_global_header c.flags else c.flags

  -- the stream as header_write leaves it
  unfoldable pub marked : Stream Double → Stream Double
  marked st =
      if st.codec.codec_id == codec_none
      then st
      else record st { codec = record (st.codec) { flags = marked_flags st.codec } }

  -- what every stream has in front: 33 bytes
  unfoldable pub write_generic : Stream Double → List ℕ → List ℕ
  write_generic st rest =
      let c = st.codec in
      w32 st.pts_wrap_bits
      ++ (w32 st.time_base_num
          ++ (w32 st.time_base_den
              ++ (w32 c.codec_id
                  ++ (w8 c.codec_type
                      ++ (w32 c.bit_rate
                          ++ (w32 (marked_flags c) ++ (w32 c.flags2 ++ (w32 c.debug ++ rest))))))))

  -- the switch on the type of the codec
  unfoldable pub write_specific : CodecContext Double → Written
  write_specific c =
      if c.codec_type == media_video
      then wrote (
          write_picture av c.picture c.motion
            (write_quant av c.quant (write_motion av c.motion [])))
      else if c.codec_type == media_audio
      then wrote (write_audio av c.audio [])
      else refused (negsuc 0)

  unfoldable pub after : (List ℕ → List ℕ) → Written → Written
  after f (wrote bs) = wrote (f bs)
  after f (refused r) = refused r

  -- one round of the loop; `at` bytes are written before it
  unfoldable pub write_stream : ℕ → ℕ → Stream Double → Written
  write_stream size at st =
      let c = st.codec in
      if c.codec_id == codec_none
      then refused (pos 0)
      else if global_header (marked_flags c)
      then (if ltb (size - 228) (at + 33 + length c.extradata)
          then refused (pos 0)
          else after (λ bs. write_generic st (w32 (length c.extradata) ++ (c.extradata ++ bs)))
              (write_specific c))
      else after (write_generic st) (write_specific c)

  unfoldable pub write_streams : ℕ → ℕ → List (Stream Double) → Written × List (Stream Double)
  write_streams size at [] = (wrote [], [])
  write_streams size at (st ∷ sts) = elim (write_stream size at st) [
    | refused r ↦ (refused r, marked st ∷ sts)
    | wrote bs ↦
        let (rest, sts') = write_streams size (at + length bs) sts in
        (after (λ k. bs ++ k) rest, marked st ∷ sts')
  ]

  -- the sum of the bit rates, as an int
  unfoldable pub total_bit_rate : List (Stream Double) → ℕ
  total_bit_rate [] = 0
  total_bit_rate (st ∷ sts) = (st.codec.bit_rate + total_bit_rate sts) % 2 ^ 32

  unfoldable pub header_write : ℕ → List (Stream Double) → Written × List (Stream Double)
  header_write size sts =
      let (r, sts') = write_streams size 8 sts in
      (after (λ bs. w32 (length sts) ++ (w32 (total_bit_rate sts) ++ bs)) r, sts')

  -- a new stream with the generic values read
  unfoldable pub read_generic : Stream Double → Reader (Stream Double)
  read_generic fresh = do
    pts_wrap_bits ← r32
    time_base_num ← r32
    time_base_den ← r32
    codec_id ← r32
    codec_type ← r8
    bit_rate ← r32
    flags ← r32
    flags2 ← r32
    debug ← r32
    done (record {
      pts_wrap_bits = pts_wrap_bits;
      time_base_num = time_base_num;
      time_base_den = time_base_den;
      codec = record (fresh.codec) {
        codec_id = codec_id;
        codec_type = codec_type;
        bit_rate = bit_rate;
        flags = flags;
        flags2 = flags2;
        debug = debug;
      };
    })

  unfoldable pub read_extradata : ℕ → Stream Double → Pointer → Outcome (Stream Double × Pointer)
  read_extradata size st p =
      if global_header st.codec.flags
      then (let (n, (bs, k)) = r32 p in
          if leb (2 ^ 31) n
          then faulted
          else if ltb (size - 228) (k + n)
          then failed
          else ok (
            record st { codec = record (st.codec) { extradata = take n bs } },
            (drop n bs, k + n),
          ))
      else ok (st, p)

  unfoldable pub read_video : CodecContext Double → Reader (CodecContext Double)
  read_video c = do
    picture ← read_picture av
    quant ← read_quant av
    motion ← read_motion av
    done (record c { picture = picture; quant = quant; motion = motion })

  unfoldable pub read_specific : Stream Double → Pointer → Outcome (Stream Double × Pointer)
  read_specific st p =
      if st.codec.codec_type == media_video
      then (let (c, q) = read_video st.codec p in ok (record st { codec = c }, q))
      else if st.codec.codec_type == media_audio
      then (let (a, q) = read_audio av p in
          ok (record st { codec = record (st.codec) { audio = a } }, q))
      else failed

  -- one round of the loop, on the stream that avformat_new_stream makes
  unfoldable pub read_stream : ℕ → Stream Double → Pointer → Outcome (Stream Double × Pointer)
  read_stream size fresh p =
      let (st, q) = read_generic fresh p in
      if st.codec.codec_id == codec_none then failed else elim (read_extradata size st q) [
        | ok (st', q') ↦ read_specific st' q'
        | failed ↦ failed
        | faulted ↦ faulted
      ]

  unfoldable pub read_streams :
      ℕ → Stream Double → ℕ → Pointer → Outcome (List (Stream Double) × Pointer)
  read_streams size fresh zero p = ok ([], p)
  read_streams size fresh (suc n) p = elim (read_stream size fresh p) [
    | failed ↦ failed
    | faulted ↦ faulted
    | ok (st, q) ↦ elim (read_streams size fresh n q) [
      | failed ↦ failed
      | faulted ↦ faulted
      | ok (sts, q') ↦ ok (st ∷ sts, q')
    ]
  ]

  -- the number of bytes read, and the streams, all freed again after a failure; `none` is a fault
  unfoldable pub header_read : ℕ → Stream Double → List ℕ → Option (ℕ × List (Stream Double))
  header_read size fresh buf =
      let (n, p) = r32 (buf, 0) in
      let (rate, q) = r32 p in
      let count = if leb (2 ^ 31) n then 0 else n in
      elim (read_streams size fresh count q) [
        | ok (sts, (rest, k)) ↦ some (k, sts)
        | failed ↦ some (0, [])
        | faulted ↦ none
      ]

  -- `ff_header_write`: the length and the file written, if fopen succeeds; `none` is a fault
  unfoldable pub ff_write : List (Stream Double) → Bool → Option (ℕ × Option (List ℕ))
  ff_write [] opened = some (0, none)
  ff_write (st ∷ sts) opened = elim ((header_write header_size (st ∷ sts)).0) [
    | refused r ↦ some (0, none)
    | wrote bs ↦
        if ltb header_size (length bs)
        then none
        else if opened
        then some (length bs, some bs)
        else some (0, none)
  ]

  -- `ff_header_read` into a context with no streams, from a file that may not exist
  unfoldable pub ff_read : Stream Double → Option (List ℕ) → Option (ℕ × List (Stream Double))
  ff_read fresh none = some (0, [])
  ff_read fresh (some file) =
      header_read header_size fresh
        (take header_size file ++ replicate (header_size - length file) 0)
