-- ===== src/Header/Gap.antt =====
-- The two limits on extra data, which differ, and the header file as a whole.
use ffmpeg_streaming.Base.{
  ℕ, ◌+◌, ◌-◌, ◌^◌, ◌≤◌, ◌<◌, ◌≡◌, ◌≢◌, refl, ap, ◌∙◌, List, [], ◌∷◌, ◌++◌, true, some, arith,
  length, map, append_assoc, All, take_all, replicate,
}
use ffmpeg_streaming.Header.{Libav}
use ffmpeg_streaming.Header.Words.{w32, r32-w32}
use ffmpeg_streaming.Header.Codec.{Stream}
use ffmpeg_streaming.Header.File.{
  Written, wrote, refused, failed, marked_flags, after, write_generic, write_specific, write_stream,
  write_streams, header_write, read_extradata, read_stream, read_streams, header_read,
  total_bit_rate, ff_write, ff_read, header_size,
}
use ffmpeg_streaming.Header.OneStream.{StreamFits, restored, read_generic-write, generic-append}
use ffmpeg_streaming.Header.RoundTrip.{header-roundtrip}

module _ (av : Libav) where
  open av use {Double, codec_none, global_header}

  -- A larger bound accepts what a smaller one does, with the same bytes.
  write_stream_mono :
      (size more at : ℕ) (st : Stream Double) (bs : List ℕ)
      → size ≤ more
      → write_stream av size at st ≡ wrote bs
      → write_stream av more at st ≡ wrote bs
  unfolding write_stream
  write_stream_mono size more at st bs h e = ground arith

  write_streams_mono :
      (size more at : ℕ) (sts : List (Stream Double)) (bs : List ℕ)
      → size ≤ more
      → (write_streams av size at sts).0 ≡ wrote bs
      → (write_streams av more at sts).0 ≡ wrote bs
  unfolding write_streams after
  write_streams_mono size more at [] bs h e = e
  write_streams_mono size more at (st ∷ sts) bs h e =
      first (λ at' ys f. write_streams_mono size more at' sts ys h f) (write_stream av size at st)
        refl
    where
      second :
          (xs : List ℕ) (w : Written)
          → write_stream av size at st ≡ wrote xs
          → (write_streams av size (at + length xs) sts).0 ≡ w
          → ((ys : List ℕ)
              → (write_streams av size (at + length xs) sts).0 ≡ wrote ys
              → (write_streams av more (at + length xs) sts).0 ≡ wrote ys)
          → (write_streams av more at (st ∷ sts)).0 ≡ wrote bs
      second xs (refused r) w w2 ih = ground (arith, w, w2)
      second xs (wrote ys) w w2 ih =
          ground (arith, w, w2, write_stream_mono size more at st xs h w, ih ys w2)

      first :
          ((at' : ℕ) (ys : List ℕ)
            → (write_streams av size at' sts).0 ≡ wrote ys
            → (write_streams av more at' sts).0 ≡ wrote ys)
          → (w : Written) → write_stream av size at st ≡ w
          → (write_streams av more at (st ∷ sts)).0 ≡ wrote bs
      first ih (refused r) w = ground (arith, w)
      first ih (wrote xs) w =
          second xs (write_streams av size (at + length xs) sts).0 w refl
            (λ ys f. ih (at + length xs) ys f)

  header_write_mono :
      (size more : ℕ) (sts : List (Stream Double)) (bs : List ℕ)
      → size ≤ more
      → (header_write av size sts).0 ≡ wrote bs
      → (header_write av more sts).0 ≡ wrote bs
  unfolding header_write after
  header_write_mono size more sts bs h e = go (write_streams av size 8 sts).0 refl
    where
      go :
          (w : Written)
          → (write_streams av size 8 sts).0 ≡ w
          → (header_write av more sts).0 ≡ wrote bs
      go (refused r) w = ground (arith, w)
      go (wrote xs) w = ground (arith, w, write_streams_mono size more 8 sts xs h w)

  -- Of streams whose values fit the header, at least one and fewer than 2^31, that header_write
  -- accepts with at most 8192 bytes under its bound less 4, ff_header_write makes a file of those
  -- bytes and returns their number, and ff_header_read returns the same number for that file and
  -- makes a stream for each, with all that is carried.
  pub file-roundtrip :
      (fresh st : Stream Double) (sts : List (Stream Double)) (bs : List ℕ)
      → length (st ∷ sts) < 2 ^ 31
      → All (StreamFits av) (st ∷ sts)
      → (header_write av (header_size - 4) (st ∷ sts)).0 ≡ wrote bs
      → length bs ≤ header_size
      → (ff_write av (st ∷ sts) true ≡ some (length bs, some bs))
        × (ff_read av fresh (some bs) ≡ some (length bs, map (restored av fresh) (st ∷ sts)))
  unfolding ff_write ff_read
  file-roundtrip fresh st sts bs few v e h = (
    ground (arith, header_write_mono (header_size - 4) header_size (st ∷ sts) bs (omega arith) e),
    ap (λ k. header_read av header_size fresh (k ++ replicate (header_size - length bs) 0))
          (take_all bs header_size h)
        ∙ header-roundtrip av (header_size - 4) header_size fresh (st ∷ sts) bs
            (replicate (header_size - length bs) 0) (omega arith) (omega arith) few v e,
  )

  read-too_large :
      (size k : ℕ) (fresh st : Stream Double) (xs : List ℕ)
      → StreamFits av st
      → st.codec.codec_id ≢ codec_none
      → global_header (marked_flags av st.codec) ≡ true
      → size - 228 < k + 37 + length st.codec.extradata
      → read_stream av size fresh (write_generic av st (w32 (length st.codec.extradata) ++ xs), k)
        ≡ failed
  unfolding read_stream read_extradata
  read-too_large size k fresh st xs v id g h = ground (
    arith,
    v.extradata,
    id,
    g,
    read_generic-write av fresh st (w32 (length st.codec.extradata) ++ xs) k v,
    r32-w32 (length st.codec.extradata) (k + 33) xs,
  )

  written_bytes : Stream Double → List ℕ → List ℕ
  written_bytes st xs =
      w32 1
      ++ (w32 (total_bit_rate av (st ∷ []))
          ++ (write_generic av st (w32 (length st.codec.extradata) ++ (st.codec.extradata ++ xs))
              ++ []))

  write-at_limit :
      (size : ℕ) (st : Stream Double) (xs : List ℕ)
      → st.codec.codec_id ≢ codec_none
      → global_header (marked_flags av st.codec) ≡ true
      → write_specific av st.codec ≡ wrote xs
      → 41 + length st.codec.extradata ≤ size - 228
      → (header_write av size (st ∷ [])).0 ≡ wrote (written_bytes st xs)
  unfolding header_write write_streams write_stream after written_bytes
  write-at_limit size st xs id g w h = ground (arith, id, g, w)

  written_bytes-flat :
      (st : Stream Double) (xs rest : List ℕ)
      → written_bytes st xs ++ rest
        ≡ w32 1
          ++ (w32 (total_bit_rate av (st ∷ []))
              ++ write_generic av st
                  (w32 (length st.codec.extradata) ++ (st.codec.extradata ++ (xs ++ ([] ++ rest)))))
  unfolding written_bytes
  written_bytes-flat st xs rest =
      let extra : List ℕ = st.codec.extradata in
      let rate : ℕ = total_bit_rate av (st ∷ []) in
      let tail : List ℕ = w32 (length extra) ++ (extra ++ xs) in
      append_assoc (w32 1) (w32 rate ++ (write_generic av st tail ++ [])) rest
      ∙ ap (λ k. w32 1 ++ k)
          (append_assoc (w32 rate) (write_generic av st tail ++ []) rest
            ∙ ap (λ k. w32 rate ++ k)
                (append_assoc (write_generic av st tail) [] rest
                  ∙ generic-append av st tail ([] ++ rest)
                  ∙ ap (λ k. write_generic av st k)
                      (append_assoc (w32 (length extra)) (extra ++ xs) ([] ++ rest)
                        ∙ ap (λ k. w32 (length extra) ++ k) (append_assoc extra xs ([] ++ rest)))))

  read-over_limit :
      (size : ℕ) (fresh st : Stream Double) (xs rest : List ℕ)
      → StreamFits av st
      → st.codec.codec_id ≢ codec_none
      → global_header (marked_flags av st.codec) ≡ true
      → size - 228 < 45 + length st.codec.extradata
      → header_read av size fresh (written_bytes st xs ++ rest) ≡ some (0, [])
  unfolding header_read read_streams
  read-over_limit size fresh st xs rest v id g h =
      let extra : List ℕ = st.codec.extradata in
      let rate : ℕ = total_bit_rate av (st ∷ []) in
      let tail : List ℕ = extra ++ (xs ++ ([] ++ rest)) in
      ground (
        arith,
        written_bytes-flat st xs rest,
        r32-w32 1 0 (w32 rate ++ write_generic av st (w32 (length extra) ++ tail)),
        r32-w32 rate 4 (write_generic av st (w32 (length extra) ++ tail)),
        read-too_large size 8 fresh st tail v id g (omega arith),
      )

  -- Of a bound the code keeps 228 bytes free. Of a single stream with a global header, whose values fit
  -- the header and whose extra data end within the rest by the writer's count, that is with 41 bytes
  -- before them, and not by the reader's, that is with 45, header_write writes all, without an error;
  -- header_read under the same bound fails on those bytes, whatever follows them, returns 0 and makes no
  -- stream.
  pub header_gap :
      (size : ℕ) (fresh st : Stream Double) (xs rest : List ℕ)
      → StreamFits av st
      → st.codec.codec_id ≢ codec_none
      → global_header (marked_flags av st.codec) ≡ true
      → write_specific av st.codec ≡ wrote xs
      → 41 + length st.codec.extradata ≤ size - 228
      → size - 228 < 45 + length st.codec.extradata
      → (bs : List ℕ) × ((header_write av size (st ∷ [])).0 ≡ wrote bs)
        × (header_read av size fresh (bs ++ rest) ≡ some (0, []))
  header_gap size fresh st xs rest v id g w h k = (
    written_bytes st xs,
    write-at_limit size st xs id g w h,
    read-over_limit size fresh st xs rest v id g k,
  )
