-- ===== src/Header/RoundTrip.antt =====
-- All streams: what header_write writes is what header_read reads.
use ffmpeg_streaming.Base.{
  ℕ, ◌+◌, ◌^◌, ◌≤◌, ◌<◌, ◌≡◌, refl, ap, ◌∙◌, List, [], ◌∷◌, ◌++◌, some, arith, length, map,
  append_assoc, All, length-append,
}
use ffmpeg_streaming.Header.{Libav}
use ffmpeg_streaming.Header.Words.{w32, r32-w32}
use ffmpeg_streaming.Header.Codec.{Stream}
use ffmpeg_streaming.Header.File.{
  Written, wrote, refused, ok, after, write_stream, write_streams, header_write, read_streams,
  header_read, total_bit_rate,
}
use ffmpeg_streaming.Header.OneStream.{StreamFits, restored, stream-roundtrip, length-w32}

module _ (av : Libav) where
  open av use {Double}

  streams-roundtrip :
      (wsize rsize at : ℕ) (fresh : Stream Double) (sts : List (Stream Double)) (bs rest : List ℕ)
      → 228 ≤ wsize
      → wsize + 4 ≤ rsize
      → All (StreamFits av) sts
      → (write_streams av wsize at sts).0 ≡ wrote bs
      → read_streams av rsize fresh (length sts) (bs ++ rest, at)
        ≡ ok (map (restored av fresh) sts, (rest, at + length bs))
  unfolding write_streams read_streams after
  streams-roundtrip wsize rsize at fresh [] bs rest lo hi v e = ground arith
  streams-roundtrip wsize rsize at fresh (st ∷ sts) bs rest lo hi v e =
      first (λ at' ys f. streams-roundtrip wsize rsize at' fresh sts ys rest lo hi v.1 f)
        (write_stream av wsize at st) refl
    where
      Goal : Type 0
      Goal =
          read_streams av rsize fresh (length (st ∷ sts)) (bs ++ rest, at)
          ≡ ok (map (restored av fresh) (st ∷ sts), (rest, at + length bs))

      more :
          (xs : List ℕ) (w : Written)
          → write_stream av wsize at st ≡ wrote xs
          → (write_streams av wsize (at + length xs) sts).0 ≡ w
          → ((ys : List ℕ)
              → (write_streams av wsize (at + length xs) sts).0 ≡ wrote ys
              → read_streams av rsize fresh (length sts) (ys ++ rest, at + length xs)
                ≡ ok (map (restored av fresh) sts, (rest, at + length xs + length ys)))
          → Goal
      more xs (refused r) w w2 ih = ground (arith, w, w2)
      more xs (wrote ys) w w2 ih =
          let e1 : bs ≡ xs ++ ys = ground (arith, w, w2) in
          ground (
            arith,
            ap (λ k. k ++ rest) e1 ∙ append_assoc xs ys rest,
            ap length e1 ∙ length-append xs ys,
            stream-roundtrip av wsize rsize at fresh st xs (ys ++ rest) lo hi v.0 w,
            ih ys w2,
          )

      first :
          ((at' : ℕ) (ys : List ℕ)
            → (write_streams av wsize at' sts).0 ≡ wrote ys
            → read_streams av rsize fresh (length sts) (ys ++ rest, at')
              ≡ ok (map (restored av fresh) sts, (rest, at' + length ys)))
          → (w : Written) → write_stream av wsize at st ≡ w
          → Goal
      first ih (refused r) w = ground (arith, w)
      first ih (wrote xs) w =
          more xs (write_streams av wsize (at + length xs) sts).0 w refl
            (λ ys f. ih (at + length xs) ys f)

  -- Streams whose values fit the header, fewer than 2^31, that header_write accepts under a bound of
  -- at least 228 bytes are read back from its bytes, whatever follows them, under a bound larger by
  -- 4 or more: the reader takes exactly those bytes, and each new stream gets all that is carried.
  pub header-roundtrip :
      (wsize rsize : ℕ) (fresh : Stream Double) (sts : List (Stream Double)) (bs rest : List ℕ)
      → 228 ≤ wsize
      → wsize + 4 ≤ rsize
      → length sts < 2 ^ 31
      → All (StreamFits av) sts
      → (header_write av wsize sts).0 ≡ wrote bs
      → header_read av rsize fresh (bs ++ rest) ≡ some (length bs, map (restored av fresh) sts)
  unfolding header_write header_read after
  header-roundtrip wsize rsize fresh sts bs rest lo hi few v e =
      go (write_streams av wsize 8 sts).0 refl
    where
      go :
          (w : Written)
          → (write_streams av wsize 8 sts).0 ≡ w
          → header_read av rsize fresh (bs ++ rest) ≡ some (length bs, map (restored av fresh) sts)
      go (refused r) w = ground (arith, w)
      go (wrote xs) w =
          let n : ℕ = length sts in
          let rate : ℕ = total_bit_rate av sts in
          let e1 : bs ≡ w32 n ++ (w32 rate ++ xs) = ground (arith, w) in
          let flat : bs ++ rest ≡ w32 n ++ (w32 rate ++ (xs ++ rest)) =
            ap (λ k. k ++ rest) e1
            ∙ append_assoc (w32 n) (w32 rate ++ xs) rest
            ∙ ap (λ k. w32 n ++ k) (append_assoc (w32 rate) xs rest) in
          let size : length bs ≡ 8 + length xs =
            ap length e1
            ∙ omega (
              arith,
              length-append (w32 n) (w32 rate ++ xs),
              length-append (w32 rate) xs,
              length-w32 n,
              length-w32 rate,
            ) in
          ground (
            arith,
            flat,
            size,
            r32-w32 n 0 (w32 rate ++ (xs ++ rest)),
            r32-w32 rate 4 (xs ++ rest),
            streams-roundtrip wsize rsize 8 fresh sts xs rest lo hi v w,
          )
