-- ===== src/Pes/Probe.antt =====
-- What the probe finds: a start code anywhere but at the very end.
use ffmpeg_streaming.Base.{
  ℕ, ◌+◌, ◌/◌, ◌≡◌, ◌≢◌, refl, List, [], ◌∷◌, ◌++◌, ◌==◌, ◌||◌, Bool, true, false, arith,
  Bool-cases, inl, inr,
}
use ffmpeg_streaming.Base.Bytes.{rb32}
use ffmpeg_streaming.Pes.{is_pes_start_code, search, pes_read_probe}

-- The bytes that name a stream after 0, 0, 1: video, audio, and the two private streams.
abbrev pub is_stream_id : ℕ → Bool
is_stream_id c = (c / 16 == 14 || c / 32 == 6) || (c == 189 || c == 191)

is_pes_start_code-id : (c : ℕ) → is_stream_id c ≡ true → is_pes_start_code (256 + c) ≢ 0
unfolding is_pes_start_code
is_pes_start_code-id c h e = ground arith

search-here :
    (c e : ℕ) (bs : List ℕ) → is_stream_id c ≡ true → (search (0 ∷ 0 ∷ 1 ∷ c ∷ e ∷ bs) == 0) ≡ false
unfolding search
search-here c e bs h = ground (arith, is_pes_start_code-id c h)

search-later :
    (a b c d e : ℕ) (bs : List ℕ)
    → (search (b ∷ c ∷ d ∷ e ∷ bs) == 0) ≡ false
    → (search (a ∷ b ∷ c ∷ d ∷ e ∷ bs) == 0) ≡ false
unfolding search
search-later a b c d e bs h =
    elim (Bool-cases (is_pes_start_code (rb32 (a ∷ b ∷ c ∷ d ∷ [])) == 0)) [
      | inl z ↦ rw z h
      | inr z ↦ rw z z
    ]

search-found :
    (before : List ℕ) (c e : ℕ) (bs : List ℕ)
    → is_stream_id c ≡ true
    → (search (before ++ 0 ∷ 0 ∷ 1 ∷ c ∷ e ∷ bs) == 0) ≡ false
search-found [] c e bs h = search-here c e bs h
search-found (x ∷ []) c e bs h = search-later x 0 0 1 c (e ∷ bs) (search-found [] c e bs h)
search-found (x ∷ y ∷ []) c e bs h =
    search-later x y 0 0 1 (c ∷ e ∷ bs) (search-found (y ∷ []) c e bs h)
search-found (x ∷ y ∷ z ∷ []) c e bs h =
    search-later x y z 0 0 (1 ∷ c ∷ e ∷ bs) (search-found (y ∷ z ∷ []) c e bs h)
search-found (x ∷ y ∷ z ∷ w ∷ []) c e bs h =
    search-later x y z w 0 (0 ∷ 1 ∷ c ∷ e ∷ bs) (search-found (y ∷ z ∷ w ∷ []) c e bs h)
search-found (x ∷ y ∷ z ∷ w ∷ v ∷ before) c e bs h =
    search-later x y z w v (before ++ 0 ∷ 0 ∷ 1 ∷ c ∷ e ∷ bs)
      (search-found (y ∷ z ∷ w ∷ v ∷ before) c e bs h)

-- Data with a start code anywhere in it, and at least one byte after the code, is taken for such a
-- stream: the score is the one above AVPROBE_SCORE_EXTENSION.
pub pes_read_probe-found :
    (score : ℕ) (before : List ℕ) (c e : ℕ) (bs : List ℕ)
    → is_stream_id c ≡ true
    → pes_read_probe score (before ++ 0 ∷ 0 ∷ 1 ∷ c ∷ e ∷ bs) ≡ score + 1
unfolding pes_read_probe
pes_read_probe-found score before c e bs h = rw (search-found before c e bs h) refl
