-- ===== src/Pes.antt =====
-- pes.c: start codes, time stamps and the probe of a packetised elementary stream
-- (is_pes_start_code, parse_pes_pts, pes_read_probe).
pub mod Packet
pub mod Probe
pub mod Stamps
use ffmpeg_streaming.Base.{
  ℕ, ◌+◌, ◌*◌, ◌/◌, ◌%◌, ◌^◌, List, [], ◌∷◌, ◌==◌, ◌||◌, if◌then◌else◌, get_or, drop,
}
use ffmpeg_streaming.Base.Bytes.{rb16, rb32}

-- `is_pes_start_code` of the 32 bits of a code: 1 is video, 2 is audio or a private stream
unfoldable pub is_pes_start_code : ℕ → ℕ
is_pes_start_code code =
    if code / 16 == 30
    then 1
    else if code / 32 == 14
    then 2
    else if code == 445 || code == 447
    then 2
    else 0

-- `parse_pes_pts`; the three parts that it joins have no bit in common
unfoldable pub parse_pes_pts : List ℕ → ℕ
parse_pes_pts buf =
    get_or buf 0 0 / 2 % 8 * 2 ^ 30 + rb16 (drop 1 buf) / 2 * 2 ^ 15 + rb16 (drop 3 buf) / 2

-- The loop of `pes_read_probe`, which stops at the first code found, or with four bytes left. The
-- pointer is the bytes from it on.
pub search : List ℕ → ℕ
unfolding is_pes_start_code
search (a ∷ b ∷ c ∷ d ∷ e ∷ bs) =
    let rest = search (b ∷ c ∷ d ∷ e ∷ bs) in
    let found = is_pes_start_code (rb32 (a ∷ b ∷ c ∷ d ∷ [])) in if found == 0 then rest else found
search bs = 0

-- `pes_read_probe`; `score` is AVPROBE_SCORE_EXTENSION
pub pes_read_probe : ℕ → List ℕ → ℕ
unfolding search
pes_read_probe score bs = if search bs == 0 then 0 else score + 1
