-- ===== src/Pes/Packet/Built.antt =====
-- A packet with two stamps is read back.
use ffmpeg_streaming.Base.{
  ℕ, ◌+◌, ◌/◌, ◌%◌, ◌^◌, ◌<◌, ◌≡◌, refl, ap, ◌∙◌, List, [], ◌∷◌, ◌++◌, Bool, true, false, ◌==◌,
  some, arith, length, drop,
}
use ffmpeg_streaming.Base.Int.{pos}
use ffmpeg_streaming.Base.Bytes.{rb24, rb32}
use ffmpeg_streaming.Pes.{is_pes_start_code}
use ffmpeg_streaming.Pes.Stamps.{pts_bytes, parse_pes_pts-pts_bytes}
use ffmpeg_streaming.Pes.Packet.{
  Avio, packet, stamps, payload_size, fill, read_payload, pes_read_packet,
}

-- the header of a packet of the stream `id`, of `n` bytes from its flags on, with two stamps
abbrev pub header : ℕ → ℕ → ℕ → ℕ → List ℕ
header id n pts dts =
    0
    ∷ 0
    ∷ 1
    ∷ id
    ∷ (n / 2 ^ 16 % 256)
    ∷ (n / 2 ^ 8 % 256)
    ∷ (n % 256)
    ∷ 192
    ∷ 10
    ∷ (pts_bytes 3 pts ++ pts_bytes 1 dts)

header-size : (id n pts dts : ℕ) → n < 2 ^ 24 → rb24 (drop 4 (header id n pts dts)) ≡ n
header-size id n pts dts h = omega arith

header-stamps :
    (id n pts dts : ℕ)
    → pts < 2 ^ 33
    → dts < 2 ^ 33
    → stamps 192 (drop 9 (header id n pts dts)) ≡ (some pts, some dts)
unfolding stamps
header-stamps id n pts dts h k =
    rw (parse_pes_pts-pts_bytes 3 pts (pts_bytes 1 dts) (omega arith) h)
      (rw (parse_pes_pts-pts_bytes 1 dts [] (omega arith) k) refl)

payload_size-header : (n : ℕ) → n + 13 < 524288 → payload_size (n + 13) 19 ≡ pos n
unfolding payload_size
payload_size-header n h = ground (arith, h)

-- the payload of a header like this
read_payload-header :
    {S : Type 0} (a : Avio S) (unparsed : Bool) (start id pts dts : ℕ) (payload : List ℕ) (s s' : S)
    → length payload + 13 < 524288
    → pts < 2 ^ 33
    → dts < 2 ^ 33
    → a.read (length payload) (a.seek (start + 19) s) ≡ (payload, s')
    → read_payload a true unparsed start (header id (length payload + 13) pts dts) s
      ≡ packet
          (record {
            bytes = payload;
            size = length payload;
            pts = some pts;
            dts = some dts;
            key = unparsed;
          })
          s'
unfolding read_payload fill
read_payload-header a unparsed start id pts dts payload s s' h p d e =
    let n : ℕ = length payload in
    let buf : List ℕ = header id (n + 13) pts dts in
    let place = a.seek (start + 19) s in
    let whole : (n + 13 == 0) ≡ false = ground arith in
    ap (λ t. fill a true unparsed t (stamps 192 (drop 9 buf)) place (payload_size t 19))
      (header-size id (n + 13) pts dts (omega arith))
    ∙ ap (fill a true unparsed (n + 13) (stamps 192 (drop 9 buf)) place) (payload_size-header n h)
    ∙ ap (λ t. fill a true unparsed (n + 13) t place (pos n))
        (header-stamps id (n + 13) pts dts p d)
    ∙ rw whole (rw e refl)

-- A packet with two stamps of 33 bits, of a stream whose start code is known, and a payload of less than
-- 512 KiB less 13 bytes, is read back with its payload and its stamps, where the input gives its header
-- at the place where it stands, and the payload after it.
pub pes_read_packet-header :
    {S : Type 0} (a : Avio S) (rounds : ℕ) (unparsed : Bool) (id pts dts : ℕ) (payload : List ℕ)
    (s s1 s2 : S)
    → (is_pes_start_code (256 + id) == 0) ≡ false
    → length payload + 13 < 524288
    → pts < 2 ^ 33
    → dts < 2 ^ 33
    → a.read 19 s ≡ (header id (length payload + 13) pts dts, s1)
    → a.read (length payload) (a.seek (a.tell s + 19) s1) ≡ (payload, s2)
    → pes_read_packet a rounds true unparsed s
      ≡ packet
          (record {
            bytes = payload;
            size = length payload;
            pts = some pts;
            dts = some dts;
            key = unparsed;
          })
          s2
unfolding pes_read_packet
pes_read_packet-header a rounds unparsed id pts dts payload s s1 s2 c h p d e f =
    let code : rb32 (header id (length payload + 13) pts dts) ≡ 256 + id = omega arith in
    rw e
      (rw code (rw c (read_payload-header a unparsed (a.tell s) id pts dts payload s1 s2 h p d f)))
