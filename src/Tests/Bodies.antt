-- ===== src/Tests/Bodies.antt =====
-- Runs of elementary streams.
use ffmpeg_streaming.Base.{◌≡◌, refl, [], ◌∷◌, ◌++◌, arith}
use ffmpeg_streaming.Pes.{pes_read_probe}
use ffmpeg_streaming.Pes.Probe.{pes_read_probe-found}
use ffmpeg_streaming.Base.{ℕ, List, ◌+◌, ◌-◌, true, false, some, take, drop}
use ffmpeg_streaming.Pes.{is_pes_start_code}
use ffmpeg_streaming.Pes.Packet.{Avio, packet, pes_read_packet}
use ffmpeg_streaming.Pes.Packet.Built.{header, pes_read_packet-header}

pes_read_probe-found_example : pes_read_probe 50 ((71 ∷ 0 ∷ []) ++ 0 ∷ 0 ∷ 1 ∷ 224 ∷ 5 ∷ []) ≡ 51
pes_read_probe-found_example = pes_read_probe-found 50 (71 ∷ 0 ∷ []) 224 5 [] refl

-- a packet of one byte, in an input that is a list and a place in it
abbrev file : List ℕ
file = header 224 14 1000 900 ++ 7 ∷ []

abbrev avio : Avio ℕ
avio = record {
  feof = λ s. false;
  r8 = λ s. (0, s);
  read = λ n s. (take n (drop s file), s + n);
  tell = λ s. s;
  seek = λ n s. n;
  seek_back = λ n s. s - n;
}

pes_read_packet-header_example :
    pes_read_packet avio 0 true false 0
    ≡ packet (record { bytes = 7 ∷ []; size = 1; pts = some 1000; dts = some 900; key = false }) 20
unfolding is_pes_start_code
pes_read_packet-header_example =
    pes_read_packet-header avio 0 false 224 1000 900 (7 ∷ []) 0 19 20 refl (omega arith)
      (omega arith) (omega arith) refl refl
