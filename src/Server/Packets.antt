-- ===== src/Server/Packets.antt =====
-- ffserver.c: the packets of a live stream, in a ring of N slots with one more for the stream's
-- header, which one connection writes and others read at their own pace (sff_free, sff_reset,
-- sff_write, sff_read, sff_parse).
pub mod Ring
use ffmpeg_streaming.Base.{
  ℕ, ◌+◌, ◌-◌, ◌%◌, ◌≡◌, List, [], ◌∷◌, ltb, leb, ◌==◌, if◌then◌else◌, length, drop, get_or, set,
  map, Option, none, some, ◌^◌,
}
use ffmpeg_streaming.Base.Bytes.{rb32}
use ffmpeg_streaming.Base.Int.{ℤ, pos, negsuc}
use ffmpeg_streaming.Server.{Sff, HttpContext}

-- N; the slot N is the stream header's
abbrev pub ring_size : ℕ
ring_size = 128

-- `sff_free` of one slot of the connection that feeds
unfoldable pub sff_free : HttpContext → ℕ → HttpContext
sff_free c i = record c { sff_pkts = set c.sff_pkts i none }

emptied : Option Sff → Option Sff
emptied o = none

-- `sff_reset` of a connection that writes
pub sff_reset_writer : HttpContext → HttpContext
unfolding emptied
sff_reset_writer c = record c { sff_pkts = map emptied c.sff_pkts }

-- `sff_write`
unfoldable pub sff_write : HttpContext → Sff → HttpContext
unfolding sff_free
sff_write c sff =
    let ready = record sff { wflag = 2 } in
    if sff.type == 1
    then (let c' = sff_free c ring_size in
        record c' { sff_pkts = set c'.sff_pkts ring_size (some ready) })
    else if sff.type == 2
    then (let c' = sff_free c c.sff_w in
        record c' {
          sff_pkts = set c'.sff_pkts c.sff_w (some ready);
          sff_w = (c.sff_w + 1) % ring_size;
        })
    else c

-- `sff_read` by `c`, whose feed is `f`
unfoldable pub sff_read : HttpContext → HttpContext → ℕ → Option Sff × HttpContext
sff_read c f type =
    let idx = if type == 1 then ring_size else c.sff_r in
    elim (get_or f.sff_pkts idx none) [
      | none ↦ (none, c)
      | some sff ↦
          if sff.wflag == 2
          then (if type == 1
              then (some sff, c)
              else if c.sff_r == f.sff_w
              then (none, c)
              else (some sff, record c { sff_r = (c.sff_r + 1) % ring_size }))
          else (none, c)
    ]

-- `packet_t`
pub record StreamPacket : Type 0 where
  pub stream_index : ℕ
  pub size : ℕ
  pub bytes : List ℕ

-- `sff_parse`: the stream that a packet is of, and its bytes
unfoldable pub sff_parse : Sff → ℤ × Option StreamPacket
sff_parse sff =
    if sff.type == 2
    then (if ltb sff.size 4 then (negsuc 1, none) else (
      pos 0,
      some record { stream_index = rb32 sff.bytes; size = sff.size - 4; bytes = drop 4 sff.bytes },
    ))
    else (negsuc 0, none)
