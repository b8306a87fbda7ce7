-- ===== src/Pes/Packet.antt =====
-- pes.c: the packets of a packetised elementary stream (sync_to_startcode, pes_read_packet).
pub mod Built
use ffmpeg_streaming.Base.{
  ℕ, zero, suc, ◌+◌, ◌-◌, ◌*◌, ◌/◌, ◌%◌, List, [], Bool, true, false, ◌&&◌, not, Option, none, some,
  ltb, ◌==◌, if◌then◌else◌, length, get_or, drop,
}
use ffmpeg_streaming.Base.Int.{ℤ, pos, negsuc, sub_ℕ}
use ffmpeg_streaming.Base.Bytes.{rb24, rb32}
use ffmpeg_streaming.Pes.{is_pes_start_code, parse_pes_pts}

-- FFmpeg's AVIOContext, in a state of the type S: avio_feof, avio_r8, avio_read with the bytes that it
-- gives, avio_tell, avio_seek to a place and avio_seek back by a number of bytes
pub record Avio (S : Type 0) : Type 0 where
  pub feof : S → Bool
  pub r8 : S → ℕ × S
  pub read : ℕ → S → List ℕ × S
  pub tell : S → ℕ
  pub seek : ℕ → S → S
  pub seek_back : ℕ → S → S

-- MAX_PES_HEADER_SIZE and MAX_PES_PAYLOAD_SIZE
abbrev pub max_header_size : ℕ
max_header_size = 19

abbrev pub max_payload_size : ℕ
max_payload_size = 524288

-- one round of `sync_to_startcode`: whether a start code was found
unfoldable pub sync_round : {S : Type 0} → Avio S → S → Bool × S
sync_round a s =
    let r1 = a.r8 s in
    let r2 = a.r8 r1.1 in
    let r3 = a.r8 r2.1 in
    let r4 = a.r8 r3.1 in
    if not (r1.0 == 0)
    then (false, r1.1)
    else if not (r2.0 == 0)
    then (false, r2.1)
    else if not (r3.0 == 1)
    then (false, r3.1)
    else (not (is_pes_start_code (256 + r4.0) == 0), r4.1)

-- `sync_to_startcode`; `none`: the rounds are not enough
unfoldable pub sync_to_startcode : {S : Type 0} → Avio S → ℕ → S → Option S
unfolding sync_round
sync_to_startcode a zero s = none
sync_to_startcode a (suc fuel) s =
    let r = sync_round a s in
    let rest = sync_to_startcode a fuel r.1 in
    if a.feof s then some s else if r.0 then some (a.seek_back 4 r.1) else rest

-- the packet as it is given back: the bytes that were read into it, its size, its stamps, and whether
-- it is marked as a key frame
pub record Packet : Type 0 where
  pub bytes : List ℕ
  pub size : ℕ
  pub pts : Option ℕ
  pub dts : Option ℕ
  pub key : Bool

-- AVERROR_EOF, AVERROR(EAGAIN), AVERROR(ENOMEM), or a packet; `spent`: the rounds are not enough
pub data Outcome (S : Type 0) : Type 0 where
  at_end no_memory spent : Outcome S
  again : S → Outcome S
  packet : Packet → S → Outcome S

-- the stamps of a header, by its flags
unfoldable pub stamps : ℕ → List ℕ → Option ℕ × Option ℕ
stamps flags r =
    if flags / 64 % 4 == 2
    then (some (parse_pes_pts r), some (parse_pes_pts r))
    else if flags / 64 % 4 == 3
    then (some (parse_pes_pts r), some (parse_pes_pts (drop 5 r)))
    else (none, none)

-- the size of the payload, of a packet and a header of these sizes
unfoldable pub payload_size : ℕ → ℕ → ℤ
payload_size total_size header_size =
    if not (total_size == 0) && ltb total_size max_payload_size
    then sub_ℕ (total_size + 6) header_size
    else pos max_payload_size

-- the packet of a size, filled from the place in the input
unfoldable pub fill :
    {S : Type 0} → Avio S → Bool → Bool → ℕ → Option ℕ × Option ℕ → S → ℤ → Outcome S
fill a allocated unparsed total_size times s (negsuc n) = no_memory
fill a allocated unparsed total_size times s (pos n) =
    let r = if total_size == 0 then ([], s) else a.read n s in
    if not allocated
    then no_memory
    else packet (record { bytes = r.0; size = n; pts = times.0; dts = times.1; key = unparsed }) r.1

-- from the sizes in the header on; `start` is where the packet begins
unfoldable pub read_payload : {S : Type 0} → Avio S → Bool → Bool → ℕ → List ℕ → S → Outcome S
unfolding fill
read_payload a allocated unparsed start buf s =
    let total_size = rb24 (drop 4 buf) in
    let header_size = get_or buf 8 0 + 9 in
    fill a allocated unparsed total_size (stamps (get_or buf 7 0) (drop 9 buf))
      (a.seek (start + header_size) s) (payload_size total_size header_size)

-- `pes_read_packet`; `allocated`: av_new_packet succeeds, `unparsed`: need_parsing is
-- AVSTREAM_PARSE_NONE
unfoldable pub pes_read_packet : {S : Type 0} → Avio S → ℕ → Bool → Bool → S → Outcome S
unfolding read_payload sync_to_startcode
pes_read_packet a rounds allocated unparsed s =
    let r = a.read max_header_size s in
    if ltb (length r.0) 9
    then at_end
    else if is_pes_start_code (rb32 r.0) == 0
    then elim (sync_to_startcode a rounds r.1) [ none ↦ spent | some s' ↦ again s' ]
    else read_payload a allocated unparsed (a.tell s) r.0 r.1
