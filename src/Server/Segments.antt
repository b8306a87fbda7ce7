-- ===== src/Server/Segments.antt =====
-- ffserver.c: the table of HLS segments, and the connections that write and read them
-- (hls_close, hls_parse_request, hls_write, hls_read, hls_reset).
pub mod Streaming
use ffmpeg_streaming.Base.{
  ℕ, ◌+◌, ◌-◌, List, [], ◌∷◌, ◌++◌, Bool, ◌&&◌, Option, none, some, ltb, leb, ◌==◌, not,
  if◌then◌else◌, length, take, drop, get_or, set, map, replicate, same_bytes,
}
use ffmpeg_streaming.Base.Int.{ℤ, pos, negsuc, pos_part}
use ffmpeg_streaming.Server.{
  Hls, HttpContext, send_header, send_data_trailer, receive_data, wait_feed,
}
use ffmpeg_streaming.Server.Segment.{append, seg_inc_size}

-- S, the index of the playlist
abbrev pub playlist : ℕ
playlist = 10

-- `s_hls` and `s_hls_name`
pub record Table : Type 0 where
  pub segments : List Hls
  pub name : List ℕ

abbrev pub no_segment : Hls
no_segment = record { block = none; msize = 0; csize = 0; flag = 0 }

abbrev pub segment : Table → ℕ → Hls
segment t i = get_or t.segments i no_segment

emptied : Hls → Hls
emptied s = record s { csize = 0; flag = 0 }

-- `hls_close`
pub close_segments : Table → Table
unfolding emptied
close_segments t = record { segments = map emptied t.segments; name = [] }

-- strrchr(name, '.'): what stands before the last dot, and from the dot on
pub split_at_dot : List ℕ → Option (List ℕ × List ℕ)
split_at_dot [] = none
split_at_dot (c ∷ cs) = elim (split_at_dot cs) [
  | some (stem, ext) ↦ some (c ∷ stem, ext)
  | none ↦ if c == b'.' then some ([], c ∷ cs) else none
]

last_or : ℕ → List ℕ → ℕ
last_or d [] = d
last_or d (c ∷ cs) = last_or c cs

abbrev m3u8 : List ℕ
m3u8 = b'.' ∷ b'm' ∷ b'3' ∷ b'u' ∷ b'8' ∷ []

abbrev ts : List ℕ
ts = b'.' ∷ b't' ∷ b's' ∷ []

-- The index that a name stands for. `before` is the byte in memory before the name, which the code
-- reads if the name begins with its last dot.
pub segment_index : ℕ → List ℕ → List ℕ → Option ℕ
unfolding same_bytes last_or
segment_index before stem ext =
    if same_bytes ext m3u8
    then some playlist
    else if same_bytes ext ts
    then (let digit = last_or before stem in
        if leb b'0' digit && ltb (digit - b'0') playlist then some (digit - b'0') else none)
    else none

-- the first memory of a segment, which it keeps; `msize` does not say whether it was given
with_memory : Bool → Hls → Hls
with_memory allocated s = elim s.block [
  | some block ↦ s
  | none ↦ record s {
    block = if allocated then some (replicate seg_inc_size 0) else none;
    msize = seg_inc_size;
  }
]

-- the branch of `hls_parse_request` for a connection that writes; `allocated`: av_malloc succeeds
unfoldable pub open_writer : Bool → ℕ → Table → HttpContext → ℤ × Table × HttpContext
unfolding with_memory
open_writer allocated idx t c =
    let s = segment t idx in
    let s' = with_memory allocated s in
    (
      pos 0,
      record t { segments = set t.segments idx (record s' { flag = 1; csize = 0 }) },
      record c { hls_idx = pos idx; hls_wpos = 0; http_error = 0; state = receive_data },
    )

-- the branch for a connection that reads; 1 asks for a switch to another channel
unfoldable pub open_reader : Bool → ℕ → List ℕ → Table → HttpContext → ℤ × Table × HttpContext
unfolding close_segments
open_reader is_first idx stem t c =
    let c' = record c { hls_idx = pos idx; hls_rpos = 0; http_error = 0; state = send_header } in
    if (is_first && playlist == idx) && not (same_bytes (take (length stem) t.name) stem)
    then (pos 1, record (close_segments t) { name = stem }, c')
    else (pos 0, t, c')

unfoldable pub parse_request :
    Bool → ℕ → Bool → List ℕ → Table → HttpContext → ℤ × Table × HttpContext
parse_request allocated before is_first name t c = elim (split_at_dot name) [
  | none ↦ (negsuc 0, t, c)
  | some (stem, ext) ↦
      if ltb 31 (length stem) then (negsuc 0, t, c) else elim (segment_index before stem ext) [
        | none ↦ (negsuc 0, t, c)
        | some idx ↦
            if c.post == 0 then open_reader is_first idx stem t c else open_writer allocated idx t c
      ]
]

-- `hls_write`, of the bytes of one block; `none` is a fault
unfoldable pub write : Bool → Table → HttpContext → List ℕ → Option (ℤ × Table × HttpContext)
unfolding append
write allocated t c bs =
    let idx = pos_part c.hls_idx in
    elim (append allocated (segment t idx) bs) [
      | none ↦ none
      | some (r, s) ↦ some (elim r [
        | negsuc n ↦ (negsuc n, t, c)
        | pos n ↦ (
          pos n,
          record t { segments = set t.segments idx s },
          record c { hls_wpos = c.hls_wpos + length bs },
        )
      ])
    ]

-- `hls_read`: 0 with the bytes to send, or 1 with a change of state. The code gives a pointer into the
-- memory of the segment; `pending` is what is there, as long as the memory is not given back
-- (`dangles`) and no new upload begins.
unfoldable pub read : Table → HttpContext → ℤ × HttpContext
read t c =
    let s = segment t (pos_part c.hls_idx) in
    let stopped = record c {
      state = if s.flag == 2 then send_data_trailer else wait_feed;
      pending = [];
    } in
    elim s.block [
      | none ↦ (pos 1, stopped)
      | some block ↦
          if leb s.csize c.hls_rpos
          then (pos 1, stopped)
          else let left = s.csize - c.hls_rpos in
            (
              pos 0,
              record c {
                pending = take left (drop c.hls_rpos block);
                hls_rpos = c.hls_rpos + left;
              },
            )
    ]

-- `hls_reset`
pub reset : HttpContext → HttpContext
reset c = record c { hls_wpos = 0; hls_rpos = 0; hls_idx = negsuc 0 }

-- What happens to a segment with one connection that writes it and one that reads it: a block of
-- bytes arrives, hls_read is called for the reader, or the socket takes so many of the bytes that
-- hls_read gave.
pub data Event : Type 0 where
  received : Bool → List ℕ → Event
  served : Event
  sent : ℕ → Event

accepted : ℤ → List ℕ → List ℕ
accepted (pos n) bs = bs
accepted (negsuc n) bs = []

-- av_realloc gives the memory back while the reader has bytes of it to send
dangles : Bool → Hls → ℕ → HttpContext → Bool
dangles allocated s size r = allocated && ltb s.msize (s.csize + size) && ltb 0 (length r.pending)

-- http_send_data calls hls_read where nothing is left to send
serve : Table → HttpContext → HttpContext
unfolding read
serve t r = if ltb 0 (length r.pending) then r else (read t r).1

-- The table and the reader at the end, the bytes that the writes accepted, and the bytes that the
-- reader was sent. `none` is a fault: sizes past the largest int, or a reader that points into memory
-- given back.
abbrev pub Streamed : Type 0
Streamed = Table × HttpContext × List ℕ × List ℕ

prepended : List ℕ → List ℕ → Option Streamed → Option Streamed
prepended given out none = none
prepended given out (some (t, r, given', out')) = some (t, r, given ++ given', out ++ out')

pub stream : Table → HttpContext → HttpContext → List Event → Option Streamed
unfolding write serve
stream t w r [] = some (t, r, [], [])
stream t w r (received allocated bs ∷ es) =
    if dangles allocated (segment t (pos_part w.hls_idx)) (length bs) r
    then none
    else elim (write allocated t w bs) [
      | none ↦ none
      | some (ret, t', w') ↦ prepended (accepted ret bs) [] (stream t' w' r es)
    ]
stream t w r (served ∷ es) = stream t w (serve t r) es
stream t w r (sent k ∷ es) =
    prepended [] (take k r.pending) (stream t w (record r { pending = drop k r.pending }) es)
