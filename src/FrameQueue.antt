-- ===== src/FrameQueue.antt =====
-- ffplay2.c: the ring of decoded frames between a decoder and the display (FrameQueue).
-- A frame is the picture that it holds (none once unreferenced), its serial and its position; its time
-- stamp and its duration are the bits of doubles, and a subtitle has the times of its display.
-- The mutex makes each call one step; a call that has to wait says so.
pub mod Ring
pub mod Order
pub mod Schedule
use ffmpeg_streaming.Base.{
  ℕ, zero, suc, ◌+◌, ◌-◌, ◌%◌, ◌≡◌, List, [], ◌∷◌, Bool, true, false, ◌&&◌, Option, none, some, min,
  leb, ltb, ◌==◌, not, if◌then◌else◌, get_or, set, replicate,
}
use ffmpeg_streaming.Base.Int.{ℤ, pos, negsuc, sub_ℕ}

pub record Frame : Type 0 where
  pub picture : Option ℕ
  pub serial : ℕ
  pub position : ℤ
  pub pts : ℕ
  pub duration : ℕ
  pub start_display_time : ℕ
  pub end_display_time : ℕ

abbrev pub blank : Frame
blank = record {
  picture = none;
  serial = 0;
  position = pos 0;
  pts = 0;
  duration = 0;
  start_display_time = 0;
  end_display_time = 0;
}

-- `pktq_abort` and `pktq_serial` are fields of the packet queue that `pktq` points to.
pub record FrameQueue : Type 0 where
  pub queue : List Frame
  pub rindex : ℕ
  pub windex : ℕ
  pub size : ℕ
  pub max_size : ℕ
  pub keep_last : ℕ
  pub rindex_shown : ℕ
  pub pktq_abort : Bool
  pub pktq_serial : ℕ

-- FRAME_QUEUE_SIZE
abbrev pub frame_queue_size : ℕ
frame_queue_size = 16

-- av_frame_alloc gives a frame for each index below `n`
unfoldable pub all_alloc : (ℕ → Bool) → ℕ → Bool
all_alloc alloc zero = true
all_alloc alloc (suc n) = all_alloc alloc n && alloc n

-- The first arguments say which of the allocations succeed; `none` is AVERROR(ENOMEM).
unfoldable pub init : Bool → Bool → (ℕ → Bool) → ℕ → ℕ → Bool → ℕ → Option FrameQueue
unfolding all_alloc
init mutex cond alloc max_size keep_last abort serial =
    if not mutex
    then none
    else if not cond
    then none
    else if all_alloc alloc (min max_size frame_queue_size)
    then some (record {
      queue = replicate frame_queue_size blank;
      rindex = 0;
      windex = 0;
      size = 0;
      max_size = min max_size frame_queue_size;
      keep_last = if keep_last == 0 then 0 else 1;
      rindex_shown = 0;
      pktq_abort = abort;
      pktq_serial = serial;
    })
    else none

-- `frame_queue_unref_item` of the frame at an index
abbrev pub unref_item : List Frame → ℕ → List Frame
unref_item q i = set q i (record (get_or q i blank) { picture = none })

-- The functions that return a pointer to a frame give its index.
unfoldable pub peek : FrameQueue → ℕ
peek f = (f.rindex + f.rindex_shown) % f.max_size

unfoldable pub peek_next : FrameQueue → ℕ
peek_next f = (f.rindex + f.rindex_shown + 1) % f.max_size

unfoldable pub peek_last : FrameQueue → ℕ
peek_last f = f.rindex

-- what a call that may have to wait does: wait for a signal, return NULL, or return an index
pub data Peek : Type 0 where
  waits : Peek
  aborted : Peek
  at : ℕ → Peek

unfoldable pub peek_writable : FrameQueue → Peek
peek_writable f =
    if f.pktq_abort then aborted else if leb f.max_size f.size then waits else at f.windex

unfoldable pub peek_readable : FrameQueue → Peek
peek_readable f =
    if f.pktq_abort
    then aborted
    else if leb f.size f.rindex_shown
    then waits
    else at ((f.rindex + f.rindex_shown) % f.max_size)

-- `++i == max_size ? 0 : i`
abbrev pub advance : ℕ → ℕ → ℕ
advance i max_size = if i + 1 == max_size then 0 else i + 1

pub push : FrameQueue → FrameQueue
push f = record f { windex = advance f.windex f.max_size; size = f.size + 1 }

-- `f->size--` runs on a queue with a frame to show: `Ring.next-IsValid`.
unfoldable pub next : FrameQueue → FrameQueue
next f =
    if not (f.keep_last == 0) && f.rindex_shown == 0
    then record f { rindex_shown = 1 }
    else record f {
      queue = unref_item f.queue f.rindex;
      rindex = advance f.rindex f.max_size;
      size = f.size - 1;
    }

unfoldable pub prev : FrameQueue → ℕ × FrameQueue
prev f = (f.rindex_shown, record f { rindex_shown = 0 })

unfoldable pub nb_remaining : FrameQueue → ℤ
nb_remaining f = sub_ℕ f.size f.rindex_shown

pub last_pos : FrameQueue → ℤ
last_pos f =
    let fp = get_or f.queue f.rindex blank in
    if not (f.rindex_shown == 0) && fp.serial == f.pktq_serial then fp.position else negsuc 0

-- A decoder's use of the queue: it fills the frame that `peek_writable` gives, and pushes it.
pub put : FrameQueue → Frame → FrameQueue
unfolding push
put f vp = push (record f { queue = set f.queue f.windex vp })

-- What the decoder and the display do, in any order: the decoder has a frame to put in, the display
-- passes to the next one. A call that has to wait, or is aborted, does nothing.
pub data Event : Type 0 where
  decoded : Frame → Event
  refresh : Event

-- the queue after the events, the frames put in, and the frames that the display passed
pub run : FrameQueue → List Event → FrameQueue × List Frame × List Frame
run f [] = (f, [], [])
run f (decoded vp ∷ es) = elim (peek_writable f) [
  | at i ↦ let (g, given, shown) = run (put f vp) es in (g, vp ∷ given, shown)
  | _ ↦ run f es
]
run f (refresh ∷ es) = elim (peek_readable f) [
  | at i ↦ let (g, given, shown) = run (next f) es in (g, given, get_or f.queue i blank ∷ shown)
  | _ ↦ run f es
]
