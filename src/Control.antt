-- ===== src/Control.antt =====
-- stream_buffer.c: the messages of the control channel (ff_ctl_send, ff_ctl_recv, ctl_msg_send,
-- ctl_msg_recv). Allocation in ff_ctl_recv succeeds, as the code assumes without a check.
pub mod Frame
pub mod Delivery
pub mod Sending
pub mod Faults
use ffmpeg_streaming.Base.{
  ℕ, zero, suc, ◌+◌, ◌-◌, ◌^◌, ◌≡◌, List, [], ◌∷◌, ◌++◌, Bool, true, false, ◌&&◌, ◌||◌, Option,
  none, some, ◌>>=◌, leb, ltb, ◌==◌, not, if◌then◌else◌, length, get_or, take, drop,
}
use ffmpeg_streaming.Base.Int.{ℤ, pos, negsuc, sub_ℕ}
use ffmpeg_streaming.Base.Bytes.{rb32, wb32}
use ffmpeg_streaming.StreamBuffer
use ffmpeg_streaming.StreamBuffer.{StreamBuffer}

-- `ctrl_msg_t`. The two sizes are the bit patterns of the C ints; a null pointer is `none`.
pub record CtrlMsg : Type 0 where
  pub cmd : ℕ
  pub nlen : ℕ
  pub dlen : ℕ
  pub name : Option (List ℕ)
  pub payload : Option (List ℕ)

-- memset(&msg, 0, sizeof(msg))
abbrev pub no_msg : CtrlMsg
no_msg = record { cmd = 0; nlen = 0; dlen = 0; name = none; payload = none }

-- One round of the loop in `ff_ctl_recv`: it goes on at a pointer with a message, perhaps after a
-- callback, or leaves by `break`.
pub data Round : Type 0 where
  again : ℕ → CtrlMsg → List CtrlMsg → Round
  leave : ℕ → CtrlMsg → Round

-- `0 < len` for an int, and the bytes reach no further than `end`
abbrev fits : ℕ → ℕ → ℕ → Bool
fits len ptr end = (ltb 0 len && ltb len (2 ^ 31)) && leb (ptr + len) end

is_some : Option (List ℕ) → Bool
is_some none = false
is_some (some x) = true

starts_with_msg : List ℕ → Bool
starts_with_msg bs = (get_or bs 0 0 == b'M' && get_or bs 1 0 == b'S') && get_or bs 2 0 == b'G'

-- The pointers into the buffer are offsets; `end` is one too.
module _ (buf : List ℕ) (end : ℕ) where
  pub at_data : ℕ → CtrlMsg → Round
  at_data ptr m =
      if fits m.dlen ptr end
      then again (ptr + m.dlen) no_msg
          (record m { payload = some (take m.dlen (drop ptr buf)) } ∷ [])
      else again ptr m []

  pub at_name : ℕ → CtrlMsg → Round
  unfolding at_data
  at_name ptr m =
      let ptr' = if fits m.nlen ptr end then ptr + m.nlen else ptr in
      let m' =
        if fits m.nlen ptr end then record m { name = some (take m.nlen (drop ptr buf)) } else m in
      if leb end ptr' then leave ptr' m' else at_data ptr' m'

  pub at_dlen : ℕ → CtrlMsg → Round
  unfolding at_name
  at_dlen ptr m =
      let m' = record m { dlen = rb32 (drop ptr buf) } in
      if leb end (ptr + 4) then leave (ptr + 4) m' else at_name (ptr + 4) m'

  pub at_nlen : ℕ → CtrlMsg → Round
  unfolding at_dlen
  at_nlen ptr m =
      let m' = record m { nlen = rb32 (drop ptr buf) } in
      if leb end (ptr + 4) then leave (ptr + 4) m' else at_dlen (ptr + 4) m'

  pub at_sync : ℕ → CtrlMsg → Round
  unfolding at_nlen starts_with_msg
  at_sync ptr m =
      if starts_with_msg (drop ptr buf)
      then (let m' = record m { cmd = get_or (drop (ptr + 3) buf) 0 0 } in
          if leb end (ptr + 4) then leave (ptr + 4) m' else at_nlen (ptr + 4) m')
      else again (ptr + 1) m []

  -- the body of the loop, resumed where the last call left the message
  pub recv_round : ℕ → CtrlMsg → Round
  unfolding at_sync is_some
  recv_round ptr m =
      if is_some m.name
      then at_data ptr m
      else if not (m.dlen == 0)
      then at_name ptr m
      else if not (m.nlen == 0)
      then at_dlen ptr m
      else if not (m.cmd == 0)
      then at_nlen ptr m
      else at_sync ptr m

  -- `none`: the rounds given are not enough.
  pub recv_loop : ℕ → ℕ → CtrlMsg → Option (ℕ × CtrlMsg × List CtrlMsg)
  unfolding recv_round
  recv_loop zero ptr m = if ltb (ptr + 4) end then none else some (ptr, m, [])
  recv_loop (suc fuel) ptr m =
      if ltb (ptr + 4) end
      then elim (recv_round ptr m) [
        | leave ptr' m' ↦ some (ptr', m', [])
        | again ptr' m' out ↦ do
          (q, last, rest) ← recv_loop fuel ptr' m'
          some (q, last, out ++ rest)
      ]
      else some (ptr, m, [])

-- `ff_ctl_recv`: the status, the buffer, the static message, and the messages given to the callback
pub recv :
    ℕ → Option StreamBuffer → CtrlMsg → Option (ℤ × Option StreamBuffer × CtrlMsg × List CtrlMsg)
unfolding recv_loop
recv fuel none m = some (negsuc 0, none, m, [])
recv fuel (some s) m = do
  (ptr, m', out) ← recv_loop s.buf s.wpos fuel s.rpos m
  some (pos 0, some (record s { rpos = ptr }), m', out)

-- "MSG", the command and the two sizes
abbrev pub frame_header : ℕ → ℕ → ℕ → List ℕ
frame_header cmd nlen dlen = b'M' ∷ b'S' ∷ b'G' ∷ cmd ∷ (wb32 nlen ++ wb32 dlen)

-- `ff_ctl_send` past its guard. The code looks at none of the three results.
pub send_frame :
    StreamBuffer → ℕ → List ℕ → ℕ → Option (List ℕ) → ℕ → Option (ℤ × Option StreamBuffer)
send_frame s cmd name nlen payload dlen = do
  (r1, s1) ← StreamBuffer.write (some s) (some (frame_header cmd nlen dlen)) (pos 12)
  (r2, s2) ← StreamBuffer.write s1 (some name) (pos nlen)
  (r3, s3) ← StreamBuffer.write s2 payload (pos dlen)
  some (pos 0, s3)

pub send :
    Option StreamBuffer
    → ℤ
    → Option (List ℕ)
    → ℤ
    → Option (List ℕ)
    → ℤ
    → Option (ℤ × Option StreamBuffer)
unfolding send_frame
send (some s) (pos cmd) (some name) (pos nlen) payload (pos dlen) =
    if ((not (ltb 0 cmd && leb cmd 255) || ltb nlen 1) || ltb dlen 1) || ltb dlen 1
    then some (negsuc 0, some s)
    else send_frame s cmd name nlen payload dlen
send sb cmd name nlen payload dlen = some (negsuc 0, sb)

-- `ff_ctl_send_string`: each string with the 0 that ends it
pub send_string : Option StreamBuffer → ℤ → List ℕ → List ℕ → Option (ℤ × Option StreamBuffer)
unfolding send
send_string sb cmd name text =
    send sb cmd (some (name ++ 0 ∷ [])) (pos (length name + 1)) (some (text ++ 0 ∷ []))
      (pos (length text + 1))

-- `ctl_msg_pending`
pub pending : Option StreamBuffer → ℤ
pending none = negsuc 0
pending (some s) = sub_ℕ s.wpos s.rpos

-- `ctl_msg_send`: the socket is given the unread bytes and says how many it took, or -1 - n.
pub msg_send : (List ℕ → ℤ) → Option StreamBuffer → ℤ × Option StreamBuffer
msg_send socket none = (negsuc 0, none)
msg_send socket (some s) =
    if leb s.wpos s.rpos
    then (pos 1, some s)
    else elim (socket (take (s.wpos - s.rpos) (drop s.rpos s.buf))) [
      | pos n ↦ (pos 0, some (record s { rpos = s.rpos + n }))
      | negsuc n ↦ (pos 0, some s)
    ]

-- `ctl_msg_recv`: the blocks that `recv` returns until it has no more, each of 1024 bytes at most
pub msg_recv : Option StreamBuffer → List (List ℕ) → Option (Option StreamBuffer)
msg_recv sb [] = some sb
msg_recv sb (bs ∷ rest) = do
  (r, sb') ← StreamBuffer.write sb (some bs) (pos (length bs))
  msg_recv sb' rest
