-- ===== src/Control/Frame.antt =====
-- Whole messages on the control channel: what ff_ctl_send writes is what ff_ctl_recv delivers.
use ffmpeg_streaming.Base.{
  ℕ, ◌+◌, ◌^◌, ◌≤◌, ◌<◌, ◌≡◌, sym, ap, ◌∙◌, List, [], ◌∷◌, ◌++◌, none, some, arith, length, drop,
  length-append, drop-drop, take-length_append, drop-length_append, append_assoc,
}
use ffmpeg_streaming.Base.Bytes.{rb32, wb32, rb32-wb32}
use ffmpeg_streaming.Control.{
  CtrlMsg, no_msg, again, at_data, at_name, at_dlen, at_nlen, recv_round, frame_header,
}

pub record Message : Type 0 where
  pub cmd : ℕ
  pub name : List ℕ
  pub payload : List ℕ

-- what ff_ctl_send accepts, and a C int can count
pub record IsMessage (m : Message) : Type 0 where
  pub cmd_pos : 0 < m.cmd
  pub cmd_byte : m.cmd ≤ 255
  pub name_pos : 0 < length m.name
  pub name_int : length m.name < 2 ^ 31
  pub payload_pos : 0 < length m.payload
  pub payload_int : length m.payload < 2 ^ 31

-- the bytes of a message on the channel
abbrev pub frame : Message → List ℕ
frame m = frame_header m.cmd (length m.name) (length m.payload) ++ (m.name ++ m.payload)

-- the message as the callback sees it
abbrev pub delivered : Message → CtrlMsg
delivered m = record {
  cmd = m.cmd;
  nlen = length m.name;
  dlen = length m.payload;
  name = some m.name;
  payload = some m.payload;
}

-- the static message once its name is in
abbrev pub named : Message → CtrlMsg
named m = record (delivered m) { payload = none }

module _ (buf : List ℕ) (end : ℕ) (m : Message) (v : IsMessage m) (more : List ℕ) where
  at_name-at_data :
      (ptr : ℕ)
      → drop ptr buf ≡ m.name ++ more
      → ptr + length m.name < end
      → at_name buf end ptr (record (delivered m) { name = none; payload = none })
        ≡ at_data buf end (ptr + length m.name) (named m)
  unfolding at_name
  at_name-at_data ptr e h =
      ground (arith, v.name_pos, v.name_int, e, take-length_append m.name more)

  at_dlen-at_data :
      (ptr : ℕ)
      → drop ptr buf ≡ wb32 (length m.payload) ++ (m.name ++ more)
      → ptr + 4 + length m.name < end
      → at_dlen buf end ptr (record (delivered m) { dlen = 0; name = none; payload = none })
        ≡ at_data buf end (ptr + 4 + length m.name) (named m)
  unfolding at_dlen
  at_dlen-at_data ptr e h =
      let word : rb32 (drop ptr buf) ≡ length m.payload =
        ap rb32 e ∙ rb32-wb32 (length m.payload) (m.name ++ more) ∙ omega (arith, v.payload_int) in
      let next : drop (ptr + 4) buf ≡ m.name ++ more = sym (drop-drop 4 ptr buf) ∙ ap (drop 4) e in
      rw word (ground (arith, v.name_pos, at_name-at_data (ptr + 4) next h))

  at_nlen-at_data :
      (ptr : ℕ)
      → drop ptr buf ≡ wb32 (length m.name) ++ (wb32 (length m.payload) ++ (m.name ++ more))
      → ptr + 8 + length m.name < end
      → at_nlen buf end ptr (record no_msg { cmd = m.cmd })
        ≡ at_data buf end (ptr + 8 + length m.name) (named m)
  unfolding at_nlen
  at_nlen-at_data ptr e h =
      let tail : List ℕ = wb32 (length m.payload) ++ (m.name ++ more) in
      let word : rb32 (drop ptr buf) ≡ length m.name =
        ap rb32 e ∙ rb32-wb32 (length m.name) tail ∙ omega (arith, v.name_int) in
      let next : drop (ptr + 4) buf ≡ tail = sym (drop-drop 4 ptr buf) ∙ ap (drop 4) e in
      rw word (ground (arith, v.name_pos, at_dlen-at_data (ptr + 4) next (omega arith)))

  -- One round reads the sizes and the name of a message, and goes on to its payload.
  pub recv_round-at_data :
      (ptr : ℕ)
      → drop ptr buf ≡ frame_header m.cmd (length m.name) (length m.payload) ++ (m.name ++ more)
      → ptr + 12 + length m.name < end
      → recv_round buf end ptr no_msg ≡ at_data buf end (ptr + 12 + length m.name) (named m)
  unfolding recv_round at_data
  recv_round-at_data ptr e h =
      let tail : List ℕ = wb32 (length m.name) ++ (wb32 (length m.payload) ++ (m.name ++ more)) in
      let word : drop (ptr + 3) buf ≡ m.cmd ∷ tail = sym (drop-drop 3 ptr buf) ∙ ap (drop 3) e in
      let next : drop (ptr + 4) buf ≡ tail = sym (drop-drop 4 ptr buf) ∙ ap (drop 4) e in
      rw (e, word) (ground (arith, v.name_pos, at_nlen-at_data (ptr + 4) next (omega arith)))

-- One round takes one whole message off the front.
pub recv_round-frame :
    (buf : List ℕ) (end : ℕ) (m : Message)
    → IsMessage m
    → (ptr : ℕ) (rest : List ℕ) → drop ptr buf ≡ frame m ++ rest
    → ptr + length (frame m) ≤ end
    → recv_round buf end ptr no_msg ≡ again (ptr + length (frame m)) no_msg (delivered m ∷ [])
unfolding at_data
recv_round-frame buf end m v ptr rest e h =
    let head : List ℕ = frame_header m.cmd (length m.name) (length m.payload) in
    let flat : drop ptr buf ≡ head ++ (m.name ++ (m.payload ++ rest)) =
      e ∙ ap (λ k. head ++ k) (append_assoc m.name m.payload rest) in
    let size : length (frame m) ≡ 12 + length m.name + length m.payload =
      omega (arith, length-append m.name m.payload) in
    let payload : drop (ptr + 12 + length m.name) buf ≡ m.payload ++ rest =
      sym (drop-drop (length m.name) (ptr + 12) buf)
      ∙ ap (drop (length m.name)) (sym (drop-drop 12 ptr buf) ∙ ap (drop 12) flat)
      ∙ drop-length_append m.name (m.payload ++ rest) in
    recv_round-at_data buf end m v (m.payload ++ rest) ptr flat (omega (arith, size, v.payload_pos))
    ∙ ground (arith, v.payload_pos, v.payload_int, payload, size, take-length_append m.payload rest)
