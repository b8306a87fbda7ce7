-- ===== src/Server/Handle/Diagram.antt =====
-- The diagram of a connection's states (HTTPState), as handle_connection moves it.
use mathlib.Core.Path.{subst}
use ffmpeg_streaming.Base.{◌≡◌, ◌⊎◌, sym, Bool, true, false, if◌then◌else◌}
use ffmpeg_streaming.Server.{State, wait_request, send_header, send_data_header, receive_data}
use ffmpeg_streaming.Server.Send.States.{is_sending, follows}
use ffmpeg_streaming.Server.Handle.{Handled, drops, keeps, answered, fault, hangs, unfinished}

-- The diagram: a connection stays in its state, or is moved as follows.
pub data Move : State → State → Type 0 where
  rests : {s : State} → Move s s
  answers : Move wait_request send_header
  receives : Move wait_request receive_data
  awaits_body : Move send_header receive_data
  awaits_next : Move send_header wait_request
  begins_data : Move send_header send_data_header
  sends : {s t : State} → is_sending s ≡ true → follows t ≡ true → Move s t

-- A connection that is kept or answered was moved along the diagram. A fault is met only at a request or
-- while bytes are sent, a request is all that does not return, and only sending can take more rounds than
-- it is given.
unfoldable pub Moved : State → Handled → Type 0
Moved s (drops w) = Unit {0}
Moved s (keeps c w) = Move s c.state
Moved s (answered c w e rest) = Move s c.state
Moved s fault = (s ≡ wait_request) ⊎ (is_sending s ≡ true)
Moved s hangs = s ≡ wait_request
Moved s unfinished = is_sending s ≡ true

pub Moved-if :
    (s : State) (b : Bool) (x y : Handled) → Moved s x → Moved s y → Moved s (if b then x else y)
Moved-if s true x y p q = p
Moved-if s false x y p q = q

pub rests-at : (s t : State) → t ≡ s → Move s t
rests-at s t e = subst (Move s) (sym e) rests
