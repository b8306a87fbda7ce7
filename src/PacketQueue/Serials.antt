-- ===== src/PacketQueue/Serials.antt =====
-- The serials of a packet queue: which packets are older than the last flush.
use ffmpeg_streaming.Base.{
  ℕ, ◌+◌, ◌≤◌, ◌<◌, ◌≡◌, refl, List, [], ◌∷◌, ◌++◌, Bool, true, false, arith, All, if◌then◌else◌,
}
use ffmpeg_streaming.Base.Int.{negsuc}
use ffmpeg_streaming.PacketQueue.{
  PacketQueue, Packet, Node, flush, abort, put_private, put, start, get, take_first, Call, puts,
  starts, gets, flushes, aborts, step, run, aborted, flush_pkt,
}

-- The serials do not fall along the list, and end at `k` at most.
abbrev pub Rising : List Node → ℕ → Type 0
Rising [] k = Unit {0}
Rising (n ∷ []) k = n.serial ≤ k
Rising (n ∷ (m ∷ ns)) k = (n.serial ≤ m.serial) × Rising (m ∷ ns) k

Rising-snoc :
    (ns : List Node) (n : Node) (k : ℕ)
    → Rising ns k
    → k ≤ n.serial
    → Rising (ns ++ (n ∷ [])) n.serial
Rising-snoc [] n k r h = omega arith
Rising-snoc (a ∷ []) n k r h = (omega arith, omega arith)
Rising-snoc (a ∷ (b ∷ ns)) n k r h = (r.0, Rising-snoc (b ∷ ns) n k r.1 h)

Rising-tail : (n : Node) (ns : List Node) (k : ℕ) → Rising (n ∷ ns) k → Rising ns k
Rising-tail n [] k r = tt
Rising-tail n (m ∷ ns) k r = r.1

Rising-All : (ns : List Node) (k : ℕ) → Rising ns k → All (λ n. n.serial ≤ k) ns
Rising-All [] k r = tt
Rising-All (n ∷ []) k r = (r, tt)
Rising-All (n ∷ (m ∷ ns)) k r =
    let rest = Rising-All (m ∷ ns) k r.1 in (omega (arith, rest.0, r.0), rest)

All-lt :
    (ns : List Node) (j k : ℕ) → j < k → All (λ n. n.serial ≤ j) ns → All (λ n. n.serial < k) ns
All-lt [] j k h a = tt
All-lt (n ∷ ns) j k h a = (omega (arith, a.0), All-lt ns j k h a.1)

abbrev pub IsRising : PacketQueue → Type 0
IsRising q = Rising q.nodes q.serial

-- Where two queues agree on nodes and serial, one is rising if the other is.
put_private-Rising :
    (node_size : ℕ) (q : PacketQueue) (pkt : Packet) (allocated : Bool)
    → IsRising q
    → IsRising (put_private node_size q pkt allocated).1
unfolding put_private
put_private-Rising node_size q pkt allocated r =
    let serial : ℕ = if pkt.is_flush then q.serial + 1 else q.serial in
    let n : Node = record { pkt = pkt; serial = serial } in
    let later : q.serial ≤ serial = ground arith in
    ground (arith, r, Rising-snoc q.nodes n q.serial r later)

put_private-serial :
    (node_size : ℕ) (q : PacketQueue) (pkt : Packet) (allocated : Bool)
    → q.serial ≤ (put_private node_size q pkt allocated).1.serial
unfolding put_private
put_private-serial node_size q pkt allocated = ground arith

take_first-Rising :
    (node_size : ℕ) (q : PacketQueue) (ns : List Node) (block : Bool)
    → q.nodes ≡ ns
    → Rising ns q.serial
    → IsRising q
    → IsRising (take_first node_size q ns block).1
unfolding take_first
take_first-Rising node_size q [] block e r h = h
take_first-Rising node_size q (n ∷ ns) block e r h = Rising-tail n ns q.serial r

take_first-serial :
    (node_size : ℕ) (q : PacketQueue) (ns : List Node) (block : Bool)
    → (take_first node_size q ns block).1.serial ≡ q.serial
unfolding take_first
take_first-serial node_size q [] block = refl
take_first-serial node_size q (n ∷ ns) block = refl

-- Each call keeps the serials of the packets in a queue in rising order, up to the queue's own.
pub step-IsRising :
    (node_size : ℕ) (q : PacketQueue) (c : Call) → IsRising q → IsRising (step node_size q c)
unfolding step put start get flush abort
step-IsRising node_size q (puts pkt duplicated allocated) r =
    ground (arith, r, put_private-Rising node_size q pkt allocated r)
step-IsRising node_size q (starts allocated) r =
    put_private-Rising node_size (record q { abort_request = false }) flush_pkt allocated r
step-IsRising node_size q (gets block) r =
    ground (arith, r, take_first-Rising node_size q q.nodes block refl r r)
step-IsRising node_size q flushes r = tt
step-IsRising node_size q aborts r = r

-- No call lowers the serial of a queue.
step-serial : (node_size : ℕ) (q : PacketQueue) (c : Call) → q.serial ≤ (step node_size q c).serial
unfolding step put start get flush abort
step-serial node_size q (puts pkt duplicated allocated) =
    ground (arith, put_private-serial node_size q pkt allocated)
step-serial node_size q (starts allocated) =
    put_private-serial node_size (record q { abort_request = false }) flush_pkt allocated
step-serial node_size q (gets block) = ground (arith, take_first-serial node_size q q.nodes block)
step-serial node_size q flushes = omega arith
step-serial node_size q aborts = omega arith

run-serial :
    (node_size : ℕ) (q : PacketQueue) (cs : List Call) → q.serial ≤ (run node_size q cs).serial
unfolding run
run-serial node_size q [] = omega arith
run-serial node_size q (c ∷ cs) =
    omega (arith, step-serial node_size q c, run-serial node_size (step node_size q c) cs)

flush_put-serial :
    (node_size : ℕ) (q : PacketQueue)
    → q.abort_request ≡ false
    → (put node_size q flush_pkt true true).1.serial ≡ q.serial + 1
unfolding put put_private
flush_put-serial node_size q e = ground arith

-- Once the flush packet is put into a queue of rising serials that is not aborted, every packet that was in the queue
-- has a serial below the queue's, whatever calls follow: a decoder that compares the two drops it.
pub flush_put-stale :
    (node_size : ℕ) (q : PacketQueue) (cs : List Call)
    → IsRising q
    → q.abort_request ≡ false
    → All
        (λ n. n.serial < (run node_size (put node_size q flush_pkt true true).1 cs).serial)
        q.nodes
flush_put-stale node_size q cs r e =
    All-lt q.nodes q.serial _
      (omega (
        arith,
        flush_put-serial node_size q e,
        run-serial node_size (put node_size q flush_pkt true true).1 cs,
      ))
      (Rising-All q.nodes q.serial r)

-- `starts` is the only call that ends an abort.
abbrev pub is_start : Call → Bool
is_start (starts allocated) = true
is_start (puts pkt duplicated allocated) = false
is_start (gets block) = false
is_start flushes = false
is_start aborts = false

step-abort :
    (node_size : ℕ) (q : PacketQueue) (c : Call)
    → q.abort_request ≡ true
    → is_start c ≡ false
    → (step node_size q c).abort_request ≡ true
unfolding step put put_private get flush abort
step-abort node_size q (puts pkt duplicated allocated) e h = ground arith
step-abort node_size q (starts allocated) e h = cc
step-abort node_size q (gets block) e h = ground arith
step-abort node_size q flushes e h = e
step-abort node_size q aborts e h = refl

run-abort :
    (node_size : ℕ) (q : PacketQueue) (cs : List Call)
    → q.abort_request ≡ true
    → All (λ c. is_start c ≡ false) cs
    → (run node_size q cs).abort_request ≡ true
unfolding run
run-abort node_size q [] e h = e
run-abort node_size q (c ∷ cs) e h =
    run-abort node_size (step node_size q c) cs (step-abort node_size q c e h.0) h.1

-- After an abort, and any calls but `packet_queue_start`, a call of `packet_queue_get` returns -1
-- without waiting, even one that may block, and `packet_queue_put` puts nothing in and returns -1.
pub abort-get :
    (node_size : ℕ) (q : PacketQueue) (cs : List Call) (block : Bool) (pkt : Packet)
    (duplicated allocated : Bool)
    → All (λ c. is_start c ≡ false) cs
    → let r = run node_size (abort q) cs in
      (get node_size r block ≡ (aborted, r))
      × ((put node_size r pkt duplicated allocated).0 ≡ negsuc 0)
      × ((put node_size r pkt duplicated allocated).1 ≡ r)
unfolding get put put_private abort
abort-get node_size q cs block pkt duplicated allocated h =
    let e : (run node_size (abort q) cs).abort_request ≡ true =
      run-abort node_size (abort q) cs refl h in
    (ground (arith, e), ground (arith, e), ground (arith, e))
