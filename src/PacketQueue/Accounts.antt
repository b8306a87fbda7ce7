-- ===== src/PacketQueue/Accounts.antt =====
-- The counters of a packet queue agree with its list.
use ffmpeg_streaming.Base.{
  ℕ, ◌%◌, ◌^◌, ◌+◌, ◌≡◌, refl, List, [], ◌∷◌, ◌++◌, Bool, false, arith, if◌then◌else◌, length,
  length-append, ap,
}
use ffmpeg_streaming.PacketQueue.{
  PacketQueue, Packet, Node, init, flush, abort, put_private, put, start, get, take_first, Call,
  puts, starts, gets, flushes, aborts, step, run, flush_pkt,
}

module _ (node_size : ℕ) where
  -- what the nodes take up
  abbrev pub footprint : List Node → ℕ
  footprint [] = 0
  footprint (n ∷ ns) = n.pkt.size + node_size + footprint ns

  footprint-append : (ns ms : List Node) → footprint (ns ++ ms) ≡ footprint ns + footprint ms
  footprint-append [] ms = omega arith
  footprint-append (n ∷ ns) ms = omega (arith, footprint-append ns ms)

  pub record IsValid (q : PacketQueue) : Type 0 where
    pub count : q.nb_packets ≡ length q.nodes % 2 ^ 32
    pub bytes : q.size ≡ footprint q.nodes % 2 ^ 32

  put_private-IsValid :
      (q : PacketQueue) (pkt : Packet) (allocated : Bool)
      → IsValid q
      → IsValid (put_private node_size q pkt allocated).1
  unfolding put_private
  put_private-IsValid q pkt allocated v =
      let serial : ℕ = if pkt.is_flush then q.serial + 1 else q.serial in
      let added : List Node = record { pkt = pkt; serial = serial } ∷ [] in
      ground (arith, v.count, v.bytes, length-append q.nodes added, footprint-append q.nodes added)

  take_first-IsValid :
      (q : PacketQueue) (ns : List Node) (block : Bool)
      → q.nodes ≡ ns
      → IsValid q
      → IsValid (take_first node_size q ns block).1
  unfolding take_first
  take_first-IsValid q [] block e v = v
  take_first-IsValid q (n ∷ ns) block e v = record {
    count = omega (arith, v.count, ap length e);
    bytes = omega (arith, v.bytes, ap footprint e);
  }

-- Each call keeps `nb_packets` the number of the packets in the queue, and `size` the sum of their sizes
-- and of their nodes, both up to a multiple of 2^32.
pub step-IsValid :
    (node_size : ℕ) (q : PacketQueue) (c : Call)
    → IsValid node_size q
    → IsValid node_size (step node_size q c)
unfolding step put start get flush abort
step-IsValid node_size q (puts pkt duplicated allocated) v =
    ground (arith, put_private-IsValid node_size q pkt allocated v)
step-IsValid node_size q (starts allocated) v =
    put_private-IsValid node_size (record q { abort_request = false }) flush_pkt allocated
      (record { count = v.count; bytes = v.bytes })
step-IsValid node_size q (gets block) v =
    ground (arith, take_first-IsValid node_size q q.nodes block refl v)
step-IsValid node_size q flushes v = record { count = refl; bytes = refl }
step-IsValid node_size q aborts v = record { count = v.count; bytes = v.bytes }

run-IsValid :
    (node_size : ℕ) (q : PacketQueue) (cs : List Call)
    → IsValid node_size q
    → IsValid node_size (run node_size q cs)
unfolding run
run-IsValid node_size q [] v = v
run-IsValid node_size q (c ∷ cs) v =
    run-IsValid node_size (step node_size q c) cs (step-IsValid node_size q c v)

-- After any calls on a new packet queue, `nb_packets` is the number of the packets in it, and `size` is
-- the sum of their sizes and of the sizes of their nodes, both as ints of 32 bits: they are exact while
-- they are below 2^31, and `size` wraps above.
pub run-init-IsValid : (node_size : ℕ) (cs : List Call) → IsValid node_size (run node_size init cs)
unfolding init
run-init-IsValid node_size cs =
    run-IsValid node_size init cs (record { count = refl; bytes = refl })
