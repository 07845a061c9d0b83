-- ===== src/Manager/Acked.antt =====
-- An ACK packet moves the sender's window.
use p2p_cc.Base.{ℕ, ◌+◌, ◌-◌, ◌%◌, ◌^◌, ◌≤◌, ◌≡◌, refl, true, false, some, none, List, ◌==◌, arith}
use p2p_cc.Base.Int.{ℤ, sub_ℕ, signed}
use p2p_cc.Packet.{Packet, from_wire, swap_header, swap32, ack_type}
use p2p_cc.Tracker.{Trackers}
use p2p_cc.Sender.{FloatOps, Flow, handle_ack}
use p2p_cc.Sender.Pending.{HasDummy, pending}
use p2p_cc.Sender.Sending.{AllSending}
use p2p_cc.Sender.Safety.{handle_ack-IsSafe}
use p2p_cc.Manager.{Config, PeerState, World, Outcome, handle_acked, handle_packet}

ack_index : (x : ℕ) → x ≤ 2 ^ 31 → signed 32 ((x + 2 ^ 32 - 1) % 2 ^ 32) ≡ sub_ℕ x 1
ack_index x h = ground arith

module _ {F : Type 0} ⦃fl : FloatOps F⦄ where
  -- What `handle_packet` makes of what `handle_ack` returns.
  abbrev pub after_ack : PeerState F → Flow F → Trackers → List Packet → Outcome F
  after_ack s flow trackers ret = record {
    exited = false;
    peer = record s { flow = flow };
    trackers = trackers;
    packets = ret;
    file = none;
  }

  pub handle_packet-handle_ack :
      (w : World) (config : Config) (socket : ℤ) (packet : Packet) (trackers : Trackers)
      (s : PeerState F) (a : ℕ) (flow : Flow F) (left : Trackers) (ret : List Packet)
      → packet.header.packet_type ≡ ack_type
      → swap32 packet.header.ack_num ≡ a
      → a ≤ 2 ^ 31
      → handle_ack socket (sub_ℕ a 1) trackers s.flow ≡ some (flow, left, ret)
      → handle_packet w config socket packet trackers s ≡ some (after_ack s flow left ret)
  handle_packet-handle_ack w config socket packet trackers s a flow left ret type number h e =
      let p = from_wire packet in
      let same_type : p.header.packet_type ≡ ack_type = unfold from_wire swap_header in type in
      let t0 : (p.header.packet_type == 0) ≡ false = ground arith in
      let t1 : (p.header.packet_type == 1) ≡ false = ground arith in
      let t2 : (p.header.packet_type == 2) ≡ false = ground arith in
      let t3 : (p.header.packet_type == 3) ≡ false = ground arith in
      let t4 : (p.header.packet_type == 4) ≡ true = ground arith in
      let same : p.header.ack_num ≡ a = unfold from_wire swap_header in number in
      unfold handle_packet handle_acked in rw (t0, t1, t2, t3, t4, same, ack_index a h, e)

  -- An ACK packet from the network with a number up to 2 ^ 31 is handled without undefined behaviour,
  -- if the sender's chunks are valid and the list of packets in flight begins with the dummy node.
  -- Both stay so. The list keeps the entries of all other peers and of all packets from the
  -- acknowledged number on, and the receiving side and the file stay as they are.
  pub handle_packet-ack :
      (w : World) (config : Config) (socket : ℤ) (packet : Packet) (trackers : Trackers)
      (s : PeerState F) (a : ℕ)
      → packet.header.packet_type ≡ ack_type
      → swap32 packet.header.ack_num ≡ a
      → a ≤ 2 ^ 31
      → AllSending s.flow.list
      → HasDummy trackers
      → (o : Outcome F) × (handle_packet w config socket packet trackers s ≡ some o)
        × AllSending o.peer.flow.list
        × HasDummy o.trackers
        × (pending socket a o.trackers ≡ pending socket a trackers)
        × (o.peer ≡ record s { flow = o.peer.flow })
        × (o.file ≡ none)
  handle_packet-ack w config socket packet trackers s a type number h v d =
      let safe = handle_ack-IsSafe socket a trackers s.flow v d in
      (
        after_ack s safe.flow safe.left_over safe.packets,
        handle_packet-handle_ack w config socket packet trackers s a safe.flow safe.left_over
            safe.packets type number h safe.returns,
        safe.all_valid,
        safe.has_dummy,
        safe.keeps,
        refl,
        refl,
      )
