-- ===== src/Peer.antt =====
-- peer.c: what comes in is handed to `handle_packet` and answered, and each round of `peer_run` asks
-- again for chunks and sends packets again whose timers have run out. A datagram is a packet with
-- the address it is for, or from.
pub mod Sweep
pub mod Order
pub mod Run
pub mod Timers
pub mod Handled
pub mod Reachable
pub mod Start
pub mod Routed
mod RunTests
mod StartTests
mod Tests
use p2p_cc.Base.{
  ℕ, zero, suc, ◌+◌, ◌%◌, Bool, true, false, ◌&&◌, ◌||◌, Option, none, some, List, [], ◌∷◌, ◌++◌,
  ◌==◌, leb, if◌then◌else◌, ◌>>=◌, Bytes, length,
}
use p2p_cc.Base.Int.{ℤ, pos, minus_one, signed, to_u32, ◌==ℤ◌}
use p2p_cc.Packet.{Packet, swap32, to_wire, data_type}
use p2p_cc.Tracker.{SockAddr, PacketTracker, Trackers, dummy_seq, create_timer, timer_expired}
use p2p_cc.Sender.{Flow, FloatOps, process_packet_loss}
use p2p_cc.Hashes.{Line}
use p2p_cc.Manager.{
  Node, Config, PeerState, World, Outcome, handle_packet, generate_whohas, re_generate_whohas,
}

abbrev pub Datagram : Type 0
Datagram = SockAddr × Packet

-- `reverseList`, with the list that is built in `cursor`.
unfoldable pub reverse_onto {ℓ} : {A : Type ℓ} → List A → List A → List A
reverse_onto cursor [] = cursor
reverse_onto cursor (head ∷ rest) = reverse_onto (head ∷ cursor) rest

unfoldable pub reverse_list {ℓ} : {A : Type ℓ} → List A → List A
unfolding reverse_onto
reverse_list head = reverse_onto [] head

-- The datagrams of `broadcast`: one for every node of the list but this one.
unfoldable pub broadcast_to : ℤ → Packet → List Node → List Datagram
broadcast_to my_id packet [] = []
broadcast_to my_id packet (node ∷ rest) =
    let next = broadcast_to my_id packet rest in
    if node.id ==ℤ my_id then next else (node.addr, packet) ∷ next

unfoldable pub broadcast : Packet → Config → List Datagram
unfolding broadcast_to
broadcast packet config = broadcast_to config.identity packet config.peers

-- The loops that broadcast the packets of a list.
abbrev pub broadcast_all : List Packet → Config → List Datagram
broadcast_all [] config = []
broadcast_all (packet ∷ rest) config = broadcast packet config ++ broadcast_all rest config

abbrev pub same_address : SockAddr → SockAddr → Bool
same_address a b = a.sin_family == b.sin_family && a.sin_port == b.sin_port && a.s_addr == b.s_addr

-- The node that a datagram comes from; -1 if there is none.
unfoldable pub target_id : SockAddr → List Node → ℤ
target_id from [] = minus_one
target_id from (node ∷ rest) =
    let next = target_id from rest in if same_address from node.addr then node.id else next

-- The loop that looks for an expired timer of the same packet: the list afterwards, and `find`.
unfoldable pub check_timers : ℕ → Packet → Trackers → Trackers × Bool
check_timers now packet [] = ([], false)
check_timers now packet (t ∷ rest) =
    let (rest', find) = check_timers now packet rest in
    if t.packet.header.seq_num == packet.header.seq_num
      && t.packet.header.ack_num == packet.header.ack_num
    then (let (t', r) = timer_expired now t in (t' ∷ rest', r ==ℤ minus_one || find))
    else (t ∷ rest', find)

-- The packet object of the last entry is the one that is converted in place.
unfoldable pub convert_last : Trackers → Trackers
convert_last [] = []
convert_last (t ∷ []) = record t { packet = to_wire t.packet } ∷ []
convert_last (t ∷ t' ∷ rest) = t ∷ convert_last (t' ∷ rest)

-- A timer for a packet, and the conversion of the packet: if a new entry was made, it has the same
-- packet object.
unfoldable pub start_timer : PacketTracker → ℕ → Trackers → Packet → ℤ → SockAddr → Trackers
unfolding convert_last
start_timer garbage now trackers packet socket from =
    let trackers' = create_timer garbage now trackers packet socket from in
    if length trackers' == length trackers then trackers' else convert_last trackers'

-- One packet of the answer. (The test for a random loss never holds.)
unfoldable pub respond_one :
    PacketTracker → ℕ → ℤ → SockAddr → Packet → Trackers → Trackers × List Datagram
unfolding check_timers start_timer
respond_one garbage now socket from packet trackers =
    let (trackers', find) = check_timers now packet trackers in
    let is_data = packet.header.packet_type == data_type in
    if find then (trackers', if is_data then [] else (from, packet) ∷ []) else (
      if is_data then start_timer garbage now trackers' packet socket from else trackers',
      (from, to_wire packet) ∷ [],
    )

unfoldable pub respond :
    PacketTracker → ℕ → ℤ → SockAddr → List Packet → Trackers → Trackers × List Datagram
unfolding respond_one
respond garbage now socket from [] trackers = (trackers, [])
respond garbage now socket from (packet ∷ rest) trackers =
    let (trackers', sent) = respond_one garbage now socket from packet trackers in
    let (trackers'', sent') = respond garbage now socket from rest trackers' in
    (trackers'', sent ++ sent')

module _ {F : Type 0} ⦃fl : FloatOps F⦄ where
  -- A datagram that comes in: what `handle_packet` leaves, and the datagrams that go out. A sender
  -- that is not in the list of nodes is ignored.
  unfoldable pub process_inbound_udp :
      PacketTracker
      → World
      → Config
      → Datagram
      → Trackers
      → PeerState F
      → Option (Outcome F × List Datagram)
  process_inbound_udp garbage w config (from, packet) trackers s =
      let socket = target_id from config.peers in
      if socket ==ℤ minus_one
      then some
          (record { exited = false; peer = s; trackers = trackers; packets = []; file = none }, [])
      else (do
        o ← handle_packet w config socket packet trackers s
        let answers = if o.exited then [] else reverse_list o.packets
        let (trackers', sent) = respond garbage w.now socket from answers o.trackers
        some (record o { trackers = trackers' }, sent))

  -- The user's GET command.
  unfoldable pub process_get :
      World → Config → Option (List Line) → PeerState F → Option (PeerState F × List Datagram)
  process_get w config chunkfile s = do
    (m, ret) ← generate_whohas w.now w.junk w.block config chunkfile s.manager
    some (record s { manager = m }, broadcast_all (reverse_list ret) config)

  -- The loop over the packets in flight: an expired one is sent again with its own number, and its
  -- timer starts anew. The dummy node's timer may expire, but it is not sent.
  unfoldable pub sweep : ℕ → Trackers → Flow F → Trackers × Flow F × List Datagram
  sweep now [] f = ([], f, [])
  sweep now (t ∷ rest) f =
      let (t', r) = timer_expired now t in
      let packet = record (t.packet) {
        header = record (t.packet.header) { seq_num = swap32 (to_u32 t.seq) };
      } in
      let due = r ==ℤ minus_one in
      let resend = due && (if t.seq ==ℤ dummy_seq then false else true) in
      let f' = if resend then process_packet_loss (signed 32 t.packet.header.ack_num) f else f in
      let (rest', f'', sent) = sweep now rest f' in
      if resend
      then (record t' { packet = packet; send_time = now } ∷ rest', f'', (t.from, packet) ∷ sent)
      else (t' ∷ rest', f'', sent)

  -- What a round of `peer_run` does behind its input.
  unfoldable pub check_round :
      World → Config → Trackers → PeerState F → Option (Trackers × PeerState F × List Datagram)
  unfolding sweep
  check_round w config trackers s = do
    (m, l, ret) ← re_generate_whohas w.now w.junk w.block config s.manager s.recv_list
    let (trackers', flow, sent) = sweep w.now trackers s.flow
    some (
      trackers',
      record { flow = flow; recv_list = l; manager = m },
      broadcast_all (reverse_list ret) config ++ sent,
    )
