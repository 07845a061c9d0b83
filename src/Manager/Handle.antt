-- ===== src/Manager/Handle.antt =====
-- `handle_packet`: the answer to each kind of packet.
use p2p_cc.Base.{
  ℕ, zero, suc, ◌+◌, ◌-◌, ◌*◌, ◌%◌, ◌^◌, Option, some, none, List, [], ◌∷◌, Bool, true, false, leb,
  ◌==◌, if◌then◌else◌, ◌>>=◌, ◌>>◌, require, Bytes, bytes_of, store, copy_at,
}
use p2p_cc.Base.Int.{ℤ, pos, pos_part, minus_one, signed, ◌==ℤ◌, ltb_ℤ}
use p2p_cc.Packet.{
  Packet, init_packet, from_wire, data_size, whohas, ihave, get, data_type, ack_type,
}
use p2p_cc.Tracker.{Trackers}
use p2p_cc.Sender.{FloatOps, init_datalist, send_data, handle_ack}
use p2p_cc.Receiver.{Buffer, init_recv_buffer, recv_data}
use p2p_cc.Hashes.{
  read_chunkfile, find_in_local_has, get_off_set_from_master_chunkfile, get_data_from_hash,
}
use p2p_cc.Manager.State.{Node, Config, Owner, FileManager, PeerState, World, Outcome, set_timer}
use p2p_cc.Manager.File.{check_file_manager}

-- Hash i of a WHOHAS or IHAVE packet.
unfoldable pub hash_at : Packet → ℕ → Option Bytes
hash_at p i = do
  require (leb (4 + 20 * i + 20) data_size)
  some (copy_at (bytes_of []) 0 (λ j. p.payload (4 + 20 * i + j)) 20)

-- The rounds of the loops over the hashes; the count is a char.
abbrev pub count_of : Packet → ℕ
count_of p = pos_part (signed 8 (p.payload 0))

-- The loop over the hashes that are asked for: those of the local list are copied to the reply.
unfoldable pub reply_from : ℕ → ℕ → Packet → Bytes → Bytes → ℕ → Option (Bytes × ℕ)
unfolding hash_at
reply_from zero i p local out reply_count = some (out, reply_count)
reply_from (suc left) i p local out reply_count = do
  hash ← hash_at p i
  found ← find_in_local_has 100 hash local
  let next : Bytes × ℕ =
      if pos 1 ==ℤ found
      then (copy_at out reply_count hash 20, reply_count + 20)
      else (out, reply_count)
  reply_from left (i + 1) p local next.0 next.1

-- `find` is 1 exactly if the reply has bytes.
unfoldable pub handle_whohas : World → Config → Packet → Option (List Packet)
unfolding reply_from
handle_whohas w config p = do
  (size, local) ← read_chunkfile 100 config.has_chunk_file w.local
  if ltb_ℤ size (pos 0) then some [] else (do
    (out, reply_count) ← reply_from (count_of p) 0 p local (bytes_of []) 0
    if reply_count == 0 then some [] else (do
      packet ← init_packet w.junk ihave (some (store out reply_count 0)) reply_count
      some (packet ∷ [])))

-- The loop over config->peers; `none` is the end of the list, where the process exits.
unfoldable pub find_node : ℤ → List Node → Option Node
find_node socket [] = none
find_node socket (node ∷ rest) =
    let next = find_node socket rest in if node.id ==ℤ socket then some node else next

-- The state of the loop over the hashes of an IHAVE packet.
pub record Getting : Type 0 where
  pub manager : FileManager
  pub recv_list : List Buffer
  pub ret : List Packet

-- A hash that the peer of the socket has: a buffer is made and the chunk is asked for, unless it is
-- unknown or a buffer is in use.
unfoldable pub get_chunk : World → Config → ℤ → Node → Bytes → Getting → Option Getting
get_chunk w config socket node hash g = do
  let offset = get_off_set_from_master_chunkfile hash config.chunk_file
  used ← g.manager.already_used
  if offset ==ℤ minus_one then some g else (do
    let (l, r) = init_recv_buffer w.contents offset socket g.recv_list
    if r ==ℤ minus_one then some g else (do
      let owner : Owner = record { offset = offset; address = node.addr }
      packet ← init_packet [] get (some hash) 20
      m ← set_timer offset w.now (record (g.manager) { already_used = some (owner ∷ used) })
      some (record { manager = m; recv_list = l; ret = packet ∷ g.ret })))

-- The loop; `false` is the exit.
unfoldable pub get_from : ℕ → ℕ → World → Config → ℤ → Packet → Getting → Option (Bool × Getting)
unfolding hash_at find_node get_chunk
get_from zero i w config socket p g = some (true, g)
get_from (suc left) i w config socket p g = do
  hash ← hash_at p i
  elim (find_node socket config.peers) [
    | none ↦ some (false, g)
    | some node ↦ do
      g' ← get_chunk w config socket node hash g
      get_from left (i + 1) w config socket p g'
  ]

module _ {F : Type 0} ⦃fl : FloatOps F⦄ where
  unfoldable pub handle_ihave :
      World → Config → ℤ → Packet → Trackers → PeerState F → Option (Outcome F)
  unfolding get_from
  handle_ihave w config socket p trackers s = do
    (running, g) ←
        get_from (count_of p) 0 w config socket p
          (record { manager = s.manager; recv_list = s.recv_list; ret = [] })
    some (record {
      exited = if running then false else true;
      peer = record s { manager = g.manager; recv_list = g.recv_list };
      trackers = trackers;
      packets = g.ret;
      file = none;
    })

  -- A GET packet starts the transfer of a chunk.
  unfoldable pub handle_get :
      World → Config → ℤ → Packet → Trackers → PeerState F → Option (Outcome F)
  handle_get w config socket p trackers s = do
    let hash = copy_at (bytes_of []) 0 p.payload 20
    content ← get_data_from_hash w.block w.stray hash config.chunk_file
    let offset = get_off_set_from_master_chunkfile hash config.chunk_file
    (flow, ret) ←
        send_data socket (init_datalist w.prev_ack w.count_ack socket offset content s.flow)
    some (record {
      exited = false;
      peer = record s { flow = flow };
      trackers = trackers;
      packets = ret;
      file = none;
    })

  -- A DATA packet is stored; the chunk's time is set, and the file is written if it was the last.
  unfoldable pub handle_data : World → ℤ → Packet → Trackers → PeerState F → Option (Outcome F)
  handle_data w socket p trackers s = do
    (l, ret, offset) ← recv_data w.beyond p socket s.recv_list
    m ← set_timer (elim offset [ none ↦ w.stray | some o ↦ o ]) w.now s.manager
    (r, m', l', file) ← check_file_manager m l
    some (record {
      exited = false;
      peer = record s { manager = m'; recv_list = l' };
      trackers = trackers;
      packets = ret;
      file = file;
    })

  -- An ACK packet; `ack_num - 1` wraps around before it becomes an int.
  unfoldable pub handle_acked : ℤ → Packet → Trackers → PeerState F → Option (Outcome F)
  handle_acked socket p trackers s = do
    let ack_number = signed 32 ((p.header.ack_num + 2 ^ 32 - 1) % 2 ^ 32)
    (flow, trackers', ret) ← handle_ack socket ack_number trackers s.flow
    some (record {
      exited = false;
      peer = record s { flow = flow };
      trackers = trackers';
      packets = ret;
      file = none;
    })

  -- Packets to send, and nothing else.
  abbrev pub answer : Trackers → PeerState F → List Packet → Outcome F
  answer trackers s packets = record {
    exited = false;
    peer = s;
    trackers = trackers;
    packets = packets;
    file = none;
  }

  unfoldable pub handle_packet :
      World → Config → ℤ → Packet → Trackers → PeerState F → Option (Outcome F)
  unfolding handle_whohas handle_ihave handle_get handle_data handle_acked
  handle_packet w config socket packet trackers s =
      let p = from_wire packet in
      let type = p.header.packet_type in
      if type == whohas
      then handle_whohas w config p >>= (λ ret. some (answer trackers s ret))
      else if type == ihave
      then handle_ihave w config socket p trackers s
      else if type == get
      then handle_get w config socket p trackers s
      else if type == data_type
      then handle_data w socket p trackers s
      else if type == ack_type
      then handle_acked socket p trackers s
      else some (answer trackers s [])
