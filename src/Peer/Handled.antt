-- ===== src/Peer/Handled.antt =====
-- What no packet that comes in can break (`handle_packet` of packet.c).
use mathlib.Core.Path.{subst}
use p2p_cc.Base.{
  ℕ, zero, suc, ◌+◌, ◌^◌, ◌≤◌, ◌≡◌, refl, sym, Bool, Bool-cases, Option-cases, false, inl, inr,
  Option, none, some, List, [], ◌==◌, ==_iff, Bytes, Ensures, Ensures-bind, Ensures->>=, if-holds,
  get_all,
}
use p2p_cc.Base.Int.{ℤ, pos, minus_one, ◌==ℤ◌, ◌-ℤ◌, ==ℤ_self}
use p2p_cc.Packet.{
  Packet, init_packet, from_wire, swap_header, swap32, whohas, ihave, get, data_type, ack_type,
}
use p2p_cc.Tracker.{Trackers}
use p2p_cc.Sender.{
  Flow, FloatOps, new_data, init_datalist, get_data_by_socket, send_data, send_window_of,
  send_packets, send_next, data_packet, get_content_by_index,
}
use p2p_cc.Sender.Pending.{HasDummy}
use p2p_cc.Sender.Sending.{AllSending, init_datalist-AllSending, send_data-AllSending}
use p2p_cc.Receiver.{Buffer, init_recv_buffer, recv_data, is_buffer_full}
use p2p_cc.Receiver.Keeps.{
  AllRight, recv_data-AllRight, init_recv_buffer-AllRight, release_buffer-AllRight,
}
use p2p_cc.Hashes.{get_data_from_hash, get_off_set_from_master_chunkfile}
use p2p_cc.Manager.{
  Config, Node, FileManager, PeerState, World, Outcome, Getting, hash_at, find_node, get_chunk,
  get_from, set_timer, release_full, write_chunks, check_file_manager, finish_file, handle_whohas,
  handle_ihave, handle_get, handle_data, handle_packet, answer, count_of,
}
use p2p_cc.Manager.Acked.{handle_packet-ack}

module _ {F : Type 0} where
  -- The sender's chunks and the receiver's buffers are valid.
  pub record IsPeer (s : PeerState F) : Type 0 where
    pub sending : AllSending s.flow.list
    pub receiving : AllRight s.recv_list

  -- So they are in what a packet leaves, with the dummy node in front of the timers.
  pub record IsHandled (o : Outcome F) : Type 0 where
    pub peer : IsPeer o.peer
    pub dummy : HasDummy o.trackers

-- The loops of `check_file_manager` leave the buffers but for the mark that they are in use.
AllRight-release_full :
    (left i : ℕ) (offsets : ℕ → ℤ) (l : List Buffer)
    → AllRight l
    → AllRight (release_full left i offsets l).0
unfolding release_full
AllRight-release_full zero i offsets l v = v
AllRight-release_full (suc left) i offsets l v =
    let full = is_buffer_full (offsets i) l in
    let w = if-holds AllRight (full ==ℤ pos 1) (release_buffer-AllRight (offsets i) l v) v in
    if-holds (λ (r : List Buffer × Bool). AllRight r.0) (minus_one ==ℤ full) w
      (AllRight-release_full left (i + 1) offsets _ w)

-- What `check_file_manager` returns.
abbrev Checked : Type 0
Checked = ℤ × FileManager × List Buffer × Option (List ℕ)

AllRight-check_file_manager :
    (m : FileManager) (l : List Buffer)
    → AllRight l
    → Ensures (λ (r : Checked). AllRight r.2) (check_file_manager m l)
unfolding check_file_manager finish_file
AllRight-check_file_manager m l v =
    if-holds (Ensures (λ (r : Checked). AllRight r.2)) (m.init == 0) v (
      Ensures-bind (λ (r : Checked). AllRight r.2) (get_all (pos 0) m.chunk_count m.offset) _
        (λ offsets.
          let w = AllRight-release_full m.chunk_count 0 offsets l v in
          if-holds (Ensures (λ (r : Checked). AllRight r.2))
            (release_full m.chunk_count 0 offsets l).1
            (Ensures-bind (λ (r : Checked). AllRight r.2)
              (write_chunks m.chunk_count 0 offsets (release_full m.chunk_count 0 offsets l).0) _
              (λ file. w))
            w))

get_chunk-AllRight :
    (w : World) (config : Config) (socket : ℤ) (node : Node) (hash : Bytes) (g : Getting)
    → AllRight g.recv_list
    → Ensures (λ (g' : Getting). AllRight g'.recv_list) (get_chunk w config socket node hash g)
unfolding get_chunk
get_chunk-AllRight w config socket node hash g v =
    let Q : Getting → Type 0 = λ g'. AllRight g'.recv_list in
    let offset = get_off_set_from_master_chunkfile hash config.chunk_file in
    let made = init_recv_buffer w.contents offset socket g.recv_list in
    let right = init_recv_buffer-AllRight w.contents offset socket g.recv_list v in
    Ensures-bind Q g.manager.already_used _ (λ used. if-holds (Ensures Q) (offset ==ℤ minus_one) v (
      if-holds (Ensures Q) (made.1 ==ℤ minus_one) v (
        Ensures-bind Q (init_packet [] get (some hash) 20) _
          (λ packet. Ensures-bind Q (set_timer offset w.now _) _ (λ m. right)))))

get_from-AllRight :
    (left i : ℕ) (w : World) (config : Config) (socket : ℤ) (p : Packet) (g : Getting)
    → AllRight g.recv_list
    → Ensures (λ (r : Bool × Getting). AllRight r.1.recv_list) (get_from left i w config socket p g)
unfolding get_from
get_from-AllRight zero i w config socket p g v = v
get_from-AllRight (suc left) i w config socket p g v =
    Ensures-bind (λ (r : Bool × Getting). AllRight r.1.recv_list) (hash_at p i) _
      (λ hash. elim (Option-cases (find_node socket config.peers)) [
        | inl e ↦ rw e v
        | inr (node, e) ↦ rw e (
            Ensures->>= (λ (g' : Getting). AllRight g'.recv_list)
              (λ (r : Bool × Getting). AllRight r.1.recv_list)
              (get_chunk w config socket node hash g) _
              (get_chunk-AllRight w config socket node hash g v)
              (λ g' v'. get_from-AllRight left (i + 1) w config socket p g' v'))
      ])

-- An acknowledgement number beyond 2 ^ 31 is negative to the sender.
abbrev pub IsAckInRange : Packet → Type 0
IsAckInRange packet = packet.header.packet_type ≡ ack_type → swap32 packet.header.ack_num ≤ 2 ^ 31

module _ {F : Type 0} ⦃fl : FloatOps F⦄ where
  -- A chunk with no data sends nothing: its first packet is read through a null pointer.
  send_data-null :
      (prev : ℕ) (count socket offset : ℤ) (f : Flow F)
      → send_data socket (init_datalist prev count socket offset none f) ≡ none
  unfolding send_data init_datalist get_data_by_socket send_window_of send_packets send_next
      data_packet get_content_by_index new_data ◌-ℤ◌
  send_data-null prev count socket offset f = rw (==ℤ_self socket, send_data)

  sent-AllSending :
      (prev : ℕ) (count socket offset : ℤ) (content : Option Bytes) (f : Flow F)
      → AllSending f.list
      → Ensures
          (λ (r : Flow F × List Packet). AllSending r.0.list)
          (send_data socket (init_datalist prev count socket offset content f))
  sent-AllSending prev count socket offset none f v =
      rw (send_data-null prev count socket offset f) tt
  sent-AllSending prev count socket offset (some content) f v =
      let (f', ret, e, w) =
        send_data-AllSending socket (init_datalist prev count socket offset (some content) f)
          (init_datalist-AllSending prev count socket offset content f v) in
      rw e w

  handle_ihave-IsHandled :
      (w : World) (config : Config) (socket : ℤ) (p : Packet) (trackers : Trackers)
      (s : PeerState F)
      → IsPeer s
      → HasDummy trackers
      → Ensures IsHandled (handle_ihave w config socket p trackers s)
  unfolding handle_ihave
  handle_ihave-IsHandled w config socket p trackers s v h =
      let g : Getting = record { manager = s.manager; recv_list = s.recv_list; ret = [] } in
      Ensures->>= (λ (r : Bool × Getting). AllRight r.1.recv_list) (IsHandled {F = F})
        (get_from (count_of p) 0 w config socket p g) _
        (get_from-AllRight (count_of p) 0 w config socket p g v.receiving)
        (λ r right. record { peer = record { sending = v.sending; receiving = right }; dummy = h })

  handle_get-IsHandled :
      (w : World) (config : Config) (socket : ℤ) (p : Packet) (trackers : Trackers)
      (s : PeerState F)
      → IsPeer s
      → HasDummy trackers
      → Ensures IsHandled (handle_get w config socket p trackers s)
  unfolding handle_get
  handle_get-IsHandled w config socket p trackers s v h =
      Ensures-bind IsHandled (get_data_from_hash w.block w.stray _ config.chunk_file) _ (λ content.
        Ensures->>= (λ (r : Flow F × List Packet). AllSending r.0.list) IsHandled
          (send_data socket (init_datalist w.prev_ack w.count_ack socket _ content s.flow)) _
          (sent-AllSending w.prev_ack w.count_ack socket _ content s.flow v.sending)
          (λ r all. record { peer = record { sending = all; receiving = v.receiving }; dummy = h }))

  handle_data-IsHandled :
      (w : World) (socket : ℤ) (p : Packet) (trackers : Trackers) (s : PeerState F)
      → IsPeer s
      → HasDummy trackers
      → Ensures IsHandled (handle_data w socket p trackers s)
  unfolding handle_data
  handle_data-IsHandled w socket p trackers s v h =
      Ensures->>= (λ (r : List Buffer × List Packet × Option ℤ). AllRight r.0) IsHandled
        (recv_data w.beyond p socket s.recv_list) _
        (recv_data-AllRight w.beyond p socket s.recv_list v.receiving)
        (λ r right. Ensures-bind IsHandled (set_timer _ w.now s.manager) _ (λ m.
          Ensures->>= (λ (c : Checked). AllRight c.2) IsHandled (check_file_manager m r.0) _
            (AllRight-check_file_manager m r.0 right)
            (λ c kept. record {
              peer = record { sending = v.sending; receiving = kept };
              dummy = h;
            })))

  handle_packet-other :
      (w : World) (config : Config) (socket : ℤ) (packet : Packet) (trackers : Trackers)
      (s : PeerState F)
      → (packet.header.packet_type == ack_type) ≡ false
      → IsPeer s
      → HasDummy trackers
      → Ensures IsHandled (handle_packet w config socket packet trackers s)
  unfolding handle_packet from_wire swap_header
  handle_packet-other w config socket packet trackers s other v h =
      let type = packet.header.packet_type in
      let p = from_wire packet in
      let same : IsHandled (answer trackers s []) = record { peer = v; dummy = h } in
      if-holds (Ensures IsHandled) (type == whohas)
        (Ensures-bind IsHandled (handle_whohas w config p) _
          (λ ret. record { peer = v; dummy = h }))
        (if-holds (Ensures IsHandled) (type == ihave)
          (handle_ihave-IsHandled w config socket p trackers s v h)
          (if-holds (Ensures IsHandled) (type == get)
            (handle_get-IsHandled w config socket p trackers s v h)
            (if-holds (Ensures IsHandled) (type == data_type)
              (handle_data-IsHandled w socket p trackers s v h) (rw other same))))

  pub handle_packet-IsHandled :
      (w : World) (config : Config) (socket : ℤ) (packet : Packet) (trackers : Trackers)
      (s : PeerState F)
      → IsAckInRange packet
      → IsPeer s
      → HasDummy trackers
      → Ensures IsHandled (handle_packet w config socket packet trackers s)
  handle_packet-IsHandled w config socket packet trackers s in_range v h =
      elim (Bool-cases (packet.header.packet_type == ack_type)) [
        | inl is_ack ↦
            let type : packet.header.packet_type ≡ ack_type = (==_iff _ _).0 is_ack in
            let (o, e, all, dummy, keeps, same, file) =
              handle_packet-ack w config socket packet trackers s _ type refl (in_range type)
                v.sending h in
            rw e (record {
              peer = subst IsPeer (sym same) (record { sending = all; receiving = v.receiving });
              dummy = dummy;
            })
        | inr other ↦ handle_packet-other w config socket packet trackers s other v h
      ]
