-- ===== src/Manager/Received.antt =====
-- What a DATA packet does to a peer that fetches a file (`handle_packet` of packet.c).
use p2p_cc.Base.{
  ℕ, suc, ◌*◌, ◌<◌, ◌≡◌, refl, sym, ap, ◌∙◌, true, some, none, List, [], ◌∷◌, ◌++◌, if◌then◌else◌,
  Bool-cases, inl, inr, length, store,
}
use p2p_cc.Base.Int.{ℤ, pos, ◌≤ℤ◌}
use p2p_cc.Packet.{Packet, from_wire, data_type, data_size}
use p2p_cc.Tracker.{Trackers}
use p2p_cc.Sender.{FloatOps, chunk_packet_number}
use p2p_cc.Receiver.{Buffer, payload_length, recv_data}
use p2p_cc.Receiver.Acks.{IsBuffer, IsAnswered, recv_into-IsAnswered}
use p2p_cc.Receiver.Answers.{NoSocket, recv_data-at}
use p2p_cc.Receiver.Lengths.{recv_into-HasLengths}
use p2p_cc.Manager.{Config, FileManager, PeerState, World, Outcome, handle_packet}
use p2p_cc.Manager.Finish.{IsFull, IsCounted, AllCounted, all_full}
use p2p_cc.Manager.Bytes.{file_bytes, AllKept}
use p2p_cc.Manager.Output.{check_file_manager_lem}
use p2p_cc.Manager.Stored.{IsFetching, IsListed, IsPlace, set_timer_lem, handle_packet-recv_data}

AllCounted-at :
    (before : List Buffer) (b after : Buffer) (rest : List Buffer)
    → AllCounted (before ++ b ∷ rest)
    → (IsCounted b → IsCounted after)
    → AllCounted (before ++ after ∷ rest)
AllCounted-at [] b after rest v k = (k v.0, v.1)
AllCounted-at (x ∷ before) b after rest v k = (v.0, AllCounted-at before b after rest v.1 k)

IsCounted-at :
    (before : List Buffer) (b : Buffer) (rest : List Buffer)
    → AllCounted (before ++ b ∷ rest)
    → IsCounted b
IsCounted-at [] b rest v = v.0
IsCounted-at (x ∷ before) b rest v = IsCounted-at before b rest v.1

module _ {F : Type 0} where
  -- What is left when a packet has been stored, with the buffers l then, of the manager m. `place` is
  -- the chunk's in the manager's array, which gets the time `now`. If all chunks are full then, the
  -- file is written with the bytes of the buffers, and the manager closes.
  pub record IsReceived (m : FileManager) (v : IsFetching m) (offset : ℤ) (now : ℕ)
      (l : List Buffer) (o : Outcome F) : Type 0 where
    pub place : ℕ
    pub at : IsPlace m v offset place
    pub manager : o.peer.manager ≡ (
        if all_full m.chunk_count 0 v.offsets.at l
        then record m { init = 0; offset = none; timer = none; already_used = none }
        else record m {
          timer = some (record { size = v.timers.size; at = store v.timers.at place now });
        })
    pub file : o.file ≡ (
        if all_full m.chunk_count 0 v.offsets.at l
        then some (file_bytes m.chunk_count 0 v.offsets.at l)
        else none)
    pub size :
        all_full m.chunk_count 0 v.offsets.at l ≡ true
        → length (file_bytes m.chunk_count 0 v.offsets.at l) ≡ m.chunk_count * (512 * 1024)
    pub buffers : AllKept (IsFull l) l o.peer.recv_list

module _ {F : Type 0} ⦃fl : FloatOps F⦄ where
  -- A DATA packet with a number of the chunk and a payload that fits, from a peer whose first buffer
  -- is of a chunk of the file that is being fetched. The buffer has all its parts from the second up
  -- to `expected`, and the counts and lengths of all buffers are right. The packet is answered by one
  -- ACK, with its part stored as `recv_data` does it. If that makes every chunk of the file full, the
  -- output file is written with the bytes of that many whole chunks and the manager closes; else
  -- neither happens. The sending side and the timers stay as they are.
  pub handle_packet-data :
      (w : World) (config : Config) (socket : ℤ) (packet : Packet) (trackers : Trackers)
      (s : PeerState F) (i : ℕ) (before : List Buffer) (b : Buffer) (rest : List Buffer)
      (v : IsFetching s.manager)
      → packet.header.packet_type ≡ data_type
      → (from_wire packet).header.seq_num ≡ suc i
      → i < chunk_packet_number
      → pos 0 ≤ℤ payload_length (from_wire packet)
      → payload_length (from_wire packet) ≤ℤ pos data_size
      → s.recv_list ≡ before ++ b ∷ rest
      → NoSocket socket before
      → b.socket ≡ socket
      → IsBuffer b
      → AllCounted s.recv_list
      → IsListed b.offset s.manager v
      → (o : Outcome F) × (after : Buffer) × (ack : Packet) × (handle_packet w config socket packet
            trackers s
          ≡ some o)
        × (o.packets ≡ ack ∷ [])
        × IsAnswered i (from_wire packet) b after ack
        × IsReceived s.manager v b.offset w.now (before ++ after ∷ rest) o
        × (o.peer.flow ≡ s.flow)
        × (o.trackers ≡ trackers)
  handle_packet-data w config socket packet trackers s i before b rest v type seq inside nonneg fits
        at_list only same valid all listed =
      let p = from_wire packet in
      let counted = rw at_list at all in
      let c = IsCounted-at before b rest counted in
      let (after, ack, r, a) = recv_into-IsAnswered w.beyond i p b valid c.counted inside fits in
      let l : List Buffer = before ++ after ∷ rest in
      let lengths = recv_into-HasLengths w.beyond i p b after ack r nonneg fits c.lengths in
      let all' =
        AllCounted-at before b after rest counted
          (λ _. record { counted = a.counted; lengths = lengths }) in
      let (place, at, t) = set_timer_lem s.manager v b.offset w.now listed in
      let m : FileManager = record (s.manager) {
        timer = some (record { size = v.timers.size; at = store (v.timers.at) place w.now });
      } in
      let (l', bytes, e, written, kept) =
        check_file_manager_lem m v.offsets l v.going v.has_offsets v.offsets_room all' in
      let received : recv_data w.beyond p socket s.recv_list ≡ some (l, ack ∷ [], some b.offset) =
        rw at_list
          (recv_data-at w.beyond i p socket before b rest after ack seq inside only same r) in
      elim (Bool-cases (all_full m.chunk_count 0 v.offsets.at l)) [
        | inl full ↦ (
          _,
          after,
          ack,
          handle_packet-recv_data w config socket packet trackers s l _ (ack ∷ []) b.offset _ m _ _
              type received t (rw full at e),
          refl,
          a,
          record {
            place = place;
            at = at;
            manager = rw full;
            file = rw full (ap some (written full).0);
            size = λ _. ap length (sym (written full).0) ∙ (written full).1;
            buffers = kept;
          },
          refl,
          refl,
        )
        | inr part ↦ (
          _,
          after,
          ack,
          handle_packet-recv_data w config socket packet trackers s l _ (ack ∷ []) b.offset _ m _ _
              type received t (rw part at e),
          refl,
          a,
          record {
            place = place;
            at = at;
            manager = rw part;
            file = rw part;
            size = λ full. cc;
            buffers = kept;
          },
          refl,
          refl,
        )
      ]
