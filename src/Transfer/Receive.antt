-- ===== src/Transfer/Receive.antt =====
-- The receiver (`handle_packet` of packet.c) at a DATA packet that comes in order.
use mathlib.Core.Path.{subst}
use p2p_cc.Base.{
  ℕ, zero, suc, ◌+◌, ◌-◌, ◌≤◌, ◌<◌, ◌≡◌, refl, sym, ◌∙◌, ap, Bool, some, none, [], ◌∷◌, arith,
  Bytes, slice, store,
}
use p2p_cc.Base.Int.{ℤ}
use p2p_cc.Packet.{to_wire, data_type, swap_header, host_header}
use p2p_cc.Tracker.{Trackers}
use p2p_cc.Sender.{FloatOps, chunk_packet_number}
use p2p_cc.Sender.Sent.{chunk_packet}
use p2p_cc.Receiver.{Buffer, recv_data, chunk_size, first_gap}
use p2p_cc.Receiver.Store.{stored}
use p2p_cc.Receiver.Acks.{gap_of}
use p2p_cc.Receiver.Answers.{recv_data-at}
use p2p_cc.Manager.{Config, FileManager, PeerState, World, Outcome, set_timer, handle_packet}
use p2p_cc.Manager.Stored.{set_timer_lem, handle_packet-recv_data}
use p2p_cc.Transfer.{arrived, arrived-seq, filled, recv_into-arrived}
use p2p_cc.Transfer.Parts.{
  HasParts, IsExpecting, filled-HasParts, filled-IsExpecting, gap_of-arrived, filled-fields,
}
use p2p_cc.Transfer.Written.{IsSingle, check_file_manager-part, check_file_manager-full}
use p2p_cc.Transfer.Window.{ack_with}

-- A receiver that fetches a file of one chunk, and has its first k parts.
pub record IsReceiving {F : Type 0} (content : Bytes) (other offset : ℤ) (k : ℕ) (s : PeerState F)
    : Type 0 where
  pub buffer : Buffer
  pub buffers : s.recv_list ≡ buffer ∷ []
  pub same_socket : buffer.socket ≡ other
  pub same_offset : buffer.offset ≡ offset
  pub parts : HasParts content k buffer
  pub expecting : IsExpecting k buffer
  pub single : IsSingle offset s.manager

first_gap-upper :
    (beyond : ℕ → Bool) (b : Buffer) (left i : ℕ) → first_gap beyond b left i ≤ i + left
unfolding first_gap
first_gap-upper beyond b zero i = omega arith
first_gap-upper beyond b (suc left) i = ground (arith, first_gap-upper beyond b left (i + 1))

gap-bound :
    (beyond : ℕ → Bool) (k : ℕ) (content : Bytes) (b : Buffer)
    → IsExpecting k b
    → k < chunk_packet_number
    → gap_of beyond (stored k (arrived content k) b) ≤ 1024
gap-bound beyond k content b e h = omega (
  arith,
  e.at_most,
  first_gap-upper beyond (stored k (arrived content k) b) (1024 - b.expected) b.expected,
)

chunk_packet-type :
    (content : Bytes) (k : ℕ) → (to_wire (chunk_packet content k)).header.packet_type ≡ data_type
unfolding to_wire swap_header host_header
chunk_packet-type content k = refl

-- The manager with the chunk's time set.
timed-IsSingle :
    (offset : ℤ) (m : FileManager) (now : ℕ)
    → IsSingle offset m
    → (m' : FileManager) × (set_timer offset now m ≡ some m') × IsSingle offset m'
timed-IsSingle offset m now s =
    let v = s.fetching in
    let (place, inside, e) =
      set_timer_lem m v offset now (0, omega (arith, s.one_chunk), s.at_offset) in
    (
      record m {
        timer = some (record { size = v.timers.size; at = store (v.timers.at) place now });
      },
      e,
      record {
        fetching = record {
          going = v.going;
          offsets = v.offsets;
          timers = record { size = v.timers.size; at = store (v.timers.at) place now };
          has_offsets = v.has_offsets;
          has_timers = refl;
          offsets_room = v.offsets_room;
          timers_room = v.timers_room;
        };
        one_chunk = s.one_chunk;
        at_offset = s.at_offset;
      },
    )

module _ {F : Type 0} ⦃fl : FloatOps F⦄ where
  recv_data-next :
      (beyond : ℕ → Bool) (content : Bytes) (other offset : ℤ) (k : ℕ) (s : PeerState F)
      (v : IsReceiving content other offset k s)
      → k < chunk_packet_number
      → recv_data beyond (arrived content k) other s.recv_list
        ≡ some (
          filled beyond content k v.buffer ∷ [],
          ack_with (gap_of beyond (stored k (arrived content k) v.buffer)) ∷ [],
          some offset,
        )
  recv_data-next beyond content other offset k s v h =
      let b = v.buffer in
      rw (v.buffers, sym v.same_offset)
        (recv_data-at beyond k (arrived content k) other [] b [] (filled beyond content k b) _
          (arrived-seq content k h) h tt v.same_socket
          (recv_into-arrived beyond content k b (v.parts.missing k (omega arith) h)))

  -- A packet before the last one.
  pub handle_packet-next :
      (w : World) (config : Config) (other offset : ℤ) (content : Bytes) (k : ℕ)
      (trackers : Trackers) (s : PeerState F)
      → IsReceiving content other offset k s
      → k + 1 < chunk_packet_number
      → (o : Outcome F) × (handle_packet w config other
            (to_wire (chunk_packet content k))
            trackers
            s
          ≡ some o)
        × (o.packets ≡ ack_with (k + 1) ∷ [])
        × IsReceiving content other offset (k + 1) o.peer
        × (o.file ≡ none)
  handle_packet-next w config other offset content k trackers s v h =
      let b = v.buffer in
      let after = filled w.beyond content k b in
      let fields = filled-fields w.beyond content k b in
      let parts = filled-HasParts w.beyond content k b v.parts in
      let (m, e, single) = timed-IsSingle offset s.manager w.now v.single in
      let same : after.offset ≡ offset = fields.1 ∙ v.same_offset in
      let checked = check_file_manager-part content (k + 1) after m parts h (rw same single) in
      (
        _,
        handle_packet-recv_data w config other (to_wire (chunk_packet content k)) trackers s
            (after ∷ []) _ _ offset _ m _ _ (chunk_packet-type content k)
            (recv_data-next w.beyond content other offset k s v (omega arith)) e checked,
        ap (λ a. ack_with a ∷ []) (gap_of-arrived w.beyond content k b v.parts v.expecting h),
        record {
          buffer = after;
          buffers = refl;
          same_socket = fields.0 ∙ v.same_socket;
          same_offset = same;
          parts = parts;
          expecting = filled-IsExpecting w.beyond content k b v.parts v.expecting h;
          single = single;
        },
        refl,
      )

  -- The chunk's last packet: the file is written.
  pub handle_packet-last :
      (w : World) (config : Config) (other offset : ℤ) (content : Bytes) (k : ℕ)
      (trackers : Trackers) (s : PeerState F)
      → IsReceiving content other offset k s
      → k + 1 ≡ chunk_packet_number
      → (o : Outcome F) × (a : ℕ) × (handle_packet w config other
            (to_wire (chunk_packet content k))
            trackers
            s
          ≡ some o)
        × (o.packets ≡ ack_with a ∷ [])
        × (a ≤ 1024)
        × (o.peer.manager.init ≡ 0)
        × (o.file ≡ some (slice content 0 chunk_size))
  handle_packet-last w config other offset content k trackers s v h =
      let b = v.buffer in
      let after = filled w.beyond content k b in
      let fields = filled-fields w.beyond content k b in
      let parts : HasParts content chunk_packet_number after =
        subst (λ n. HasParts content n after) h (filled-HasParts w.beyond content k b v.parts) in
      let (m, e, single) = timed-IsSingle offset s.manager w.now v.single in
      let same : after.offset ≡ offset = fields.1 ∙ v.same_offset in
      let checked = check_file_manager-full content after m parts (rw same single) in
      (
        _,
        _,
        handle_packet-recv_data w config other (to_wire (chunk_packet content k)) trackers s
            (after ∷ []) _ _ offset _ m _ _ (chunk_packet-type content k)
            (recv_data-next w.beyond content other offset k s v (omega arith)) e checked,
        refl,
        gap-bound w.beyond k content b v.expecting (omega arith),
        refl,
        refl,
      )
