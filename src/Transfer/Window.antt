-- ===== src/Transfer/Window.antt =====
-- The sender (flow_control.c) at an acknowledgement that comes in order.
use p2p_cc.Base.{
  ℕ, zero, suc, ◌+◌, ◌-◌, ◌≤◌, ◌<◌, ◌^◌, ◌≡◌, refl, ◌∙◌, ap, false, some, List, [], ◌∷◌, ◌++◌,
  arith, Bytes,
}
use p2p_cc.Base.Int.{ℤ, pos, sub_ℕ, ◌-ℤ◌, -ℤ_parts, to_u32}
use p2p_cc.Packet.{Packet, to_wire}
use p2p_cc.Packet.Layout.{swap32_self}
use p2p_cc.Tracker.{Trackers}
use p2p_cc.Sender.{
  Data, FloatOps, chunk_packet_number, get_data_by_socket, check_return_ack, congestion_control,
}
use p2p_cc.Sender.Sent.{sent_to, room, chunk_packet, chunk_packets}
use p2p_cc.Sender.Pending.{HasDummy}
use p2p_cc.Sender.Invariant.{IsSender, sent_to-IsSender, congestion_control-IsSender}
use p2p_cc.Sender.Sending.{get-put}
use p2p_cc.Sender.Replies.{
  acknowledged, acknowledged-IsSender, handle_ack-new, socket-check, socket-congestion_control,
}
use p2p_cc.Receiver.Acks.{ack_packet, ack_packet-type}
use p2p_cc.Manager.{Config, PeerState, World, Outcome, handle_packet}
use p2p_cc.Manager.Acked.{after_ack, handle_packet-handle_ack}
use p2p_cc.Peer.{reverse_list}
use p2p_cc.Peer.Order.{reverse_onto-append}

-- The ACK packet with a number.
abbrev pub ack_with : ℕ → Packet
ack_with a = record ack_packet { header = record (ack_packet.header) { ack_num = a } }

-- The packets with the indices n, ..., n + count - 1 in their order.
abbrev pub in_order : Bytes → ℕ → ℕ → List Packet
in_order content n zero = []
in_order content n (suc count) = chunk_packet content n ∷ in_order content (n + 1) count

pub reverse_list-chunk_packets :
    (content : Bytes) (n count : ℕ)
    → reverse_list (chunk_packets content n count) ≡ in_order content n count
unfolding reverse_list
reverse_list-chunk_packets content n zero = unfold reverse_list in refl
reverse_list-chunk_packets content n (suc count) =
    reverse_onto-append [] (chunk_packets content (n + 1) count) (chunk_packet content n ∷ [])
    ∙ ap (λ (r : List Packet). chunk_packet content n ∷ r)
        (reverse_list-chunk_packets content (n + 1) count)

-- The packets that follow each other.
pub in_order-append :
    (content : Bytes) (n k m : ℕ)
    → in_order content n k ++ in_order content (n + k) m ≡ in_order content n (k + m)
in_order-append content n zero m =
    let same : n + 0 ≡ n = omega arith in
    let none_more : 0 + m ≡ m = omega arith in rw (same, none_more)
in_order-append content n (suc k) m =
    let same : n + suc k ≡ n + 1 + k = omega arith in
    let count : suc k + m ≡ suc (k + m) = omega arith in
    rw (same, count)
      (ap (λ (r : List Packet). chunk_packet content n ∷ r) (in_order-append content (n + 1) k m))

module _ {F : Type 0} where
  -- An acknowledgement of k packets is not taken for a repetition.
  abbrev pub IsFresh : ℕ → Data F → Type 0
  IsFresh k d = (check_return_ack d (sub_ℕ k 1)).1 ≡ false

  prev_ack-check : (d : Data F) (ack : ℤ) → (check_return_ack d ack).0.prev_ack ≡ to_u32 ack
  unfolding check_return_ack
  prev_ack-check d ack = ground arith

  pub later-IsFresh :
      (k : ℕ) (d : Data F)
      → d.prev_ack ≡ to_u32 (sub_ℕ (k + 1) 1)
      → k + 2 < 2 ^ 32
      → IsFresh (k + 1 + 1) d
  unfolding check_return_ack
  later-IsFresh k d e h = ground arith

module _ {F : Type 0} ⦃fl : FloatOps F⦄ where
  -- What the acknowledgement of the packets below k leaves: the sender has acknowledged k packets and
  -- sent m.
  pub record IsAdvanced (socket : ℤ) (content : Bytes) (n k : ℕ) (o : Outcome F) : Type 0 where
    pub m : ℕ
    pub data_of : Data F
    pub packets : o.packets ≡ chunk_packets content n (m - n)
    pub forward : n ≤ m
    pub goes_on : k < chunk_packet_number → k < m
    pub found : get_data_by_socket socket o.peer.flow.list ≡ some data_of
    pub valid : IsSender content m k data_of
    pub prev_ack : data_of.prev_ack ≡ to_u32 (sub_ℕ k 1)

  prev-congestion_control : (d : Data F) → (congestion_control d).0.prev_ack ≡ d.prev_ack
  unfolding congestion_control
  prev-congestion_control d = ground arith

  -- A window that is not full has room for a packet, before the chunk's end.
  has_room :
      (content : Bytes) (n k : ℕ) (d : Data F)
      → IsSender content n k d
      → k ≤ n
      → k < chunk_packet_number
      → k < n + room n d
  has_room content n k d v q h = ground (
    arith,
    v.window,
    v.sent.end_at,
    v.start_at,
    -ℤ_parts d.end d.start,
    -ℤ_parts (pos d.send_window) (d.end -ℤ d.start),
  )

  pub handle_packet-advance :
      (w : World) (config : Config) (socket : ℤ) (trackers : Trackers) (s : PeerState F)
      (content : Bytes) (n s0 k : ℕ) (d : Data F)
      → get_data_by_socket socket s.flow.list ≡ some d
      → IsSender content n s0 d
      → k ≤ n
      → IsFresh k d
      → HasDummy trackers
      → (o : Outcome F) × (handle_packet w config socket (to_wire (ack_with k)) trackers s ≡ some o)
        × IsAdvanced socket content n k o
  handle_packet-advance w config socket trackers s content n s0 k d found v sent fresh dummy =
      let d' : Data F = (congestion_control (acknowledged s0 k d)).0 in
      let log = (congestion_control (acknowledged s0 k d)).1 in
      let v' =
        congestion_control-IsSender content n k (acknowledged s0 k d)
          (acknowledged-IsSender content n s0 k d sent v) in
      let (left, e, keeps) =
        handle_ack-new socket k trackers s.flow content n s0 d found fresh sent v dummy in
      let same : d'.socket ≡ d.socket =
        socket-congestion_control (acknowledged s0 k d) ∙ socket-check d (sub_ℕ k 1) in
      let m : ℕ = n + room n d' in
      let small : k ≤ chunk_packet_number = omega (arith, v.sent.in_chunk) in
      (
        after_ack s _ left (chunk_packets content n (room n d')),
        handle_packet-handle_ack w config socket (to_wire (ack_with k)) trackers s k _ left _
            (unfold to_wire in ack_packet-type) (unfold to_wire in swap32_self k (omega arith))
            (omega arith) e,
        record {
          m = m;
          data_of = sent_to n m d';
          packets = let all : room n d' ≡ m - n = omega arith in ap (chunk_packets content n) all;
          forward = omega arith;
          goes_on = has_room content n k d' v' sent;
          found = get-put socket s.flow.list d (sent_to n m d') found same;
          valid =
              sent_to-IsSender content n m k d' (omega arith) (omega (arith, v'.sent.in_chunk)) v';
          prev_ack = prev-congestion_control (acknowledged s0 k d) ∙ prev_ack-check d (sub_ℕ k 1);
        },
      )
