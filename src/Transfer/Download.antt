-- ===== src/Transfer/Download.antt =====
-- The transfer of a whole chunk over the link.
use mathlib.Core.List.{append-nil, map-append}
use mathlib.Core.Path.{subst}
use p2p_cc.Base.{
  ℕ, zero, suc, ◌+◌, ◌-◌, ◌^◌, ◌≤◌, ◌<◌, ◌≡◌, refl, sym, ap, ◌∙◌, some, List, [], ◌∷◌, ◌++◌, map,
  arith, Bytes, slice,
}
use p2p_cc.Base.Int.{ℤ}
use p2p_cc.Packet.{Packet, to_wire, swap32, ack_type}
use p2p_cc.Packet.Layout.{swap32_self}
use p2p_cc.Tracker.{Trackers}
use p2p_cc.Sender.{Data, FloatOps, chunk_packet_number, get_data_by_socket}
use p2p_cc.Sender.Sent.{chunk_packet, chunk_packets}
use p2p_cc.Sender.Pending.{HasDummy}
use p2p_cc.Sender.Invariant.{IsSender}
use p2p_cc.Sender.Sending.{AllSending}
use p2p_cc.Receiver.{chunk_size}
use p2p_cc.Receiver.Acks.{ack_packet-type}
use p2p_cc.Manager.{PeerState, Outcome, handle_packet}
use p2p_cc.Manager.Acked.{handle_packet-ack}
use p2p_cc.Peer.{reverse_list, reverse_onto}
use p2p_cc.Transfer.Window.{
  ack_with, in_order, reverse_list-chunk_packets, in_order-append, IsFresh, later-IsFresh,
  handle_packet-advance,
}
use p2p_cc.Transfer.Receive.{IsReceiving, handle_packet-next, handle_packet-last}
use p2p_cc.Transfer.Link.{Side, Link, newer, answers, round, rounds}

ack_with-type : (a : ℕ) → (to_wire (ack_with a)).header.packet_type ≡ ack_type
unfolding to_wire
ack_with-type a = ack_packet-type

ack_with-number : (a : ℕ) → a < 2 ^ 32 → swap32 (to_wire (ack_with a)).header.ack_num ≡ a
unfolding to_wire
ack_with-number a h = swap32_self a h

-- The first packet of those on their way.
queue_head :
    (content : Bytes) (k n : ℕ)
    → k < n
    → map to_wire (in_order content k (n - k))
      ≡ to_wire (chunk_packet content k) ∷ map to_wire (in_order content (k + 1) (n - (k + 1)))
queue_head content k n h = ap (λ count. map to_wire (in_order content k count)) (count k n h)
  where
    count : (k n : ℕ) → k < n → n - k ≡ suc (n - (k + 1))
    count k n h = omega arith

-- The packets that were on their way, and those that are new.
queue_tail :
    (content : Bytes) (k n m : ℕ)
    → k < n
    → n ≤ m
    → map to_wire (in_order content (k + 1) (n - (k + 1)))
        ++ map to_wire (reverse_list (chunk_packets content n (m - n)))
      ≡ map to_wire (in_order content (k + 1) (m - (k + 1)))
queue_tail content k n m h q =
    let from : k + 1 + (n - (k + 1)) ≡ n = omega arith in
    let size : n - (k + 1) + (m - n) ≡ m - (k + 1) = omega arith in
    let joined = in_order-append content (k + 1) (n - (k + 1)) (m - n) in
    ap (λ (r : List Packet). map to_wire (in_order content (k + 1) (n - (k + 1))) ++ map to_wire r)
      (reverse_list-chunk_packets content n (m - n))
    ∙ sym (map-append to_wire (in_order content (k + 1) (n - (k + 1))) (in_order content n (m - n)))
    ∙ ap (map to_wire) (
        subst
          (λ j.
            in_order content (k + 1) (n - (k + 1)) ++ in_order content j (m - n)
            ≡ in_order content (k + 1) (n - (k + 1) + (m - n)))
          from joined
        ∙ ap (in_order content (k + 1)) size)

module _ {F : Type 0} where
  -- The sender has the acknowledgements of k packets, and has sent n.
  pub record IsSending (content : Bytes) (other : ℤ) (n k : ℕ) (s : PeerState F) : Type 0 where
    pub chunk : Data F
    pub found : get_data_by_socket other s.flow.list ≡ some chunk
    pub valid : IsSender content n k chunk
    pub fresh : IsFresh (k + 1) chunk
    pub all : AllSending s.flow.list

  -- After k rounds: the packets from k up to n are on their way.
  pub record IsDownload (from to : Side) (content : Bytes) (offset : ℤ) (k : ℕ) (l : Link F)
      : Type 0 where
    pub n : ℕ
    pub some_sent : k < n
    pub queue : l.queue ≡ map to_wire (in_order content k (n - k))
    pub sending : IsSending content from.other n k l.sender
    pub receiving : IsReceiving content to.other offset k l.receiver

module _ {F : Type 0} ⦃fl : FloatOps F⦄ where
  -- A round in which the packet is answered by one packet.
  round-one :
      (from to : Side) (trackers : Trackers) (l : Link F) (packet ack : Packet) (rest : List Packet)
      (o o' : Outcome F)
      → l.queue ≡ packet ∷ rest
      → handle_packet to.world to.config to.other packet [] l.receiver ≡ some o
      → o.packets ≡ ack ∷ []
      → handle_packet from.world from.config from.other (to_wire ack) trackers l.sender ≡ some o'
      → round from to trackers l
        ≡ some (record {
          sender = o'.peer;
          receiver = o.peer;
          queue = rest ++ map to_wire (reverse_list o'.packets);
          file = newer o.file l.file;
        })
  unfolding round answers reverse_list reverse_onto
  round-one from to trackers l packet ack rest o o' q e one e' = rw (q, e, one, e', append-nil)

  -- The sender's side of a round before the last one.
  acknowledged_round :
      (side : Side) (content : Bytes) (n k : ℕ) (trackers : Trackers) (s : PeerState F)
      → IsSending content side.other n k s
      → k < n
      → k + 1 < chunk_packet_number
      → HasDummy trackers
      → (o : Outcome F) × (m : ℕ) × (handle_packet side.world side.config side.other
            (to_wire (ack_with (k + 1)))
            trackers
            s
          ≡ some o)
        × (o.packets ≡ chunk_packets content n (m - n))
        × (n ≤ m)
        × (k + 1 < m)
        × IsSending content side.other m (k + 1) o.peer
  acknowledged_round side content n k trackers s v sent h dummy =
      let packet = to_wire (ack_with (k + 1)) in
      let (o, e, a) =
        handle_packet-advance side.world side.config side.other trackers s content n k (k + 1)
          v.chunk v.found v.valid (omega arith) v.fresh dummy in
      let safe =
        handle_packet-ack side.world side.config side.other packet trackers s (k + 1)
          (ack_with-type (k + 1)) (ack_with-number (k + 1) (omega arith)) (omega arith) v.all
          dummy in
      let same : safe.0 ≡ o = cc in
      (
        o,
        a.m,
        e,
        a.packets,
        a.forward,
        a.goes_on h,
        record {
          chunk = a.data_of;
          found = a.found;
          valid = a.valid;
          fresh = later-IsFresh k a.data_of a.prev_ack (omega arith);
          all = subst (λ (o' : Outcome F). AllSending o'.peer.flow.list) same (safe.2);
        },
      )

  -- A round before the last one.
  round-IsDownload :
      (from to : Side) (trackers : Trackers) (content : Bytes) (offset : ℤ) (k : ℕ) (l : Link F)
      → IsDownload from to content offset k l
      → k + 1 < chunk_packet_number
      → HasDummy trackers
      → (l' : Link F) × (round from to trackers l ≡ some l')
        × IsDownload from to content offset (k + 1) l'
  round-IsDownload from to trackers content offset k l v h dummy =
      let (o, e, one, receiving, no_file) =
        handle_packet-next to.world to.config to.other offset content k [] l.receiver v.receiving
          h in
      let (o', m, e', packets, forward, more, sending) =
        acknowledged_round from content v.n k trackers l.sender v.sending v.some_sent h dummy in
      (
        _,
        round-one from to trackers l (to_wire (chunk_packet content k)) (ack_with (k + 1)) _ o o'
            (v.queue ∙ queue_head content k v.n v.some_sent) e one e',
        record {
          n = m;
          some_sent = more;
          queue = rw packets (queue_tail content k v.n m v.some_sent forward);
          sending = sending;
          receiving = receiving;
        },
      )

  rounds-IsDownload :
      (from to : Side) (trackers : ℕ → Trackers) (content : Bytes) (offset : ℤ) (k : ℕ) (l : Link F)
      → IsDownload from to content offset 0 l
      → ((j : ℕ) → HasDummy (trackers j))
      → k < chunk_packet_number
      → (l' : Link F) × (rounds from to trackers k l ≡ some l')
        × IsDownload from to content offset k l'
  unfolding rounds
  rounds-IsDownload from to trackers content offset zero l v dummy h = (l, refl, v)
  rounds-IsDownload from to trackers content offset (suc k) l v dummy h =
      let (l1, e1, v1) =
        rounds-IsDownload from to trackers content offset k l v dummy (omega arith) in
      let (l2, e2, v2) =
        round-IsDownload from to (trackers k) content offset k l1 v1 (omega arith) (dummy k) in
      let next : k + 1 ≡ suc k = omega arith in
      (l2, rw (e1, e2), subst (λ j. IsDownload from to content offset j l2) next v2)

  -- The last round.
  round-last :
      (from to : Side) (trackers : Trackers) (content : Bytes) (offset : ℤ) (k : ℕ) (l : Link F)
      → IsDownload from to content offset k l
      → k + 1 ≡ chunk_packet_number
      → HasDummy trackers
      → (l' : Link F) × (round from to trackers l ≡ some l')
        × (l'.file ≡ some (slice content 0 chunk_size))
        × (l'.receiver.manager.init ≡ 0)
        × AllSending l'.sender.flow.list
  round-last from to trackers content offset k l v h dummy =
      let (o, a, e, one, small, closed, written) =
        handle_packet-last to.world to.config to.other offset content k [] l.receiver v.receiving
          h in
      let safe =
        handle_packet-ack from.world from.config from.other (to_wire (ack_with a)) trackers l.sender
          a (ack_with-type a) (ack_with-number a (omega arith)) (omega arith) v.sending.all dummy in
      (
        _,
        round-one from to trackers l (to_wire (chunk_packet content k)) (ack_with a) _ o safe.0
            (v.queue ∙ queue_head content k v.n v.some_sent) e one safe.1,
        ap (λ file. newer file l.file) written,
        closed,
        safe.2,
      )

  next_round :
      (from to : Side) (trackers : ℕ → Trackers) (k : ℕ) (l l1 : Link F)
      → rounds from to trackers k l ≡ some l1
      → rounds from to trackers (suc k) l ≡ round from to (trackers k) l1
  unfolding rounds
  next_round from to trackers k l l1 e = rw e

  pub download :
      (from to : Side) (trackers : ℕ → Trackers) (content : Bytes) (offset : ℤ) (l : Link F)
      → IsDownload from to content offset 0 l
      → ((j : ℕ) → HasDummy (trackers j))
      → (l' : Link F) × (rounds from to trackers chunk_packet_number l ≡ some l')
        × (l'.file ≡ some (slice content 0 chunk_size))
        × (l'.receiver.manager.init ≡ 0)
        × AllSending l'.sender.flow.list
  download from to trackers content offset l v dummy =
      let (l1, e1, v1) =
        rounds-IsDownload from to trackers content offset 511 l v dummy (omega arith) in
      let (l2, e2, written, closed, all) =
        round-last from to (trackers 511) content offset 511 l1 v1 refl (dummy 511) in
      (l2, next_round from to trackers 511 l l1 e1 ∙ e2, written, closed, all)
