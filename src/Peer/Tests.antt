-- ===== src/Peer/Tests.antt =====
-- Runs of the peer, and its theorems at concrete inputs.
use p2p_cc.Base.{ℕ, ◌+◌, ◌/◌, ◌%◌, ◌≡◌, refl, none, some, List, [], ◌∷◌, map, leb, bytes_of}
use p2p_cc.Base.Int.{ℤ, pos, minus_one}
use p2p_cc.Packet.{Packet}
use p2p_cc.Tracker.{SockAddr, PacketTracker, Trackers, dummy_seq}
use p2p_cc.Sender.{Data, Flow, FloatOps, unsend, slowstart, new_data, get_data_by_socket, send_data}
use p2p_cc.Sender.Sent.{room}
use p2p_cc.Sender.Invariant.{IsSender, new_data-IsSender}
use p2p_cc.Manager.{Node}
use p2p_cc.Peer.{Datagram, reverse_list, broadcast, broadcast_to, sweep}
use p2p_cc.Peer.Sweep.{resent, SameKeys, NoneDue, sweep_lem, sweep-flow}
use p2p_cc.Peer.Order.{numbers, send_data-reverse_list}

instance abbrev scaled : FloatOps ℕ
scaled = record {
  zero = 0;
  one = 1000000;
  inverse = λ n. 1000000 / n;
  add = λ a b. a + b;
  reached = λ a. leb 1000000 a;
}

abbrev address : ℕ → SockAddr
address n = record { sin_family = 2; sin_port = n; s_addr = 0 }

abbrev packet : Packet
packet = record {
  header = record {
    magicnum = 20796;
    version = 1;
    packet_type = 3;
    header_len = 4096;
    packet_len = 4100;
    seq_num = 0;
    ack_num = 0;
  };
  payload = bytes_of [];
}

abbrev entry : ℤ → ℤ → ℕ → PacketTracker
entry sock seq time = record {
  sock = sock;
  seq = seq;
  from = address 1111;
  send_time = time;
  expire_time = pos 0;
  packet = packet;
}

-- Three nodes, of which the second is this one.
abbrev nodes : List Node
nodes =
    record { id = pos 1; addr = address 1111 }
    ∷ record { id = pos 2; addr = address 2222 }
    ∷ record { id = pos 3; addr = address 3333 }
    ∷ []

others :
    map
      (λ (d : Datagram). d.0.sin_port)
      (broadcast packet
        (record { chunk_file = none; has_chunk_file = none; identity = pos 2; peers = nodes }))
    ≡ 1111 ∷ 3333 ∷ []
unfolding broadcast broadcast_to
others = refl

-- One packet has waited for three seconds, another has just been sent.
abbrev in_flight : Trackers
in_flight = entry (pos 0) dummy_seq 5 ∷ entry (pos 2) (pos 1) 5 ∷ entry (pos 3) (pos 4) 8 ∷ []

abbrev chunk : Data ℕ
chunk = record {
  socket = pos 2;
  offset = pos 7;
  content = some (λ i. i % 251);
  state = λ i. unsend;
  send_window = 1;
  ssthresh = 64;
  congestion_control_state = slowstart;
  start = minus_one;
  end = minus_one;
  increase_rate = 1000000;
  prev_ack = 99;
  count_ack = pos 0;
}

abbrev sending : Flow ℕ
sending = record { list = chunk ∷ []; log = [] }

sweep_lem_example :
    let (trackers', f', sent) = sweep 8 in_flight sending in
    (sent ≡ resent 8 in_flight) × SameKeys in_flight trackers' × NoneDue 8 trackers'
sweep_lem_example = sweep_lem 8 in_flight sending

sweep-flow_example : (sweep 8 in_flight sending).1 ≡ sending
unfolding get_data_by_socket
sweep-flow_example = sweep-flow 8 in_flight sending (refl, (refl, (refl, tt))) refl

chunk-IsSender : IsSender (λ i. i % 251) 0 0 chunk
unfolding new_data
chunk-IsSender = new_data-IsSender 99 (pos 0) (pos 2) (pos 7) (λ i. i % 251)

send_data-reverse_list_example :
    (f' : Flow ℕ) × (ret : List Packet) × (send_data (pos 2) sending ≡ some (f', ret))
    × (map (λ p. p.header.seq_num) (reverse_list ret) ≡ numbers (0 + 1) (room 0 chunk))
unfolding get_data_by_socket
send_data-reverse_list_example =
    send_data-reverse_list (pos 2) (λ i. i % 251) 0 chunk sending refl chunk-IsSender.sent
