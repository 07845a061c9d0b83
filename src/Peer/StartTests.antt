-- ===== src/Peer/StartTests.antt =====
-- The start of two peers behind a router, at a concrete input.
use p2p_cc.Base.{
  ℕ, ◌/◌, ◌+◌, ◌*◌, ◌<◌, ◌≡◌, refl, false, true, none, some, [], ◌∷◌, leb, Bytes, bytes_of, arith,
}
use p2p_cc.Base.Int.{pos}
use p2p_cc.Packet.{Packet, swap16}
use p2p_cc.Tracker.{SockAddr, PacketTracker}
use p2p_cc.Sender.{FloatOps}
use p2p_cc.Spiffy.{Frame, spiffy_sendto, spiffy_recvfrom}
use p2p_cc.Spiffy.Init.{spiffy_init, split_colon, atoi, read_digits}
use p2p_cc.Log.{log_open}
use p2p_cc.Config.{
  node_id, node_line, set_options, set_option, bt_parse_command_line, bt_parse_peer_list,
  bt_peer_info, bt_init,
}
use p2p_cc.Manager.{Node, PeerState, World}
use p2p_cc.Peer.{process_inbound_udp}
use p2p_cc.Peer.Run.{start_running}
use p2p_cc.Peer.Start.{Environment, Started, testing_settings, start_peer_run, main}
use p2p_cc.Peer.Routed.{HasRouter, routed-ignored}

instance abbrev scaled : FloatOps ℕ
scaled = record {
  zero = 0;
  one = 1000000;
  inverse = λ n. 1000000 / n;
  add = λ a b. a + b;
  reached = λ a. leb 1000000 a;
}

abbrev world : World
world = record {
  now = 100;
  junk = [];
  beyond = λ i. false;
  contents = λ i. bytes_of [];
  block = bytes_of [];
  local = bytes_of [];
  stray = pos 0;
  prev_ack = 0;
  count_ack = pos 0;
}

-- "1.2.3.4:5", with two nodes on this host.
abbrev environment : Environment
environment = record {
  resolve = λ name. some 16777343;
  inet_aton = λ name. some 67305985;
  node_files =
      λ name. node_line (pos 1) (49 ∷ []) (pos 1) ∷ node_line (pos 2) (49 ∷ []) (pos 2) ∷ [];
  master_files = λ name. none;
  chunk_files = λ name. none;
  router = some (49 ∷ 46 ∷ 50 ∷ 46 ∷ 51 ∷ 46 ∷ 52 ∷ 58 ∷ 53 ∷ []);
  bind = λ port. true;
  log_opened = true;
  now = record { tv_sec = 0; tv_nsec = 0 };
}

abbrev node : ℕ → Node
node n = record {
  id = pos n;
  addr = record { sin_family = 2; sin_port = n * 256; s_addr = 16777343 };
}

-- Node n of the two.
abbrev peer : ℕ → Started ℕ
peer n = record {
  config = record {
    chunk_file = none;
    has_chunk_file = none;
    identity = pos n;
    peers = node 2 ∷ node 1 ∷ [];
  };
  spiffy = record {
    enabled = true;
    node_id = n;
    src_addr = 0;
    src_port = n * 256;
    router = record { sin_family = 0; sin_port = 1280; s_addr = 67305985 };
  };
  running = start_running;
  log = log_open none true (record { tv_sec = 0; tv_nsec = 0 });
}

first_main : main environment [] ≡ some (peer 1)
unfolding main testing_settings start_peer_run bt_init set_options set_option bt_parse_command_line
    bt_parse_peer_list bt_peer_info spiffy_init split_colon atoi read_digits swap16
first_main = refl

second_main : main environment (node_id (pos 2) ∷ []) ≡ some (peer 2)
unfolding main testing_settings start_peer_run bt_init set_options set_option bt_parse_command_line
    bt_parse_peer_list bt_peer_info spiffy_init split_colon atoi read_digits swap16
second_main = refl

abbrev idle : PeerState ℕ
idle = (peer 2).running.peer

abbrev tracker : PacketTracker
tracker = record {
  sock = pos 0;
  seq = pos 0;
  from = (node 1).addr;
  send_time = 0;
  expire_time = pos 0;
  packet = record {
    header = record {
      magicnum = 0;
      version = 0;
      packet_type = 0;
      header_len = 0;
      packet_len = 0;
      seq_num = 0;
      ack_num = 0;
    };
    payload = bytes_of [];
  };
}

split :
    split_colon (49 ∷ 46 ∷ 50 ∷ 46 ∷ 51 ∷ 46 ∷ 52 ∷ 58 ∷ 53 ∷ [])
    ≡ some (49 ∷ 46 ∷ 50 ∷ 46 ∷ 51 ∷ 46 ∷ 52 ∷ [], 53 ∷ [])
unfolding split_colon
split = refl

routed : HasRouter environment
routed = (_, _, _, 67305985, refl, split, refl)

routed-ignored_example :
    (f : Frame) × (out : Bytes) × (from : SockAddr) × (spiffy_sendto
        (peer 1).spiffy
        (λ j. j)
        1044
        (node 2).addr
      ≡ some f)
    × (spiffy_recvfrom (bytes_of []) (peer 2).spiffy (bytes_of []) (node 1).addr 1500 f
        ≡ (out, from, pos 1044))
    × ((j : ℕ) → j < 1044 → out j ≡ j)
    × ((packet : Packet)
        → process_inbound_udp tracker world (peer 2).config (from, packet) [] idle
          ≡ some (
            record { exited = false; peer = idle; trackers = []; packets = []; file = none },
            [],
          ))
routed-ignored_example =
    routed-ignored environment environment [] (node_id (pos 2) ∷ []) (peer 1) (peer 2) (bytes_of [])
      (λ j. j) (bytes_of []) (node 1).addr 1044 (node 2).addr tracker world [] idle routed routed
      first_main second_main (omega arith, (omega arith, tt)) refl (omega arith)
