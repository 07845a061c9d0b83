-- ===== src/Peer/RunTests.antt =====
-- Rounds of the peer at concrete inputs.
use p2p_cc.Base.{
  ℕ, zero, suc, ◌+◌, ◌/◌, ◌≡◌, refl, false, none, some, Option, List, [], ◌∷◌, leb, bytes_of, arith,
}
use p2p_cc.Base.Int.{pos, ◌-ℤ◌, ◌+ℤ◌}
use p2p_cc.Packet.{
  Packet, from_wire, to_wire, swap_header, swap32, swap16, init_packet, fill_plain, host_header,
}
use p2p_cc.Tracker.{SockAddr, PacketTracker, create_timer, new_tracker, timer_expired}
use p2p_cc.Sender.{
  FloatOps, init_datalist, new_data, send_data, get_data_by_socket, put_data, send_window_of,
  send_packets, send_next, data_packet, get_content_by_index,
}
use p2p_cc.Chunk.{hex2binary, read_hex, hex_byte, hex_value, or_bits, toupper}
use p2p_cc.Input.{create_userbuf}
use p2p_cc.Hashes.{
  Content, get_data_from_hash, scan_index, read_content, same_hash,
  get_off_set_from_master_chunkfile, index_of_hash,
}
use p2p_cc.Manager.{Config, World, handle_packet, handle_get, re_generate_whohas}
use p2p_cc.Peer.{
  Datagram, process_inbound_udp, target_id, reverse_list, reverse_onto, respond, respond_one,
  check_timers, start_timer, convert_last, check_round, sweep,
}
use p2p_cc.Peer.Run.{
  Running, Round, start_running, scan_get, scan_words, get_word, peer_round, inbound, typed,
  checked, and_then,
}
use p2p_cc.Peer.Reachable.{IsRunning, start, later, reachable-IsRunning}

-- "GET a b"
scanned :
    scan_get get_word (71 ∷ 69 ∷ 84 ∷ 32 ∷ 97 ∷ 32 ∷ 98 ∷ [])
    ≡ record { chunkf = 97 ∷ []; outf = 98 ∷ []; count = pos 2 }
unfolding scan_get scan_words
scanned = refl

instance abbrev scaled : FloatOps ℕ
scaled = record {
  zero = 0;
  one = 1000000;
  inverse = λ n. 1000000 / n;
  add = λ a b. a + b;
  reached = λ a. leb 1000000 a;
}

abbrev world : World
world = record {
  now = 100;
  junk = [];
  beyond = λ i. false;
  contents = λ i. bytes_of [];
  block = bytes_of [];
  local = bytes_of [];
  stray = pos 0;
  prev_ack = 0;
  count_ack = pos 0;
}

abbrev address : SockAddr
address = record { sin_family = 2; sin_port = 1111; s_addr = 0 }

abbrev zeros : ℕ → List ℕ
zeros zero = []
zeros (suc n) = 48 ∷ zeros n

abbrev file : Content
file = record { bytes = λ i. i; size = 1048576 }

abbrev config : Config
config = record {
  chunk_file = some (record { content = some file; lines = (pos 1, zeros 40) ∷ [] });
  has_chunk_file = none;
  identity = pos 1;
  peers = record { id = pos 2; addr = address } ∷ [];
}

-- GET of the hash of zeros.
abbrev request : Packet
request = record {
  header = record {
    magicnum = 20796;
    version = 1;
    packet_type = 2;
    header_len = 4096;
    packet_len = 9216;
    seq_num = 0;
    ack_num = 0;
  };
  payload = bytes_of [];
}

abbrev unset : PacketTracker
unset = record {
  sock = pos 0;
  seq = pos 0;
  from = address;
  send_time = 0;
  expire_time = pos 0;
  packet = request;
}

-- A round in which the request comes in.
abbrev first_round : Option (Round ℕ)
first_round =
    peer_round unset world (λ i. world) world config (λ name. none) (some (address, request)) none
      start_running

abbrev after : Running ℕ
after = elim first_round [ none ↦ start_running | some (exited, r, datagrams) ↦ r ]

abbrev sent : List Datagram
sent = elim first_round [ none ↦ [] | some (exited, r, datagrams) ↦ datagrams ]

reached : first_round ≡ some (false, after, sent)
unfolding peer_round inbound typed checked and_then process_inbound_udp handle_packet handle_get
    from_wire swap_header swap32 swap16 target_id get_data_from_hash scan_index read_content
    same_hash hex2binary read_hex hex_byte hex_value or_bits toupper
    get_off_set_from_master_chunkfile index_of_hash init_datalist new_data send_data
    get_data_by_socket put_data send_window_of send_packets send_next data_packet
    get_content_by_index init_packet fill_plain host_header reverse_list reverse_onto respond
    respond_one check_timers start_timer convert_last create_timer new_tracker check_round
    re_generate_whohas sweep timer_expired start_running create_userbuf to_wire ◌-ℤ◌ ◌+ℤ◌
reached = refl

reachable-IsRunning_example : IsRunning after
reachable-IsRunning_example = reachable-IsRunning {config = config} {files = λ name. none} (
    later unset world (λ i. world) world (some (address, request)) none sent start
      (λ is_ack. absurd (omega arith)) reached)
