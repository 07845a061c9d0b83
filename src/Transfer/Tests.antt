-- ===== src/Transfer/Tests.antt =====
-- The transfer of a packet and of a chunk at concrete inputs.
use p2p_cc.Base.{
  ℕ, zero, suc, ◌+◌, ◌*◌, ◌/◌, ◌%◌, ◌<◌, ◌≡◌, refl, inl, false, true, some, none, List, [], ◌∷◌,
  leb, arith, ◌↔◌, Bytes, bytes_of, slice,
}
use p2p_cc.Base.Int.{pos, minus_one, ◌-ℤ◌}
use p2p_cc.Packet.{Packet, from_wire, to_wire}
use p2p_cc.Sender.{
  FloatOps, chunk_packet_number, Data, Flow, unsend, slowstart, get_data_by_socket, send_data,
}
use p2p_cc.Sender.Sending.{AllSending}
use p2p_cc.Receiver.{Buffer, recv_data, copy_chunk_data, new_buffer, chunk_size, is_buffer_full}
use p2p_cc.Hashes.{Content, get_data_from_hash, scan_index, read_content, content_at, same_hash}
use p2p_cc.Chunk.{hex2binary, read_hex, hex_byte, hex_value, or_bits, toupper}
use p2p_cc.Manager.{Config, FileManager, PeerState, World}
use p2p_cc.Transfer.Written.{IsSingle}
use p2p_cc.Transfer.Link.{Side, Link, fetch}
use p2p_cc.Transfer.Fetch.{fetch_lem}
use p2p_cc.Transfer.Arrivals.{deliver, has, HoldsSet}
use p2p_cc.Transfer.Reorder.{deliver_lem}
use p2p_cc.Transfer.{transfer}
use p2p_cc.Sender.Returned.{nth}

abbrev content : Bytes
content i = i % 251

abbrev buffer : Buffer
buffer = record {
  expected = 1;
  socket = pos 2;
  offset = pos 7;
  busy = true;
  total_recv = pos 0;
  chunks = λ i. record { acked = false; recved = false; length = pos 0; content = bytes_of [] };
}

-- A chunk of which nothing has been sent, with a window of 8.
abbrev sending : Data ℕ
sending = record {
  socket = pos 1;
  offset = pos 7;
  content = some content;
  state = λ i. unsend;
  send_window = 8;
  ssthresh = 64;
  congestion_control_state = slowstart;
  start = minus_one;
  end = minus_one;
  increase_rate = 0;
  prev_ack = 0;
  count_ack = pos 0;
}

transfer_example :
    (f' : Flow ℕ) × (ret : List Packet) × (p : Packet) × (after : Buffer) × (ack : Packet)
    × (out : Bytes) × (send_data (pos 1) (record { list = sending ∷ []; log = [] })
        ≡ some (f', ret))
    × (nth ret 3 ≡ some p)
    × (recv_data (λ i. false) (from_wire (to_wire p)) (pos 2) (buffer ∷ [])
        ≡ some (after ∷ [], ack ∷ [], some (pos 7)))
    × (ack.header.packet_type ≡ 4)
    × (copy_chunk_data (bytes_of []) (pos 7) 4 (after ∷ []) ≡ (out, pos 1024))
    × ((i : ℕ) → i < 1024 → out i ≡ content (4 * 1024 + i))
unfolding get_data_by_socket ◌-ℤ◌
transfer_example =
    transfer (pos 1) (record { list = sending ∷ []; log = [] }) sending content 0 4 (λ i. false)
      (bytes_of []) buffer [] refl
      (record { has_content = refl; end_at = refl; in_chunk = omega arith }) (omega arith)
      (omega arith) refl

instance abbrev scaled : FloatOps ℕ
scaled = record {
  zero = 0;
  one = 1000000;
  inverse = λ n. 1000000 / n;
  add = λ a b. a + b;
  reached = λ a. leb 1000000 a;
}

abbrev world : World
world = record {
  now = 100;
  junk = [];
  beyond = λ i. true;
  contents = λ i. bytes_of [];
  block = bytes_of [];
  local = bytes_of [];
  stray = pos 0;
  prev_ack = 99;
  count_ack = pos 7;
}

abbrev zeros : ℕ → List ℕ
zeros zero = []
zeros (suc n) = 48 ∷ zeros n

abbrev file : Content
file = record { bytes = λ i. i; size = 1048576 }

abbrev config : Config
config = record {
  chunk_file = some (record { content = some file; lines = (pos 1, zeros 40) ∷ [] });
  has_chunk_file = none;
  identity = pos 1;
  peers = [];
}

abbrev manager : FileManager
manager = record {
  init = 1;
  chunk_count = 1;
  offset = some (record { size = 1; at = λ i. pos 1 });
  top = 1;
  timer = some (record { size = 1; at = λ i. 0 });
  already_used = some [];
}

manager-IsSingle : IsSingle (pos 1) manager
manager-IsSingle = record {
  fetching = record {
    going = omega arith;
    offsets = record { size = 1; at = λ i. pos 1 };
    timers = record { size = 1; at = λ i. 0 };
    has_offsets = refl;
    has_timers = refl;
    offsets_room = omega arith;
    timers_room = omega arith;
  };
  one_chunk = refl;
  at_offset = refl;
}

-- The peers 1 and 2.
abbrev first : Side
first = record { world = world; config = config; other = pos 2 }

abbrev second : Side
second = record { world = world; config = config; other = pos 1 }

abbrev idle : PeerState ℕ
idle = record { flow = record { list = []; log = [] }; recv_list = []; manager = manager }

-- Peer 2 waits for the chunk.
abbrev waiting : PeerState ℕ
waiting = record idle { recv_list = new_buffer (λ i. bytes_of []) (pos 1) (pos 1) ∷ [] }

abbrev request : Packet
request = record {
  header = record {
    magicnum = 20796;
    version = 1;
    packet_type = 2;
    header_len = 4096;
    packet_len = 9216;
    seq_num = 0;
    ack_num = 0;
  };
  payload = bytes_of [];
}

fetch_lem_example :
    let bytes = content_at (bytes_of []) (pos 1) file in
    (l : Link ℕ) × (fetch first second (λ j. []) chunk_packet_number request idle waiting ≡ some l)
    × (l.file ≡ some (slice bytes 0 chunk_size))
    × (l.receiver.manager.init ≡ 0)
    × AllSending l.sender.flow.list
unfolding get_data_from_hash scan_index read_content same_hash hex2binary read_hex hex_byte
    hex_value or_bits toupper
fetch_lem_example =
    fetch_lem first second (λ j. []) request (content_at (bytes_of []) (pos 1) file) (pos 1)
      (λ i. bytes_of []) idle waiting refl refl tt (inl (omega arith)) refl manager-IsSingle
      (λ j. tt)

-- Packets 3, 1 and again 3.
deliver_lem_example :
    (after : Buffer) × (deliver
        (λ i. false)
        content
        (pos 2)
        (2 ∷ 0 ∷ 2 ∷ [])
        (new_buffer (λ i. bytes_of []) (pos 7) (pos 2) ∷ [])
      ≡ some (after ∷ []))
    × HoldsSet content (λ j. has j (2 ∷ 0 ∷ 2 ∷ [])) after
    × ((is_buffer_full (pos 7) (after ∷ []) ≡ pos 1)
        ↔ ((j : ℕ) → j < chunk_packet_number → has j (2 ∷ 0 ∷ 2 ∷ []) ≡ true))
deliver_lem_example =
    deliver_lem (λ i. false) content (λ i. bytes_of []) (pos 2) (pos 7) (2 ∷ 0 ∷ 2 ∷ [])
      (omega arith, (omega arith, (omega arith, tt)))
