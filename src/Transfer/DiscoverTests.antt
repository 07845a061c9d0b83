-- ===== src/Transfer/DiscoverTests.antt =====
-- How a peer finds a chunk, at a concrete input.
use p2p_cc.Base.{
  ℕ, zero, suc, ◌/◌, ◌+◌, ◌*◌, ◌≡◌, refl, false, none, some, List, [], ◌∷◌, leb, ltb, if◌then◌else◌,
  arith, Bytes, bytes_of,
}
use p2p_cc.Base.Int.{pos}
use p2p_cc.Packet.{Packet, from_wire, to_wire}
use p2p_cc.Packet.Layout.{plain_packet}
use p2p_cc.Sender.{FloatOps}
use p2p_cc.Sender.Sent.{chunk_packet}
use p2p_cc.Sender.Sending.{AllSending}
use p2p_cc.Receiver.{new_buffer, in_use}
use p2p_cc.Chunk.{hex2binary, read_hex, hex_byte, hex_value, or_bits, toupper}
use p2p_cc.Hashes.{
  Content, read_chunkfile, read_lines, strlen, search_local, same_hash, get_data_from_hash,
  scan_index, read_content, content_at, get_off_set_from_master_chunkfile, index_of_hash,
}
use p2p_cc.Manager.{Node, FileManager, PeerState, World, find_node, answer, handle_packet}
use p2p_cc.Manager.Reply.{asked}
use p2p_cc.Manager.Stored.{IsFetching}
use p2p_cc.Transfer.Link.{Side}
use p2p_cc.Transfer.Discover.{discover_lem}

instance abbrev scaled : FloatOps ℕ
scaled = record {
  zero = 0;
  one = 1000000;
  inverse = λ n. 1000000 / n;
  add = λ a b. a + b;
  reached = λ a. leb 1000000 a;
}

abbrev world : World
world = record {
  now = 100;
  junk = [];
  beyond = λ i. false;
  contents = λ i. bytes_of [];
  block = bytes_of [];
  local = bytes_of [];
  stray = pos 0;
  prev_ack = 0;
  count_ack = pos 0;
}

abbrev ones : ℕ → List ℕ
ones zero = []
ones (suc n) = 49 ∷ ones n

abbrev file : Content
file = record { bytes = λ i. i; size = 1048576 }

abbrev node : ℕ → Node
node n = record {
  id = pos n;
  addr = record { sin_family = 2; sin_port = n * 256; s_addr = 16777343 };
}

-- Node n, which has chunk 1 with the hash of bytes 17.
abbrev side : ℕ → ℕ → Side
side n other = record {
  world = world;
  config = record {
    chunk_file = some (record { content = some file; lines = (pos 1, ones 40) ∷ [] });
    has_chunk_file = some ((pos 0, ones 40) ∷ []);
    identity = pos n;
    peers = node 2 ∷ node 1 ∷ [];
  };
  other = pos other;
}

abbrev question : Packet
question = record {
  header = record {
    magicnum = 20796;
    version = 1;
    packet_type = 0;
    header_len = 4096;
    packet_len = 10240;
    seq_num = 0;
    ack_num = 0;
  };
  payload = λ i. if ltb i 1 then 1 else (if ltb i 4 then 0 else 17);
}

abbrev manager : FileManager
manager = record {
  init = 1;
  chunk_count = 1;
  offset = some (record { size = 1; at = λ i. pos 1 });
  top = 1;
  timer = some (record { size = 1; at = λ i. 0 });
  already_used = some [];
}

abbrev fetching : IsFetching manager
fetching = record {
  going = omega arith;
  offsets = record { size = 1; at = λ i. pos 1 };
  timers = record { size = 1; at = λ i. 0 };
  has_offsets = refl;
  has_timers = refl;
  offsets_room = omega arith;
  timers_room = omega arith;
}

abbrev peer : PeerState ℕ
peer = record { flow = record { list = []; log = [] }; recv_list = []; manager = manager }

abbrev has_17 : Bytes
has_17 = (elim (read_chunkfile 100 (side 2 1).config.has_chunk_file world.local) [
  | none ↦ bytes_of []
  | some (size, local) ↦ local
])

abbrev chunk : Bytes
chunk = content_at (bytes_of []) (pos 1) file

discover_lem_example :
    (have : Packet) × (a : PeerState ℕ) × (b : PeerState ℕ) × (handle_packet world
        (side 2 1).config
        (pos 1)
        question
        []
        peer
      ≡ some (answer [] peer (have ∷ [])))
    × (handle_packet world (side 1 2).config (pos 2) (to_wire have) [] peer
        ≡ some (answer [] a (plain_packet 2 (asked question 0) 20 ∷ [])))
    × (a.recv_list ≡ new_buffer (λ i. bytes_of []) (pos 1) (pos 2) ∷ [])
    × (handle_packet world
          (side 2 1).config
          (pos 1)
          (to_wire (plain_packet 2 (asked question 0) 20))
          []
          peer
        ≡ some (answer [] b (chunk_packet chunk 0 ∷ [])))
    × AllSending b.flow.list
unfolding from_wire read_chunkfile read_lines strlen hex2binary read_hex hex_byte hex_value or_bits
    toupper search_local same_hash get_data_from_hash scan_index read_content find_node in_use
    get_off_set_from_master_chunkfile index_of_hash
discover_lem_example =
    discover_lem (side 1 2) (side 2 1) question [] [] [] peer peer 20 20 has_17 chunk (node 2)
      fetching [] refl refl refl refl refl (omega arith) refl refl refl (0, omega arith, refl) refl
      tt
