-- ===== src/Manager/Tests.antt =====
-- The file manager and the packet handlers at concrete inputs.
use p2p_cc.Base.{
  ltb, Bytes, ℕ, zero, suc, ◌+◌, ◌/◌, ◌≡◌, refl, false, some, none, List, [], ◌∷◌, leb,
  if◌then◌else◌, bytes_of, arith,
}
use p2p_cc.Base.Int.{pos, minus_one}
use p2p_cc.Packet.{swap32, from_wire, Packet}
use p2p_cc.Sender.{Flow, Data, unsend, slowstart, new_data, FloatOps}
use p2p_cc.Sender.Sent.{chunk_packet, sent_to}
use p2p_cc.Sender.Sending.{AllSending}
use p2p_cc.Hashes.{
  read_chunkfile, read_lines, strlen, Content, get_data_from_hash, scan_index, read_content,
  content_at, same_hash,
}
use p2p_cc.Chunk.{hex2binary, read_hex, hex_byte, hex_value, or_bits, toupper}
use p2p_cc.Manager.Acked.{handle_packet-ack}
use p2p_cc.Sender.Pending.{HasDummy, pending}
use p2p_cc.Sender.Invariant.{new_data-IsSender, sent_to-IsSender}
use p2p_cc.Manager.{answer, count_of, Config, FileManager, PeerState, World, Outcome, handle_packet}
use p2p_cc.Manager.Get.{IsStarted, handle_packet-get}
use p2p_cc.Manager.Reply.{IsReply, offered, handle_packet-whohas}

instance abbrev scaled : FloatOps ℕ
scaled = record {
  zero = 0;
  one = 1000000;
  inverse = λ n. 1000000 / n;
  add = λ a b. a + b;
  reached = λ a. leb 1000000 a;
}

abbrev world : World
world = record {
  now = 100;
  junk = [];
  beyond = λ i. false;
  contents = λ i. bytes_of [];
  block = bytes_of [];
  local = bytes_of [];
  stray = pos 0;
  prev_ack = 0;
  count_ack = pos 0;
}

abbrev zeros : ℕ → List ℕ
zeros zero = []
zeros (suc n) = 48 ∷ zeros n

abbrev file : Content
file = record { bytes = λ i. i; size = 1048576 }

abbrev config : Config
config = record {
  chunk_file = some (record { content = some file; lines = (pos 1, zeros 40) ∷ [] });
  has_chunk_file = none;
  identity = pos 1;
  peers = [];
}

abbrev manager : FileManager
manager = record {
  init = 1;
  chunk_count = 1;
  offset = some (record { size = 1; at = λ i. pos 7 });
  top = 1;
  timer = some (record { size = 1; at = λ i. 0 });
  already_used = some [];
}

abbrev idle : PeerState ℕ
idle = record { flow = record { list = []; log = [] }; recv_list = []; manager = manager }

-- GET of the hash of zeros.
abbrev request : Packet
request = record {
  header = record {
    magicnum = 20796;
    version = 1;
    packet_type = 2;
    header_len = 4096;
    packet_len = 9216;
    seq_num = 0;
    ack_num = 0;
  };
  payload = bytes_of [];
}

handle_packet-get_example :
    (flow : Flow ℕ) × (handle_packet world config (pos 2) request [] idle
      ≡ some (record {
        exited = false;
        peer = record idle { flow = flow };
        trackers = [];
        packets = chunk_packet (content_at (bytes_of []) (pos 1) file) 0 ∷ [];
        file = none;
      }))
    × AllSending flow.list
    × IsStarted (pos 2) (content_at (bytes_of []) (pos 1) file) 0 (pos 0) flow.list
unfolding get_data_from_hash scan_index read_content same_hash hex2binary read_hex hex_byte
    hex_value or_bits toupper
handle_packet-get_example =
    handle_packet-get world config (pos 2) request [] idle (content_at (bytes_of []) (pos 1) file)
      refl refl tt

-- The peer has the chunk with the hash of bytes 17, and is asked for it.
abbrev ones : ℕ → List ℕ
ones zero = []
ones (suc n) = 49 ∷ ones n

abbrev having : Config
having = record config { has_chunk_file = some ((pos 0, ones 40) ∷ []) }

abbrev question : Packet
question = record request {
  header = record (request.header) { packet_type = 0 };
  payload = λ i. if ltb i 1 then 1 else (if ltb i 4 then 0 else 17);
}

abbrev has_17 : Bytes
has_17 = (elim (read_chunkfile 100 having.has_chunk_file world.local) [
  | none ↦ bytes_of []
  | some (size, local) ↦ local
])

handle_packet-whohas_example :
    (packets : List Packet) × (handle_packet world having (pos 2) question [] idle
      ≡ some (answer [] idle packets))
    × IsReply
        (from_wire question)
        (offered (count_of (from_wire question)) 0 (from_wire question) (20 / 20) has_17)
        packets
unfolding from_wire read_chunkfile read_lines strlen hex2binary read_hex hex_byte hex_value or_bits
    toupper
handle_packet-whohas_example =
    handle_packet-whohas world having (pos 2) question [] idle 20 20 has_17 refl refl refl
      (omega arith) (omega arith)

-- ACK 1 for a chunk whose first packet has been sent.
abbrev fresh : Data ℕ
fresh = record {
  socket = pos 2;
  offset = pos 7;
  content = some (λ i. i);
  state = λ i. unsend;
  send_window = 1;
  ssthresh = 64;
  congestion_control_state = slowstart;
  start = minus_one;
  end = minus_one;
  increase_rate = 1000000;
  prev_ack = 99;
  count_ack = pos 0;
}

abbrev sending : PeerState ℕ
sending = record idle { flow = record { list = sent_to 0 1 fresh ∷ []; log = [] } }

sending-AllSending : AllSending sending.flow.list
unfolding new_data
sending-AllSending = (
  record {
    content = λ i. i;
    n = 1;
    s = 0;
    valid =
        sent_to-IsSender (λ i. i) 0 1 0 fresh (omega arith) (omega arith)
          (new_data-IsSender 99 (pos 0) (pos 2) (pos 7) (λ i. i));
  },
  tt,
)

abbrev confirmation : Packet
confirmation = record request {
  header = record (request.header) { packet_type = 4; ack_num = 16777216 };
}

handle_packet-ack_example :
    (o : Outcome ℕ) × (handle_packet world config (pos 2) confirmation [] sending ≡ some o)
    × AllSending o.peer.flow.list
    × HasDummy o.trackers
    × (pending (pos 2) 1 o.trackers ≡ pending (pos 2) 1 [])
    × (o.peer ≡ record sending { flow = o.peer.flow })
    × (o.file ≡ none)
unfolding swap32
handle_packet-ack_example =
    handle_packet-ack world config (pos 2) confirmation [] sending 1 refl refl (omega arith)
      sending-AllSending tt
