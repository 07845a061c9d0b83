-- ===== src/Manager/DataTests.antt =====
-- A DATA packet at a concrete input.
use p2p_cc.Base.{
  ℕ, zero, suc, ◌+◌, ◌/◌, ◌≡◌, refl, false, true, some, none, [], ◌∷◌, leb, arith, bytes_of,
}
use p2p_cc.Base.Int.{pos, ◌+ℤ◌, ◌-ℤ◌}
use p2p_cc.Packet.{Packet, from_wire, swap_header, swap32, swap16}
use p2p_cc.Sender.{FloatOps, chunk_packet_number}
use p2p_cc.Receiver.{Buffer, payload_length}
use p2p_cc.Receiver.Store.{bytes_below}
use p2p_cc.Receiver.Acks.{IsBuffer, IsAnswered}
use p2p_cc.Manager.{Config, FileManager, PeerState, World, Outcome, handle_packet}
use p2p_cc.Manager.Finish.{IsCounted}
use p2p_cc.Manager.Stored.{IsFetching}
use p2p_cc.Manager.Received.{IsReceived, handle_packet-data}

instance abbrev scaled : FloatOps ℕ
scaled = record {
  zero = 0;
  one = 1000000;
  inverse = λ n. 1000000 / n;
  add = λ a b. a + b;
  reached = λ a. leb 1000000 a;
}

abbrev world : World
world = record {
  now = 100;
  junk = [];
  beyond = λ i. false;
  contents = λ i. bytes_of [];
  block = bytes_of [];
  local = bytes_of [];
  stray = pos 0;
  prev_ack = 0;
  count_ack = pos 0;
}

abbrev config : Config
config = record { chunk_file = none; has_chunk_file = none; identity = pos 1; peers = [] }

-- A file of two chunks.
abbrev manager : FileManager
manager = record {
  init = 1;
  chunk_count = 2;
  offset = some (record { size = 2; at = λ i. pos (i + 6) });
  top = 2;
  timer = some (record { size = 2; at = λ i. 0 });
  already_used = some [];
}

abbrev fetching : IsFetching manager
fetching = record {
  going = omega arith;
  offsets = record { size = 2; at = λ i. pos (i + 6) };
  timers = record { size = 2; at = λ i. 0 };
  has_offsets = refl;
  has_timers = refl;
  offsets_room = omega arith;
  timers_room = omega arith;
}

abbrev empty : Buffer
empty = record {
  expected = 1;
  socket = pos 2;
  offset = pos 7;
  busy = true;
  total_recv = pos 0;
  chunks = λ i. record { acked = false; recved = false; length = pos 0; content = bytes_of [] };
}

empty-bytes : (k : ℕ) → bytes_below empty.chunks k ≡ pos 0
unfolding bytes_below ◌+ℤ◌
empty-bytes zero = refl
empty-bytes (suc k) = rw (empty-bytes k)

empty-IsCounted : IsCounted empty
empty-IsCounted = record {
  counted = empty-bytes chunk_packet_number;
  lengths = λ j h r. omega arith;
}

empty-IsBuffer : IsBuffer empty
empty-IsBuffer = record { from_one = omega arith; in_prefix = λ j h q r. absurd (omega arith) }

abbrev peer : PeerState ℕ
peer = record { flow = record { list = []; log = [] }; recv_list = empty ∷ []; manager = manager }

-- Packet 1 with 1024 bytes.
abbrev packet : Packet
packet = record {
  header = record {
    magicnum = 20796;
    version = 1;
    packet_type = 3;
    header_len = 4096;
    packet_len = 4100;
    seq_num = 16777216;
    ack_num = 0;
  };
  payload = bytes_of [];
}

handle_packet-data_example :
    (o : Outcome ℕ) × (after : Buffer) × (ack : Packet) × (handle_packet world config
        (pos 2)
        packet
        []
        peer
      ≡ some o)
    × (o.packets ≡ ack ∷ [])
    × IsAnswered 0 (from_wire packet) empty after ack
    × IsReceived manager fetching (pos 7) 100 (after ∷ []) o
    × (o.peer.flow ≡ peer.flow)
    × (o.trackers ≡ [])
unfolding from_wire swap_header swap32 swap16 payload_length ◌-ℤ◌
handle_packet-data_example =
    handle_packet-data world config (pos 2) packet [] peer 0 [] empty [] fetching refl refl
      (omega arith) (omega arith) (omega arith) refl tt refl empty-IsBuffer (empty-IsCounted, tt)
      (1, omega arith, refl)
