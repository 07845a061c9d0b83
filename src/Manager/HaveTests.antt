-- ===== src/Manager/HaveTests.antt =====
-- An IHAVE packet at a concrete input.
use p2p_cc.Base.{
  ℕ, zero, suc, ◌+◌, ◌/◌, refl, false, some, none, List, [], ◌∷◌, leb, ltb, arith, bytes_of,
  if◌then◌else◌,
}
use p2p_cc.Base.Int.{pos}
use p2p_cc.Packet.{Packet}
use p2p_cc.Sender.{FloatOps}
use p2p_cc.Manager.{Node, Config, FileManager, PeerState, World}
use p2p_cc.Manager.Stored.{IsFetching}

instance abbrev scaled : FloatOps ℕ
scaled = record {
  zero = 0;
  one = 1000000;
  inverse = λ n. 1000000 / n;
  add = λ a b. a + b;
  reached = λ a. leb 1000000 a;
}

abbrev world : World
world = record {
  now = 100;
  junk = [];
  beyond = λ i. false;
  contents = λ i. bytes_of [];
  block = bytes_of [];
  local = bytes_of [];
  stray = pos 0;
  prev_ack = 0;
  count_ack = pos 0;
}

abbrev digits : ℕ → List ℕ
digits zero = []
digits (suc n) = 48 ∷ digits n

abbrev owner : Node
owner = record { id = pos 2; addr = record { sin_family = 2; sin_port = 1002; s_addr = 16777343 } }

abbrev config : Config
config = record {
  chunk_file = some (record { content = none; lines = (pos 1, digits 40) ∷ [] });
  has_chunk_file = none;
  identity = pos 1;
  peers = owner ∷ [];
}

abbrev manager : FileManager
manager = record {
  init = 1;
  chunk_count = 2;
  offset = some (record { size = 2; at = λ i. pos 1 });
  top = 2;
  timer = some (record { size = 2; at = λ i. 0 });
  already_used = some [];
}

abbrev fetching : IsFetching manager
fetching = record {
  going = omega arith;
  offsets = record { size = 2; at = λ i. pos 1 };
  timers = record { size = 2; at = λ i. 0 };
  has_offsets = refl;
  has_timers = refl;
  offsets_room = omega arith;
  timers_room = omega arith;
}

abbrev peer : PeerState ℕ
peer = record { flow = record { list = []; log = [] }; recv_list = []; manager = manager }

-- Two hashes of zeros.
abbrev packet : Packet
packet = record {
  header = record {
    magicnum = 20796;
    version = 1;
    packet_type = 1;
    header_len = 4096;
    packet_len = 15360;
    seq_num = 0;
    ack_num = 0;
  };
  payload = λ i. if ltb i 1 then 2 else 0;
}
