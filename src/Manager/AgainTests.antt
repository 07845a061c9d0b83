-- ===== src/Manager/AgainTests.antt =====
-- The requests for chunks that do not come, at a concrete input.
use p2p_cc.Base.{ℕ, zero, suc, ◌≡◌, refl, some, none, List, [], ◌∷◌, arith, Option, bytes_of}
use p2p_cc.Base.Int.{pos}
use p2p_cc.Packet.{Packet, init_packet, fill_counted, strcat_padding, whohas}
use p2p_cc.Receiver.{Buffer}
use p2p_cc.Hashes.{get_hash_from_master_chunkfile, hash_of_index}
use p2p_cc.Manager.{Config, FileManager, re_generate_whohas}
use p2p_cc.Manager.Stored.{IsFetching}
use p2p_cc.Manager.Again.{IsAskedAgain, re_generate_whohas_lem}

abbrev ones : ℕ → List ℕ
ones zero = []
ones (suc n) = 49 ∷ ones n

abbrev config : Config
config = record {
  chunk_file = some (record { content = none; lines = (pos 7, ones 40) ∷ [] });
  has_chunk_file = none;
  identity = pos 1;
  peers = [];
}

-- A file of one chunk that has had no packet since time 0.
abbrev manager : FileManager
manager = record {
  init = 1;
  chunk_count = 1;
  offset = some (record { size = 1; at = λ i. pos 7 });
  top = 1;
  timer = some (record { size = 1; at = λ i. 0 });
  already_used = some [];
}

abbrev fetching : IsFetching manager
fetching = record {
  going = omega arith;
  offsets = record { size = 1; at = λ i. pos 7 };
  timers = record { size = 1; at = λ i. 0 };
  has_offsets = refl;
  has_timers = refl;
  offsets_room = omega arith;
  timers_room = omega arith;
}

abbrev made : Option Packet
made =
    init_packet [] whohas (get_hash_from_master_chunkfile (bytes_of []) (pos 7) config.chunk_file)
      20

abbrev request : Packet
request = elim made [
  | none ↦ record {
    header = record {
      magicnum = 0;
      version = 0;
      packet_type = 0;
      header_len = 0;
      packet_len = 0;
      seq_num = 0;
      ack_num = 0;
    };
    payload = bytes_of [];
  }
  | some packet ↦ packet
]

re_generate_whohas_lem_example :
    (times : ℕ → ℕ) × (l' : List Buffer) × (ret : List Packet) × (re_generate_whohas 11 []
        (bytes_of [])
        config
        manager
        []
      ≡ some (record manager { timer = some (record { size = 1; at = times }) }, l', ret))
    × IsAskedAgain 11 (λ j. request) manager fetching [] times l' ret
unfolding get_hash_from_master_chunkfile hash_of_index init_packet fill_counted strcat_padding
re_generate_whohas_lem_example =
    re_generate_whohas_lem 11 [] (bytes_of []) config manager fetching [] (λ j. request)
      (λ j h. refl)
