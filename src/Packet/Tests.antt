-- ===== src/Packet/Tests.antt =====
-- The packet builder's theorems at concrete inputs.
use p2p_cc.Base.{ℕ, ◌%◌, ◌<◌, ◌≡◌, refl, inl, some, [], ◌∷◌, arith, Bytes}
use p2p_cc.Packet.{Header, Packet, swap16, swap_header, init_packet, whohas}
use p2p_cc.Packet.Layout.{counted_byte, init_packet-counted}

abbrev header : Header
header = record {
  magicnum = 15441;
  version = 1;
  packet_type = 3;
  header_len = 16;
  packet_len = 1040;
  seq_num = 512;
  ack_num = 0;
}

-- 15441 is 0x3c51, and 0x513c on the wire.
magic_wire : (swap_header header).magicnum ≡ 20796
unfolding swap_header swap16
magic_wire = refl

abbrev hashes : Bytes
hashes i = i % 256

-- Two hashes, with three bytes of the stack behind the padding.
init_packet-counted_example :
    (p : Packet) × (init_packet (7 ∷ 8 ∷ 9 ∷ []) whohas (some hashes) 40 ≡ some p)
    × (p.header.packet_type ≡ whohas)
    × (swap16 p.header.packet_len ≡ 60)
    × ((i : ℕ) → i < 44 → p.payload i ≡ counted_byte hashes 40 i)
init_packet-counted_example =
    init_packet-counted (7 ∷ 8 ∷ 9 ∷ []) whohas hashes 40 (inl refl) (omega arith) (omega arith)
