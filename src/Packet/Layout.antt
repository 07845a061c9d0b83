-- ===== src/Packet/Layout.antt =====
-- The wire layout of the packets that `init_packet` builds.
use p2p_cc.Base.{
  ℕ, zero, suc, ◌+◌, ◌-◌, ◌/◌, ◌%◌, ◌^◌, ◌≤◌, ◌<◌, ◌≡◌, refl, ◌⊎◌, some, List, [], ◌∷◌, arith, ltb,
  if◌then◌else◌, Bytes, bytes_of, copy_at, length,
}
use p2p_cc.Packet.{
  Header, Packet, swap16, swap32, host_header, swap_header, strcat_padding, fill_counted,
  fill_plain, init_packet, data_size, whohas, ihave,
}

pub swap16_self : (x : ℕ) → x < 2 ^ 16 → swap16 (swap16 x) ≡ x
unfolding swap16
swap16_self x h = omega arith

pub swap32_self : (x : ℕ) → x < 2 ^ 32 → swap32 (swap32 x) ≡ x
unfolding swap32
swap32_self x h = omega arith

-- Every field fits its C type.
pub record IsHeader (h : Header) : Type 0 where
  pub magic : h.magicnum < 2 ^ 16
  pub hlen : h.header_len < 2 ^ 16
  pub plen : h.packet_len < 2 ^ 16
  pub seq : h.seq_num < 2 ^ 32
  pub ack : h.ack_num < 2 ^ 32

-- Converting a header, whose fields fit their types, to network order and back gives the header.
pub swap_header_self : (h : Header) → IsHeader h → swap_header (swap_header h) ≡ h
unfolding swap_header
swap_header_self h v = ground (
  arith,
  swap16_self h.magicnum v.magic,
  swap16_self h.header_len v.hlen,
  swap16_self h.packet_len v.plen,
  swap32_self h.seq_num v.seq,
  swap32_self h.ack_num v.ack,
)

-- The bytes of a WHOHAS or IHAVE data field with `n` bytes of hashes: the count of hashes, three
-- bytes of padding, and the hashes.
abbrev pub counted_byte : Bytes → ℕ → ℕ → ℕ
counted_byte hashes n i =
    if ltb i 4 then (if ltb i 1 then n / 20 else (if ltb n 20 then 0 else 1)) else hashes (i - 4)

-- The four bytes before the hashes do not depend on the stack.
strcat_padding_lem :
    (junk : List ℕ) (c : ℕ)
    → length junk + 5 ≤ data_size
    → (b : Bytes) × (strcat_padding junk c ≡ some b)
      × (b 0 ≡ c)
      × (b 1 ≡ (if ltb c 1 then 0 else 1))
      × (b 2 ≡ (if ltb c 1 then 0 else 1))
      × (b 3 ≡ (if ltb c 1 then 0 else 1))
unfolding strcat_padding
strcat_padding_lem junk zero h = (bytes_of [], refl, refl, refl, refl, refl)
strcat_padding_lem junk (suc c) h = (
  bytes_of (suc c ∷ 1 ∷ 1 ∷ 1 ∷ junk),
  ground arith,
  refl,
  ground arith,
  ground arith,
  ground arith,
)

fill_counted_lem :
    (junk : List ℕ) (hashes : Bytes) (n : ℕ)
    → n + 4 ≤ data_size
    → length junk + 5 ≤ data_size
    → (b : Bytes) × (fill_counted junk (some hashes) n n ≡ some b)
      × ((i : ℕ) → i < n + 4 → b i ≡ counted_byte hashes n i)
fill_counted_lem junk hashes n hn hj =
    let (b, e, e0, e1, e2, e3) = strcat_padding_lem junk (n / 20 % 256) hj in
    (copy_at b 4 hashes n, unfold fill_counted in ground (arith, e), bytes b e0 e1 e2 e3)
  where
    bytes :
        (b : Bytes)
        → b 0 ≡ n / 20 % 256
        → b 1 ≡ (if ltb (n / 20 % 256) 1 then 0 else 1)
        → b 2 ≡ (if ltb (n / 20 % 256) 1 then 0 else 1)
        → b 3 ≡ (if ltb (n / 20 % 256) 1 then 0 else 1)
        → (i : ℕ) → i < n + 4
        → copy_at b 4 hashes n i ≡ counted_byte hashes n i
    bytes b e0 e1 e2 e3 zero h = ground arith
    bytes b e0 e1 e2 e3 (suc zero) h = ground arith
    bytes b e0 e1 e2 e3 (suc (suc zero)) h = ground arith
    bytes b e0 e1 e2 e3 (suc (suc (suc zero))) h = ground arith
    bytes b e0 e1 e2 e3 (suc (suc (suc (suc i)))) h = ground arith

-- `init_packet` builds a WHOHAS or IHAVE packet from `n` bytes of hashes, if they fit, and if the
-- bytes up to the first zero behind the unterminated padding do. Its length in host order is `n +
-- 20`, and the bytes behind the header are the count of hashes, three bytes of padding and the
-- hashes, whatever stands behind the padding on the stack.
pub init_packet-counted :
    (junk : List ℕ) (type : ℕ) (hashes : Bytes) (n : ℕ)
    → (type ≡ whohas) ⊎ (type ≡ ihave)
    → n + 4 ≤ data_size
    → length junk + 5 ≤ data_size
    → (p : Packet) × (init_packet junk type (some hashes) n ≡ some p)
      × (p.header.packet_type ≡ type)
      × (swap16 p.header.packet_len ≡ n + 20)
      × ((i : ℕ) → i < n + 4 → p.payload i ≡ counted_byte hashes n i)
init_packet-counted junk type hashes n t hn hj =
    let (b, e, bytes) = fill_counted_lem junk hashes n hn hj in
    (
      record { header = swap_header (host_header type n); payload = b },
      unfold init_packet in ground (arith, e),
      unfold swap_header host_header in refl,
      unfold swap_header host_header swap16 in ground arith,
      bytes,
    )

-- A packet of another type carries its bytes alone.
abbrev pub plain_packet : ℕ → Bytes → ℕ → Packet
plain_packet type bytes n = record {
  header = swap_header (host_header type n);
  payload = copy_at (bytes_of []) 0 bytes n;
}

pub init_packet-plain :
    (junk : List ℕ) (type : ℕ) (bytes : Bytes) (n : ℕ)
    → ihave < type
    → n ≤ data_size
    → init_packet junk type (some bytes) n ≡ some (plain_packet type bytes n)
unfolding init_packet fill_plain
init_packet-plain junk type bytes n t h = ground arith
