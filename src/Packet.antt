-- ===== src/Packet.antt =====
-- packet.h and the packet builder of packet.c: the header, its byte order, and `init_packet`.
-- A field is the bit pattern of its C type (short, char, u_int).
pub mod Layout
mod Tests
use p2p_cc.Base.{
  ℕ, zero, suc, ◌+◌, ◌*◌, ◌/◌, ◌%◌, ◌^◌, Bool, ◌||◌, Option, none, some, List, [], ◌∷◌, leb, ◌==◌,
  if◌then◌else◌, ◌>>=◌, ◌>>◌, require, Bytes, copy_at, bytes_of, length,
}

-- htons and ntohs, htonl and ntohl on a little-endian host.
unfoldable pub swap16 : ℕ → ℕ
swap16 x = x % 256 * 256 + x / 256 % 256

unfoldable pub swap32 : ℕ → ℕ
swap32 x = x % 256 * 2 ^ 24 + x / 256 % 256 * 2 ^ 16 + x / 2 ^ 16 % 256 * 256 + x / 2 ^ 24 % 256

pub record Header : Type 0 where
  pub magicnum : ℕ
  pub version : ℕ
  pub packet_type : ℕ
  pub header_len : ℕ
  pub packet_len : ℕ
  pub seq_num : ℕ
  pub ack_num : ℕ

-- `data_packet_t`; `payload` is its array `data`, of `data_size` bytes.
pub record Packet : Type 0 where
  pub header : Header
  pub payload : Bytes

abbrev pub data_size : ℕ
data_size = 1200

abbrev pub whohas : ℕ
whohas = 0

abbrev pub ihave : ℕ
ihave = 1

abbrev pub get : ℕ
get = 2

abbrev pub data_type : ℕ
data_type = 3

abbrev pub ack_type : ℕ
ack_type = 4

-- What `strcat(packet->data, padding)` leaves in the zeroed array. `padding` has no terminating
-- zero: `junk` is what stands behind it on the stack, up to the first zero byte.
unfoldable pub strcat_padding : List ℕ → ℕ → Option Bytes
strcat_padding junk zero = some (bytes_of [])
strcat_padding junk (suc n) = do
  require (leb (4 + length junk + 1) data_size)
  some (bytes_of (suc n ∷ 1 ∷ 1 ∷ 1 ∷ junk))

-- The data field of a WHOHAS or IHAVE packet: the count of hashes, the padding, and the hashes.
unfoldable pub fill_counted : List ℕ → Option Bytes → ℕ → ℕ → Option Bytes
unfolding strcat_padding
fill_counted junk source data_length length = do
  padded ← strcat_padding junk (data_length / 20 % 256)
  bytes ← source
  require (leb (4 + length) data_size)
  some (copy_at padded 4 bytes length)

-- The data field of any other packet.
unfoldable pub fill_plain : Option Bytes → ℕ → Option Bytes
fill_plain none length = some (bytes_of [])
fill_plain (some bytes) length = do
  require (leb length data_size)
  some (copy_at (bytes_of []) 0 bytes length)

-- The fields as they are set before the conversion to network order.
unfoldable pub host_header : ℕ → ℕ → Header
host_header type data_length =
    let len : ℕ = (data_length + 16) % 2 ^ 16 in
    record {
      magicnum = 15441;
      version = 1;
      packet_type = type;
      header_len = 16;
      packet_len = if type == whohas || type == ihave then (len + 4) % 2 ^ 16 else len;
      seq_num = 0;
      ack_num = 0;
    }

-- The conversion at the end of `init_packet`, and its inverse at the start of `handle_packet`.
unfoldable pub swap_header : Header → Header
unfolding swap16 swap32
swap_header h = record h {
  magicnum = swap16 h.magicnum;
  header_len = swap16 h.header_len;
  packet_len = swap16 h.packet_len;
  seq_num = swap32 h.seq_num;
  ack_num = swap32 h.ack_num;
}

abbrev pub data_length_of : Option Bytes → ℕ → ℕ
data_length_of none length = 0
data_length_of (some bytes) length = length

-- A null `data` is `none`; every caller passes a `length` that is not negative.
unfoldable pub init_packet : List ℕ → ℕ → Option Bytes → ℕ → Option Packet
init_packet junk type source length = do
  let data_length = data_length_of source length
  payload ←
      if type == whohas || type == ihave
      then fill_counted junk source data_length length
      else fill_plain source length
  some (record { header = swap_header (host_header type data_length); payload = payload })

-- What peer.c does to a packet just before it is sent, and `handle_packet` to one that has come.
unfoldable pub to_wire : Packet → Packet
to_wire p = record p {
  header = record (p.header) {
    seq_num = swap32 p.header.seq_num;
    ack_num = swap32 p.header.ack_num;
  };
}

unfoldable pub from_wire : Packet → Packet
from_wire p = record p { header = swap_header p.header }
