-- ===== src/Receiver.antt =====
-- The receiving side of flow_control.c: a `recv_buffer_t` for each chunk that is asked for, the
-- acknowledgements, and the reads of the finished chunks. `recv_list` is the state, newest first.
pub mod Full
pub mod Store
pub mod Acks
pub mod Answers
pub mod Restart
pub mod Lengths
pub mod Keeps
mod Tests
use p2p_cc.Base.{
  ℕ, zero, suc, ◌+◌, ◌-◌, ◌*◌, Bool, true, false, ◌&&◌, ◌||◌, Option, none, some, List, [], ◌∷◌,
  map, ltb, leb, if◌then◌else◌, ◌>>=◌, ◌>>◌, require, Bytes, store, copy_at,
}
use p2p_cc.Base.Int.{
  ℤ, pos, negsuc, pos_part, ◌+ℤ◌, ◌-ℤ◌, ◌==ℤ◌, ltb_ℤ, leb_ℤ, minus_one, signed, to_u32,
}
use p2p_cc.Packet.{Packet, init_packet, ack_type, data_size}
use p2p_cc.Sender.{chunk_packet_number, index_of}

pub record DataChunk : Type 0 where
  pub acked : Bool
  pub recved : Bool
  pub length : ℤ
  pub content : Bytes

-- `chunks` has an entry for each packet.
pub record Buffer : Type 0 where
  pub expected : ℕ
  pub socket : ℤ
  pub offset : ℤ
  pub busy : Bool
  pub total_recv : ℤ
  pub chunks : ℕ → DataChunk

-- The bytes of a whole chunk, 1024 * 512.
abbrev pub chunk_size : ℕ
chunk_size = 1024 * 512

-- The test that refuses a new buffer.
unfoldable pub in_use : ℤ → ℤ → List Buffer → Bool
in_use offset socket [] = false
in_use offset socket (b ∷ l) =
    (b.socket ==ℤ socket || b.offset ==ℤ offset) && b.busy || in_use offset socket l

-- `garbage` is what `malloc` leaves in the contents.
unfoldable pub new_buffer : (ℕ → Bytes) → ℤ → ℤ → Buffer
new_buffer garbage offset socket = record {
  expected = 1;
  socket = socket;
  offset = offset;
  busy = true;
  total_recv = pos 0;
  chunks = λ i. record { acked = false; recved = false; length = pos 0; content = garbage i };
}

unfoldable pub init_recv_buffer : (ℕ → Bytes) → ℤ → ℤ → List Buffer → List Buffer × ℤ
unfolding in_use new_buffer
init_recv_buffer garbage offset socket l =
    if in_use offset socket l then (l, minus_one) else (new_buffer garbage offset socket ∷ l, pos 1)

-- packet_len - header_len, both of them shorts.
unfoldable pub payload_length : Packet → ℤ
payload_length p = signed 16 p.header.packet_len -ℤ signed 16 p.header.header_len

-- The packet's bytes are stored if this part has not been seen before.
unfoldable pub store_chunk : ℕ → Packet → Buffer → Option Buffer
store_chunk i p b = if (b.chunks i).recved then some b else (do
  let length = payload_length p
  require (leb_ℤ length (pos data_size))
  some (record b {
    total_recv = b.total_recv +ℤ length;
    chunks = store b.chunks i (record (b.chunks i) {
      recved = true;
      length = length;
      content = copy_at (b.chunks i).content 0 p.payload (pos_part length);
    });
  }))

-- What the loop of `recv_data` reads as chunks[i].recved. From index 512 on that is memory behind
-- the array: `beyond` is what it holds there.
unfoldable pub is_recved : (ℕ → Bool) → Buffer → ℕ → Bool
is_recved beyond b i = if ltb i chunk_packet_number then (b.chunks i).recved else beyond i

-- The loop for (i = expected; i < 1024; i ++), with the rounds that are left: the first index from
-- i on that has not been received.
unfoldable pub first_gap : (ℕ → Bool) → Buffer → ℕ → ℕ → ℕ
first_gap beyond b zero i = i
first_gap beyond b (suc left) i =
    let next = first_gap beyond b left (i + 1) in if is_recved beyond b i then next else i

-- The loop also marks the packet that has come as acknowledged, if it makes a round.
unfoldable pub acknowledge_chunk : ℕ → ℕ → Buffer → Buffer
acknowledge_chunk i gap b =
    if ltb b.expected gap
    then record b {
      expected = gap;
      chunks = store b.chunks i (record (b.chunks i) { acked = true });
    }
    else record b { expected = gap }

-- The answer for a buffer: the buffer afterwards, and the ACK packet.
unfoldable pub recv_into : (ℕ → Bool) → ℕ → Packet → Buffer → Option (Buffer × Packet)
recv_into beyond i p b = do
  b' ← store_chunk i p b
  ack ← init_packet [] ack_type none 0
  let gap = first_gap beyond b' (1024 - b'.expected) b'.expected
  some (acknowledge_chunk i gap b', record ack { header = record (ack.header) { ack_num = gap } })

-- The loop over the list: the buffers afterwards, the packets to send, and what is written through
-- `offset`, if a buffer of the socket is found.
unfoldable pub recv_list_data :
    (ℕ → Bool) → ℤ → Packet → ℤ → List Buffer → Option (List Buffer × List Packet × Option ℤ)
recv_list_data beyond seq p socket [] = some ([], [], none)
recv_list_data beyond seq p socket (b ∷ l) =
    if b.socket ==ℤ socket
    then (do
      i ← index_of seq
      (b', ack) ← recv_into beyond i p b
      some (b' ∷ l, ack ∷ [], some b.offset))
    else (do (l', ret, offset) ← recv_list_data beyond seq p socket l; some (b ∷ l', ret, offset))

unfoldable pub recv_data :
    (ℕ → Bool) → Packet → ℤ → List Buffer → Option (List Buffer × List Packet × Option ℤ)
recv_data beyond p socket l =
    let seq = signed 32 p.header.seq_num in
    if ltb_ℤ (pos chunk_packet_number) seq
    then some (l, [], none)
    else recv_list_data beyond (seq -ℤ pos 1) p socket l

-- The buffer after the copy, and the length.
unfoldable pub copy_chunk_data : Bytes → ℤ → ℕ → List Buffer → Bytes × ℤ
copy_chunk_data buffer offset chunkpos [] = (buffer, pos 0)
copy_chunk_data buffer offset chunkpos (b ∷ l) =
    if offset ==ℤ b.offset
    then (let c = b.chunks chunkpos in
        if c.recved
        then (copy_at buffer 0 c.content (pos_part c.length), c.length)
        else (buffer, pos 0))
    else copy_chunk_data buffer offset chunkpos l

unfoldable pub release_buffer : ℤ → List Buffer → List Buffer
release_buffer offset = map (λ b. if offset ==ℤ b.offset then record b { busy = false } else b)

abbrev pub is_complete : Buffer → Bool
is_complete b = (pos chunk_size -ℤ b.total_recv) ==ℤ pos 0

-- The loop, with the value of `find` so far.
unfoldable pub full_from : ℤ → ℤ → List Buffer → ℤ
full_from find offset [] = find
full_from find offset (b ∷ l) =
    let here = offset ==ℤ b.offset in
    let rest = full_from (if here then pos 1 else find) offset l in
    if here then (if is_complete b then rest else minus_one) else rest

unfoldable pub is_buffer_full : ℤ → List Buffer → ℤ
unfolding full_from
is_buffer_full offset l = full_from minus_one offset l
