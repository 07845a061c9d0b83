-- ===== src/Transfer.antt =====
-- A DATA packet on its way: sent by `send_data` (flow_control.c), put into network order by peer.c,
-- read by `handle_packet` (packet.c), stored by `recv_data` and read back by `copy_chunk_data`.
pub mod Parts
pub mod Written
pub mod Link
pub mod Receive
pub mod Download
pub mod Fetch
pub mod Arrivals
pub mod Reorder
pub mod Discover
pub mod Window
mod Tests
mod DiscoverTests
use p2p_cc.Base.{
  ℕ, zero, suc, ◌+◌, ◌-◌, ◌≤◌, Option, none, ◌++◌, ◌==◌, ==_iff, length, length-append, Bool-cases,
  inl, inr, ◌*◌, ◌%◌, ◌^◌, ◌<◌, ◌≡◌, refl, sym, ap, ◌∙◌, Bool, true, false, some, List, [], ◌∷◌,
  arith, Bytes, copy_at,
}
use p2p_cc.Base.Int.{ℤ, pos, ◌-ℤ◌, ◌==ℤ◌, ==ℤ_iff, ◌≤ℤ◌, pos_part}
use p2p_cc.Packet.{
  Packet, data_size, ack_type, swap16, swap_header, host_header, to_wire, from_wire,
}
use p2p_cc.Packet.Layout.{swap32_self}
use p2p_cc.Sender.{Data, Flow, chunk_packet_number, get_data_by_socket, send_data}
use p2p_cc.Sender.Sent.{IsSent, room, chunk_packet, chunk_packets, send_data_lem}
use p2p_cc.Sender.Returned.{nth, nth-chunk_packets}
use p2p_cc.Receiver.{
  Buffer, payload_length, recv_into, recv_data, copy_chunk_data, acknowledge_chunk,
}
use p2p_cc.Receiver.Store.{
  stored, store_chunk-new, acknowledge_chunk-fields, acknowledge_chunk-recved,
  acknowledge_chunk-length, acknowledge_chunk-content,
}
use p2p_cc.Receiver.Acks.{ack_packet-type, gap_of, ack_packet, init_packet-ack}
use p2p_cc.Receiver.Answers.{recv_data-at}

-- Packet n + 1 of a chunk as `recv_data` sees it.
abbrev pub arrived : Bytes → ℕ → Packet
arrived content n = from_wire (to_wire (chunk_packet content n))

pub arrived-seq :
    (content : Bytes) (n : ℕ) → n < chunk_packet_number → (arrived content n).header.seq_num ≡ suc n
unfolding from_wire to_wire swap_header
arrived-seq content n h = omega (arith, swap32_self ((n + 1) % 2 ^ 32) (omega arith))

pub arrived-length : (content : Bytes) (n : ℕ) → payload_length (arrived content n) ≡ pos 1024
unfolding from_wire to_wire swap_header host_header payload_length swap16 ◌-ℤ◌
arrived-length content n = refl

fits : (content : Bytes) (n : ℕ) → payload_length (arrived content n) ≤ℤ pos data_size
fits content n = rw (arrived-length content n) (omega arith)

arrived-payload :
    (content : Bytes) (n k : ℕ) → k < 1024 → (arrived content n).payload k ≡ content (n * 1024 + k)
unfolding from_wire to_wire
arrived-payload content n k h = ground arith

-- The buffer after the packet has been stored and answered.
abbrev pub filled : (ℕ → Bool) → Bytes → ℕ → Buffer → Buffer
filled beyond content n b =
    let b' = stored n (arrived content n) b in acknowledge_chunk n (gap_of beyond b') b'

pub recv_into-arrived :
    (beyond : ℕ → Bool) (content : Bytes) (n : ℕ) (b : Buffer)
    → (b.chunks n).recved ≡ false
    → let b' = stored n (arrived content n) b in
      recv_into beyond n (arrived content n) b
      ≡ some (
        filled beyond content n b,
        record ack_packet { header = record (ack_packet.header) { ack_num = gap_of beyond b' } },
      )
unfolding recv_into
recv_into-arrived beyond content n b f =
    rw (store_chunk-new n (arrived content n) b f (fits content n), init_packet-ack)

pub copy_head :
    (buffer : Bytes) (offset : ℤ) (n : ℕ) (b : Buffer) (rest : List Buffer)
    → b.offset ≡ offset
    → (b.chunks n).recved ≡ true
    → (b.chunks n).length ≡ pos 1024
    → copy_chunk_data buffer offset n (b ∷ rest)
      ≡ (copy_at buffer 0 (b.chunks n).content 1024, pos 1024)
unfolding copy_chunk_data
copy_head buffer offset n b rest e r l =
    let found : (offset ==ℤ b.offset) ≡ true = (==ℤ_iff offset b.offset).1 (sym e) in
    rw (found, r, l)

pub filled-part :
    (beyond : ℕ → Bool) (content : Bytes) (n : ℕ) (b : Buffer)
    → let c = (filled beyond content n b).chunks n in
      (c.recved ≡ true)
      × (c.length ≡ pos 1024)
      × ((k : ℕ) → k < 1024 → c.content k ≡ content (n * 1024 + k))
filled-part beyond content n b =
    let p = arrived content n in
    let b' = stored n p b in
    let gap = gap_of beyond b' in
    (
      acknowledge_chunk-recved n gap b' n ∙ here b p refl,
      acknowledge_chunk-length n gap b' n ∙ here_length b p ∙ arrived-length content n,
      λ k h.
          ap (λ c. c k) (acknowledge_chunk-content n gap b' n)
          ∙ here_content b p k (rw (arrived-length content n) h)
          ∙ arrived-payload content n k h,
    )
  where
    here : (b : Buffer) (p : Packet) → n ≡ n → ((stored n p b).chunks n).recved ≡ true
    here b p e = ground arith

    here_length : (b : Buffer) (p : Packet) → ((stored n p b).chunks n).length ≡ payload_length p
    here_length b p = ground arith

    here_content :
        (b : Buffer) (p : Packet) (k : ℕ)
        → k < pos_part (payload_length p)
        → ((stored n p b).chunks n).content k ≡ p.payload k
    here_content b p k h = ground arith

transfer-arrived :
    (beyond : ℕ → Bool) (content target : Bytes) (n : ℕ) (b : Buffer) (rest : List Buffer)
    → n < chunk_packet_number
    → (b.chunks n).recved ≡ false
    → (after : Buffer) × (ack : Packet) × (out : Bytes) × (recv_data beyond
          (arrived content n)
          b.socket
          (b ∷ rest)
        ≡ some (after ∷ rest, ack ∷ [], some b.offset))
      × (ack.header.packet_type ≡ ack_type)
      × (copy_chunk_data target b.offset n (after ∷ rest) ≡ (out, pos 1024))
      × ((k : ℕ) → k < 1024 → out k ≡ content (n * 1024 + k))
transfer-arrived beyond content target n b rest h f =
    let after = filled beyond content n b in
    let (recved, length, bytes) = filled-part beyond content n b in
    let same : after.offset ≡ b.offset =
      (acknowledge_chunk-fields n _ (stored n (arrived content n) b)).2 in
    (
      after,
      _,
      copy_at target 0 (after.chunks n).content 1024,
      recv_data-at beyond n (arrived content n) b.socket [] b rest after _ (arrived-seq content n h)
          h tt refl (recv_into-arrived beyond content n b f),
      ack_packet-type,
      copy_head target b.offset n after rest same recved length,
      λ k q. copied (after.chunks n).content k q ∙ bytes k q,
    )
  where
    copied : (c : Bytes) (k : ℕ) → k < 1024 → copy_at target 0 c 1024 k ≡ c k
    copied c k q = ground arith

module _ {F : Type 0} where
  -- The round trip of a packet. The sender's chunk has sent its first n packets, and its window has
  -- room for the part k. `send_data` then returns the packet of that part, in its place with the
  -- newest first. Put into network order and back, it comes to a receiver whose newest buffer is for
  -- this peer and has not got that part: it is stored and answered by one packet, an ACK, and
  -- `copy_chunk_data` then gives its 1024 bytes, those of the sender's chunk from k * 1024 on.
  pub transfer :
      (socket : ℤ) (f : Flow F) (d : Data F) (content : Bytes) (n k : ℕ) (beyond : ℕ → Bool)
      (target : Bytes) (b : Buffer) (rest : List Buffer)
      → get_data_by_socket socket f.list ≡ some d
      → IsSent content n d
      → n ≤ k
      → k < n + room n d
      → (b.chunks k).recved ≡ false
      → (f' : Flow F) × (ret : List Packet) × (p : Packet) × (after : Buffer) × (ack : Packet)
        × (out : Bytes) × (send_data socket f ≡ some (f', ret))
        × (nth ret (n + room n d - 1 - k) ≡ some p)
        × (recv_data beyond (from_wire (to_wire p)) b.socket (b ∷ rest)
            ≡ some (after ∷ rest, ack ∷ [], some b.offset))
        × (ack.header.packet_type ≡ ack_type)
        × (copy_chunk_data target b.offset k (after ∷ rest) ≡ (out, pos 1024))
        × ((i : ℕ) → i < 1024 → out i ≡ content (k * 1024 + i))
  transfer socket f d content n k beyond target b rest e v low high missing =
      let (after, ack, out, r, type, copied, bytes) =
        transfer-arrived beyond content target k b rest (omega (arith, v.in_chunk)) missing in
      (
        _,
        chunk_packets content n (room n d),
        chunk_packet content k,
        after,
        ack,
        out,
        send_data_lem socket content n d f e v,
        nth-chunk_packets content n (room n d) k (n + room n d - 1 - k) low (omega arith),
        r,
        type,
        copied,
        bytes,
      )
