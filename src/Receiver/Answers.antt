-- ===== src/Receiver/Answers.antt =====
-- `recv_data` on the list of buffers.
use p2p_cc.Base.{
  ℕ, suc, ◌≤◌, ◌<◌, ◌^◌, ◌≡◌, refl, ap, ◌∙◌, Bool, true, false, some, none, List, [], ◌∷◌, ◌++◌,
  ltb, ltb→lt, arith, Bool-cases, inl, inr, ◌⊎◌,
}
use p2p_cc.Base.Int.{ℤ, pos, ◌-ℤ◌, ◌==ℤ◌, ==ℤ_self, ◌≤ℤ◌, ltb_ℤ, signed, -ℤ_parts, eq_of_parts}
use p2p_cc.Packet.{Packet, data_size}
use p2p_cc.Sender.{chunk_packet_number}
use p2p_cc.Receiver.{DataChunk, Buffer, payload_length, recv_into, recv_list_data, recv_data}
use p2p_cc.Receiver.Store.{bytes_below}
use p2p_cc.Receiver.Acks.{IsBuffer, IsAnswered, recv_into-IsAnswered}

-- No buffer of this peer.
abbrev pub NoSocket : ℤ → List Buffer → Type 0
NoSocket socket [] = Unit {0}
NoSocket socket (b ∷ l) = ((b.socket ==ℤ socket) ≡ false) × NoSocket socket l

recv_list_data-none :
    (beyond : ℕ → Bool) (seq : ℤ) (p : Packet) (socket : ℤ) (l : List Buffer)
    → NoSocket socket l
    → recv_list_data beyond seq p socket l ≡ some (l, [], none)
unfolding recv_list_data
recv_list_data-none beyond seq p socket [] h = refl
recv_list_data-none beyond seq p socket (b ∷ l) h =
    rw (h.0, recv_list_data-none beyond seq p socket l h.1)

recv_list_data-at :
    (beyond : ℕ → Bool) (i : ℕ) (p : Packet) (socket : ℤ) (before : List Buffer) (b : Buffer)
    (rest : List Buffer) (after : Buffer) (ack : Packet)
    → NoSocket socket before
    → b.socket ≡ socket
    → recv_into beyond i p b ≡ some (after, ack)
    → recv_list_data beyond (pos i) p socket (before ++ b ∷ rest)
      ≡ some (before ++ after ∷ rest, ack ∷ [], some b.offset)
unfolding recv_list_data
recv_list_data-at beyond i p socket [] b rest after ack h e r =
    let found : (b.socket ==ℤ socket) ≡ true = rw e (==ℤ_self socket) in rw (found, r)
recv_list_data-at beyond i p socket (x ∷ before) b rest after ack h e r =
    rw (h.0, recv_list_data-at beyond i p socket before b rest after ack h.1 e r)

pub seq_index : (n i : ℕ) → n ≡ suc i → i < chunk_packet_number → (signed 32 n -ℤ pos 1) ≡ pos i
seq_index n i e h =
    eq_of_parts (signed 32 n -ℤ pos 1) (pos i) (ground (arith, -ℤ_parts (signed 32 n) (pos 1)))

-- A packet with a sequence number beyond the chunk and below 2 ^ 31, or from a peer with no buffer,
-- changes nothing and is not answered.
pub recv_data-ignored :
    (beyond : ℕ → Bool) (p : Packet) (socket : ℤ) (l : List Buffer)
    → ((chunk_packet_number < p.header.seq_num) × (p.header.seq_num < 2 ^ 31)) ⊎ NoSocket socket l
    → recv_data beyond p socket l ≡ some (l, [], none)
unfolding recv_data
recv_data-ignored beyond p socket l (inl (h, k)) =
    let far : ltb_ℤ (pos chunk_packet_number) (signed 32 p.header.seq_num) ≡ true = ground arith in
    rw far
recv_data-ignored beyond p socket l (inr h) =
    elim (Bool-cases (ltb_ℤ (pos chunk_packet_number) (signed 32 p.header.seq_num))) [
      | inl far ↦ rw far
      | inr near ↦ rw near (recv_list_data-none beyond _ p socket l h)
    ]

pub recv_data-at :
    (beyond : ℕ → Bool) (i : ℕ) (p : Packet) (socket : ℤ) (before : List Buffer) (b : Buffer)
    (rest : List Buffer) (after : Buffer) (ack : Packet)
    → p.header.seq_num ≡ suc i
    → i < chunk_packet_number
    → NoSocket socket before
    → b.socket ≡ socket
    → recv_into beyond i p b ≡ some (after, ack)
    → recv_data beyond p socket (before ++ b ∷ rest)
      ≡ some (before ++ after ∷ rest, ack ∷ [], some b.offset)
unfolding recv_data
recv_data-at beyond i p socket before b rest after ack s h only e r =
    let near : ltb_ℤ (pos chunk_packet_number) (signed 32 p.header.seq_num) ≡ false =
      ground arith in
    rw (near, seq_index p.header.seq_num i s h)
      (recv_list_data-at beyond i p socket before b rest after ack only e r)

-- A packet with a sequence number of the chunk and a payload that fits goes to the first buffer of
-- its peer, which has all parts from the second up to `expected` and a right count of bytes, and is
-- answered by one ACK. The ACK's number is at least the old `expected`; all parts before it but the
-- first of the chunk have been received, and the part at it, if there is one, has not. The part of
-- the packet is there afterwards, with the packet's bytes if it had not come before and with its old
-- bytes if it had; every other part is as it was, and the buffer's count of bytes is the sum over the
-- parts received.
pub recv_data-answers :
    (beyond : ℕ → Bool) (i : ℕ) (p : Packet) (socket : ℤ) (before : List Buffer) (b : Buffer)
    (rest : List Buffer)
    → p.header.seq_num ≡ suc i
    → i < chunk_packet_number
    → payload_length p ≤ℤ pos data_size
    → NoSocket socket before
    → b.socket ≡ socket
    → IsBuffer b
    → bytes_below b.chunks chunk_packet_number ≡ b.total_recv
    → (after : Buffer) × (ack : Packet) × (recv_data beyond p socket (before ++ b ∷ rest)
        ≡ some (before ++ after ∷ rest, ack ∷ [], some b.offset))
      × IsAnswered i p b after ack
recv_data-answers beyond i p socket before b rest s h fits only e v sum =
    let (after, ack, r, a) = recv_into-IsAnswered beyond i p b v sum h fits in
    (after, ack, recv_data-at beyond i p socket before b rest after ack s h only e r, a)

past_second :
    (p : Packet) (b after : Buffer) (ack : Packet)
    → IsAnswered 1 p b after ack
    → 2 ≤ ack.header.ack_num
past_second p b after ack a = elim (Bool-cases (ltb 1 after.expected)) [
  | inl past ↦ omega (arith, ltb→lt 1 after.expected past, a.number)
  | inr at ↦
      let one : after.expected ≡ 1 = ground (arith, a.valid.from_one) in
      let missing : (after.chunks 1).recved ≡ false = rw one at (a.at_gap (omega arith)) in
      cc a.here
]

-- If the chunk's second packet, with a payload that fits, comes to a buffer that has all parts from
-- the second up to `expected` and a right count of bytes, but not the first part, it is
-- acknowledged with a number of at least 2 all the same, and the first part is missing still.
pub recv_data-skips_first :
    (beyond : ℕ → Bool) (p : Packet) (socket : ℤ) (before : List Buffer) (b : Buffer)
    (rest : List Buffer)
    → p.header.seq_num ≡ 2
    → payload_length p ≤ℤ pos data_size
    → NoSocket socket before
    → b.socket ≡ socket
    → IsBuffer b
    → bytes_below b.chunks chunk_packet_number ≡ b.total_recv
    → (b.chunks 0).recved ≡ false
    → (after : Buffer) × (ack : Packet) × (recv_data beyond p socket (before ++ b ∷ rest)
        ≡ some (before ++ after ∷ rest, ack ∷ [], some b.offset))
      × (2 ≤ ack.header.ack_num)
      × ((after.chunks 0).recved ≡ false)
recv_data-skips_first beyond p socket before b rest s fits only e v sum missing =
    let (after, ack, r, a) =
      recv_data-answers beyond 1 p socket before b rest s (omega arith) fits only e v sum in
    (
      after,
      ack,
      r,
      past_second p b after ack a,
      ap (λ (c : DataChunk). c.recved) (a.elsewhere 0 (omega arith)) ∙ missing,
    )
