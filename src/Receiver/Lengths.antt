-- ===== src/Receiver/Lengths.antt =====
-- The lengths of the parts in a buffer: `recv_data` stores a packet's payload length once.
use p2p_cc.Base.{ℕ, ◌<◌, ◌≡◌, sym, ◌∙◌, Bool, true, some, ◌==◌, Bool-cases, inl, inr}
use p2p_cc.Base.Int.{pos, ◌≤ℤ◌}
use p2p_cc.Packet.{Packet, data_size}
use p2p_cc.Sender.{chunk_packet_number}
use p2p_cc.Receiver.{Buffer, payload_length, recv_into, acknowledge_chunk}
use p2p_cc.Receiver.Store.{
  stored, store_chunk-old, store_chunk-new, acknowledge_chunk-recved, acknowledge_chunk-length,
}
use p2p_cc.Receiver.Acks.{gap_of, init_packet-ack}

-- No part has a negative length.
abbrev pub HasLengths : Buffer → Type 0
HasLengths b =
    (j : ℕ) → j < chunk_packet_number → (b.chunks j).recved ≡ true → pos 0 ≤ℤ (b.chunks j).length

stored-HasLengths :
    (i : ℕ) (p : Packet) (b : Buffer)
    → pos 0 ≤ℤ payload_length p
    → HasLengths b
    → HasLengths (stored i p b)
stored-HasLengths i p b h v j q r = elim (Bool-cases (j == i)) [
  | inl here ↦ rw here h
  | inr other ↦ rw other (v j q (rw other at r))
]

acknowledge-HasLengths :
    (i gap : ℕ) (b : Buffer) → HasLengths b → HasLengths (acknowledge_chunk i gap b)
acknowledge-HasLengths i gap b v j q r =
    rw (acknowledge_chunk-length i gap b j) (v j q (sym (acknowledge_chunk-recved i gap b j) ∙ r))

pub recv_into-HasLengths :
    (beyond : ℕ → Bool) (i : ℕ) (p : Packet) (b after : Buffer) (ack : Packet)
    → recv_into beyond i p b ≡ some (after, ack)
    → pos 0 ≤ℤ payload_length p
    → payload_length p ≤ℤ pos data_size
    → HasLengths b
    → HasLengths after
unfolding recv_into
recv_into-HasLengths beyond i p b after ack e h fits v = elim (Bool-cases (b.chunks i).recved) [
  | inl old ↦
      let same : acknowledge_chunk i (gap_of beyond b) b ≡ after =
        (let r = rw (store_chunk-old i p b old, init_packet-ack) at e in cc) in
      rw same at (acknowledge-HasLengths i (gap_of beyond b) b v)
  | inr new ↦
      let b' = stored i p b in
      let same : acknowledge_chunk i (gap_of beyond b') b' ≡ after =
        (let r = rw (store_chunk-new i p b new fits, init_packet-ack) at e in cc) in
      rw same at (acknowledge-HasLengths i (gap_of beyond b') b' (stored-HasLengths i p b h v))
]
