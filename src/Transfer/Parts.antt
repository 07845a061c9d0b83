-- ===== src/Transfer/Parts.antt =====
-- A receive buffer (flow_control.c) that gets the packets of a chunk in their order.
use p2p_cc.Base.{
  ℕ, ◌+◌, ◌-◌, ◌*◌, ◌≤◌, ◌<◌, ◌≡◌, ◌≢◌, ap, ◌∙◌, Bool, true, false, ltb, ◌==◌, ==_iff, arith, Bytes,
  Bool-cases, inl, inr,
}
use p2p_cc.Base.Int.{pos, ◌+ℤ◌}
use p2p_cc.Packet.{Packet}
use p2p_cc.Sender.{chunk_packet_number}
use p2p_cc.Receiver.{Buffer, DataChunk, is_recved, acknowledge_chunk}
use p2p_cc.Receiver.Store.{
  stored, acknowledge_chunk-fields, acknowledge_chunk-recved, acknowledge_chunk-length,
  acknowledge_chunk-content,
}
use p2p_cc.Receiver.Acks.{gap_of, first_gap-lower, first_gap-prefix, first_gap-stops}
use p2p_cc.Transfer.{arrived, arrived-length, filled, filled-part}

-- Part j is there, with its 1024 bytes of the chunk.
pub record IsPart (content : Bytes) (j : ℕ) (c : DataChunk) : Type 0 where
  pub recved : c.recved ≡ true
  pub length : c.length ≡ pos 1024
  pub bytes : (i : ℕ) → i < 1024 → c.content i ≡ content (j * 1024 + i)

-- The first k parts are there, and no others.
pub record HasParts (content : Bytes) (k : ℕ) (b : Buffer) : Type 0 where
  pub got : (j : ℕ) → j < k → IsPart content j (b.chunks j)
  pub missing : (j : ℕ) → k ≤ j → j < chunk_packet_number → (b.chunks j).recved ≡ false
  pub total : b.total_recv ≡ pos (k * 1024)

-- What the buffer expects next: the first part never holds it up.
pub record IsExpecting (k : ℕ) (b : Buffer) : Type 0 where
  pub from_one : 1 ≤ b.expected
  pub past_parts : k ≤ b.expected
  pub at_most : b.expected ≤ k + 1

pub stored-other :
    (n j : ℕ) (p : Packet) (b : Buffer) → j ≢ n → (stored n p b).chunks j ≡ b.chunks j
stored-other n j p b ne = ground arith

pub acknowledge-IsPart :
    (content : Bytes) (n gap j : ℕ) (b : Buffer)
    → IsPart content j (b.chunks j)
    → IsPart content j ((acknowledge_chunk n gap b).chunks j)
acknowledge-IsPart content n gap j b v = record {
  recved = acknowledge_chunk-recved n gap b j ∙ v.recved;
  length = acknowledge_chunk-length n gap b j ∙ v.length;
  bytes = λ i h. ap (λ c. c i) (acknowledge_chunk-content n gap b j) ∙ v.bytes i h;
}

pub filled-IsPart :
    (beyond : ℕ → Bool) (content : Bytes) (n j : ℕ) (b : Buffer)
    → j ≢ n
    → IsPart content j (b.chunks j)
    → IsPart content j ((filled beyond content n b).chunks j)
filled-IsPart beyond content n j b ne v =
    let p = arrived content n in
    acknowledge-IsPart content n (gap_of beyond (stored n p b)) j (stored n p b)
      (rw (stored-other n j p b ne) v)

next_total : (k : ℕ) → pos (k * 1024) +ℤ pos 1024 ≡ pos ((k + 1) * 1024)
unfolding ◌+ℤ◌
next_total k = ground arith

pub filled-HasParts :
    (beyond : ℕ → Bool) (content : Bytes) (k : ℕ) (b : Buffer)
    → HasParts content k b
    → HasParts content (k + 1) (filled beyond content k b)
filled-HasParts beyond content k b v =
    let p = arrived content k in
    let gap = gap_of beyond (stored k p b) in
    record {
      got = λ j h. elim (Bool-cases (j == k)) [
        | inl last ↦
            let here = filled-part beyond content k b in
            rw ((==_iff j k).0 last) (record { recved = here.0; length = here.1; bytes = here.2 })
        | inr before ↦
            filled-IsPart beyond content k j b (λ e. cc ((==_iff j k).1 e)) (v.got j (ground arith))
      ];
      missing = λ j h q.
          acknowledge_chunk-recved k gap (stored k p b) j
          ∙ ap (λ (c : DataChunk). c.recved) (stored-other k j p b (omega arith))
          ∙ v.missing j (omega arith) q;
      total =
          (acknowledge_chunk-fields k gap (stored k p b)).3
          ∙ rw (v.total, arrived-length content k) (next_total k);
    }

-- The gap is at g if all before it, from `expected` on, are there, and it is not.
gap_at :
    (beyond : ℕ → Bool) (b : Buffer) (g : ℕ)
    → b.expected ≤ g
    → g < 1024
    → ((j : ℕ) → b.expected ≤ j → j < g → is_recved beyond b j ≡ true)
    → is_recved beyond b g ≡ false
    → gap_of beyond b ≡ g
gap_at beyond b g from room below at =
    let found = gap_of beyond b in
    elim (Bool-cases (ltb found g)) [
      | inl early ↦
          let lower = first_gap-lower beyond b (1024 - b.expected) b.expected in
          let stops =
            first_gap-stops beyond b (1024 - b.expected) b.expected (ground (arith, early)) in
          let there = below found lower (ground arith) in cc
      | inr late ↦ elim (Bool-cases (ltb g found)) [
        | inl beyond_it ↦
            let there =
              first_gap-prefix beyond b (1024 - b.expected) b.expected g from (ground arith) in
            cc
        | inr same ↦ ground arith
      ]
    ]

is_recved_lem :
    (beyond : ℕ → Bool) (b : Buffer) (j : ℕ) (r : Bool)
    → j < chunk_packet_number
    → (b.chunks j).recved ≡ r
    → is_recved beyond b j ≡ r
unfolding is_recved
is_recved_lem beyond b j r h e = ground arith

-- The packet k + 1 is acknowledged by k + 1, but for the chunk's last one.
pub gap_of-arrived :
    (beyond : ℕ → Bool) (content : Bytes) (k : ℕ) (b : Buffer)
    → HasParts content k b
    → IsExpecting k b
    → k + 1 < chunk_packet_number
    → gap_of beyond (stored k (arrived content k) b) ≡ k + 1
gap_of-arrived beyond content k b v e h =
    let p = arrived content k in
    gap_at beyond (stored k p b) (k + 1) e.at_most (omega arith)
      (λ j from below.
        is_recved_lem beyond (stored k p b) j true (omega arith) (there p j (omega arith)))
      (is_recved_lem beyond (stored k p b) (k + 1) false h (
        ap (λ (c : DataChunk). c.recved) (stored-other k (k + 1) p b (omega arith))
        ∙ v.missing (k + 1) (omega arith) h))
  where
    there : (p : Packet) (j : ℕ) → j ≤ k → ((stored k p b).chunks j).recved ≡ true
    there p j q = elim (Bool-cases (j == k)) [
      | inl last ↦ rw last
      | inr before ↦ rw before (v.got j (ground arith)).recved
    ]

pub filled-IsExpecting :
    (beyond : ℕ → Bool) (content : Bytes) (k : ℕ) (b : Buffer)
    → HasParts content k b
    → IsExpecting k b
    → k + 1 < chunk_packet_number
    → IsExpecting (k + 1) (filled beyond content k b)
filled-IsExpecting beyond content k b v e h =
    let p = arrived content k in
    let at =
      (acknowledge_chunk-fields k (gap_of beyond (stored k p b)) (stored k p b)).0
      ∙ gap_of-arrived beyond content k b v e h in
    record { from_one = omega arith; past_parts = omega arith; at_most = omega arith }

-- The number of the last acknowledgement may be read from behind the array.
pub filled-fields :
    (beyond : ℕ → Bool) (content : Bytes) (n : ℕ) (b : Buffer)
    → ((filled beyond content n b).socket ≡ b.socket)
      × ((filled beyond content n b).offset ≡ b.offset)
filled-fields beyond content n b =
    let p = arrived content n in
    let f = acknowledge_chunk-fields n (gap_of beyond (stored n p b)) (stored n p b) in (f.1, f.2)
