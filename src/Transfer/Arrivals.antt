-- ===== src/Transfer/Arrivals.antt =====
-- The packets of a chunk as they come to its receive buffer (flow_control.c), in any order.
use p2p_cc.Base.{
  ℕ, ◌<◌, ◌≡◌, ◌≢◌, refl, ap, sym, ◌∙◌, Bool, true, false, ◌||◌, Bool-cases, inl, inr, Option, some,
  List, [], ◌∷◌, ◌==◌, ==_iff, ◌>>=◌, Bytes, Ensures-eq,
}
use p2p_cc.Base.Int.{ℤ}
use p2p_cc.Packet.{Packet}
use p2p_cc.Sender.{chunk_packet_number}
use p2p_cc.Receiver.{DataChunk, Buffer, recv_into, recv_data, acknowledge_chunk}
use p2p_cc.Receiver.Store.{
  stored, store_chunk-old, acknowledge_chunk-recved, acknowledge_chunk-fields,
}
use p2p_cc.Receiver.Acks.{gap_of, ack_packet, init_packet-ack}
use p2p_cc.Receiver.Answers.{recv_data-at}
use p2p_cc.Receiver.Keeps.{IsRight, recv_into-IsRight}
use p2p_cc.Transfer.{arrived, arrived-seq, filled, filled-part, recv_into-arrived}
use p2p_cc.Transfer.Parts.{IsPart, stored-other, acknowledge-IsPart, filled-IsPart, filled-fields}

-- The packets of these indices come, in the order of the list.
unfoldable pub deliver : (ℕ → Bool) → Bytes → ℤ → List ℕ → List Buffer → Option (List Buffer)
deliver beyond content socket [] l = some l
deliver beyond content socket (n ∷ rest) l = do
  (l', ret, offset) ← recv_data beyond (arrived content n) socket l
  deliver beyond content socket rest l'

abbrev pub has : ℕ → List ℕ → Bool
has j [] = false
has j (n ∷ l) = (j == n) || has j l

abbrev pub AllBelow : ℕ → List ℕ → Type 0
AllBelow m [] = Unit {0}
AllBelow m (n ∷ l) = (n < m) × AllBelow m l

-- The buffer holds exactly the parts of the set `come`, each with its bytes of the chunk.
pub record HoldsSet (content : Bytes) (come : ℕ → Bool) (b : Buffer) : Type 0 where
  pub exactly : (j : ℕ) → j < chunk_packet_number → (b.chunks j).recved ≡ come j
  pub parts : (j : ℕ) → j < chunk_packet_number → come j ≡ true → IsPart content j (b.chunks j)
  pub right : IsRight b

abbrev with_index : (ℕ → Bool) → ℕ → ℕ → Bool
with_index come n j = (j == n) || come j

-- A packet that has come before.
again :
    (beyond : ℕ → Bool) (content : Bytes) (come : ℕ → Bool) (n : ℕ) (b : Buffer)
    → HoldsSet content come b
    → n < chunk_packet_number
    → come n ≡ true
    → let after = acknowledge_chunk n (gap_of beyond b) b in
      (ack : Packet) × (recv_into beyond n (arrived content n) b ≡ some (after, ack))
      × HoldsSet content (with_index come n) after
unfolding recv_into
again beyond content come n b v h old =
    let gap = gap_of beyond b in
    let e = store_chunk-old n (arrived content n) b (v.exactly n h ∙ old) in
    let returns : recv_into beyond n (arrived content n) b ≡ some (acknowledge_chunk n gap b, _) =
      rw (e, init_packet-ack) refl in
    (
      record ack_packet { header = record (ack_packet.header) { ack_num = gap } },
      returns,
      record {
        exactly = λ j q. acknowledge_chunk-recved n gap b j ∙ v.exactly j q ∙ sym (same j);
        parts = λ j q c. acknowledge-IsPart content n gap j b (v.parts j q (sym (same j) ∙ c));
        right =
            Ensures-eq (λ (r : Buffer × Packet). IsRight r.0) _
              (recv_into-IsRight beyond n (arrived content n) b h v.right) returns;
      },
    )
  where
    same : (j : ℕ) → with_index come n j ≡ come j
    same j = elim (Bool-cases (j == n)) [
      | inl here ↦ rw (here, (==_iff j n).0 here) (sym old)
      | inr other ↦ rw other refl
    ]

-- A packet that is new.
first_time :
    (beyond : ℕ → Bool) (content : Bytes) (come : ℕ → Bool) (n : ℕ) (b : Buffer)
    → HoldsSet content come b
    → n < chunk_packet_number
    → come n ≡ false
    → (ack : Packet) × (recv_into beyond n (arrived content n) b
        ≡ some (filled beyond content n b, ack))
      × HoldsSet content (with_index come n) (filled beyond content n b)
first_time beyond content come n b v h new =
    let p = arrived content n in
    let gap = gap_of beyond (stored n p b) in
    let here = filled-part beyond content n b in
    let returns = recv_into-arrived beyond content n b (v.exactly n h ∙ new) in
    (
      _,
      returns,
      record {
        exactly = λ j q. elim (Bool-cases (j == n)) [
          | inl same ↦ rw (same, (==_iff j n).0 same) here.0
          | inr other ↦ rw other (
              acknowledge_chunk-recved n gap (stored n p b) j
              ∙ ap (λ (c : DataChunk). c.recved) (stored-other n j p b (apart j other))
              ∙ v.exactly j q)
        ];
        parts = λ j q c. elim (Bool-cases (j == n)) [
          | inl same ↦
              rw ((==_iff j n).0 same) (record { recved = here.0; length = here.1; bytes = here.2 })
          | inr other ↦
              filled-IsPart beyond content n j b (apart j other) (v.parts j q (rw other at c))
        ];
        right =
            Ensures-eq (λ (r : Buffer × Packet). IsRight r.0) _
              (recv_into-IsRight beyond n p b h v.right) returns;
      },
    )
  where
    apart : (j : ℕ) → (j == n) ≡ false → j ≢ n
    apart j other e = cc ((==_iff j n).1 e)

recv_into-HoldsSet :
    (beyond : ℕ → Bool) (content : Bytes) (come : ℕ → Bool) (n : ℕ) (b : Buffer)
    → HoldsSet content come b
    → n < chunk_packet_number
    → (after : Buffer) × (ack : Packet) × (recv_into beyond n (arrived content n) b
        ≡ some (after, ack))
      × HoldsSet content (with_index come n) after
      × (after.socket ≡ b.socket)
      × (after.offset ≡ b.offset)
recv_into-HoldsSet beyond content come n b v h = elim (Bool-cases (come n)) [
  | inl old ↦
      let (ack, e, w) = again beyond content come n b v h old in
      let f = acknowledge_chunk-fields n (gap_of beyond b) b in
      (acknowledge_chunk n (gap_of beyond b) b, ack, e, w, f.1, f.2)
  | inr new ↦
      let (ack, e, w) = first_time beyond content come n b v h new in
      let f = filled-fields beyond content n b in (filled beyond content n b, ack, e, w, f.0, f.1)
]

-- The packets of a list are added to those that have come before.
pub deliver-HoldsSet :
    (beyond : ℕ → Bool) (content : Bytes) (socket offset : ℤ) (ns : List ℕ) (come : ℕ → Bool)
    (b : Buffer)
    → HoldsSet content come b
    → AllBelow chunk_packet_number ns
    → b.socket ≡ socket
    → b.offset ≡ offset
    → (after : Buffer) × (deliver beyond content socket ns (b ∷ []) ≡ some (after ∷ []))
      × HoldsSet content (λ j. has j ns || come j) after
      × (after.offset ≡ offset)
unfolding deliver
deliver-HoldsSet beyond content socket offset [] come b v below same at = (b, refl, v, at)
deliver-HoldsSet beyond content socket offset (n ∷ ns) come b v below same at =
    let (b1, ack, e, v1, same1, at1) = recv_into-HoldsSet beyond content come n b v below.0 in
    let r =
      recv_data-at beyond n (arrived content n) socket [] b [] b1 ack
        (arrived-seq content n below.0) below.0 tt same e in
    let (b2, e2, v2, at2) =
      deliver-HoldsSet beyond content socket offset ns (with_index come n) b1 v1 below.1
        (same1 ∙ same) (at1 ∙ at) in
    (
      b2,
      rw (r, e2),
      record {
        exactly = λ j q. v2.exactly j q ∙ swapped j n;
        parts = λ j q c. v2.parts j q (swapped j n ∙ c);
        right = v2.right;
      },
      at2,
    )
  where
    or_swap : (a b' c : Bool) → (a || (b' || c)) ≡ ((b' || a) || c)
    or_swap true true c = refl
    or_swap true false c = refl
    or_swap false true c = refl
    or_swap false false c = refl

    swapped : (j n : ℕ) → (has j ns || with_index come n j) ≡ (has j (n ∷ ns) || come j)
    swapped j n = or_swap (has j ns) (j == n) (come j)
