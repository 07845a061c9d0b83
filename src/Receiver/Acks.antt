-- ===== src/Receiver/Acks.antt =====
-- What `recv_data` stores and acknowledges.
use p2p_cc.Base.{
  ℕ, zero, suc, ◌+◌, ◌-◌, ◌≤◌, ◌<◌, ◌≡◌, ◌≢◌, refl, sym, ap, ◌∙◌, Bool, true, false, some, none, [],
  ltb, ◌==◌, ==_iff, arith, bytes_of, Bool-cases, inl, inr,
}
use p2p_cc.Base.Int.{pos, ◌≤ℤ◌}
use p2p_cc.Receiver.Store.{
  Holds, IsStored, acknowledge_chunk-other, acknowledge_chunk-length, acknowledge_chunk-content,
  bytes_below, store_chunk-IsStored, acknowledge_chunk-recved, acknowledge_chunk-fields,
  acknowledge_chunk-bytes,
}
use p2p_cc.Packet.{Packet, init_packet, fill_plain, swap_header, host_header, ack_type, data_size}
use p2p_cc.Sender.{chunk_packet_number}
use p2p_cc.Receiver.{
  DataChunk, Buffer, payload_length, is_recved, first_gap, acknowledge_chunk, recv_into,
}

-- Every packet before `expected` but the first of the chunk has been received.
pub record IsBuffer (b : Buffer) : Type 0 where
  pub from_one : 1 ≤ b.expected
  pub in_prefix :
      (j : ℕ) → 1 ≤ j → j < b.expected → j < chunk_packet_number → (b.chunks j).recved ≡ true

pub first_gap-lower : (beyond : ℕ → Bool) (b : Buffer) (left i : ℕ) → i ≤ first_gap beyond b left i
unfolding first_gap
first_gap-lower beyond b zero i = omega arith
first_gap-lower beyond b (suc left) i = ground (arith, first_gap-lower beyond b left (i + 1))

pub first_gap-prefix :
    (beyond : ℕ → Bool) (b : Buffer) (left i j : ℕ)
    → i ≤ j
    → j < first_gap beyond b left i
    → is_recved beyond b j ≡ true
unfolding first_gap
first_gap-prefix beyond b zero i j p q = absurd (omega arith)
first_gap-prefix beyond b (suc left) i j p q = elim (Bool-cases (is_recved beyond b i)) [
  | inl here ↦ elim (Bool-cases (j == i)) [
    | inl same ↦ rw ((==_iff j i).0 same) here
    | inr later ↦ first_gap-prefix beyond b left (i + 1) j (ground arith) (ground arith)
  ]
  | inr gap ↦ absurd (ground arith)
]

pub first_gap-stops :
    (beyond : ℕ → Bool) (b : Buffer) (left i : ℕ)
    → first_gap beyond b left i < i + left
    → is_recved beyond b (first_gap beyond b left i) ≡ false
unfolding first_gap
first_gap-stops beyond b zero i q = absurd (omega arith)
first_gap-stops beyond b (suc left) i q = elim (Bool-cases (is_recved beyond b i)) [
  | inl here ↦ rw here (first_gap-stops beyond b left (i + 1) (ground arith))
  | inr gap ↦ rw gap gap
]

-- The number that is acknowledged.
abbrev pub gap_of : (ℕ → Bool) → Buffer → ℕ
gap_of beyond b = first_gap beyond b (1024 - b.expected) b.expected

recved_of :
    (beyond : ℕ → Bool) (b : Buffer) (j : ℕ) (r : Bool)
    → is_recved beyond b j ≡ r
    → j < chunk_packet_number
    → (b.chunks j).recved ≡ r
unfolding is_recved
recved_of beyond b j r e h = ground arith

pub gap-IsBuffer :
    (beyond : ℕ → Bool) (i : ℕ) (b : Buffer)
    → IsBuffer b
    → IsBuffer (acknowledge_chunk i (gap_of beyond b) b)
gap-IsBuffer beyond i b v =
    let f = acknowledge_chunk-fields i (gap_of beyond b) b in
    record {
      from_one =
          omega (arith, f.0, v.from_one, first_gap-lower beyond b (1024 - b.expected) b.expected);
      in_prefix =
          λ j p q r. acknowledge_chunk-recved i (gap_of beyond b) b j ∙ prefix j p (rw f.0 at q) r;
    }
  where
    prefix :
        (j : ℕ) → 1 ≤ j → j < gap_of beyond b → j < chunk_packet_number → (b.chunks j).recved ≡ true
    prefix j p q r = elim (Bool-cases (ltb j b.expected)) [
      | inl before ↦ v.in_prefix j p (ground arith) r
      | inr now ↦
          recved_of beyond b j true
            (first_gap-prefix beyond b (1024 - b.expected) b.expected j (ground arith) q) r
    ]

gap-at :
    (beyond : ℕ → Bool) (i : ℕ) (b : Buffer)
    → let after = acknowledge_chunk i (gap_of beyond b) b in
      after.expected < chunk_packet_number → (after.chunks after.expected).recved ≡ false
gap-at beyond i b h =
    let f = acknowledge_chunk-fields i (gap_of beyond b) b in
    let below : gap_of beyond b < chunk_packet_number = rw f.0 at h in
    acknowledge_chunk-recved i (gap_of beyond b) b _
    ∙ rw f.0 (
        recved_of beyond b (gap_of beyond b) false
          (first_gap-stops beyond b (1024 - b.expected) b.expected (omega arith)) below)

IsStored-IsBuffer :
    (i : ℕ) (p : Packet) (b after : Buffer) → IsStored i p b after → IsBuffer b → IsBuffer after
IsStored-IsBuffer i p b after s v = record {
  from_one = omega (arith, v.from_one, s.same_expected);
  in_prefix = λ j h k r. elim (Bool-cases (j == i)) [
    | inl same ↦ rw ((==_iff j i).0 same) s.here
    | inr other ↦
        ap (λ (c : DataChunk). c.recved) (s.elsewhere j (λ e. cc ((==_iff j i).1 e)))
        ∙ v.in_prefix j h (rw s.same_expected at k) r
  ];
}

-- What `recv_data` does to the buffer of the packet with index `i`, and what it answers. Only the
-- mark `acked` of that part may change if it had come before.
pub record IsAnswered (i : ℕ) (p : Packet) (b after : Buffer) (ack : Packet) : Type 0 where
  pub valid : IsBuffer after
  pub counted : bytes_below after.chunks chunk_packet_number ≡ after.total_recv
  pub here : (after.chunks i).recved ≡ true
  pub new_part : (b.chunks i).recved ≡ false → Holds p (after.chunks i)
  pub old_part :
      (b.chunks i).recved ≡ true
      → ((after.chunks i).length ≡ (b.chunks i).length)
        × ((after.chunks i).content ≡ (b.chunks i).content)
  pub elsewhere : (j : ℕ) → j ≢ i → after.chunks j ≡ b.chunks j
  pub same_socket : after.socket ≡ b.socket
  pub same_offset : after.offset ≡ b.offset
  pub is_ack : ack.header.packet_type ≡ ack_type
  pub number : ack.header.ack_num ≡ after.expected
  pub monotone : b.expected ≤ after.expected
  pub at_gap : after.expected < chunk_packet_number → (after.chunks after.expected).recved ≡ false

pub ack_packet : Packet
ack_packet = record { header = swap_header (host_header ack_type 0); payload = bytes_of [] }

pub init_packet-ack : init_packet [] ack_type none 0 ≡ some ack_packet
unfolding init_packet fill_plain ack_packet
init_packet-ack = refl

pub ack_packet-type : ack_packet.header.packet_type ≡ ack_type
unfolding ack_packet swap_header host_header
ack_packet-type = refl

acknowledge-Holds :
    (i gap : ℕ) (p : Packet) (b : Buffer)
    → Holds p (b.chunks i)
    → Holds p ((acknowledge_chunk i gap b).chunks i)
acknowledge-Holds i gap p b (same_length, same_content) = (
  acknowledge_chunk-length i gap b i ∙ same_length,
  λ k h. ap (λ c. c k) (acknowledge_chunk-content i gap b i) ∙ same_content k h,
)

pub recv_into-IsAnswered :
    (beyond : ℕ → Bool) (i : ℕ) (p : Packet) (b : Buffer)
    → IsBuffer b
    → bytes_below b.chunks chunk_packet_number ≡ b.total_recv
    → i < chunk_packet_number
    → payload_length p ≤ℤ pos data_size
    → (after : Buffer) × (ack : Packet) × (recv_into beyond i p b ≡ some (after, ack))
      × IsAnswered i p b after ack
unfolding recv_into
recv_into-IsAnswered beyond i p b v sum h fits =
    let (b', e, s) = store_chunk-IsStored i p b h fits sum in
    let gap = gap_of beyond b' in
    let f = acknowledge_chunk-fields i gap b' in
    (
      acknowledge_chunk i gap b',
      record ack_packet { header = record (ack_packet.header) { ack_num = gap } },
      rw (e, init_packet-ack),
      record {
        valid = gap-IsBuffer beyond i b' (IsStored-IsBuffer i p b b' s v);
        counted = acknowledge_chunk-bytes i gap chunk_packet_number b' ∙ s.counted ∙ sym f.3;
        here = acknowledge_chunk-recved i gap b' i ∙ s.here;
        new_part = λ new. acknowledge-Holds i gap p b' (s.new_part new);
        old_part = λ old. (
          acknowledge_chunk-length i gap b' i ∙ ap (λ (c : DataChunk). c.length) (s.old_part old),
          acknowledge_chunk-content i gap b' i ∙ ap (λ (c : DataChunk). c.content) (s.old_part old),
        );
        elsewhere = λ j ne. acknowledge_chunk-other i gap b' j ne ∙ s.elsewhere j ne;
        same_socket = f.1 ∙ s.same_socket;
        same_offset = f.2 ∙ s.same_offset;
        is_ack = ack_packet-type;
        number = sym f.0;
        monotone = omega (
          arith,
          f.0,
          s.same_expected,
          first_gap-lower beyond b' (1024 - b'.expected) b'.expected,
        );
        at_gap = gap-at beyond i b';
      },
    )
