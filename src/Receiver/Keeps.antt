-- ===== src/Receiver/Keeps.antt =====
-- The invariant of all buffers, whatever packets come.
use p2p_cc.Base.{
  ℕ, zero, suc, ◌<◌, ◌≡◌, refl, sym, ◌∙◌, Bool, Bool-cases, true, false, inl, inr, Option, none,
  some, List, [], ◌∷◌, arith, ◌>>=◌, Bytes, Ensures, Ensures->>=,
}
use p2p_cc.Base.Int.{ℤ, pos, negsuc, ◌+ℤ◌, ◌-ℤ◌, ◌==ℤ◌, leb_ℤ, ltb_ℤ, signed, -ℤ_parts}
use p2p_cc.Packet.{Packet, data_size}
use p2p_cc.Sender.{chunk_packet_number, index_of}
use p2p_cc.Receiver.{
  Buffer, payload_length, store_chunk, in_use, new_buffer, init_recv_buffer, recv_into,
  recv_list_data, recv_data, release_buffer,
}
use p2p_cc.Receiver.Store.{
  bytes_below, store_chunk-old, acknowledge_chunk-bytes, acknowledge_chunk-fields,
}
use p2p_cc.Receiver.Acks.{IsBuffer, recv_into-IsAnswered, gap_of, gap-IsBuffer, init_packet-ack}

-- A buffer with all parts from the second up to `expected`, and a right count of bytes.
abbrev pub IsRight : Buffer → Type 0
IsRight b = IsBuffer b × (bytes_below b.chunks chunk_packet_number ≡ b.total_recv)

abbrev pub AllRight : List Buffer → Type 0
AllRight [] = Unit {0}
AllRight (b ∷ l) = IsRight b × AllRight l

-- A part that is there is not stored again.
recv_into-old :
    (beyond : ℕ → Bool) (i : ℕ) (p : Packet) (b : Buffer)
    → IsRight b
    → (b.chunks i).recved ≡ true
    → Ensures (λ r. IsRight r.0) (recv_into beyond i p b)
unfolding recv_into
recv_into-old beyond i p b v old =
    let gap = gap_of beyond b in
    rw (store_chunk-old i p b old, init_packet-ack)
      (
        gap-IsBuffer beyond i b v.0,
        acknowledge_chunk-bytes i gap chunk_packet_number b
            ∙ v.1
            ∙ sym (acknowledge_chunk-fields i gap b).3,
      )

-- A packet that does not fit ends in undefined behaviour.
store_chunk-big :
    (i : ℕ) (p : Packet) (b : Buffer)
    → (b.chunks i).recved ≡ false
    → leb_ℤ (payload_length p) (pos data_size) ≡ false
    → store_chunk i p b ≡ none
unfolding store_chunk
store_chunk-big i p b new big = rw (new, big)

pub recv_into-IsRight :
    (beyond : ℕ → Bool) (i : ℕ) (p : Packet) (b : Buffer)
    → i < chunk_packet_number
    → IsRight b
    → Ensures (λ r. IsRight r.0) (recv_into beyond i p b)
recv_into-IsRight beyond i p b h v = elim (Bool-cases (b.chunks i).recved) [
  | inl old ↦ recv_into-old beyond i p b v old
  | inr new ↦ elim (Bool-cases (leb_ℤ (payload_length p) (pos data_size))) [
    | inl fits ↦
        let (after, ack, e, a) = recv_into-IsAnswered beyond i p b v.0 v.1 h (ground arith) in
        rw e (a.valid, a.counted)
    | inr big ↦ unfold recv_into in rw (store_chunk-big i p b new big) tt
  ]
]

recv_list_data-AllRight :
    (beyond : ℕ → Bool) (seq : ℤ) (p : Packet) (socket : ℤ) (l : List Buffer)
    → ltb_ℤ seq (pos chunk_packet_number) ≡ true
    → AllRight l
    → Ensures (λ r. AllRight r.0) (recv_list_data beyond seq p socket l)
unfolding recv_list_data
recv_list_data-AllRight beyond seq p socket [] h v = tt
recv_list_data-AllRight beyond seq p socket (b ∷ l) h v = elim (Bool-cases (b.socket ==ℤ socket)) [
  | inl here ↦ rw here (at seq h)
  | inr other ↦ rw other (
      Ensures->>= (λ r. AllRight r.0) (λ r. AllRight r.0) (recv_list_data beyond seq p socket l) _
        (recv_list_data-AllRight beyond seq p socket l h v.1) (λ r w. (v.0, w)))
]
  where
    at :
        (seq : ℤ)
        → ltb_ℤ seq (pos chunk_packet_number) ≡ true
        → Ensures
            (λ (r : List Buffer × List Packet × Option ℤ). AllRight r.0)
            (do
              i ← index_of seq
              (b', ack) ← recv_into beyond i p b
              some (b' ∷ l, ack ∷ [], some b.offset))
    at (pos i) h =
        Ensures->>= (λ r. IsRight r.0) (λ r. AllRight r.0) (recv_into beyond i p b) _
          (recv_into-IsRight beyond i p b (ground arith) v.0) (λ r w. (w, v.1))
    at (negsuc i) h = tt

pub recv_data-AllRight :
    (beyond : ℕ → Bool) (p : Packet) (socket : ℤ) (l : List Buffer)
    → AllRight l
    → Ensures (λ r. AllRight r.0) (recv_data beyond p socket l)
unfolding recv_data
recv_data-AllRight beyond p socket l v =
    let seq = signed 32 p.header.seq_num in
    elim (Bool-cases (ltb_ℤ (pos chunk_packet_number) seq)) [
      | inl far ↦ rw far v
      | inr near ↦
          rw near (recv_list_data-AllRight beyond (seq -ℤ pos 1) p socket l (below seq near) v)
    ]
  where
    below :
        (seq : ℤ)
        → ltb_ℤ (pos chunk_packet_number) seq ≡ false
        → ltb_ℤ (seq -ℤ pos 1) (pos chunk_packet_number) ≡ true
    below seq h = ground (arith, -ℤ_parts seq (pos 1))

new-bytes :
    (garbage : ℕ → Bytes) (offset socket : ℤ) (k : ℕ)
    → bytes_below (new_buffer garbage offset socket).chunks k ≡ pos 0
unfolding new_buffer bytes_below ◌+ℤ◌
new-bytes garbage offset socket zero = refl
new-bytes garbage offset socket (suc k) = rw (new-bytes garbage offset socket k)

pub new_buffer-IsRight :
    (garbage : ℕ → Bytes) (offset socket : ℤ) → IsRight (new_buffer garbage offset socket)
unfolding new_buffer
new_buffer-IsRight garbage offset socket = (
  record { from_one = omega arith; in_prefix = λ j h q r. absurd (omega arith) },
  new-bytes garbage offset socket chunk_packet_number,
)

pub init_recv_buffer-AllRight :
    (garbage : ℕ → Bytes) (offset socket : ℤ) (l : List Buffer)
    → AllRight l
    → AllRight (init_recv_buffer garbage offset socket l).0
unfolding init_recv_buffer
init_recv_buffer-AllRight garbage offset socket l v = elim (Bool-cases (in_use offset socket l)) [
  | inl busy ↦ rw busy v
  | inr free ↦ rw free (new_buffer-IsRight garbage offset socket, v)
]

pub release_buffer-AllRight :
    (offset : ℤ) (l : List Buffer) → AllRight l → AllRight (release_buffer offset l)
unfolding release_buffer
release_buffer-AllRight offset [] v = tt
release_buffer-AllRight offset (b ∷ l) v = elim (Bool-cases (offset ==ℤ b.offset)) [
  | inl here ↦ rw here (
    (record { from_one = v.0.0.from_one; in_prefix = v.0.0.in_prefix }, v.0.1),
    release_buffer-AllRight offset l v.1,
  )
  | inr other ↦ rw other (v.0, release_buffer-AllRight offset l v.1)
]
