-- ===== src/Receiver/Store.antt =====
-- What a received packet changes in its buffer's parts, and the count of bytes.
use p2p_cc.Base.{
  ℕ, zero, suc, ◌≤◌, ◌<◌, ◌≡◌, ◌≢◌, refl, ap, ◌∙◌, true, false, some, ◌==◌, ==_iff, if◌then◌else◌,
  arith, store, copy_at, Bool-cases, inl, inr,
}
use p2p_cc.Base.Int.{ℤ, pos, ◌+ℤ◌, ◌≤ℤ◌, pos_part, int_laws}
use p2p_cc.Packet.{Packet, data_size}
use p2p_cc.Sender.{chunk_packet_number}
use p2p_cc.Receiver.{DataChunk, Buffer, payload_length, store_chunk, acknowledge_chunk}

-- The bytes of the packets below index k that have been received.
unfoldable pub bytes_below : (ℕ → DataChunk) → ℕ → ℤ
bytes_below chunks zero = pos 0
bytes_below chunks (suc k) =
    bytes_below chunks k +ℤ (if (chunks k).recved then (chunks k).length else pos 0)

-- A part holds the bytes of a packet.
abbrev pub Holds : Packet → DataChunk → Type 0
Holds p c =
    (c.length ≡ payload_length p)
    × ((k : ℕ) → k < pos_part (payload_length p) → c.content k ≡ p.payload k)

-- What a call leaves of the chunk's parts: the part at index `i` is there, with the packet's bytes if
-- it has come now, as it was if it had come before, and all others are as they were.
pub record IsStored (i : ℕ) (p : Packet) (b after : Buffer) : Type 0 where
  pub here : (after.chunks i).recved ≡ true
  pub new_part : (b.chunks i).recved ≡ false → Holds p (after.chunks i)
  pub old_part : (b.chunks i).recved ≡ true → after.chunks i ≡ b.chunks i
  pub elsewhere : (j : ℕ) → j ≢ i → after.chunks j ≡ b.chunks j
  pub same_expected : after.expected ≡ b.expected
  pub same_socket : after.socket ≡ b.socket
  pub same_offset : after.offset ≡ b.offset
  pub counted : bytes_below after.chunks chunk_packet_number ≡ after.total_recv

bytes_below-past :
    (chunks : ℕ → DataChunk) (i k : ℕ) (c : DataChunk)
    → k ≤ i
    → bytes_below (store chunks i c) k ≡ bytes_below chunks k
unfolding bytes_below
bytes_below-past chunks i zero c h = refl
bytes_below-past chunks i (suc k) c h =
    let other : store chunks i c k ≡ chunks k = ground arith in
    rw (other, bytes_below-past chunks i k c (omega arith))

add_last : (x l y z : ℤ) → y ≡ l → z ≡ pos 0 → x +ℤ y ≡ x +ℤ z +ℤ l
add_last x l y z e f = rw (e, f) (omega int_laws)

add_swap : (x l y : ℤ) → x +ℤ l +ℤ y ≡ x +ℤ y +ℤ l
add_swap x l y = omega int_laws

-- A part that comes adds its bytes to the sum.
bytes_below-store :
    (chunks : ℕ → DataChunk) (i k : ℕ) (c : DataChunk)
    → (chunks i).recved ≡ false
    → c.recved ≡ true
    → i < k
    → bytes_below (store chunks i c) k ≡ bytes_below chunks k +ℤ c.length
unfolding bytes_below
bytes_below-store chunks i zero c f t h = absurd (omega arith)
bytes_below-store chunks i (suc k) c f t h = elim (Bool-cases (k == i)) [
  | inl last ↦
      let same : k ≡ i = (==_iff k i).0 last in
      rw (bytes_below-past chunks i k c (omega arith), last, t, same, f)
        (add_last (bytes_below chunks i) c.length c.length (pos 0) refl refl)
  | inr other ↦
      rw (other, bytes_below-store chunks i k c f t (ground arith))
        (add_swap (bytes_below chunks k) c.length _)
]

abbrev pub stored : ℕ → Packet → Buffer → Buffer
stored i p b = record b {
  total_recv = b.total_recv +ℤ payload_length p;
  chunks = store b.chunks i (record (b.chunks i) {
    recved = true;
    length = payload_length p;
    content = copy_at (b.chunks i).content 0 p.payload (pos_part (payload_length p));
  });
}

pub store_chunk-new :
    (i : ℕ) (p : Packet) (b : Buffer)
    → (b.chunks i).recved ≡ false
    → payload_length p ≤ℤ pos data_size
    → store_chunk i p b ≡ some (stored i p b)
unfolding store_chunk
store_chunk-new i p b f h = ground arith

pub store_chunk-old :
    (i : ℕ) (p : Packet) (b : Buffer) → (b.chunks i).recved ≡ true → store_chunk i p b ≡ some b
unfolding store_chunk
store_chunk-old i p b t = ground arith

stored-Holds : (i : ℕ) (p : Packet) (b : Buffer) → Holds p ((stored i p b).chunks i)
stored-Holds i p b = (ground arith, λ k h. ground arith)

stored-IsStored :
    (i : ℕ) (p : Packet) (b : Buffer)
    → (b.chunks i).recved ≡ false
    → i < chunk_packet_number
    → bytes_below b.chunks chunk_packet_number ≡ b.total_recv
    → IsStored i p b (stored i p b)
stored-IsStored i p b f h sum = record {
  here = ground arith;
  new_part = λ new. stored-Holds i p b;
  old_part = λ old. cc;
  elsewhere = λ j ne. ground arith;
  same_expected = refl;
  same_socket = refl;
  same_offset = refl;
  counted =
      bytes_below-store b.chunks i chunk_packet_number _ f refl h
      ∙ ap (λ t. t +ℤ payload_length p) sum;
}

-- The store of a packet, whether its part is new or not.
pub store_chunk-IsStored :
    (i : ℕ) (p : Packet) (b : Buffer)
    → i < chunk_packet_number
    → payload_length p ≤ℤ pos data_size
    → bytes_below b.chunks chunk_packet_number ≡ b.total_recv
    → (after : Buffer) × (store_chunk i p b ≡ some after) × IsStored i p b after
store_chunk-IsStored i p b h fits sum = elim (Bool-cases (b.chunks i).recved) [
  | inl old ↦ (
    b,
    store_chunk-old i p b old,
    record {
      here = old;
      new_part = λ new. cc;
      old_part = λ _. refl;
      elsewhere = λ j ne. refl;
      same_expected = refl;
      same_socket = refl;
      same_offset = refl;
      counted = sum;
    },
  )
  | inr new ↦ (stored i p b, store_chunk-new i p b new fits, stored-IsStored i p b new h sum)
]

bytes_below-same :
    (chunks chunks' : ℕ → DataChunk) (k : ℕ)
    → ((j : ℕ) → (chunks' j).recved ≡ (chunks j).recved)
    → ((j : ℕ) → (chunks' j).length ≡ (chunks j).length)
    → bytes_below chunks' k ≡ bytes_below chunks k
unfolding bytes_below
bytes_below-same chunks chunks' zero r l = refl
bytes_below-same chunks chunks' (suc k) r l = rw (r k, l k, bytes_below-same chunks chunks' k r l)

-- The end of the call changes no part but for the mark.
pub acknowledge_chunk-recved :
    (i gap : ℕ) (b : Buffer) (j : ℕ)
    → ((acknowledge_chunk i gap b).chunks j).recved ≡ (b.chunks j).recved
unfolding acknowledge_chunk
acknowledge_chunk-recved i gap b j = ground arith

pub acknowledge_chunk-other :
    (i gap : ℕ) (b : Buffer) (j : ℕ) → j ≢ i → (acknowledge_chunk i gap b).chunks j ≡ b.chunks j
unfolding acknowledge_chunk
acknowledge_chunk-other i gap b j ne = ground arith

pub acknowledge_chunk-length :
    (i gap : ℕ) (b : Buffer) (j : ℕ)
    → ((acknowledge_chunk i gap b).chunks j).length ≡ (b.chunks j).length
unfolding acknowledge_chunk
acknowledge_chunk-length i gap b j = ground arith

pub acknowledge_chunk-content :
    (i gap : ℕ) (b : Buffer) (j : ℕ)
    → ((acknowledge_chunk i gap b).chunks j).content ≡ (b.chunks j).content
unfolding acknowledge_chunk
acknowledge_chunk-content i gap b j = ground arith

pub acknowledge_chunk-fields :
    (i gap : ℕ) (b : Buffer)
    → let b' = acknowledge_chunk i gap b in
      (b'.expected ≡ gap)
      × (b'.socket ≡ b.socket)
      × (b'.offset ≡ b.offset)
      × (b'.total_recv ≡ b.total_recv)
unfolding acknowledge_chunk
acknowledge_chunk-fields i gap b = ground arith

pub acknowledge_chunk-bytes :
    (i gap k : ℕ) (b : Buffer)
    → bytes_below (acknowledge_chunk i gap b).chunks k ≡ bytes_below b.chunks k
acknowledge_chunk-bytes i gap k b =
    bytes_below-same b.chunks (acknowledge_chunk i gap b).chunks k
      (acknowledge_chunk-recved i gap b) (acknowledge_chunk-length i gap b)
