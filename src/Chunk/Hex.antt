-- ===== src/Chunk/Hex.antt =====
-- A hash as text and back.
use p2p_cc.Base.{
  ℕ, zero, suc, ◌+◌, ◌*◌, ◌/◌, ◌%◌, ◌≤◌, ◌<◌, ◌≡◌, refl, ◌∙◌, Bool, true, ◌&&◌, ◌==◌, ==_iff, Bytes,
  store, arith, Bool-cases, inl, inr,
}
use p2p_cc.Chunk.{
  hex_digit, write_hex, binary2hex, hex_byte, hex_value, or_bits, toupper, read_hex, hex2binary,
}

-- A test of all numbers below n.
abbrev all_below : ℕ → (ℕ → Bool) → Bool
all_below zero p = true
all_below (suc n) p = p n && all_below n p

all_below-lookup : (n k : ℕ) (p : ℕ → Bool) → all_below n p ≡ true → k < n → p k ≡ true
all_below-lookup zero k p h l = absurd (omega arith)
all_below-lookup (suc n) k p h l = elim (Bool-cases (k == n)) [
  | inl same ↦ rw ((==_iff k n).0 same) (ground (arith, h))
  | inr other ↦ all_below-lookup n k p (ground (arith, h)) (ground arith)
]

abbrev is_read_back : ℕ → Bool
is_read_back v = hex_byte (hex_digit (v / 16)) (hex_digit (v % 16)) == v

all_read_back : all_below 256 is_read_back ≡ true
unfolding hex_byte hex_digit hex_value or_bits toupper
all_read_back = refl

-- Every byte is read back from its two digits.
hex_byte-hex_digit : (v : ℕ) → v < 256 → hex_byte (hex_digit (v / 16)) (hex_digit (v % 16)) ≡ v
hex_byte-hex_digit v h = (==_iff _ v).0 (all_below-lookup 256 v is_read_back all_read_back h)

write_hex-below :
    (left i : ℕ) (buf hex : Bytes) (j : ℕ) → j < i * 2 → write_hex left i buf hex j ≡ hex j
unfolding write_hex
write_hex-below zero i buf hex j h = refl
write_hex-below (suc left) i buf hex j h =
    write_hex-below left (i + 1) buf _ j (omega arith) ∙ ground arith

write_hex-at :
    (left i : ℕ) (buf hex : Bytes) (k : ℕ)
    → i ≤ k
    → k < i + left
    → (write_hex left i buf hex (k * 2) ≡ hex_digit (buf k / 16))
      × (write_hex left i buf hex (k * 2 + 1) ≡ hex_digit (buf k % 16))
unfolding write_hex
write_hex-at zero i buf hex k p q = absurd (omega arith)
write_hex-at (suc left) i buf hex k p q = elim (Bool-cases (k == i)) [
  | inl same ↦ rw ((==_iff k i).0 same) (
    write_hex-below left (i + 1) buf _ (i * 2) (omega arith) ∙ ground arith,
    write_hex-below left (i + 1) buf _ (i * 2 + 1) (omega arith) ∙ ground arith,
  )
  | inr other ↦ write_hex-at left (i + 1) buf _ k (ground arith) (ground arith)
]

read_hex-below : (left i : ℕ) (hex buf : Bytes) (j : ℕ) → j < i → read_hex left i hex buf j ≡ buf j
unfolding read_hex
read_hex-below zero i hex buf j h = refl
read_hex-below (suc left) i hex buf j h =
    read_hex-below left (i + 1) hex _ j (omega arith) ∙ ground arith

pub read_hex-at :
    (left i : ℕ) (hex buf : Bytes) (k : ℕ)
    → i ≤ k
    → k < i + left
    → read_hex left i hex buf k ≡ hex_byte (hex (k * 2)) (hex (k * 2 + 1))
unfolding read_hex
read_hex-at zero i hex buf k p q = absurd (omega arith)
read_hex-at (suc left) i hex buf k p q = elim (Bool-cases (k == i)) [
  | inl same ↦
      rw ((==_iff k i).0 same) (read_hex-below left (i + 1) hex _ i (omega arith) ∙ ground arith)
  | inr other ↦ read_hex-at left (i + 1) hex _ k (ground arith) (ground arith)
]

-- The bytes of a hash of any length that `binary2hex` prints are read back by `hex2binary`, whatever
-- the two arrays held before.
pub hex2binary-binary2hex :
    (buf hex out : Bytes) (len : ℕ)
    → ((k : ℕ) → k < len → buf k < 256)
    → (k : ℕ) → k < len
    → hex2binary (binary2hex buf len hex) (len * 2) out k ≡ buf k
unfolding hex2binary binary2hex
hex2binary-binary2hex buf hex out len bytes k h =
    let text = store (write_hex len 0 buf hex) (len * 2) 0 in
    let (high, low) = write_hex-at len 0 buf hex k (omega arith) (omega arith) in
    let high' : text (k * 2) ≡ hex_digit (buf k / 16) = ground (arith, high) in
    let low' : text (k * 2 + 1) ≡ hex_digit (buf k % 16) = ground (arith, low) in
    read_hex-at ((len * 2 + 1) / 2) 0 text out k (omega arith) (omega arith)
    ∙ rw (high', low') (hex_byte-hex_digit (buf k) (bytes k h))
