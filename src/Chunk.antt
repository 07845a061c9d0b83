-- ===== src/Chunk.antt =====
-- chunk.c: hexadecimal text of hashes, and the split of a file into chunks.
pub mod Hex
pub mod Split
pub mod Tool
mod Tests
use p2p_cc.Base.{
  ℕ, zero, suc, ◌+◌, ◌-◌, ◌*◌, ◌/◌, ◌%◌, min, ◌&&◌, ◌||◌, List, [], ◌∷◌, ltb, leb, ◌==◌,
  if◌then◌else◌, Bytes, store, length,
}

-- The digit that "%.2x" prints.
unfoldable pub hex_digit : ℕ → ℕ
hex_digit n = if ltb n 10 then 48 + n else 87 + n

-- The loop from byte i on, with the bytes that are left: `sprintf` writes two digits and a zero.
unfoldable pub write_hex : ℕ → ℕ → Bytes → Bytes → Bytes
unfolding hex_digit
write_hex zero i buf hex = hex
write_hex (suc left) i buf hex =
    let high = store hex (i * 2) (hex_digit (buf i / 16)) in
    let low = store high (i * 2 + 1) (hex_digit (buf i % 16)) in
    write_hex left (i + 1) buf (store low (i * 2 + 2) 0)

unfoldable pub binary2hex : Bytes → ℕ → Bytes → Bytes
unfolding write_hex
binary2hex buf len hex = store (write_hex len 0 buf hex) (len * 2) 0

-- toupper, in the C locale.
unfoldable pub toupper : ℕ → ℕ
toupper c = if leb 97 c && leb c 122 then c - 32 else c

-- `_hex2binary`. A char from 128 on is negative, so not greater than '9'.
unfoldable pub hex_value : ℕ → ℕ
unfolding toupper
hex_value hex =
    let c = toupper hex in
    if leb c 57 || leb 128 c then (c + 256 - 48) % 256 else (c + 256 - 55) % 256

-- The bitwise or of two bytes, bit by bit.
unfoldable pub or_bits : ℕ → ℕ → ℕ → ℕ
or_bits zero a b = 0
or_bits (suc n) a b =
    let rest = or_bits n (a / 2) (b / 2) in
    if a % 2 == 0 && b % 2 == 0 then rest * 2 else rest * 2 + 1

unfoldable pub hex_byte : ℕ → ℕ → ℕ
unfolding hex_value or_bits
hex_byte high low = or_bits 8 (hex_value high * 16 % 256) (hex_value low)

-- The loop from byte k on, with the rounds that are left.
unfoldable pub read_hex : ℕ → ℕ → Bytes → Bytes → Bytes
read_hex zero k hex buf = buf
read_hex (suc left) k hex buf =
    read_hex left (k + 1) hex (store buf k (hex_byte (hex (k * 2)) (hex (k * 2 + 1))))

-- A round for every second index below `len`.
unfoldable pub hex2binary : Bytes → ℕ → Bytes → Bytes
unfolding read_hex
hex2binary hex len buf = read_hex ((len + 1) / 2) 0 hex buf

-- sha.c: a context, its initial value, and the functions that take in bytes and give the hash.
pub record Sha1 {ℓ} (C : Type ℓ) : Type ℓ where
  pub init : C
  pub update : C → Bytes → ℕ → C
  pub final : C → Bytes

unfoldable pub shahash {ℓ} : {C : Type ℓ} → Sha1 C → Bytes → ℕ → Bytes
shahash sha str len = sha.final (sha.update sha.init str len)

-- BT_CHUNK_SIZE
abbrev pub bt_chunk_size : ℕ
bt_chunk_size = 512 * 1024

-- The loop of `make_chunks` for a file of which `left` bytes from `at` on have not been read:
-- `fread` gives a whole chunk or the rest of the file. The result is the array of the hashes.
unfoldable pub chunks_from {ℓ} : {H : Type ℓ} → (Bytes → ℕ → H) → ℕ → Bytes → ℕ → ℕ → List H
chunks_from shahash zero file at left = []
chunks_from shahash (suc fuel) file at left =
    let numbytes = min left bt_chunk_size in
    let rest = chunks_from shahash fuel file (at + numbytes) (left - numbytes) in
    if ltb 0 numbytes then shahash (λ i. file (at + i)) numbytes ∷ rest else []

-- Each round reads a byte at least, so `size` rounds are enough.
unfoldable pub make_chunks {ℓ} : {H : Type ℓ} → (Bytes → ℕ → H) → Bytes → ℕ → List H
unfolding chunks_from
make_chunks shahash file size = chunks_from shahash size file 0 size
