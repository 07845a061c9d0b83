-- ===== src/Chunk/Tool.antt =====
-- make_chunks.c: the program that prints the hashes of a file's chunks.
use p2p_cc.Base.{
  ℕ, zero, suc, ◌+◌, ◌-◌, ◌*◌, ◌/◌, ◌<◌, ◌≡◌, refl, sym, ap, ap₂, ◌∙◌, true, false, min, Option,
  none, some, List, [], ◌∷◌, leb, if◌then◌else◌, ◌>>◌, require, Bytes, bytes_of, slice, length,
  arith,
}
use p2p_cc.Base.Int.{ℤ, pos, pos_part, minus_one, ltb_ℤ}
use p2p_cc.Chunk.{Sha1, shahash, bt_chunk_size, binary2hex, hex2binary, hex_byte, make_chunks}
use p2p_cc.Chunk.Split.{hashes_of, make_chunks_lem}
use p2p_cc.Chunk.Hex.{hex2binary-binary2hex, read_hex-at}

-- SHA1_HASH_SIZE
abbrev pub sha1_hash_size : ℕ
sha1_hash_size = 20

-- ceil(length / BT_CHUNK_SIZE) for the size that stat() gives; -1 if it gives none. The quotient is
-- a double, exact for a file of less than 2 ^ 53 bytes.
unfoldable pub get_numchunks : Option ℕ → ℤ
get_numchunks none = minus_one
get_numchunks (some size) = pos ((size + bt_chunk_size - 1) / bt_chunk_size)

-- The loop that prints a line for each hash, from number i on: the number and the digits. `ascii` is
-- the array that the digits are written to.
unfoldable pub print_hashes : ℕ → List Bytes → Bytes → List (ℕ × List ℕ)
print_hashes i [] ascii = []
print_hashes i (hash ∷ rest) ascii =
    let ascii' = binary2hex hash sha1_hash_size ascii in
    (i, slice ascii' 0 (sha1_hash_size * 2)) ∷ print_hashes (i + 1) rest ascii'

-- How the program ends: with an error, or with the lines printed.
pub data Ending : Type 0 where
  failed : Ending
  printed : List (ℕ × List ℕ) → Ending

-- The program with its argument; `ascii` is what is on the stack. The array has room for as many
-- hashes as `get_numchunks` says.
unfoldable pub chunk_tool {ℓ} : {C : Type ℓ} → Sha1 C → Bytes → Option (Bytes × ℕ) → Option Ending
unfolding get_numchunks print_hashes
chunk_tool sha ascii none = some failed
chunk_tool sha ascii (some (file, size)) =
    let numchunks = get_numchunks (some size) in
    if ltb_ℤ numchunks (pos 0) then some failed else (do
      let hashes = make_chunks (shahash sha) file size
      require (leb (length hashes) (pos_part numchunks))
      some (printed (print_hashes 0 hashes ascii)))

-- Lines with the numbers i, i + 1, ... and the hashes of `hash`: 40 digits each, which `hex2binary`
-- reads back to the 20 bytes.
abbrev pub AllPrinted : (ℕ → Bytes) → ℕ → List (ℕ × List ℕ) → Type 0
AllPrinted hash i [] = Unit {0}
AllPrinted hash i ((number, text) ∷ rest) =
    (number ≡ i)
    × (length text ≡ 40)
    × ((out : Bytes) (k : ℕ) → k < 20 → hex2binary (bytes_of text) 40 out k ≡ hash i k)
    × AllPrinted hash (i + 1) rest

length-slice : (a : Bytes) (from n : ℕ) → length (slice a from n) ≡ n
length-slice a from zero = refl
length-slice a from (suc n) = ap suc (length-slice a (from + 1) n)

bytes_of-slice : (a : Bytes) (from n i : ℕ) → i < n → bytes_of (slice a from n) i ≡ a (from + i)
bytes_of-slice a from zero i h = absurd (omega arith)
bytes_of-slice a from (suc n) zero h = let same : from + 0 ≡ from = omega arith in rw same
bytes_of-slice a from (suc n) (suc i) h =
    let same : from + suc i ≡ from + 1 + i = omega arith in
    rw same (bytes_of-slice a (from + 1) n i (omega arith))

hex2binary-at :
    (text out : Bytes) (k : ℕ)
    → k < 20
    → hex2binary text 40 out k ≡ hex_byte (text (k * 2)) (text (k * 2 + 1))
unfolding hex2binary
hex2binary-at text out k h = read_hex-at 20 0 text out k (omega arith) (omega arith)

-- The digits in the line are read back.
read_back :
    (hash ascii out : Bytes) (k : ℕ)
    → ((j : ℕ) → j < 20 → hash j < 256)
    → k < 20
    → hex2binary (bytes_of (slice (binary2hex hash 20 ascii) 0 40)) 40 out k ≡ hash k
read_back hash ascii out k bytes h =
    let digits = binary2hex hash 20 ascii in
    let high = byte_at digits (k * 2) (omega arith) in
    let low = byte_at digits (k * 2 + 1) (omega arith) in
    hex2binary-at (bytes_of (slice digits 0 40)) out k h
    ∙ same_byte high low
    ∙ sym (hex2binary-at digits out k h)
    ∙ hex2binary-binary2hex hash ascii out 20 bytes k h
  where
    same_byte : {a b a' b' : ℕ} → a ≡ a' → b ≡ b' → hex_byte a b ≡ hex_byte a' b'
    same_byte p q = ap₂ hex_byte p q

    byte_at : (a : Bytes) (i : ℕ) → i < 40 → bytes_of (slice a 0 40) i ≡ a i
    byte_at a i q = let same : 0 + i ≡ i = omega arith in rw same at (bytes_of-slice a 0 40 i q)

print_hashes-AllPrinted :
    (shahash : Bytes → ℕ → Bytes) (file : Bytes) (size n i : ℕ) (ascii : Bytes)
    → ((b : Bytes) (len j : ℕ) → j < 20 → shahash b len j < 256)
    → AllPrinted
        (λ k.
          shahash
            (λ j. file (k * bt_chunk_size + j))
            (min (size - k * bt_chunk_size) bt_chunk_size))
        i
        (print_hashes i (hashes_of shahash file size n (i * bt_chunk_size)) ascii)
unfolding print_hashes
print_hashes-AllPrinted shahash file size zero i ascii h = tt
print_hashes-AllPrinted shahash file size (suc n) i ascii h =
    let at = i * bt_chunk_size in
    let hash = shahash (λ j. file (at + j)) (min (size - at) bt_chunk_size) in
    let next : i * bt_chunk_size + bt_chunk_size ≡ (i + 1) * bt_chunk_size = omega arith in
    (
      refl,
      length-slice (binary2hex hash 20 ascii) 0 40,
      λ out k q. read_back hash ascii out k (λ j. h _ _ j) q,
      rw next (print_hashes-AllPrinted shahash file size n (i + 1) (binary2hex hash 20 ascii) h),
    )

length-hashes_of :
    (shahash : Bytes → ℕ → Bytes) (file : Bytes) (size n at : ℕ)
    → length (hashes_of shahash file size n at) ≡ n
length-hashes_of shahash file size zero at = refl
length-hashes_of shahash file size (suc n) at =
    ap suc (length-hashes_of shahash file size n (at + bt_chunk_size))

length-print_hashes :
    (i : ℕ) (hashes : List Bytes) (ascii : Bytes)
    → length (print_hashes i hashes ascii) ≡ length hashes
unfolding print_hashes
length-print_hashes i [] ascii = refl
length-print_hashes i (hash ∷ rest) ascii =
    ap suc (length-print_hashes (i + 1) rest (binary2hex hash sha1_hash_size ascii))

-- A file of n chunks.
chunk_tool-of {ℓ} :
    {C : Type ℓ} (sha : Sha1 C) (ascii file : Bytes) (size n : ℕ)
    → (size + bt_chunk_size - 1) / bt_chunk_size ≡ n
    → make_chunks (shahash sha) file size ≡ hashes_of (shahash sha) file size n 0
    → chunk_tool sha ascii (some (file, size))
      ≡ some (printed (print_hashes 0 (hashes_of (shahash sha) file size n 0) ascii))
unfolding chunk_tool get_numchunks
chunk_tool-of sha ascii file size n count e =
    let room : leb n n ≡ true = ground arith in
    let positive : ltb_ℤ (pos n) (pos 0) ≡ false = ground arith in
    rw (count, e, length-hashes_of (shahash sha) file size n 0, room, positive)

-- For a SHA-1 that gives bytes, the program on a file that can be read writes no hash behind
-- its array, and prints one line for each begun chunk of 512 KB, numbered from 0, with 40 digits that
-- hex2binary reads back to the hash of that chunk's bytes, cut off at the end of the file.
pub chunk_tool_lem {ℓ} :
    {C : Type ℓ} (sha : Sha1 C) (ascii file : Bytes) (size : ℕ)
    → ((b : Bytes) (len j : ℕ) → j < 20 → shahash sha b len j < 256)
    → (lines : List (ℕ × List ℕ)) × (chunk_tool sha ascii (some (file, size))
        ≡ some (printed lines))
      × (length lines ≡ (size + bt_chunk_size - 1) / bt_chunk_size)
      × AllPrinted
          (λ k.
            shahash sha
              (λ j. file (k * bt_chunk_size + j))
              (min (size - k * bt_chunk_size) bt_chunk_size))
          0
          lines
chunk_tool_lem sha ascii file size h =
    let n = (size + bt_chunk_size - 1) / bt_chunk_size in
    let hashes = hashes_of (shahash sha) file size n 0 in
    (
      print_hashes 0 hashes ascii,
      chunk_tool-of sha ascii file size n refl (make_chunks_lem (shahash sha) file size),
      length-print_hashes 0 hashes ascii ∙ length-hashes_of (shahash sha) file size n 0,
      print_hashes-AllPrinted (shahash sha) file size n 0 ascii h,
    )
