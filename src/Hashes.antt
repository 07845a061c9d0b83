-- ===== src/Hashes.antt =====
-- The chunk files of packet.c: `read_chunkfile`, the search for a hash in the local list, and the
-- lookups in the master chunk file. A text file is the sequence of what `fscanf` reads from it: an
-- index and a word on each line. The zero that ends a word of 40 digits, one byte behind the arrays
-- `line` and `temp`, is taken to do no harm, and so is a longer word in the master chunk file.
pub mod Local
pub mod Master
mod Tests
use p2p_cc.Base.{
  ℕ, zero, suc, ◌+◌, ◌-◌, ◌*◌, ◌/◌, min, Bool, true, false, ◌&&◌, Option, none, some, List, [], ◌∷◌,
  ltb, leb, ◌==◌, if◌then◌else◌, ◌>>=◌, ◌>>◌, require, Bytes, store, copy_at, bytes_of, length,
}
use p2p_cc.Base.Int.{ℤ, pos, negsuc, pos_part, minus_one, ◌==ℤ◌, ltb_ℤ, leb_ℤ}
use p2p_cc.Chunk.{hex2binary}

abbrev pub Line : Type 0
Line = ℤ × List ℕ

-- A data file, and how long it is.
pub record Content : Type 0 where
  pub bytes : Bytes
  pub size : ℕ

-- A master chunk file: the data file of its first line, if that can be opened, and the lines behind
-- the second.
pub record MasterFile : Type 0 where
  pub content : Option Content
  pub lines : List Line

-- What `fscanf` of "%s" leaves in an array.
abbrev pub scan_into : Bytes → List ℕ → Bytes
scan_into temp word = copy_at temp 0 (bytes_of word) (length word + 1)

-- The first 40 digits of a word in `temp`, as a hash in `local`.
abbrev pub hash_into : Bytes → Bytes → Bytes
hash_into temp local = hex2binary temp 40 local

-- The loops that compare a hash with the 20 bytes of `local` from `at` on, at their byte j and with
-- `left` bytes to go.
unfoldable pub same_hash : ℕ → ℕ → Bytes → Bytes → ℕ → Bool
same_hash zero j hash local at = true
same_hash (suc left) j hash local at =
    let rest = same_hash left (j + 1) hash local at in
    if hash j == local (at + j) then rest else false

-- strlen, from byte i on of an array of which `left` bytes are left.
unfoldable pub strlen : ℕ → ℕ → Bytes → Option ℕ
strlen zero i s = none
strlen (suc left) i s = let rest = strlen left (i + 1) s in if s i == 0 then some i else rest

-- The search from hash i on, with the hashes that are left.
unfoldable pub search_local : ℕ → ℕ → Bytes → Bytes → ℤ
unfolding same_hash
search_local zero i hash local = pos 0
search_local (suc left) i hash local =
    let rest = search_local left (i + 1) hash local in
    if same_hash 20 0 hash local (i * 20) then pos 1 else rest

-- `capacity` is the size of the array `local`.
unfoldable pub find_in_local_has : ℕ → Bytes → Bytes → Option ℤ
unfolding strlen search_local
find_in_local_has capacity hash local = do
  n ← strlen capacity 0 local
  some (search_local (n / 20) 0 hash local)

-- The loop of `read_chunkfile`: `count` bytes of `out`, an array of `capacity` bytes, are written. A
-- word of more than 40 digits is written behind the end of `line` before its length is tested.
unfoldable pub read_lines : ℕ → List Line → ℕ → Bytes → Option (ℤ × Bytes)
read_lines capacity [] count out = do
  require (ltb count capacity)
  some (pos count, store out count 0)
read_lines capacity ((index, word) ∷ rest) count out = do
  require (leb (length word) 40)
  require (leb (count + 20) capacity)
  let hash = hash_into (bytes_of word) (λ k. out (count + k))
  read_lines capacity rest (count + 20) (copy_at out count hash 20)

unfoldable pub read_chunkfile : ℕ → Option (List Line) → Bytes → Option (ℤ × Bytes)
unfolding read_lines
read_chunkfile capacity none out = some (minus_one, out)
read_chunkfile capacity (some lines) out = read_lines capacity lines 0 out

-- The loop of `get_hash_from_master_chunkfile`; a null result is `none`.
unfoldable pub hash_of_index : ℤ → List Line → Bytes → Bytes → Option Bytes
hash_of_index offset [] temp hash = none
hash_of_index offset ((index, word) ∷ rest) temp hash =
    let temp' = scan_into temp word in
    let next = hash_of_index offset rest temp' hash in
    if index ==ℤ offset then some (hash_into temp' hash) else next

-- `hash` is what `malloc` gives.
unfoldable pub get_hash_from_master_chunkfile : Bytes → ℤ → Option MasterFile → Option Bytes
unfolding hash_of_index
get_hash_from_master_chunkfile hash offset none = none
get_hash_from_master_chunkfile hash offset (some master) =
    hash_of_index offset master.lines (bytes_of []) hash

-- The loop of `get_off_set_from_master_chunkfile`. (All of `local` is written before it is read.)
unfoldable pub index_of_hash : Bytes → List Line → Bytes → ℤ
index_of_hash hash [] temp = minus_one
index_of_hash hash ((index, word) ∷ rest) temp =
    let temp' = scan_into temp word in
    let next = index_of_hash hash rest temp' in
    if same_hash 20 0 hash (hash_into temp' (bytes_of [])) 0 then index else next

unfoldable pub get_off_set_from_master_chunkfile : Bytes → Option MasterFile → ℤ
unfolding index_of_hash
get_off_set_from_master_chunkfile hash none = minus_one
get_off_set_from_master_chunkfile hash (some master) = index_of_hash hash master.lines (bytes_of [])

-- The loop of `get_data_from_hash`: the index that it leaves, which is the last one of the file if
-- the hash is not found.
unfoldable pub scan_index : Bytes → List Line → ℤ → ℤ
scan_index hash [] index = index
scan_index hash ((index, word) ∷ rest) last =
    let next = scan_index hash rest index in
    if same_hash 20 0 hash (hash_into (bytes_of word) (bytes_of [])) 0 then index else next

-- `fread` of one chunk; `fseek` to a place before the file leaves it at its start.
abbrev pub content_at : Bytes → ℤ → Content → Bytes
content_at out index content =
    let at = 512 * 1024 * pos_part index in
    copy_at out 0 (λ k. content.bytes (at + k)) (min (512 * 1024) (content.size - at))

-- The place 512 * 1024 * index is an int, which overflows below -2 ^ 31 and from 2 ^ 31 on.
unfoldable pub read_content : Bytes → ℤ → Content → Option Bytes
read_content out index content = do
  require (leb_ℤ (negsuc 4095) index && ltb_ℤ index (pos 4096))
  some (content_at out index content)

-- `out` is what `malloc` gives, and `index` what the variable holds before the loop.
unfoldable pub get_data_from_hash : Bytes → ℤ → Bytes → Option MasterFile → Option (Option Bytes)
unfolding scan_index read_content
get_data_from_hash out index hash none = some none
get_data_from_hash out index hash (some master) = do
  content ← master.content
  data_read ← read_content out (scan_index hash master.lines index) content
  some (some data_read)
