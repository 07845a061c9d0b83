-- ===== src/Hashes/Tests.antt =====
-- The lookups of hashes at concrete inputs.
use p2p_cc.Base.{
  ℕ, zero, suc, ◌+◌, ◌*◌, ◌≤◌, ◌<◌, ◌/◌, ◌≡◌, ◌↔◌, refl, some, List, [], ◌∷◌, ltb, if◌then◌else◌,
  Bytes, bytes_of, arith,
}
use p2p_cc.Base.Int.{pos}
use p2p_cc.Chunk.{hex2binary, read_hex, hex_byte, hex_value, or_bits, toupper}
use p2p_cc.Hashes.{
  Line, Content, same_hash, index_of_hash, find_in_local_has, get_off_set_from_master_chunkfile,
  get_data_from_hash,
}
use p2p_cc.Hashes.Local.{HasHash, find_in_local_has_iff}
use p2p_cc.Hashes.Master.{master_of, get_data_from_hash_lem}

-- A local list of one hash, of ones.
abbrev ones : Bytes
ones k = if ltb k 20 then 1 else 0

find_in_local_has_iff_example :
    (find_in_local_has 100 ones ones ≡ some (pos 1)) ↔ HasHash (20 / 20) 0 ones ones
find_in_local_has_iff_example =
    find_in_local_has_iff 100 20 ones ones (omega arith) (λ k h. ground arith) refl

-- The word of n digits '1'.
abbrev digits : ℕ → List ℕ
digits zero = []
digits (suc n) = 49 ∷ digits n

abbrev lines : List Line
lines = (pos 3, digits 40) ∷ []

abbrev hash : Bytes
hash k = 17

abbrev content : Content
content = record { bytes = λ i. i; size = 4194304 }

listed : get_off_set_from_master_chunkfile hash (master_of content lines) ≡ pos 3
unfolding get_off_set_from_master_chunkfile index_of_hash same_hash hex2binary read_hex hex_byte
    hex_value or_bits toupper
listed = refl

get_data_from_hash_lem_example :
    (bytes : Bytes) × (get_data_from_hash (bytes_of []) (pos 0) hash (master_of content lines)
      ≡ some (some bytes))
    × ((k : ℕ) → k < 512 * 1024 → 512 * 1024 * 3 + k < 4194304 → bytes k ≡ 512 * 1024 * 3 + k)
    × ((k : ℕ) → 4194304 ≤ 512 * 1024 * 3 + k → bytes k ≡ 0)
get_data_from_hash_lem_example =
    get_data_from_hash_lem (bytes_of []) (pos 0) hash content lines 3 (refl, tt) listed
      (omega arith)
