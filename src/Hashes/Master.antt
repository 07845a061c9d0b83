-- ===== src/Hashes/Master.antt =====
-- The two lookups of a hash in the master chunk file agree.
use p2p_cc.Base.{
  ℕ, zero, suc, ◌+◌, ◌*◌, ◌≤◌, ◌<◌, ◌≡◌, ◌≢◌, true, ◌&&◌, refl, ◌∙◌, sym, Option, none, some, List,
  [], ◌∷◌, Bytes, bytes_of, length, arith, Bool-cases, inl, inr,
}
use p2p_cc.Base.Int.{ℤ, pos, negsuc, minus_one, leb_ℤ, ltb_ℤ}
use p2p_cc.Chunk.{hex2binary}
use p2p_cc.Chunk.Hex.{read_hex-at}
use p2p_cc.Hashes.{
  Line, Content, MasterFile, scan_into, hash_into, same_hash, index_of_hash, scan_index, content_at,
  read_content, get_off_set_from_master_chunkfile, get_data_from_hash,
}

-- Every word is a hash of 40 digits.
abbrev pub AllWhole : List Line → Type 0
AllWhole [] = Unit {0}
AllWhole ((index, word) ∷ rest) = (length word ≡ 40) × AllWhole rest

same_hash-same :
    (left j : ℕ) (hash a b : Bytes) (at : ℕ)
    → ((k : ℕ) → k < j + left → a (at + k) ≡ b (at + k))
    → same_hash left j hash a at ≡ same_hash left j hash b at
unfolding same_hash
same_hash-same zero j hash a b at h = refl
same_hash-same (suc left) j hash a b at h =
    rw (h j (omega arith), same_hash-same left (j + 1) hash a b at (λ k q. h k (omega arith)))

pub hash_into-same :
    (temp : Bytes) (word : List ℕ) (k : ℕ)
    → length word ≡ 40
    → k < 20
    → hash_into (scan_into temp word) (bytes_of []) k ≡ hash_into (bytes_of word) (bytes_of []) k
unfolding hex2binary
hash_into-same temp word k whole h =
    let high : scan_into temp word (k * 2) ≡ bytes_of word (k * 2) = ground arith in
    let low : scan_into temp word (k * 2 + 1) ≡ bytes_of word (k * 2 + 1) = ground arith in
    read_hex-at 20 0 (scan_into temp word) (bytes_of []) k (omega arith) (omega arith)
    ∙ rw (high, low)
        (sym (read_hex-at 20 0 (bytes_of word) (bytes_of []) k (omega arith) (omega arith)))

same_hash-hash :
    (left j : ℕ) (a b local : Bytes) (at : ℕ)
    → ((k : ℕ) → k < j + left → a k ≡ b k)
    → same_hash left j a local at ≡ same_hash left j b local at
unfolding same_hash
same_hash-hash zero j a b local at h = refl
same_hash-hash (suc left) j a b local at h =
    rw (h j (omega arith), same_hash-hash left (j + 1) a b local at (λ k q. h k (omega arith)))

index_of_hash-same :
    (a b : Bytes) (lines : List Line) (temp : Bytes)
    → ((k : ℕ) → k < 20 → a k ≡ b k)
    → index_of_hash a lines temp ≡ index_of_hash b lines temp
unfolding index_of_hash
index_of_hash-same a b [] temp h = refl
index_of_hash-same a b ((index, word) ∷ rest) temp h = rw (
  same_hash-hash 20 0 a b (hash_into (scan_into temp word) (bytes_of [])) 0
      (λ k q. h k (omega arith)),
  index_of_hash-same a b rest (scan_into temp word) h,
)

-- Only the 20 bytes of the hash count.
pub get_off_set-same :
    (master : Option MasterFile) (a b : Bytes)
    → ((k : ℕ) → k < 20 → a k ≡ b k)
    → get_off_set_from_master_chunkfile a master ≡ get_off_set_from_master_chunkfile b master
unfolding get_off_set_from_master_chunkfile
get_off_set-same none a b h = refl
get_off_set-same (some master) a b h = index_of_hash-same a b master.lines (bytes_of []) h

scan_index_lem :
    (hash : Bytes) (lines : List Line) (temp : Bytes) (last : ℤ)
    → AllWhole lines
    → index_of_hash hash lines temp ≢ minus_one
    → scan_index hash lines last ≡ index_of_hash hash lines temp
unfolding scan_index index_of_hash
scan_index_lem hash [] temp last whole found = absurd (found refl)
scan_index_lem hash ((index, word) ∷ rest) temp last whole found =
    let same =
      same_hash-same 20 0 hash (hash_into (scan_into temp word) (bytes_of []))
        (hash_into (bytes_of word) (bytes_of [])) 0
        (λ k q.
          let here : 0 + k ≡ k = omega arith in
          rw here (hash_into-same temp word k whole.0 (omega arith))) in
    elim (Bool-cases (same_hash 20 0 hash (hash_into (bytes_of word) (bytes_of [])) 0)) [
      | inl match ↦ rw (same, match)
      | inr other ↦
          rw (same, other)
            (scan_index_lem hash rest (scan_into temp word) index whole.1
              (rw (same, other) at found))
    ]

-- A master file whose data file can be opened.
abbrev pub master_of : Content → List Line → Option MasterFile
master_of content lines = some (record { content = some content; lines = lines })

read_content_lem :
    (out : Bytes) (i : ℕ) (content : Content)
    → i < 4096
    → (bytes : Bytes) × (read_content out (pos i) content ≡ some bytes)
      × ((k : ℕ)
          → k < 512 * 1024
          → 512 * 1024 * i + k < content.size
          → bytes k ≡ content.bytes (512 * 1024 * i + k))
      × ((k : ℕ) → content.size ≤ 512 * 1024 * i + k → bytes k ≡ out k)
unfolding read_content
read_content_lem out i content h =
    let inside : (leb_ℤ (negsuc 4095) (pos i) && ltb_ℤ (pos i) (pos 4096)) ≡ true = ground arith in
    (content_at out (pos i) content, rw inside, λ k q r. ground arith, λ k q. ground arith)

-- For a hash that the master chunk file lists with an index i below 4096, with 40 digits on every
-- line, `get_data_from_hash` finds the same line as `get_off_set_from_master_chunkfile`, and reads the
-- bytes of the data file from 512 * 1024 * i on: 512 * 1024 of them, or those up to the end of the
-- file, behind which the array stays as it was.
pub get_data_from_hash_lem :
    (out : Bytes) (index : ℤ) (hash : Bytes) (content : Content) (lines : List Line) (i : ℕ)
    → AllWhole lines
    → get_off_set_from_master_chunkfile hash (master_of content lines) ≡ pos i
    → i < 4096
    → (bytes : Bytes) × (get_data_from_hash out index hash (master_of content lines)
        ≡ some (some bytes))
      × ((k : ℕ)
          → k < 512 * 1024
          → 512 * 1024 * i + k < content.size
          → bytes k ≡ content.bytes (512 * 1024 * i + k))
      × ((k : ℕ) → content.size ≤ 512 * 1024 * i + k → bytes k ≡ out k)
unfolding get_data_from_hash get_off_set_from_master_chunkfile
get_data_from_hash_lem out index hash content lines i whole found small =
    let listed : index_of_hash hash lines (bytes_of []) ≢ minus_one =
      λ e. let wrong : pos i ≡ minus_one = sym found ∙ e in cc in
    let same = scan_index_lem hash lines (bytes_of []) index whole listed ∙ found in
    let (read, e, inside, behind) = read_content_lem out i content small in
    (read, rw (same, e), inside, behind)
