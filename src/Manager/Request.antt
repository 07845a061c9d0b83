-- ===== src/Manager/Request.antt =====
-- The requests for the chunks of a file.
use p2p_cc.Base.{
  ℕ, ◌+◌, ◌*◌, ◌/◌, ◌≤◌, ◌<◌, ◌≡◌, refl, sym, ap, ap₂, ◌∙◌, Option, some, List, [], ◌∷◌, ◌++◌,
  Bytes, bytes_of, store, length, length-append, arith,
}
use p2p_cc.Base.Int.{ℤ, pos}
use p2p_cc.Packet.{Packet, data_size}
use p2p_cc.Chunk.{hex2binary}
use p2p_cc.Chunk.Hex.{read_hex-at}
use p2p_cc.Hashes.{Line, MasterFile, scan_into, hash_into, get_off_set_from_master_chunkfile}
use p2p_cc.Hashes.Master.{AllWhole, hash_into-same, get_off_set-same}
use p2p_cc.Manager.{FileManager, Config, Asking, offsets_of, generate_whohas}
use p2p_cc.Manager.Questions.{
  word_hash, IsQuestion, Asks, no_lines, Asks-length, IsAsking, question, ask_lines-IsAsking,
}

-- The places from i on are those of the lines' hashes in the master chunk file.
abbrev pub AllPlaced : Option MasterFile → ℕ → List Line → (ℕ → ℤ) → Type 0
AllPlaced master i [] offsets = Unit {0}
AllPlaced master i ((index, word) ∷ rest) offsets =
    (offsets i ≡ get_off_set_from_master_chunkfile (word_hash word) master)
    × AllPlaced master (i + 1) rest offsets

-- The hash of a word that is read into the array `line`.
line_hash :
    (line : Bytes) (word : List ℕ) (k : ℕ)
    → length word ≡ 40
    → k < 20
    → hash_into (scan_into line word) (bytes_of []) k ≡ word_hash word k
unfolding hex2binary
line_hash line word k whole h =
    hash_into-same line word k whole h
    ∙ read_hex-at 20 0 (bytes_of word) (bytes_of []) k (omega arith) (omega arith)

offsets_of-before :
    (master : Option MasterFile) (lines : List Line) (line : Bytes) (top : ℕ) (offsets : ℕ → ℤ)
    (j : ℕ)
    → j < top
    → (offsets_of master lines line top offsets).1 j ≡ offsets j
unfolding offsets_of
offsets_of-before master [] line top offsets j h = refl
offsets_of-before master ((index, word) ∷ rest) line top offsets j h =
    let hash = hash_into (scan_into line word) (bytes_of []) in
    offsets_of-before master rest (scan_into line word) (top + 1) _ j (omega arith)
    ∙ other (get_off_set_from_master_chunkfile hash master)
  where
    other : (o : ℤ) → store offsets top o j ≡ offsets j
    other o = ground arith

offsets_of_lem :
    (master : Option MasterFile) (lines : List Line) (line : Bytes) (top : ℕ) (offsets : ℕ → ℤ)
    → AllWhole lines
    → let r = offsets_of master lines line top offsets in
      (r.0 ≡ top + length lines) × AllPlaced master top lines r.1
unfolding offsets_of
offsets_of_lem master [] line top offsets whole = (omega arith, tt)
offsets_of_lem master ((index, word) ∷ rest) line top offsets whole =
    let hash = hash_into (scan_into line word) (bytes_of []) in
    let offset = get_off_set_from_master_chunkfile hash master in
    let next : ℕ → ℤ = store offsets top offset in
    let (size, placed) = offsets_of_lem master rest (scan_into line word) (top + 1) next whole.1 in
    let at_top =
      offsets_of-before master rest (scan_into line word) (top + 1) next top (omega arith)
      ∙ here offset
      ∙ get_off_set-same master hash (word_hash word) (λ k h. line_hash line word k whole.0 h) in
    (size ∙ omega arith, (at_top, placed))
  where
    here : (o : ℤ) → store offsets top o top ≡ o
    here o = ground arith

-- A request for a file with a chunk on each of its lines, all words of 40 digits, where the bytes up
-- to the first zero behind the padding still fit in a payload. It makes a WHOHAS packet for every 50
-- lines and one for the rest, which may be none; each has the count of its lines and their hashes, in
-- their order, and together they are all lines. The file manager is in use, with no owner; it expects
-- as many chunks as there are lines, has for each the index of its hash in the master chunk file, and
-- has the time `now` for all.
pub generate_whohas_lem :
    (now : ℕ) (junk : List ℕ) (bytes : Bytes) (config : Config) (lines : List Line)
    (m : FileManager)
    → length junk + 5 ≤ data_size
    → AllWhole lines
    → (m' : FileManager) × (q : Packet) × (ret : List Packet) × (done : List Line) × (last : List
        Line)
      × (offsets : ℕ → ℤ) × (generate_whohas now junk bytes config (some lines) m
          ≡ some (m', q ∷ ret))
      × (done ++ last ≡ lines)
      × Asks done ret
      × (length last < 50)
      × IsQuestion last q
      × (length ret ≡ length lines / 50)
      × (m' ≡ record {
        init = 1;
        chunk_count = length lines;
        offset = some (record { size = length lines; at = offsets });
        top = length lines;
        timer = some (record { size = length lines; at = λ i. now });
        already_used = some [];
      })
      × AllPlaced config.chunk_file 0 lines offsets
unfolding generate_whohas
generate_whohas_lem now junk bytes config lines m hj whole =
    let start : Asking = record { chunk_count = 0; bytes = bytes; count = 0; ret = [] } in
    let first : IsAsking [] [] start = record {
      chunks = refl;
      room = omega arith;
      bytes_read = refl;
      packets = no_lines;
      in_array = λ j h. absurd (omega arith);
    } in
    let (done, last, a, e, v, all) = ask_lines-IsAsking junk lines [] [] start hj whole first in
    let (q, e', asked) =
      question junk last (store a.bytes a.count 0) a.count hj v.bytes_read (omega (arith, v.room))
        (λ j h. stored a.bytes a.count j h ∙ v.in_array j (omega (arith, v.bytes_read))) in
    let (top, placed) = offsets_of_lem config.chunk_file lines (bytes_of []) 0 (λ i. pos 0) whole in
    let offsets = (offsets_of config.chunk_file lines (bytes_of []) 0 (λ i. pos 0)).1 in
    let count : a.chunk_count ≡ length lines =
      v.chunks ∙ sym (length-append done last) ∙ ap length all in
    let made : ℕ → ℕ → FileManager = λ n t. record {
      init = 1;
      chunk_count = n;
      offset = some (record { size = n; at = offsets });
      top = t;
      timer = some (record { size = n; at = λ i. now });
      already_used = some [];
    } in
    (
      made a.chunk_count (offsets_of config.chunk_file lines (bytes_of []) 0 (λ i. pos 0)).0,
      q,
      a.ret,
      done,
      last,
      offsets,
      rw (e, e'),
      all,
      v.packets,
      v.room,
      asked,
      packets_of (length a.ret) (Asks-length done a.ret v.packets) v.room
          (sym (length-append done last) ∙ ap length all),
      ap₂ made count (top ∙ omega arith),
      placed,
    )
  where
    stored : (b : Bytes) (n j : ℕ) → j < n → store b n 0 j ≡ b j
    stored b n j h = ground arith

    packets_of :
        {d l : ℕ} (r : ℕ) → d ≡ 50 * r → l < 50 → d + l ≡ length lines → r ≡ length lines / 50
    packets_of r e h s = omega arith
