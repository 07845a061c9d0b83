-- ===== src/Manager/Questions.antt =====
-- The WHOHAS packets that the first loop of `generate_WHOHAS` (packet.c) makes.
use mathlib.Core.List.{append_assoc, append-nil}
use p2p_cc.Base.{
  ℕ, ◌+◌, ◌-◌, ◌*◌, ◌≤◌, ◌<◌, ◌≡◌, refl, sym, ap, ◌∙◌, true, false, some, List, [], ◌∷◌, ◌++◌, ltb,
  leb, if◌then◌else◌, Bytes, bytes_of, copy_at, length, length-append, arith, Bool-cases, inl, inr,
}
use p2p_cc.Packet.{Packet, init_packet, data_size, whohas}
use p2p_cc.Base.Int.{ℤ}
use p2p_cc.Packet.Layout.{init_packet-counted, counted_byte}
use p2p_cc.Chunk.{hex_byte, hex2binary}
use p2p_cc.Chunk.Hex.{read_hex-at}
use p2p_cc.Hashes.{Line, hash_into}
use p2p_cc.Hashes.Master.{AllWhole}
use p2p_cc.Manager.{Asking, full_packet, ask_lines}

-- The hash that the digits of a word stand for.
abbrev pub word_hash : List ℕ → Bytes
word_hash word k = hex_byte (bytes_of word (k * 2)) (bytes_of word (k * 2 + 1))

-- Byte j of the hashes of some lines, one behind the other.
abbrev pub lines_byte : List Line → ℕ → ℕ
lines_byte [] j = 0
lines_byte ((index, word) ∷ rest) j =
    let later = lines_byte rest (j - 20) in if ltb j 20 then word_hash word j else later

-- A WHOHAS packet for the hashes of these lines, in their order.
pub record IsQuestion (batch : List Line) (q : Packet) : Type 0 where
  pub is_whohas : q.header.packet_type ≡ whohas
  pub count : q.payload 0 ≡ length batch
  pub hashes : (j : ℕ) → j < 20 * length batch → q.payload (4 + j) ≡ lines_byte batch j

-- The packets, newest first, of lines that are asked for by 50 in each.
pub data Asks : List Line → List Packet → Type 0 where
  no_lines : Asks [] []
  fifty_more :
      (done batch : List Line) (q : Packet) (ret : List Packet)
      → Asks done ret
      → length batch ≡ 50
      → IsQuestion batch q
      → Asks (done ++ batch) (q ∷ ret)

pub Asks-length :
    (done : List Line) (ret : List Packet) → Asks done ret → length done ≡ 50 * length ret
Asks-length done ret no_lines = refl
Asks-length all packets (fifty_more done batch q ret asks size question) =
    length-append done batch ∙ omega (arith, size, Asks-length done ret asks)

-- The loop when packets have been made for the lines `done`, and those of `batch` are in the array.
pub record IsAsking (done batch : List Line) (a : Asking) : Type 0 where
  pub chunks : a.chunk_count ≡ length done + length batch
  pub room : length batch < 50
  pub bytes_read : a.count ≡ 20 * length batch
  pub packets : Asks done a.ret
  pub in_array : (j : ℕ) → j < 20 * length batch → a.bytes j ≡ lines_byte batch j

lines_byte-before :
    (batch : List Line) (line : Line) (j : ℕ)
    → j < 20 * length batch
    → lines_byte (batch ++ line ∷ []) j ≡ lines_byte batch j
lines_byte-before [] line j h = absurd (omega arith)
lines_byte-before ((index, word) ∷ rest) line j h = elim (Bool-cases (ltb j 20)) [
  | inl first ↦ rw first
  | inr later ↦ rw later (lines_byte-before rest line (j - 20) (ground arith))
]

lines_byte-last :
    (batch : List Line) (index : ℤ) (word : List ℕ) (j k : ℕ)
    → k < 20
    → j ≡ 20 * length batch + k
    → lines_byte (batch ++ (index, word) ∷ []) j ≡ word_hash word k
lines_byte-last [] index word j k h e =
    let same : j ≡ k = omega arith in let first : ltb k 20 ≡ true = ground arith in rw (same, first)
lines_byte-last ((index', word') ∷ rest) index word j k h e =
    let later : ltb j 20 ≡ false = ground arith in
    rw later (lines_byte-last rest index word (j - 20) k h (ground arith))

-- A packet of what is in the array.
pub question :
    (junk : List ℕ) (batch : List Line) (bytes : Bytes) (n : ℕ)
    → length junk + 5 ≤ data_size
    → n ≡ 20 * length batch
    → length batch ≤ 50
    → ((j : ℕ) → j < n → bytes j ≡ lines_byte batch j)
    → (q : Packet) × (init_packet junk whohas (some bytes) n ≡ some q) × IsQuestion batch q
question junk batch bytes n hj size small same =
    let (q, e, type, len, filled) =
      init_packet-counted junk whohas bytes n (inl refl) (omega arith) hj in
    (
      q,
      e,
      record {
        is_whohas = type;
        count = filled 0 (omega arith) ∙ omega (arith, size);
        hashes =
            λ j h. filled (4 + j) (omega (arith, size)) ∙ behind j ∙ same j (omega (arith, size));
      },
    )
  where
    behind : (j : ℕ) → counted_byte bytes n (4 + j) ≡ bytes j
    behind j = ground arith

-- The array with one more hash.
abbrev with_hash : List ℕ → Asking → Asking
with_hash word a =
    let hash = hash_into (bytes_of word) (λ k. a.bytes (a.count + k)) in
    record a {
      bytes = copy_at a.bytes a.count hash 20;
      count = a.count + 20;
      chunk_count = a.chunk_count + 1;
    }

with_hash-bytes :
    (batch : List Line) (index : ℤ) (word : List ℕ) (a : Asking)
    → a.count ≡ 20 * length batch
    → ((j : ℕ) → j < 20 * length batch → a.bytes j ≡ lines_byte batch j)
    → (j : ℕ) → j < a.count + 20
    → (with_hash word a).bytes j ≡ lines_byte (batch ++ (index, word) ∷ []) j
unfolding hex2binary
with_hash-bytes batch index word a size same j h = elim (Bool-cases (ltb j a.count)) [
  | inl before ↦
      old j (hash_into (bytes_of word) (λ k. a.bytes (a.count + k))) before
      ∙ same j (ground arith)
      ∙ sym (lines_byte-before batch (index, word) j (ground arith))
  | inr behind ↦
      new j (hash_into (bytes_of word) (λ k. a.bytes (a.count + k))) behind h
      ∙ read_hex-at 20 0 (bytes_of word) (λ k. a.bytes (a.count + k)) (j - a.count) (omega arith)
          (ground arith)
      ∙ sym (lines_byte-last batch index word j (j - a.count) (ground arith) (ground arith))
]
  where
    old :
        (j : ℕ) (hash : Bytes)
        → ltb j a.count ≡ true
        → copy_at a.bytes a.count hash 20 j ≡ a.bytes j
    old j hash before = ground arith

    new :
        (j : ℕ) (hash : Bytes)
        → ltb j a.count ≡ false
        → j < a.count + 20
        → copy_at a.bytes a.count hash 20 j ≡ hash (j - a.count)
    new j hash behind inside = ground arith

-- A round of the loop: one line more is asked for.
ask_line-IsAsking :
    (junk : List ℕ) (done batch : List Line) (index : ℤ) (word : List ℕ) (a : Asking)
    → length junk + 5 ≤ data_size
    → IsAsking done batch a
    → (done' : List Line) × (batch' : List Line) × (a' : Asking) × (full_packet junk
          (with_hash word a)
        ≡ some a')
      × IsAsking done' batch' a'
      × (done' ++ batch' ≡ done ++ (batch ++ (index, word) ∷ []))
unfolding full_packet
ask_line-IsAsking junk done batch index word a hj v =
    let more = batch ++ (index, word) ∷ [] in
    let size : length more ≡ length batch + 1 = length-append batch ((index, word) ∷ []) in
    let bytes = with_hash-bytes batch index word a v.bytes_read v.in_array in
    let count : a.count + 20 ≡ 20 * length more = omega (arith, size, v.bytes_read) in
    elim (Bool-cases (leb 1000 (a.count + 20))) [
      | inl full ↦
          let fifty : length more ≡ 50 = fifty_of a.count (length more) count (small size) full in
          let (q, e, asked) =
            question junk more (with_hash word a).bytes (a.count + 20) hj count (omega arith)
              bytes in
          (
            done ++ more,
            [],
            record (with_hash word a) { bytes = bytes_of []; count = 0; ret = q ∷ a.ret },
            rw (full, e),
            record {
              chunks = omega (arith, length-append done more, size, v.chunks);
              room = omega arith;
              bytes_read = refl;
              packets = fifty_more done more q a.ret v.packets fifty asked;
              in_array = λ j h. absurd (omega arith);
            },
            append-nil (done ++ more),
          )
      | inr part ↦ (
        done,
        more,
        with_hash word a,
        rw part,
        record {
          chunks = omega (arith, size, v.chunks);
          room = below a.count (length more) count part;
          bytes_read = count;
          packets = v.packets;
          in_array = λ j h. bytes j (omega (arith, count));
        },
        refl,
      )
    ]
  where
    small :
        length (batch ++ (index, word) ∷ []) ≡ length batch + 1
        → length (batch ++ (index, word) ∷ []) ≤ 50
    small size = omega (arith, v.room)

    fifty_of : (c n : ℕ) → c + 20 ≡ 20 * n → n ≤ 50 → leb 1000 (c + 20) ≡ true → n ≡ 50
    fifty_of c n e h full = ground arith

    below : (c n : ℕ) → c + 20 ≡ 20 * n → leb 1000 (c + 20) ≡ false → n < 50
    below c n e part = ground arith

pub ask_lines-IsAsking :
    (junk : List ℕ) (lines done batch : List Line) (a : Asking)
    → length junk + 5 ≤ data_size
    → AllWhole lines
    → IsAsking done batch a
    → (done' : List Line) × (batch' : List Line) × (a' : Asking) × (ask_lines junk lines a
        ≡ some a')
      × IsAsking done' batch' a'
      × (done' ++ batch' ≡ (done ++ batch) ++ lines)
unfolding ask_lines
ask_lines-IsAsking junk [] done batch a hj whole v =
    (done, batch, a, refl, v, sym (append-nil (done ++ batch)))
ask_lines-IsAsking junk ((index, word) ∷ rest) done batch a hj whole v =
    let fits : leb (length word) 40 ≡ true = ground (arith, whole.0) in
    let (done1, batch1, a1, e1, v1, same1) = ask_line-IsAsking junk done batch index word a hj v in
    let (done2, batch2, a2, e2, v2, same2) =
      ask_lines-IsAsking junk rest done1 batch1 a1 hj whole.1 v1 in
    (
      done2,
      batch2,
      a2,
      rw (fits, e1) e2,
      v2,
      same2
          ∙ ap (λ (l : List Line). l ++ rest)
              (same1 ∙ sym (append_assoc done batch ((index, word) ∷ [])))
          ∙ append_assoc (done ++ batch) ((index, word) ∷ []) rest,
    )
