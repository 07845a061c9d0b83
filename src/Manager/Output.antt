-- ===== src/Manager/Output.antt =====
-- When the output file is written, and how long it is.
use p2p_cc.Base.{
  ℕ, zero, suc, ◌+◌, ◌*◌, ◌≤◌, ◌<◌, ◌≡◌, ◌≢◌, refl, ◌∙◌, true, false, inl, inr, some, none, List,
  [], ◌∷◌, ◌++◌, ◌==◌, if◌then◌else◌, Bytes, bytes_of, copy_at, slice, length, length-append, arith,
  Bool-cases, ap, ap₂, sym, slice-same, Array, leb,
}
use p2p_cc.Base.Int.{
  ℤ, pos, negsuc, pos_part, minus_one, ◌==ℤ◌, leb_ℤ, ◌≤ℤ◌, ◌+ℤ◌, +ℤ_parts, int_laws,
}
use p2p_cc.Sender.{chunk_packet_number}
use p2p_cc.Receiver.{Buffer, DataChunk, is_buffer_full, copy_chunk_data}
use p2p_cc.Receiver.Store.{bytes_below}
use p2p_cc.Receiver.Full.{has_buffer, all_complete, is_buffer_full_lem}
use p2p_cc.Manager.{FileManager, write_parts, write_chunks, finish_file, check_file_manager}
use p2p_cc.Manager.Bytes.{
  part_bytes, parts_bytes, chunk_bytes, file_bytes, file_bytes-same, AllKept,
}
use p2p_cc.Manager.Finish.{
  IsFull, IsCounted, AllCounted, all_full, full-cases, all_full-same, release_full_lem,
}

length-slice : (a : Bytes) (from n : ℕ) → length (slice a from n) ≡ n
length-slice a from zero = refl
length-slice a from (suc n) = ap suc (length-slice a (from + 1) n)

-- What `copy_chunk_data` does for a part of a chunk.
abbrev copy_part : DataChunk → Bytes → Bytes × ℤ
copy_part c temp =
    if c.recved then (copy_at temp 0 c.content (pos_part c.length), c.length) else (temp, pos 0)

-- The buffer that `copy_chunk_data` reads.
record IsSource (offset : ℤ) (l : List Buffer) (b : Buffer) : Type 0 where
  counted : IsCounted b
  complete : (b.total_recv ==ℤ pos (512 * 1024)) ≡ true
  newest : chunk_bytes offset l ≡ parts_bytes 512 0 b.chunks
  copies : (temp : Bytes) (j : ℕ) → copy_chunk_data temp offset j l ≡ copy_part (b.chunks j) temp

find-IsSource :
    (offset : ℤ) (l : List Buffer)
    → AllCounted l
    → has_buffer offset l ≡ true
    → all_complete offset l ≡ true
    → (b : Buffer) × IsSource offset l b
unfolding copy_chunk_data
find-IsSource offset [] v h c = cc
find-IsSource offset (b ∷ l) v h c = elim (Bool-cases (offset ==ℤ b.offset)) [
  | inl here ↦ (
    b,
    record {
      counted = v.0;
      complete = ground (arith, c, here);
      newest = rw here;
      copies = λ temp j. rw here;
    },
  )
  | inr other ↦
      let (b', s) =
        find-IsSource offset l v.1 (ground (arith, h, other)) (ground (arith, c, other)) in
      (
        b',
        record {
          counted = s.counted;
          complete = s.complete;
          newest = rw other s.newest;
          copies = λ temp j. rw other (s.copies temp j);
        },
      )
]

nonneg_test : (x : ℤ) → pos 0 ≤ℤ x → leb_ℤ (pos 0) x ≡ true
nonneg_test x h = ground arith

part-nonneg :
    (b : Buffer) (j : ℕ) (temp : Bytes)
    → IsCounted b
    → j < chunk_packet_number
    → pos 0 ≤ℤ (copy_part (b.chunks j) temp).1
part-nonneg b j temp v h = elim (Bool-cases (b.chunks j).recved) [
  | inl there ↦ rw there (v.lengths j h there)
  | inr missing ↦ rw missing (omega arith)
]

bytes_below-next :
    (b : Buffer) (j : ℕ) (temp : Bytes)
    → bytes_below b.chunks (j + 1) ≡ bytes_below b.chunks j +ℤ (copy_part (b.chunks j) temp).1
bytes_below-next b j temp =
    let next : j + 1 ≡ suc j = omega arith in
    rw next (elim (Bool-cases (b.chunks j).recved) [
      | inl there ↦ unfold bytes_below in rw there
      | inr missing ↦ unfold bytes_below in rw missing
    ])

add_zero : (x : ℤ) → x +ℤ pos 0 ≡ x
add_zero x = omega int_laws

add_part : (x y : ℤ) (p n : ℕ) → pos 0 ≤ℤ y → p ≡ pos_part y + n → x +ℤ pos p ≡ x +ℤ y +ℤ pos n
add_part x (pos m) p n h e = omega int_laws
add_part x (negsuc m) p n h e = absurd (omega arith)

copied_part :
    (c : DataChunk) (temp : Bytes)
    → slice (copy_part c temp).0 0 (pos_part (copy_part c temp).1) ≡ part_bytes c
copied_part c temp = elim (Bool-cases c.recved) [
  | inl there ↦ rw there (
      slice-same (copy_at temp 0 c.content (pos_part c.length)) c.content 0 0 (pos_part c.length)
        (λ i h. ground arith))
  | inr missing ↦ rw missing
]

-- The bytes that are written for the parts from j on, added to those of the parts before.
write_parts-length :
    (left j : ℕ) (offset : ℤ) (l : List Buffer) (b : Buffer) (temp : Bytes)
    → IsSource offset l b
    → j + left ≤ chunk_packet_number
    → (out : List ℕ) × (write_parts left j offset l temp ≡ some out)
      × (bytes_below b.chunks j +ℤ pos (length out) ≡ bytes_below b.chunks (j + left))
      × (out ≡ parts_bytes left j b.chunks)
unfolding write_parts parts_bytes
write_parts-length zero j offset l b temp s h =
    let end : j + 0 ≡ j = omega arith in
    ([], refl, rw end (add_zero (bytes_below b.chunks j)), refl)
write_parts-length (suc left) j offset l b temp s h =
    let r = copy_part (b.chunks j) temp in
    let nonneg = part-nonneg b j temp s.counted (omega arith) in
    let ok = nonneg_test r.1 nonneg in
    let (out, e, sum, same) = write_parts-length left (j + 1) offset l b r.0 s (omega arith) in
    let part = slice r.0 0 (pos_part r.1) in
    let size : length (part ++ out) ≡ pos_part r.1 + length out =
      length-append part out ∙ ap (λ n. n + length out) (length-slice r.0 0 (pos_part r.1)) in
    let end : j + 1 + left ≡ j + suc left = omega arith in
    (
      part ++ out,
      rw (s.copies temp j, ok, e),
      add_part (bytes_below b.chunks j) r.1 (length (part ++ out)) (length out) nonneg size
          ∙ rw (bytes_below-next b j temp, end) at sum,
      ap₂ (λ (x : List ℕ) (y : List ℕ). x ++ y) (copied_part (b.chunks j) temp) same,
    )

-- A full chunk is written with the bytes of its newest buffer, those of a whole chunk.
whole_chunk :
    (offset : ℤ) (l : List Buffer)
    → AllCounted l
    → is_buffer_full offset l ≡ pos 1
    → (out : List ℕ) × (write_parts 512 0 offset l (bytes_of []) ≡ some out)
      × (length out ≡ 512 * 1024)
      × (out ≡ chunk_bytes offset l)
whole_chunk offset l v full =
    let has : has_buffer offset l ≡ true = ground (arith, is_buffer_full_lem offset l) in
    let all : all_complete offset l ≡ true = ground (arith, is_buffer_full_lem offset l) in
    let (b, s) = find-IsSource offset l v has all in
    let (out, e, sum, same) = write_parts-length 512 0 offset l b (bytes_of []) s (omega arith) in
    let none_below : bytes_below b.chunks 0 ≡ pos 0 = unfold bytes_below in refl in
    (
      out,
      e,
      whole_length b (length out) (rw none_below at sum ∙ s.counted.counted) s.complete,
      same ∙ sym s.newest,
    )
  where
    whole_length :
        (b : Buffer) (n : ℕ)
        → pos 0 +ℤ pos n ≡ b.total_recv
        → (b.total_recv ==ℤ pos (512 * 1024)) ≡ true
        → n ≡ 512 * 1024
    whole_length b n e c = ground (arith, c, +ℤ_parts (pos 0) (pos n))

write_chunks-length :
    (left i : ℕ) (offsets : ℕ → ℤ) (l : List Buffer)
    → AllCounted l
    → all_full left i offsets l ≡ true
    → (out : List ℕ) × (write_chunks left i offsets l ≡ some out)
      × (length out ≡ left * (512 * 1024))
      × (out ≡ file_bytes left i offsets l)
unfolding write_chunks
write_chunks-length zero i offsets l v h = ([], refl, refl, refl)
write_chunks-length (suc left) i offsets l v h = elim (full-cases (offsets i) l) [
  | inl full ↦
      let (part, e, n, same) = whole_chunk (offsets i) l v full in
      let (out, e', n', same') = write_chunks-length left (i + 1) offsets l v (rw full at h) in
      (
        part ++ out,
        rw (e, e'),
        length-append part out ∙ omega (arith, n, n'),
        ap₂ (λ (x : List ℕ) (y : List ℕ). x ++ y) same same',
      )
  | inr part ↦ absurd (ground (arith, h, part))
]

-- `check_file_manager` for a file that is being fetched, with buffers whose counts are right. If
-- every chunk is full it returns 1, closes the manager, and writes a file of the bytes of that many
-- whole chunks: for each chunk, in their order, those of its parts in its newest buffer. Else it
-- returns -1, and leaves the manager and the file alone. The buffers stay as they are, but that some
-- of full chunks may be released.
pub check_file_manager_lem :
    (m : FileManager) (offsets : Array ℤ) (l : List Buffer)
    → m.init ≢ 0
    → m.offset ≡ some offsets
    → m.chunk_count ≤ offsets.size
    → AllCounted l
    → (l' : List Buffer) × (file : List ℕ) × (check_file_manager m l ≡ (
        if all_full m.chunk_count 0 offsets.at l
        then some (
          pos 1,
          record m { init = 0; offset = none; timer = none; already_used = none },
          l',
          some file,
        )
        else some (minus_one, m, l', none)))
      × (all_full m.chunk_count 0 offsets.at l ≡ true
          → (file ≡ file_bytes m.chunk_count 0 offsets.at l)
            × (length file ≡ m.chunk_count * (512 * 1024)))
      × AllKept (IsFull l) l l'
unfolding check_file_manager finish_file
check_file_manager_lem m offsets l going e room v =
    let (l', r, v', same, bytes, kept) = release_full_lem m.chunk_count 0 offsets.at l v in
    let fits : leb m.chunk_count offsets.size ≡ true = ground arith in
    let run : (m.init == 0) ≡ false = ground arith in
    elim (Bool-cases (all_full m.chunk_count 0 offsets.at l)) [
      | inl full ↦
          let (file, w, n, written) =
            write_chunks-length m.chunk_count 0 offsets.at l' v'
              (all_full-same m.chunk_count 0 offsets.at l l' same ∙ full) in
          (
            l',
            file,
            rw (run, e, fits, r, full, w),
            λ _. (written ∙ file_bytes-same m.chunk_count 0 offsets.at l l' bytes, n),
            kept,
          )
      | inr part ↦ (l', [], rw (run, e, fits, r, part), λ full. cc, kept)
    ]
