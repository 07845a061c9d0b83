-- ===== src/Transfer/Written.antt =====
-- The output file (`check_file_manager` of packet.c) of a buffer that has all parts of a chunk.
use mathlib.Core.List.{append-nil}
use mathlib.Core.Path.{subst}
use p2p_cc.Base.{
  ℕ, zero, suc, ◌+◌, ◌*◌, ◌≤◌, ◌<◌, ◌≡◌, ◌≢◌, refl, sym, ap, ◌∙◌, true, false, some, none, List, [],
  ◌∷◌, ◌++◌, ◌==◌, leb, arith, Bytes, bytes_of, copy_at, slice, slice-same, get_all,
}
use p2p_cc.Base.Int.{ℤ, pos, minus_one, ◌==ℤ◌, ◌-ℤ◌, ==ℤ_self, leb_ℤ}
use p2p_cc.Sender.{chunk_packet_number}
use p2p_cc.Receiver.{Buffer, chunk_size, full_from, is_buffer_full, release_buffer, copy_chunk_data}
use p2p_cc.Manager.{
  FileManager, release_full, write_parts, write_chunks, finish_file, check_file_manager,
}
use p2p_cc.Manager.Stored.{IsFetching}
use p2p_cc.Transfer.{copy_head}
use p2p_cc.Transfer.Parts.{HasParts}

slice-append :
    (a : Bytes) (from n m : ℕ) → slice a from n ++ slice a (from + n) m ≡ slice a from (n + m)
slice-append a from zero m =
    let same : from + 0 ≡ from = omega arith in
    let none_more : 0 + m ≡ m = omega arith in rw (same, none_more)
slice-append a from (suc n) m =
    let same : from + suc n ≡ from + 1 + n = omega arith in
    let count : suc n + m ≡ suc (n + m) = omega arith in
    rw (same, count) (ap (λ (r : List ℕ). a from ∷ r) (slice-append a (from + 1) n m))

-- The bytes that are copied for a part.
part_bytes :
    (content temp c : Bytes) (j : ℕ)
    → ((i : ℕ) → i < 1024 → c i ≡ content (j * 1024 + i))
    → slice (copy_at temp 0 c 1024) 0 1024 ≡ slice content (j * 1024) 1024
part_bytes content temp c j h =
    slice-same (copy_at temp 0 c 1024) content 0 (j * 1024) 1024
      (λ i q. let copied : copy_at temp 0 c 1024 (0 + i) ≡ c i = ground arith in copied ∙ h i q)

write_parts-next :
    (left j n : ℕ) (offset : ℤ) (l : List Buffer) (temp temp' : Bytes) (out : List ℕ)
    → copy_chunk_data temp offset j l ≡ (temp', pos n)
    → write_parts left (j + 1) offset l temp' ≡ some out
    → write_parts (suc left) j offset l temp ≡ some (slice temp' 0 n ++ out)
unfolding write_parts
write_parts-next left j n offset l temp temp' out e e' =
    let nonneg : leb_ℤ (pos 0) (pos n) ≡ true = ground arith in rw (e, nonneg, e')

joined :
    (content : Bytes) (j n m total : ℕ) (part : List ℕ)
    → part ≡ slice content (j * n) n
    → total ≡ n + m
    → part ++ slice content ((j + 1) * n) m ≡ slice content (j * n) total
joined content j n m total part e t =
    let next : (j + 1) * n ≡ j * n + n = omega arith in
    rw (next, e, t) (slice-append content (j * n) n m)

write_parts-bytes :
    (left j : ℕ) (content : Bytes) (k : ℕ) (b : Buffer) (temp : Bytes)
    → HasParts content k b
    → j + left ≤ k
    → write_parts left j b.offset (b ∷ []) temp ≡ some (slice content (j * 1024) (left * 1024))
unfolding write_parts
write_parts-bytes zero j content k b temp v h = refl
write_parts-bytes (suc left) j content k b temp v h =
    let part = v.got j (omega arith) in
    let copied = copy_at temp 0 (b.chunks j).content 1024 in
    write_parts-next left j 1024 b.offset (b ∷ []) temp copied _
      (copy_head temp b.offset j b [] refl part.recved part.length)
      (write_parts-bytes left (j + 1) content k b copied v (omega arith))
    ∙ ap some (
        joined content j 1024 (left * 1024) (suc left * 1024) _
          (part_bytes content temp (b.chunks j).content j part.bytes) (omega arith))

-- A buffer alone in the list, with its first k parts: whether its chunk is full.
full_alone :
    (content : Bytes) (k : ℕ) (b : Buffer)
    → HasParts content k b
    → k ≡ chunk_packet_number
    → is_buffer_full b.offset (b ∷ []) ≡ pos 1
unfolding is_buffer_full full_from ◌-ℤ◌
full_alone content k b v e = rw (==ℤ_self b.offset, v.total, e)

part_alone :
    (content : Bytes) (k : ℕ) (b : Buffer)
    → HasParts content k b
    → k < chunk_packet_number
    → is_buffer_full b.offset (b ∷ []) ≡ minus_one
unfolding is_buffer_full full_from ◌-ℤ◌
part_alone content k b v h =
    let other : ((pos chunk_size -ℤ pos (k * 1024)) ==ℤ pos 0) ≡ false = ground arith in
    rw (==ℤ_self b.offset, v.total, other)

-- The manager of a file of one chunk.
pub record IsSingle (offset : ℤ) (m : FileManager) : Type 0 where
  pub fetching : IsFetching m
  pub one_chunk : m.chunk_count ≡ 1
  pub at_offset : fetching.offsets.at 0 ≡ offset

-- The call with the array's entries, where the loop that releases ends early or late.
check-open :
    (m : FileManager) (offsets : ℕ → ℤ) (l l' : List Buffer)
    → m.init ≢ 0
    → get_all (pos 0) m.chunk_count m.offset ≡ some offsets
    → release_full m.chunk_count 0 offsets l ≡ (l', false)
    → check_file_manager m l ≡ some (minus_one, m, l', none)
unfolding check_file_manager
check-open m offsets l l' going e r =
    let run : (m.init == 0) ≡ false = ground arith in rw (run, e, r)

check-close :
    (m : FileManager) (offsets : ℕ → ℤ) (l l' : List Buffer) (out : List ℕ)
    → m.init ≢ 0
    → get_all (pos 0) m.chunk_count m.offset ≡ some offsets
    → release_full m.chunk_count 0 offsets l ≡ (l', true)
    → write_chunks m.chunk_count 0 offsets l' ≡ some out
    → check_file_manager m l
      ≡ some (
        pos 1,
        record m { init = 0; offset = none; timer = none; already_used = none },
        l',
        some out,
      )
unfolding check_file_manager finish_file
check-close m offsets l l' out going e r w =
    let run : (m.init == 0) ≡ false = ground arith in rw (run, e, r, w)

single_entry :
    (offset : ℤ) (m : FileManager) (s : IsSingle offset m)
    → get_all (pos 0) m.chunk_count m.offset ≡ some s.fetching.offsets.at
single_entry offset m s =
    let v = s.fetching in
    let room : leb 1 v.offsets.size ≡ true = ground (arith, v.offsets_room, s.one_chunk) in
    rw (s.one_chunk, v.has_offsets, room)

release-one :
    (offsets : ℕ → ℤ) (l : List Buffer) (n : ℕ)
    → n ≡ 1
    → is_buffer_full (offsets 0) l ≡ pos 1
    → release_full n 0 offsets l ≡ (release_buffer (offsets 0) l, true)
unfolding release_full
release-one offsets l n e h = rw (e, h)

release-none :
    (offsets : ℕ → ℤ) (l : List Buffer) (n : ℕ)
    → n ≡ 1
    → is_buffer_full (offsets 0) l ≡ minus_one
    → release_full n 0 offsets l ≡ (l, false)
unfolding release_full
release-none offsets l n e h = rw (e, h)

write-one :
    (offsets : ℕ → ℤ) (offset : ℤ) (l : List Buffer) (n : ℕ) (out : List ℕ)
    → n ≡ 1
    → offsets 0 ≡ offset
    → write_parts 512 0 offset l (bytes_of []) ≡ some out
    → write_chunks n 0 offsets l ≡ some out
unfolding write_chunks
write-one offsets offset l n out e at h =
    let h' : write_parts 512 0 (offsets 0) l (bytes_of []) ≡ some out =
      subst (λ (o : ℤ). write_parts 512 0 o l (bytes_of []) ≡ some out) (sym at) h in
    rw (e, h') (ap some (append-nil out))

pub check_file_manager-part :
    (content : Bytes) (k : ℕ) (b : Buffer) (m : FileManager)
    → HasParts content k b
    → k < chunk_packet_number
    → IsSingle b.offset m
    → check_file_manager m (b ∷ []) ≡ some (minus_one, m, b ∷ [], none)
check_file_manager-part content k b m v h s =
    check-open m s.fetching.offsets.at (b ∷ []) (b ∷ []) s.fetching.going
      (single_entry b.offset m s)
      (release-none s.fetching.offsets.at (b ∷ []) m.chunk_count s.one_chunk
        (rw s.at_offset (part_alone content k b v h)))

release-head : (b : Buffer) → release_buffer b.offset (b ∷ []) ≡ record b { busy = false } ∷ []
unfolding release_buffer
release-head b = rw (==ℤ_self b.offset)

pub check_file_manager-full :
    (content : Bytes) (b : Buffer) (m : FileManager)
    → HasParts content chunk_packet_number b
    → IsSingle b.offset m
    → check_file_manager m (b ∷ [])
      ≡ some (
        pos 1,
        record m { init = 0; offset = none; timer = none; already_used = none },
        record b { busy = false } ∷ [],
        some (slice content 0 chunk_size),
      )
check_file_manager-full content b m v s =
    let released : Buffer = record b { busy = false } in
    let v' : HasParts content chunk_packet_number released = record {
      got = v.got;
      missing = v.missing;
      total = v.total;
    } in
    check-close m s.fetching.offsets.at (b ∷ []) (released ∷ []) _ s.fetching.going
      (single_entry b.offset m s)
      (release-one s.fetching.offsets.at (b ∷ []) m.chunk_count s.one_chunk
          (rw s.at_offset (full_alone content chunk_packet_number b v refl))
        ∙ ap (λ (l : List Buffer). (l, true)) (rw s.at_offset (release-head b)))
      (write-one s.fetching.offsets.at b.offset (released ∷ []) m.chunk_count _ s.one_chunk
        s.at_offset
        (write_parts-bytes 512 0 content chunk_packet_number released (bytes_of []) v'
          (omega arith)))
