-- ===== src/Receiver/Full.antt =====
-- When a chunk counts as full.
use p2p_cc.Base.{
  Bool-cases, inl, inr, ◌*◌, ◌≡◌, refl, Bool, true, false, ◌&&◌, ◌||◌, List, [], ◌∷◌, arith,
  if◌then◌else◌,
}
use p2p_cc.Base.Int.{ℤ, pos, ◌==ℤ◌, minus_one, -ℤ_parts}
use p2p_cc.Receiver.{Buffer, is_complete, full_from, is_buffer_full}

-- Whether there is a buffer for the chunk, and whether all such buffers have received 512 * 1024
-- bytes.
abbrev pub has_buffer : ℤ → List Buffer → Bool
has_buffer offset [] = false
has_buffer offset (b ∷ l) = (offset ==ℤ b.offset) || has_buffer offset l

abbrev pub all_complete : ℤ → List Buffer → Bool
all_complete offset [] = true
all_complete offset (b ∷ l) =
    (if offset ==ℤ b.offset then b.total_recv ==ℤ pos (512 * 1024) else true)
    && all_complete offset l

pub complete_lem : (b : Buffer) → is_complete b ≡ (b.total_recv ==ℤ pos (512 * 1024))
complete_lem b = ground (arith, -ℤ_parts (pos (512 * 1024)) b.total_recv)

full_from_lem :
    (find offset : ℤ) (l : List Buffer)
    → full_from find offset l
      ≡ (if all_complete offset l then (if has_buffer offset l then pos 1 else find) else minus_one)
unfolding full_from
full_from_lem find offset [] = refl
full_from_lem find offset (b ∷ l) = elim (Bool-cases (offset ==ℤ b.offset)) [
  | inl here ↦ rw (here, complete_lem b) (whole b.total_recv (full_from_lem (pos 1) offset l))
  | inr other ↦ rw other (full_from_lem find offset l)
]
  where
    whole :
        (n : ℤ)
        → full_from (pos 1) offset l ≡ (
            if all_complete offset l
            then (if has_buffer offset l then pos 1 else pos 1)
            else minus_one)
        → (if n ==ℤ pos (512 * 1024) then full_from (pos 1) offset l else minus_one)
          ≡ (if (n ==ℤ pos (512 * 1024)) && all_complete offset l then pos 1 else minus_one)
    whole n e = elim (Bool-cases (n ==ℤ pos (512 * 1024))) [
      | inl all ↦ rw all (ground (arith, e))
      | inr part ↦ rw part
    ]

-- `is_buffer_full` answers 1 exactly if the chunk has a buffer and every buffer of the list for
-- this chunk, released ones included, has received 512 * 1024 bytes; else it answers -1.
pub is_buffer_full_lem :
    (offset : ℤ) (l : List Buffer)
    → is_buffer_full offset l
      ≡ (if has_buffer offset l && all_complete offset l then pos 1 else minus_one)
unfolding is_buffer_full
is_buffer_full_lem offset l = ground (arith, full_from_lem minus_one offset l)
