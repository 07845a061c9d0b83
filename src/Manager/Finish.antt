-- ===== src/Manager/Finish.antt =====
-- Which chunks are full, and what `check_file_manager` releases.
use p2p_cc.Base.{
  ℕ, zero, suc, ◌+◌, ◌<◌, ◌≡◌, refl, sym, ◌∙◌, Bool, true, ◌&&◌, ◌⊎◌, inl, inr, List, [], ◌∷◌,
  arith, Bool-cases,
}
use p2p_cc.Base.Int.{ℤ, pos, minus_one, ◌==ℤ◌, ◌≤ℤ◌}
use p2p_cc.Sender.{chunk_packet_number}
use p2p_cc.Receiver.{Buffer, full_from, is_buffer_full, release_buffer}
use p2p_cc.Receiver.Store.{bytes_below}
use p2p_cc.Receiver.Full.{is_buffer_full_lem}
use p2p_cc.Manager.{release_full}
use p2p_cc.Manager.Bytes.{
  chunk_bytes, chunk_bytes-release, AllKept, AllKept-same, AllKept-trans, AllKept-release,
}

-- A buffer whose count of bytes is right, with no part of a negative length.
pub record IsCounted (b : Buffer) : Type 0 where
  pub counted : bytes_below b.chunks chunk_packet_number ≡ b.total_recv
  pub lengths :
      (j : ℕ) → j < chunk_packet_number → (b.chunks j).recved ≡ true → pos 0 ≤ℤ (b.chunks j).length

abbrev pub AllCounted : List Buffer → Type 0
AllCounted [] = Unit {0}
AllCounted (b ∷ l) = IsCounted b × AllCounted l

-- Whether chunks i, ..., i + left - 1 are full.
abbrev pub all_full : ℕ → ℕ → (ℕ → ℤ) → List Buffer → Bool
all_full zero i offsets l = true
all_full (suc left) i offsets l =
    (is_buffer_full (offsets i) l ==ℤ pos 1) && all_full left (i + 1) offsets l

-- The return value is 1 or -1.
pub full-cases :
    (offset : ℤ) (l : List Buffer)
    → (is_buffer_full offset l ≡ pos 1) ⊎ (is_buffer_full offset l ≡ minus_one)
full-cases offset l = ground (arith, is_buffer_full_lem offset l)

full_from-release :
    (find offset o : ℤ) (l : List Buffer)
    → full_from find offset (release_buffer o l) ≡ full_from find offset l
unfolding full_from release_buffer
full_from-release find offset o [] = refl
full_from-release find offset o (b ∷ l) =
    ground (arith, full_from-release find offset o l, full_from-release (pos 1) offset o l)

pub is_buffer_full-release :
    (offset o : ℤ) (l : List Buffer)
    → is_buffer_full offset (release_buffer o l) ≡ is_buffer_full offset l
unfolding is_buffer_full
is_buffer_full-release offset o l = full_from-release minus_one offset o l

AllCounted-release : (o : ℤ) (l : List Buffer) → AllCounted l → AllCounted (release_buffer o l)
unfolding release_buffer
AllCounted-release o [] v = tt
AllCounted-release o (b ∷ l) v = elim (Bool-cases (o ==ℤ b.offset)) [
  | inl here ↦
      rw here (record { counted = v.0.counted; lengths = v.0.lengths }, AllCounted-release o l v.1)
  | inr other ↦ rw other (v.0, AllCounted-release o l v.1)
]

pub all_full-same :
    (left i : ℕ) (offsets : ℕ → ℤ) (l l' : List Buffer)
    → ((offset : ℤ) → is_buffer_full offset l' ≡ is_buffer_full offset l)
    → all_full left i offsets l' ≡ all_full left i offsets l
all_full-same zero i offsets l l' h = refl
all_full-same (suc left) i offsets l l' h =
    rw (h (offsets i), all_full-same left (i + 1) offsets l l' h)

-- The chunk counts as full.
abbrev pub IsFull : List Buffer → ℤ → Type 0
IsFull l offset = is_buffer_full offset l ≡ pos 1

-- The loop that releases: it runs to its end exactly if all chunks are full, releases buffers of full
-- chunks only, and changes neither which chunks are full nor what the buffers hold.
pub release_full_lem :
    (left i : ℕ) (offsets : ℕ → ℤ) (l : List Buffer)
    → AllCounted l
    → (l' : List Buffer) × (release_full left i offsets l ≡ (l', all_full left i offsets l))
      × AllCounted l'
      × ((offset : ℤ) → is_buffer_full offset l' ≡ is_buffer_full offset l)
      × ((offset : ℤ) → chunk_bytes offset l' ≡ chunk_bytes offset l)
      × AllKept (IsFull l) l l'
unfolding release_full
release_full_lem zero i offsets l v = (l, refl, v, λ _. refl, λ _. refl, AllKept-same (IsFull l) l)
release_full_lem (suc left) i offsets l v = elim (full-cases (offsets i) l) [
  | inl full ↦
      let o = offsets i in
      let released = release_buffer o l in
      let (l', e, v', same, bytes, kept_all) =
        release_full_lem left (i + 1) offsets released (AllCounted-release o l v) in
      let kept =
        all_full-same left (i + 1) offsets l released
          (λ offset. is_buffer_full-release offset o l) in
      (
        l',
        rw (full, e, kept),
        v',
        λ offset. same offset ∙ is_buffer_full-release offset o l,
        λ offset. bytes offset ∙ chunk_bytes-release offset o l,
        AllKept-trans (IsFull l) (IsFull released) l released l'
            (λ offset h. sym (is_buffer_full-release offset o l) ∙ h)
            (AllKept-release (IsFull l) o l full) kept_all,
      )
  | inr part ↦ (l, rw part, v, λ _. refl, λ _. refl, AllKept-same (IsFull l) l)
]
