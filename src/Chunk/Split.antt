-- ===== src/Chunk/Split.antt =====
-- How a file is cut into chunks.
use p2p_cc.Base.{
  ℕ, zero, suc, ◌+◌, ◌-◌, ◌*◌, ◌/◌, ◌≤◌, ◌<◌, ◌≡◌, refl, true, min, List, [], ◌∷◌, arith, ltb,
  Bytes, ap, leb, Bool-cases, inl, inr,
}
use p2p_cc.Chunk.{bt_chunk_size, chunks_from, make_chunks}

module _ {ℓ} {H : Type ℓ} (shahash : Bytes → ℕ → H) where
  -- The hashes of n consecutive chunks from byte `at` on, the last of them cut off at the file's end
  -- `size`.
  abbrev pub hashes_of : Bytes → ℕ → ℕ → ℕ → List H
  hashes_of file size zero at = []
  hashes_of file size (suc n) at =
      shahash (λ i. file (at + i)) (min (size - at) bt_chunk_size)
      ∷ hashes_of file size n (at + bt_chunk_size)

  chunks_from-none : (fuel : ℕ) (file : Bytes) (at : ℕ) → chunks_from shahash fuel file at 0 ≡ []
  unfolding chunks_from
  chunks_from-none zero file at = refl
  chunks_from-none (suc fuel) file at = refl

  -- The loop reads n chunks, if that is the number of those begun.
  chunks_from_lem :
      (fuel n : ℕ) (file : Bytes) (at left : ℕ)
      → left ≤ fuel
      → left ≤ n * bt_chunk_size
      → n * bt_chunk_size < left + bt_chunk_size
      → chunks_from shahash fuel file at left ≡ hashes_of file (at + left) n at
  unfolding chunks_from
  chunks_from_lem fuel zero file at left f l h =
      let e : left ≡ 0 = omega arith in rw e (chunks_from-none fuel file at)
  chunks_from_lem zero (suc n) file at left f l h = absurd (omega arith)
  chunks_from_lem (suc fuel) (suc n) file at left f l h =
      elim (Bool-cases (leb bt_chunk_size left)) [
        | inl whole ↦
            let full : min left bt_chunk_size ≡ bt_chunk_size = ground arith in
            let all : at + left - at ≡ left = omega arith in
            let end : at + bt_chunk_size + (left - bt_chunk_size) ≡ at + left = ground arith in
            rw (full, all, full)
              (ap (λ r. shahash (λ i. file (at + i)) bt_chunk_size ∷ r)
                (rw end at (
                  chunks_from_lem fuel n file (at + bt_chunk_size) (left - bt_chunk_size)
                    (ground arith) (ground arith) (ground arith))))
        | inr part ↦
            let last : n ≡ 0 = ground arith in
            let rest : min left bt_chunk_size ≡ left = ground arith in
            let some_left : ltb 0 left ≡ true = ground arith in
            let all : at + left - at ≡ left = omega arith in
            let done : left - left ≡ 0 = omega arith in
            rw (last, rest, all, rest, some_left, done, chunks_from-none fuel file (at + left))
      ]

  -- `make_chunks` gives one hash for each chunk of 512 KB, a last part included: their number is
  -- the file's size divided by the chunk's and rounded up, and each is the hash of the bytes from
  -- its multiple of 512 KB on, cut off at the end of the file.
  pub make_chunks_lem :
      (file : Bytes) (size : ℕ)
      → make_chunks shahash file size
        ≡ hashes_of file size ((size + bt_chunk_size - 1) / bt_chunk_size) 0
  unfolding make_chunks
  make_chunks_lem file size =
      let n = (size + bt_chunk_size - 1) / bt_chunk_size in
      let whole : 0 + size ≡ size = omega arith in
      rw whole at (chunks_from_lem size n file 0 size (omega arith) (omega arith) (omega arith))
