-- ===== src/Hashes/Local.antt =====
-- The search for a hash among those that the peer has.
use p2p_cc.Base.{
  ℕ, zero, suc, ◌+◌, ◌*◌, ◌/◌, ◌≤◌, ◌<◌, ◌≡◌, ◌≢◌, refl, ◌↔◌, true, some, ltb, ◌==◌, ==_iff, Bytes,
  arith, Bool-cases, inl, inr, ap,
}
use p2p_cc.Base.Int.{pos}
use p2p_cc.Hashes.{same_hash, strlen, search_local, find_in_local_has}

pub same_hash_iff :
    (left j : ℕ) (hash local : Bytes) (at : ℕ)
    → (same_hash left j hash local at ≡ true)
      ↔ ((k : ℕ) → j ≤ k → k < j + left → hash k ≡ local (at + k))
unfolding same_hash
same_hash_iff zero j hash local at = (λ _ k p q. absurd (omega arith), λ _. refl)
same_hash_iff (suc left) j hash local at = elim (Bool-cases (hash j == local (at + j))) [
  | inl same ↦ (
    λ e k p q. elim (Bool-cases (k == j)) [
      | inl first ↦ rw ((==_iff k j).0 first) ((==_iff (hash j) (local (at + j))).0 same)
      | inr later ↦
          (same_hash_iff left (j + 1) hash local at).0 (rw same at e) k (ground arith)
            (ground arith)
    ],
    λ h.
        rw same
          ((same_hash_iff left (j + 1) hash local at).1 (λ k p q. h k (omega arith) (omega arith))),
  )
  | inr other ↦ (
    λ e. absurd (ground (arith, e, other)),
    λ h.
        absurd
          (ground (arith, (==_iff (hash j) (local (at + j))).1 (h j (omega arith) (omega arith)))),
  )
]

strlen_lem :
    (left i z : ℕ) (s : Bytes)
    → i ≤ z
    → z < i + left
    → ((k : ℕ) → i ≤ k → k < z → s k ≢ 0)
    → s z ≡ 0
    → strlen left i s ≡ some z
unfolding strlen
strlen_lem zero i z s p q h e = absurd (omega arith)
strlen_lem (suc left) i z s p q h e = elim (Bool-cases (s i == 0)) [
  | inl end ↦ elim (Bool-cases (ltb i z)) [
    | inl before ↦ absurd (h i (omega arith) (ground arith) ((==_iff (s i) 0).0 end))
    | inr at ↦ let same : i ≡ z = ground arith in rw (end, same)
  ]
  | inr more ↦ rw more (
      strlen_lem left (i + 1) z s (ground (arith, e)) (omega arith) (λ k a b. h k (omega arith) b)
        e)
]

-- One of the hashes from i on is this one.
abbrev pub HasHash : ℕ → ℕ → Bytes → Bytes → Type 0
HasHash left i hash local =
    (k : ℕ) × (i ≤ k) × (k < i + left) × ((j : ℕ) → j < 20 → hash j ≡ local (k * 20 + j))

search_local_iff :
    (left i : ℕ) (hash local : Bytes)
    → (search_local left i hash local ≡ pos 1) ↔ HasHash left i hash local
unfolding search_local
search_local_iff zero i hash local = (λ e. cc, λ (k, p, q, _). absurd (omega arith))
search_local_iff (suc left) i hash local = elim (Bool-cases (same_hash 20 0 hash local (i * 20))) [
  | inl same ↦ (
    λ _. (
      i,
      omega arith,
      omega arith,
      λ j q. (same_hash_iff 20 0 hash local (i * 20)).0 same j (omega arith) (omega arith),
    ),
    λ _. rw same,
  )
  | inr other ↦ (
    λ e.
        let (k, p, q, h) = (search_local_iff left (i + 1) hash local).0 (rw other at e) in
        (k, omega arith, omega arith, h),
    λ (k, p, q, h). rw other (elim (Bool-cases (k == i)) [
      | inl first ↦
          let at : k ≡ i = (==_iff k i).0 first in
          absurd
            (cc (other, (same_hash_iff 20 0 hash local (i * 20)).1 (λ j _ r. rw at at (h j r))))
      | inr later ↦ (search_local_iff left (i + 1) hash local).1 (k, ground arith, omega arith, h)
    ]),
  )
]

-- In an array with a first zero byte, at byte z, `find_in_local_has` answers 1 exactly if the hash
-- is one of the z / 20 that lie whole before that byte.
pub find_in_local_has_iff :
    (capacity z : ℕ) (hash local : Bytes)
    → z < capacity
    → ((k : ℕ) → k < z → local k ≢ 0)
    → local z ≡ 0
    → (find_in_local_has capacity hash local ≡ some (pos 1)) ↔ HasHash (z / 20) 0 hash local
unfolding find_in_local_has
find_in_local_has_iff capacity z hash local h nonzero e =
    rw (strlen_lem capacity 0 z local (omega arith) (omega arith) (λ k _ q. nonzero k q) e) (
      λ r. (search_local_iff (z / 20) 0 hash local).0 (cc r),
      λ r. ap some ((search_local_iff (z / 20) 0 hash local).1 r),
    )
