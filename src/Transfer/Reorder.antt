-- ===== src/Transfer/Reorder.antt =====
-- A receive buffer (flow_control.c) on a network that loses, repeats and reorders the packets of a
-- chunk: it is a set of indices, with the chunk's bytes.
use p2p_cc.Base.{
  ℕ, zero, suc, ◌+◌, ◌*◌, ◌≤◌, ◌<◌, ◌≡◌, refl, ap, sym, ◌∙◌, ◌↔◌, Bool, true, false, ◌||◌,
  Bool-cases, inl, inr, some, List, [], ◌∷◌, ◌==◌, ==_iff, if◌then◌else◌, arith, Bytes,
}
use p2p_cc.Base.Int.{ℤ, pos, ◌+ℤ◌, ◌-ℤ◌, ==ℤ_self}
use p2p_cc.Sender.{chunk_packet_number}
use p2p_cc.Receiver.{Buffer, chunk_size, new_buffer, full_from, is_buffer_full}
use p2p_cc.Receiver.Store.{bytes_below}
use p2p_cc.Receiver.Keeps.{new_buffer-IsRight}
use p2p_cc.Transfer.Arrivals.{deliver, has, AllBelow, HoldsSet, deliver-HoldsSet}

-- How many indices below k are in a set.
count_below : ℕ → (ℕ → Bool) → ℕ
count_below zero come = 0
count_below (suc k) come = if come k then count_below k come + 1 else count_below k come

count_below-le : (k : ℕ) (come : ℕ → Bool) → count_below k come ≤ k
unfolding count_below
count_below-le zero come = omega arith
count_below-le (suc k) come = ground (arith, count_below-le k come)

-- All are, if that is k.
count_below-all :
    (k : ℕ) (come : ℕ → Bool) → count_below k come ≡ k → (j : ℕ) → j < k → come j ≡ true
unfolding count_below
count_below-all zero come e j h = absurd (omega arith)
count_below-all (suc k) come e j h = elim (Bool-cases (come k)) [
  | inl here ↦ elim (Bool-cases (j == k)) [
    | inl last ↦ rw ((==_iff j k).0 last) here
    | inr before ↦ count_below-all k come (less e here) j (ground arith)
  ]
  | inr missing ↦ absurd (more e missing)
]
  where
    less : count_below (suc k) come ≡ suc k → come k ≡ true → count_below k come ≡ k
    less e here = ground arith

    more : count_below (suc k) come ≡ suc k → come k ≡ false → ⊥
    more e missing = ground (arith, count_below-le k come)

count_below-full :
    (k : ℕ) (come : ℕ → Bool) → ((j : ℕ) → j < k → come j ≡ true) → count_below k come ≡ k
unfolding count_below
count_below-full zero come h = refl
count_below-full (suc k) come h =
    rw (h k (omega arith), count_below-full k come (λ j q. h j (omega arith))) (omega arith)

add_part : (n : ℕ) → pos (1024 * n) +ℤ pos 1024 ≡ pos (1024 * (n + 1))
unfolding ◌+ℤ◌
add_part n = ground arith

add_none : (n : ℕ) → pos n +ℤ pos 0 ≡ pos n
unfolding ◌+ℤ◌
add_none n = ground arith

HoldsSet-bytes :
    (content : Bytes) (come : ℕ → Bool) (b : Buffer) (k : ℕ)
    → HoldsSet content come b
    → k ≤ chunk_packet_number
    → bytes_below b.chunks k ≡ pos (1024 * count_below k come)
unfolding bytes_below count_below
HoldsSet-bytes content come b zero v h = refl
HoldsSet-bytes content come b (suc k) v h =
    let before = HoldsSet-bytes content come b k v (omega arith) in
    elim (Bool-cases (come k)) [
      | inl here ↦
          let part = v.parts k (omega arith) here in
          rw (here, part.recved, part.length, before) (add_part (count_below k come))
      | inr missing ↦
          let empty = v.exactly k (omega arith) ∙ missing in
          rw (missing, empty, before) (add_none (1024 * count_below k come))
    ]

-- A buffer alone in the list with this many bytes.
full_iff :
    (b : Buffer) (n : ℕ)
    → b.total_recv ≡ pos n
    → (is_buffer_full b.offset (b ∷ []) ≡ pos 1) ↔ (n ≡ chunk_size)
unfolding is_buffer_full full_from ◌-ℤ◌
full_iff b n e = rw (==ℤ_self b.offset, e) (ground arith)

-- The chunk is full if all of its parts are there.
full_set :
    (content : Bytes) (come : ℕ → Bool) (b : Buffer) (offset : ℤ)
    → HoldsSet content come b
    → b.offset ≡ offset
    → (is_buffer_full offset (b ∷ []) ≡ pos 1) ↔ ((j : ℕ) → j < chunk_packet_number → come j ≡ true)
full_set content come b offset v at =
    let count = count_below chunk_packet_number come in
    let total : b.total_recv ≡ pos (1024 * count) =
      sym v.right.1 ∙ HoldsSet-bytes content come b chunk_packet_number v (omega arith) in
    let iff = full_iff b (1024 * count) total in
    let here = ap (λ o. is_buffer_full o (b ∷ [])) at in
    (
      λ full. count_below-all chunk_packet_number come (whole count (iff.0 (here ∙ full))),
      λ all. sym here ∙ iff.1 (ap (λ n. 1024 * n) (count_below-full chunk_packet_number come all)),
    )
  where
    whole : (n : ℕ) → 1024 * n ≡ chunk_size → n ≡ chunk_packet_number
    whole n e = omega arith

or_false : (b : Bool) → (b || false) ≡ b
or_false true = refl
or_false false = refl

-- The packets of a chunk come to its new buffer, alone in the list, in any order, some of them not at
-- all and others many times. The buffer then holds exactly the parts that have come, each with its
-- bytes of the chunk, and it is full if and only if all of them have.
pub deliver_lem :
    (beyond : ℕ → Bool) (content : Bytes) (garbage : ℕ → Bytes) (socket offset : ℤ) (ns : List ℕ)
    → AllBelow chunk_packet_number ns
    → (after : Buffer) × (deliver beyond content socket ns (new_buffer garbage offset socket ∷ [])
        ≡ some (after ∷ []))
      × HoldsSet content (λ j. has j ns) after
      × ((is_buffer_full offset (after ∷ []) ≡ pos 1)
          ↔ ((j : ℕ) → j < chunk_packet_number → has j ns ≡ true))
unfolding new_buffer
deliver_lem beyond content garbage socket offset ns below =
    let start : HoldsSet content (λ j. false) (new_buffer garbage offset socket) = record {
      exactly = λ j h. refl;
      parts = λ j h c. cc;
      right = new_buffer-IsRight garbage offset socket;
    } in
    let (after, e, v, at) =
      deliver-HoldsSet beyond content socket offset ns (λ j. false)
        (new_buffer garbage offset socket) start below refl refl in
    let same = λ (j : ℕ). or_false (has j ns) in
    let w : HoldsSet content (λ j. has j ns) after = record {
      exactly = λ j h. v.exactly j h ∙ same j;
      parts = λ j h c. v.parts j h (same j ∙ c);
      right = v.right;
    } in
    (after, e, w, full_set content (λ j. has j ns) after offset w at)
