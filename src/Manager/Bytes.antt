-- ===== src/Manager/Bytes.antt =====
-- The bytes of a file as the receive buffers hold them, and what a release of buffers leaves alone.
use mathlib.Core.Path.{subst}
use p2p_cc.Base.{
  ℕ, zero, suc, ◌+◌, ◌≡◌, refl, ap, ◌∙◌, false, List, [], ◌∷◌, ◌++◌, slice, if◌then◌else◌, ◌⊎◌, inl,
  inr, Bool-cases,
}
use p2p_cc.Base.Int.{ℤ, pos_part, ◌==ℤ◌, ==ℤ_iff}
use p2p_cc.Receiver.{Buffer, DataChunk, release_buffer}

-- The bytes of a part that has been received.
abbrev pub part_bytes : DataChunk → List ℕ
part_bytes c = if c.recved then slice c.content 0 (pos_part c.length) else []

-- Those of the parts from j on, in their order.
unfoldable pub parts_bytes : ℕ → ℕ → (ℕ → DataChunk) → List ℕ
parts_bytes zero j chunks = []
parts_bytes (suc left) j chunks = part_bytes (chunks j) ++ parts_bytes left (j + 1) chunks

-- Those of a chunk's 512 parts in its newest buffer.
abbrev pub chunk_bytes : ℤ → List Buffer → List ℕ
chunk_bytes offset [] = []
chunk_bytes offset (b ∷ l) =
    let rest = chunk_bytes offset l in
    if offset ==ℤ b.offset then parts_bytes 512 0 b.chunks else rest

-- Those of the chunks i, ..., i + left - 1 of a file.
abbrev pub file_bytes : ℕ → ℕ → (ℕ → ℤ) → List Buffer → List ℕ
file_bytes zero i offsets l = []
file_bytes (suc left) i offsets l = chunk_bytes (offsets i) l ++ file_bytes left (i + 1) offsets l

pub chunk_bytes-release :
    (offset o : ℤ) (l : List Buffer)
    → chunk_bytes offset (release_buffer o l) ≡ chunk_bytes offset l
unfolding release_buffer
chunk_bytes-release offset o [] = refl
chunk_bytes-release offset o (b ∷ l) =
    let rest = chunk_bytes-release offset o l in
    elim (Bool-cases (o ==ℤ b.offset)) [ inl here ↦ rw (here, rest) | inr other ↦ rw (other, rest) ]

pub file_bytes-same :
    (left i : ℕ) (offsets : ℕ → ℤ) (l l' : List Buffer)
    → ((offset : ℤ) → chunk_bytes offset l' ≡ chunk_bytes offset l)
    → file_bytes left i offsets l' ≡ file_bytes left i offsets l
file_bytes-same zero i offsets l l' h = refl
file_bytes-same (suc left) i offsets l l' h =
    rw (h (offsets i), file_bytes-same left (i + 1) offsets l l' h)

-- The buffers are all there, as they were; those of some chunks may be released.
abbrev pub AllKept : (ℤ → Type 0) → List Buffer → List Buffer → Type 0
AllKept Full [] [] = Unit {0}
AllKept Full [] (b' ∷ l') = ⊥
AllKept Full (b ∷ l) [] = ⊥
AllKept Full (b ∷ l) (b' ∷ l') =
    ((b' ≡ b) ⊎ ((b' ≡ record b { busy = false }) × Full b.offset)) × AllKept Full l l'

pub AllKept-same : (Full : ℤ → Type 0) (l : List Buffer) → AllKept Full l l
AllKept-same Full [] = tt
AllKept-same Full (b ∷ l) = (inl refl, AllKept-same Full l)

pub AllKept-trans :
    (Full Full' : ℤ → Type 0) (l m n : List Buffer)
    → ((o : ℤ) → Full' o → Full o)
    → AllKept Full l m
    → AllKept Full' m n
    → AllKept Full l n
AllKept-trans Full Full' [] [] [] f h k = tt
AllKept-trans Full Full' [] [] (z ∷ n) f h k = absurd k
AllKept-trans Full Full' [] (y ∷ m) n f h k = absurd h
AllKept-trans Full Full' (x ∷ l) [] n f h k = absurd h
AllKept-trans Full Full' (x ∷ l) (y ∷ m) [] f h k = absurd k
AllKept-trans Full Full' (x ∷ l) (y ∷ m) (z ∷ n) f (h, hs) (k, ks) =
    (step h k, AllKept-trans Full Full' l m n f hs ks)
  where
    step :
        (y ≡ x) ⊎ ((y ≡ record x { busy = false }) × Full x.offset)
        → (z ≡ y) ⊎ ((z ≡ record y { busy = false }) × Full' y.offset)
        → (z ≡ x) ⊎ ((z ≡ record x { busy = false }) × Full x.offset)
    step (inl e) (inl e') = inl (e' ∙ e)
    step (inr (e, p)) (inl e') = inr (e' ∙ e, p)
    step (inl e) (inr (e', q)) = inr (
      e' ∙ ap (λ (b : Buffer). record b { busy = false }) e,
      subst (λ (b : Buffer). Full b.offset) e (f y.offset q),
    )
    step (inr (e, p)) (inr (e', q)) = inr (e' ∙ ap (λ (b : Buffer). record b { busy = false }) e, p)

pub AllKept-release :
    (Full : ℤ → Type 0) (o : ℤ) (l : List Buffer) → Full o → AllKept Full l (release_buffer o l)
unfolding release_buffer
AllKept-release Full o [] p = tt
AllKept-release Full o (b ∷ l) p =
    let rest = AllKept-release Full o l p in
    elim (Bool-cases (o ==ℤ b.offset)) [
      | inl here ↦
          let same = (==ℤ_iff o b.offset).0 here in rw here (inr (refl, subst Full same p), rest)
      | inr other ↦ rw other (inl refl, rest)
    ]
