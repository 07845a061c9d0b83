-- ===== src/Base/Memory.antt =====
-- C arrays as functions from the index. The functions that access one check its bounds.
use Prim.Native.Nat.{ℕ, zero, suc, ◌+◌, ◌-◌, ◌<◌}
use mathlib.Core.Path.{◌≡◌, refl, ap₂}
use mathlib.Core.Bool.{◌&&◌}
use mathlib.Core.List.{List, [], ◌∷◌, ◌++◌}
use native.Mathlib.Omega.{arith}
use mathlib.Core.Option.{Option, none, some}
use p2p_cc.Base.Tests.{ltb, leb, ◌==◌, if◌then◌else◌, ◌>>◌, require}

-- A block of bytes.
abbrev pub Bytes : Type 0
Bytes = ℕ → ℕ

-- a[i] = v
abbrev pub store {ℓ} : {A : Type ℓ} → (ℕ → A) → ℕ → A → ℕ → A
store a i v j = if j == i then v else a j

-- A block of `size` entries from malloc.
pub record Array {ℓ} (A : Type ℓ) : Type ℓ where
  pub size : ℕ
  pub at : ℕ → A

module _ {ℓ} {A : Type ℓ} where
  -- a[i], through a pointer that may be null or dangling.
  abbrev pub get_elem? : Option (Array A) → ℕ → Option A
  get_elem? none i = none
  get_elem? (some a) i = require (ltb i a.size) >> some (a.at i)

  -- a[i] = v
  abbrev pub set_elem? : Option (Array A) → ℕ → A → Option (Option (Array A))
  set_elem? none i v = none
  set_elem? (some a) i v =
      require (ltb i a.size) >> some (some (record { size = a.size; at = store (a.at) i v }))

  -- The entries 0, ..., n - 1, which a loop reads all. With n = 0 it reads nothing, and the pointer
  -- may be anything; `unread` is then what the loop does not see.
  abbrev pub get_all : A → ℕ → Option (Array A) → Option (ℕ → A)
  get_all unread zero none = some (λ i. unread)
  get_all unread (suc n) none = none
  get_all unread n (some a) = require (leb n a.size) >> some a.at

  -- The block with other entries.
  abbrev pub with_entries : Option (Array A) → (ℕ → A) → Option (Array A)
  with_entries none f = none
  with_entries (some a) f = some (record { size = a.size; at = f })

-- memcpy(dst + at, src, len)
abbrev pub copy_at : Bytes → ℕ → Bytes → ℕ → Bytes
copy_at dst at src len j = if leb at j && ltb j (at + len) then src (j - at) else dst j

module _ {ℓ} {A : Type ℓ} where
  abbrev pub length : List A → ℕ
  length [] = 0
  length (x ∷ xs) = suc (length xs)

  pub length-append : (xs ys : List A) → length (xs ++ ys) ≡ length xs + length ys
  length-append [] ys = omega arith
  length-append (x ∷ xs) ys = omega (arith, length-append xs ys)

-- The bytes of a list, and zeros behind them.
abbrev pub bytes_of : List ℕ → Bytes
bytes_of [] i = 0
bytes_of (x ∷ xs) zero = x
bytes_of (x ∷ xs) (suc i) = bytes_of xs i

-- The bytes a[from], ..., a[from + n - 1].
abbrev pub slice : Bytes → ℕ → ℕ → List ℕ
slice a from zero = []
slice a from (suc n) = a from ∷ slice a (from + 1) n

-- Two blocks with the same bytes at these places.
pub slice-same :
    (a a' : Bytes) (from from' n : ℕ)
    → ((i : ℕ) → i < n → a (from + i) ≡ a' (from' + i))
    → slice a from n ≡ slice a' from' n
slice-same a a' from from' zero h = refl
slice-same a a' from from' (suc n) h =
    let first : a from ≡ a' from' = first_of (h 0 (omega arith)) in
    ap₂ (λ (x : ℕ) (r : List ℕ). x ∷ r) first
      (slice-same a a' (from + 1) (from' + 1) n (λ i q. later i (h (i + 1) (omega arith))))
  where
    first_of : a (from + 0) ≡ a' (from' + 0) → a from ≡ a' from'
    first_of e =
        let l : from + 0 ≡ from = omega arith in
        let r : from' + 0 ≡ from' = omega arith in rw (l, r) at e

    later :
        (i : ℕ) → a (from + (i + 1)) ≡ a' (from' + (i + 1)) → a (from + 1 + i) ≡ a' (from' + 1 + i)
    later i e =
        let l : from + (i + 1) ≡ from + 1 + i = omega arith in
        let r : from' + (i + 1) ≡ from' + 1 + i = omega arith in rw (l, r) at e
