-- ===== src/Input/Lines.antt =====
-- What the loop of `process_user_input` handles, against a reference that splits a list of bytes.
use p2p_cc.Base.{
  ℕ, zero, suc, ◌+◌, ◌≤◌, ◌<◌, ◌≡◌, ◌≢◌, refl, ap, ap₂, ◌⊎◌, inl, inr, Bool-cases, false, some,
  none, List, [], ◌∷◌, ◌++◌, ◌==◌, ==_iff, if◌then◌else◌, arith, Bytes, bytes_of, slice, length,
}
use p2p_cc.Input.{userbuf_size, newline, strchr_newline}

-- The lines of a text, and what is behind the last newline.
abbrev pub put_first : ℕ → List (List ℕ) × List ℕ → List (List ℕ) × List ℕ
put_first c ([], rest) = ([], c ∷ rest)
put_first c (line ∷ lines, rest) = ((c ∷ line) ∷ lines, rest)

abbrev pub split_lines : List ℕ → List (List ℕ) × List ℕ
split_lines [] = ([], [])
split_lines (c ∷ text) =
    let next = split_lines text in if c == newline then ([] ∷ next.0, next.1) else put_first c next

abbrev pub AllNonzero : List ℕ → Type 0
AllNonzero [] = Unit {0}
AllNonzero (c ∷ text) = (c ≢ 0) × AllNonzero text

abbrev pub NoNewline : List ℕ → Type 0
NoNewline [] = Unit {0}
NoNewline (c ∷ text) = (c ≢ newline) × NoNewline text

-- The block holds the text and a zero byte behind it.
pub record IsText (text : List ℕ) (buf : Bytes) : Type 0 where
  pub fits : length text ≤ userbuf_size
  pub nonzero : AllNonzero text
  pub bytes : (i : ℕ) → i ≤ length text → buf i ≡ bytes_of text i

-- A text without a newline, or one with a first line.
pub record Cut (text : List ℕ) : Type 0 where
  pub line : List ℕ
  pub rest : List ℕ
  pub parts : text ≡ line ++ newline ∷ rest
  pub one_line : NoNewline line

pub cut : (text : List ℕ) → NoNewline text ⊎ Cut text
cut [] = inl tt
cut (c ∷ text) = elim (Bool-cases (c == newline)) [
  | inl here ↦ inr (record {
    line = [];
    rest = text;
    parts = ap (λ x. x ∷ text) ((==_iff c newline).0 here);
    one_line = tt;
  })
  | inr other ↦
      let differs : c ≢ newline = ground arith in
      elim (cut text) [
        | inl all ↦ inl (differs, all)
        | inr k ↦ inr (record {
          line = c ∷ k.line;
          rest = k.rest;
          parts = ap (λ (t : List ℕ). c ∷ t) k.parts;
          one_line = (differs, k.one_line);
        })
      ]
]

pub split_lines-none : (text : List ℕ) → NoNewline text → split_lines text ≡ ([], text)
split_lines-none [] h = refl
split_lines-none (c ∷ text) h =
    let other : (c == newline) ≡ false = ground (arith, h.0) in
    rw (other, split_lines-none text h.1)

pub split_lines-line :
    (line rest : List ℕ)
    → NoNewline line
    → split_lines (line ++ newline ∷ rest) ≡ (line ∷ (split_lines rest).0, (split_lines rest).1)
split_lines-line [] rest h = refl
split_lines-line (c ∷ line) rest h =
    let other : (c == newline) ≡ false = ground (arith, h.0) in
    rw (other, split_lines-line line rest h.1)

bytes-shift :
    (buf : Bytes) (c i : ℕ) (text : List ℕ)
    → ((k : ℕ) → k ≤ length (c ∷ text) → buf (i + k) ≡ bytes_of (c ∷ text) k)
    → (k : ℕ) → k ≤ length text
    → buf (i + 1 + k) ≡ bytes_of text k
bytes-shift buf c i text h k q =
    let same : i + suc k ≡ i + 1 + k = omega arith in rw same at (h (suc k) (omega arith))

first_byte :
    (buf : Bytes) (c i : ℕ) (text : List ℕ)
    → ((k : ℕ) → k ≤ length (c ∷ text) → buf (i + k) ≡ bytes_of (c ∷ text) k)
    → buf i ≡ c
first_byte buf c i text h = let same : i + 0 ≡ i = omega arith in rw same at (h 0 (omega arith))

pub strchr-none :
    (left i : ℕ) (buf : Bytes) (text : List ℕ)
    → length text < left
    → NoNewline text
    → AllNonzero text
    → ((k : ℕ) → k ≤ length text → buf (i + k) ≡ bytes_of text k)
    → strchr_newline left i buf ≡ some none
unfolding strchr_newline
strchr-none zero i buf text h one v b = absurd (omega arith)
strchr-none (suc left) i buf [] h one v b =
    let same : i + 0 ≡ i = omega arith in
    let ends : buf i ≡ 0 = rw same at (b 0 (omega arith)) in rw ends
strchr-none (suc left) i buf (c ∷ text) h one v b =
    let here = first_byte buf c i text b in
    let other : (c == newline) ≡ false = ground (arith, one.0) in
    let nonzero : (c == 0) ≡ false = ground (arith, v.0) in
    rw (here, other, nonzero)
      (strchr-none left (i + 1) buf text (omega arith) one.1 v.1 (bytes-shift buf c i text b))

pub strchr-found :
    (left i : ℕ) (buf : Bytes) (line rest : List ℕ)
    → length (line ++ newline ∷ rest) < left
    → NoNewline line
    → AllNonzero (line ++ newline ∷ rest)
    → ((k : ℕ)
        → k ≤ length (line ++ newline ∷ rest)
        → buf (i + k) ≡ bytes_of (line ++ newline ∷ rest) k)
    → strchr_newline left i buf ≡ some (some (i + length line))
unfolding strchr_newline
strchr-found zero i buf line rest h one v b = absurd (omega arith)
strchr-found (suc left) i buf [] rest h one v b =
    let here = first_byte buf newline i rest b in
    let same : i + 0 ≡ i = omega arith in rw (here, same)
strchr-found (suc left) i buf (c ∷ line) rest h one v b =
    let here = first_byte buf c i (line ++ newline ∷ rest) b in
    let other : (c == newline) ≡ false = ground (arith, one.0) in
    let nonzero : (c == 0) ≡ false = ground (arith, v.0) in
    let same : i + suc (length line) ≡ i + 1 + length line = omega arith in
    rw (here, other, nonzero, same)
      (strchr-found left (i + 1) buf line rest (omega arith) one.1 v.1
        (bytes-shift buf c i (line ++ newline ∷ rest) b))

pub bytes_of-behind :
    (line rest : List ℕ) (c k : ℕ)
    → bytes_of (line ++ c ∷ rest) (length line + 1 + k) ≡ bytes_of rest k
bytes_of-behind [] rest c k = let same : 0 + 1 + k ≡ suc k = omega arith in rw same
bytes_of-behind (x ∷ line) rest c k =
    let same : suc (length line) + 1 + k ≡ suc (length line + 1 + k) = omega arith in
    rw same (bytes_of-behind line rest c k)

pub slice-line :
    (a : Bytes) (from : ℕ) (line tail : List ℕ)
    → ((k : ℕ) → k < length line → a (from + k) ≡ bytes_of (line ++ tail) k)
    → slice a from (length line) ≡ line
slice-line a from [] tail h = refl
slice-line a from (c ∷ line) tail h =
    let same : from + 0 ≡ from = omega arith in
    let first : a from ≡ c = rw same at (h 0 (omega arith)) in
    ap₂ (λ (x : ℕ) (r : List ℕ). x ∷ r) first
      (slice-line a (from + 1) line tail (λ k q. next k (h (suc k) (omega arith))))
  where
    next :
        (k : ℕ)
        → a (from + suc k) ≡ bytes_of (line ++ tail) k
        → a (from + 1 + k) ≡ bytes_of (line ++ tail) k
    next k e = let same : from + suc k ≡ from + 1 + k = omega arith in rw same at e

pub nonzero-behind : (line rest : List ℕ) (c : ℕ) → AllNonzero (line ++ c ∷ rest) → AllNonzero rest
nonzero-behind [] rest c v = v.1
nonzero-behind (x ∷ line) rest c v = nonzero-behind line rest c v.1
