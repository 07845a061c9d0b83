-- ===== src/Input/Runs.antt =====
-- Many calls of `process_user_input`: how the input is cut into reads makes no difference.
use mathlib.Core.List.{append_assoc, append-nil}
use p2p_cc.Base.{
  ℕ, ◌+◌, ◌*◌, ◌≤◌, ◌≡◌, refl, sym, Bool-cases, inl, inr, false, Option, some, List, [], ◌∷◌, ◌++◌,
  ◌==◌, ◌>>=◌, arith, length,
}
use p2p_cc.Input.{UserIobuf, userbuf_size, newline, create_userbuf, process_user_input}
use p2p_cc.Input.Lines.{AllNonzero, put_first, split_lines}
use p2p_cc.Input.Loop.{IsHeld, IsClean, process_user_input_lem}

-- The lines that are handled for a sequence of reads, up to an exit.
unfoldable pub process_all : List (List ℕ) → UserIobuf → Option (List (List ℕ) × UserIobuf)
process_all [] u = some ([], u)
process_all (input ∷ rest) u = do
  p ← process_user_input input u
  (lines, u') ← process_all rest p.userbuf
  some (p.lines ++ lines, u')

abbrev pub joined : List (List ℕ) → List ℕ
joined [] = []
joined (input ∷ rest) = input ++ joined rest

-- No read has a zero byte, and each leaves the buffer at most half full.
abbrev pub AllFit : List ℕ → List (List ℕ) → Type 0
AllFit text [] = Unit {0}
AllFit text (input ∷ rest) =
    AllNonzero input
    × (2 * (length text + length input) ≤ userbuf_size)
    × AllFit (split_lines (text ++ input)).1 rest

put_first-append :
    (c : ℕ) (p : List (List ℕ) × List ℕ) (tail : List ℕ)
    → (c == newline) ≡ false
    → let rest = split_lines (p.1 ++ tail) in
      let q = put_first c p in
      put_first c (p.0 ++ rest.0, rest.1)
      ≡ (q.0 ++ (split_lines (q.1 ++ tail)).0, (split_lines (q.1 ++ tail)).1)
put_first-append c ([], rest) tail other = rw other
put_first-append c (line ∷ lines, rest) tail other = refl

split_lines-append :
    (text tail : List ℕ)
    → let (lines, rest) = split_lines text in
      split_lines (text ++ tail)
      ≡ (lines ++ (split_lines (rest ++ tail)).0, (split_lines (rest ++ tail)).1)
split_lines-append [] tail = refl
split_lines-append (c ∷ text) tail = elim (Bool-cases (c == newline)) [
  | inl here ↦ rw (here, split_lines-append text tail)
  | inr other ↦
      rw (other, split_lines-append text tail) (put_first-append c (split_lines text) tail other)
]

put_first-rest :
    (c : ℕ) (p : List (List ℕ) × List ℕ)
    → (c == newline) ≡ false
    → split_lines p.1 ≡ ([], p.1)
    → split_lines (put_first c p).1 ≡ ([], (put_first c p).1)
put_first-rest c ([], rest) other e = rw (other, e)
put_first-rest c (line ∷ lines, rest) other e = e

-- What is left over has no line.
split_lines-rest : (text : List ℕ) → split_lines (split_lines text).1 ≡ ([], (split_lines text).1)
split_lines-rest [] = refl
split_lines-rest (c ∷ text) = elim (Bool-cases (c == newline)) [
  | inl here ↦ rw here (split_lines-rest text)
  | inr other ↦ rw other (put_first-rest c (split_lines text) other (split_lines-rest text))
]

process_all-from :
    (inputs : List (List ℕ)) (text : List ℕ) (u : UserIobuf)
    → IsHeld text u
    → IsClean u
    → AllFit text inputs
    → split_lines text ≡ ([], text)
    → (u' : UserIobuf) × (process_all inputs u ≡ some ((split_lines (text ++ joined inputs)).0, u'))
      × IsHeld (split_lines (text ++ joined inputs)).1 u'
unfolding process_all
process_all-from [] text u v clean fit one =
    (u, rw (append-nil text, one), rw (append-nil text, one) v)
process_all-from (input ∷ rest) text u v clean (nonzero, half, fit) one =
    let (u1, e, held, clean') =
      process_user_input_lem text input u v clean nonzero (omega arith) (omega arith) in
    let kept = (split_lines (text ++ input)).1 in
    let (u2, e', held') =
      process_all-from rest kept u1 held (clean' half) fit (split_lines-rest (text ++ input)) in
    let whole = split_lines-append (text ++ input) (joined rest) in
    let same = append_assoc text input (joined rest) in
    (u2, rw (e, e', sym same, whole), rw (sym same, whole) held')

-- Reads from an empty buffer on, each without zero bytes and leaving the buffer at most half full:
-- the lines that are handed over are those of all the input in one piece, in order, and the buffer
-- holds what is behind the last newline.
pub process_all_lem :
    (inputs : List (List ℕ))
    → AllFit [] inputs
    → (u : UserIobuf) × (process_all inputs create_userbuf
        ≡ some ((split_lines (joined inputs)).0, u))
      × IsHeld (split_lines (joined inputs)).1 u
unfolding create_userbuf
process_all_lem inputs fit =
    process_all-from inputs [] create_userbuf
      (record {
        holds = record { fits = omega arith; nonzero = tt; bytes = λ i h. refl };
        cur_at = refl;
      })
      (λ i h q. refl) fit refl
