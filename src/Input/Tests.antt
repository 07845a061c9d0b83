-- ===== src/Input/Tests.antt =====
-- The input buffer at concrete inputs.
use p2p_cc.Base.{ℕ, ◌+◌, ◌*◌, ◌≤◌, ◌≡◌, refl, false, some, List, [], ◌∷◌, arith, length}
use p2p_cc.Input.{UserIobuf, userbuf_size, create_userbuf, process_user_input}
use p2p_cc.Input.Loop.{IsHeld, IsClean, process_user_input_lem}
use p2p_cc.Input.Runs.{process_all, process_all_lem}

-- "ab", newline, "c"
abbrev input : List ℕ
input = 97 ∷ 98 ∷ 10 ∷ 99 ∷ []

empty-IsHeld : IsHeld [] create_userbuf
unfolding create_userbuf
empty-IsHeld = record {
  holds = record { fits = omega arith; nonzero = tt; bytes = λ i h. refl };
  cur_at = refl;
}

empty-IsClean : IsClean create_userbuf
unfolding create_userbuf
empty-IsClean i h q = refl

process_user_input_lem_example :
    (u' : UserIobuf) × (process_user_input input create_userbuf
      ≡ some (record { exited = false; lines = (97 ∷ 98 ∷ []) ∷ []; userbuf = u' }))
    × IsHeld (99 ∷ []) u'
    × (2 * (length {A = ℕ} [] + length input) ≤ userbuf_size → IsClean u')
process_user_input_lem_example =
    process_user_input_lem [] input create_userbuf empty-IsHeld empty-IsClean
      (omega arith, (omega arith, (omega arith, (omega arith, tt)))) (omega arith) (omega arith)

process_all_lem_example :
    (u : UserIobuf) × (process_all (input ∷ (100 ∷ 10 ∷ []) ∷ []) create_userbuf
      ≡ some ((97 ∷ 98 ∷ []) ∷ (99 ∷ 100 ∷ []) ∷ [], u))
    × IsHeld [] u
process_all_lem_example = process_all_lem (input ∷ (100 ∷ 10 ∷ []) ∷ []) (
  (omega arith, (omega arith, (omega arith, (omega arith, tt)))),
  omega arith,
  ((omega arith, (omega arith, tt)), omega arith, tt),
)
