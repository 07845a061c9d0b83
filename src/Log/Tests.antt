-- ===== src/Log/Tests.antt =====
-- The log at a concrete input.
use p2p_cc.Base.{ℕ, ◌≡◌, true, none, some, List, [], ◌∷◌, arith}
use p2p_cc.Base.Int.{pos}
use p2p_cc.Log.{Timespec, log_open}
use p2p_cc.Log.Times.{AllInOrder, Call, log_calls, log_lem}

abbrev moment : ℕ → ℕ → Timespec
moment sec nsec = record { tv_sec = sec; tv_nsec = nsec }

-- Opened 900 ms into a second; a line after 200 ms, and one after 1.1 s.
abbrev calls : List Call
calls = (pos 3, pos 2, moment 11 100000000) ∷ (pos 3, pos 4, moment 12 0) ∷ []

log_lem_example :
    ((log_calls calls (log_open none true (moment 10 900000000))).log_fd
      ≡ some ((pos 3, 200, pos 2) ∷ (pos 3, 1100, pos 4) ∷ []))
    × AllInOrder 0 ((pos 3, 200, pos 2) ∷ (pos 3, 1100, pos 4) ∷ [])
log_lem_example =
    log_lem none (moment 10 900000000) calls
      (omega arith, omega arith, omega arith, (omega arith, omega arith, omega arith, tt))
