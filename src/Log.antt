-- ===== src/Log.antt =====
-- log.c: the file of the windows, with the time of each line since the file was opened.
pub mod Times
mod Tests
use p2p_cc.Base.{
  ℕ, zero, suc, ◌+◌, ◌-◌, ◌*◌, ◌/◌, ◌%◌, ◌^◌, Bool, Option, some, none, List, [], ◌∷◌, ◌++◌,
  if◌then◌else◌,
}
use p2p_cc.Base.Int.{ℤ, pos, negsuc, ◌+ℤ◌, ◌-ℤ◌}

-- What clock_gettime gives for CLOCK_MONOTONIC.
pub record Timespec : Type 0 where
  pub tv_sec : ℕ
  pub tv_nsec : ℕ

-- A line that is written: the chunk, the milliseconds, and the window.
abbrev pub Entry : Type 0
Entry = ℤ × ℕ × ℤ

-- The globals, and the file: its name and its lines. `log_fd` is null if it could not be opened.
pub record Log : Type 0 where
  pub name : List ℕ
  pub log_fd : Option (List Entry)
  pub start_time : Timespec

abbrev pub billion : ℕ
billion = 1000000000

-- "problem2-peer.txt"
abbrev pub default_name : List ℕ
default_name =
    112 ∷ 114 ∷ 111 ∷ 98 ∷ 108 ∷ 101 ∷ 109 ∷ 50 ∷ 45 ∷ 112 ∷ 101 ∷ 101 ∷ 114 ∷ 46 ∷ 116 ∷ 120 ∷ 116
    ∷ []

-- LOGOPEN; `opened` is whether fopen succeeds, which empties the file.
unfoldable pub log_open : Option (List ℕ) → Bool → Timespec → Log
log_open path opened now = record {
  name = elim path [ none ↦ default_name | some name ↦ name ];
  log_fd = if opened then some [] else none;
  start_time = now;
}

-- The product of a long.
abbrev pub times : ℕ → ℤ → ℤ
times n (pos a) = pos (n * a)
times zero (negsuc a) = pos 0
times (suc n) (negsuc a) = negsuc (suc n * suc a - 1)

-- The conversion of a long to a uint64_t.
abbrev pub to_u64 : ℤ → ℕ
to_u64 (pos n) = n % 2 ^ 64
to_u64 (negsuc n) = 2 ^ 64 - 1 - n % 2 ^ 64

-- `diff`, in milliseconds.
unfoldable pub elapsed : Timespec → Timespec → ℕ
elapsed start_time current_time =
    to_u64 (
      times billion (pos current_time.tv_sec -ℤ pos start_time.tv_sec)
      +ℤ pos current_time.tv_nsec
      -ℤ pos start_time.tv_nsec)
    / 1000000

-- LOGIN
unfoldable pub log_in : ℤ → ℤ → Timespec → Log → Log
unfolding elapsed
log_in id window_size current_time l = elim l.log_fd [
  | none ↦ l
  | some lines ↦ record l {
    log_fd = some (lines ++ (id, elapsed l.start_time current_time, window_size) ∷ []);
  }
]
