-- ===== src/Log/Times.antt =====
-- The times in the log.
use mathlib.Core.List.{append_assoc, append-nil}
use p2p_cc.Base.{
  ℕ, ◌+◌, ◌-◌, ◌*◌, ◌/◌, ◌%◌, ◌^◌, ◌≤◌, ◌<◌, ◌≡◌, ◌∙◌, sym, ap, true, Option, some, List, [], ◌∷◌,
  ◌++◌, map, arith,
}
use p2p_cc.Base.Int.{ℤ, pos, ◌+ℤ◌, ◌-ℤ◌, -ℤ_parts, +ℤ_parts, eq_of_parts}
use p2p_cc.Log.{Timespec, Entry, Log, billion, elapsed, log_open, log_in}

-- The time in nanoseconds.
abbrev pub nanoseconds : Timespec → ℕ
nanoseconds t = billion * t.tv_sec + t.tv_nsec

abbrev pub milliseconds : Timespec → Timespec → ℕ
milliseconds start now = (nanoseconds now - nanoseconds start) / 1000000

-- A call of LOGIN, with the time at which it is made.
abbrev pub Call : Type 0
Call = ℤ × ℤ × Timespec

-- The calls come in the order of time, from `before` on, within 2 ^ 63 nanoseconds.
abbrev pub AllLater : Timespec → Timespec → List Call → Type 0
AllLater start before [] = Unit {0}
AllLater start before ((id, window, now) ∷ rest) =
    (nanoseconds before ≤ nanoseconds now)
    × (now.tv_nsec < billion)
    × (nanoseconds now < nanoseconds start + 2 ^ 63)
    × AllLater start now rest

abbrev pub log_calls : List Call → Log → Log
log_calls [] l = l
log_calls ((id, window, now) ∷ rest) l = log_calls rest (log_in id window now l)

-- The difference of two naturals, as an integer.
pos-difference : (a b : ℕ) → b ≤ a → pos a -ℤ pos b ≡ pos (a - b)
pos-difference a b h =
    eq_of_parts (pos a -ℤ pos b) (pos (a - b)) (omega (arith, -ℤ_parts (pos a) (pos b)))

pos-sum : (a b : ℕ) → pos a +ℤ pos b ≡ pos (a + b)
pos-sum a b = eq_of_parts (pos a +ℤ pos b) (pos (a + b)) (omega (arith, +ℤ_parts (pos a) (pos b)))

elapsed_lem :
    (start now : Timespec)
    → now.tv_nsec < billion
    → nanoseconds start ≤ nanoseconds now
    → nanoseconds now < nanoseconds start + 2 ^ 63
    → elapsed start now ≡ milliseconds start now
unfolding elapsed
elapsed_lem start now small later near =
    let seconds : start.tv_sec ≤ now.tv_sec = omega arith in
    let d = pos-difference now.tv_sec start.tv_sec seconds in
    let whole = pos-sum (billion * (now.tv_sec - start.tv_sec)) now.tv_nsec in
    let all =
      pos-difference (billion * (now.tv_sec - start.tv_sec) + now.tv_nsec) start.tv_nsec
        (omega arith) in
    let same : (billion * (now.tv_sec - start.tv_sec) + now.tv_nsec - start.tv_nsec) % 2 ^ 64
        ≡ nanoseconds now - nanoseconds start =
      omega arith in
    rw (d, whole, all, same)

-- The line of a call.
abbrev pub line_of : Timespec → Call → Entry
line_of start (id, window, now) = (id, milliseconds start now, window)

-- No line has a smaller time than one before it.
abbrev pub AllInOrder : ℕ → List Entry → Type 0
AllInOrder time [] = Unit {0}
AllInOrder time ((id, ms, window) ∷ rest) = (time ≤ ms) × AllInOrder ms rest

log_calls-from :
    (start before : Timespec) (calls : List Call) (name : List ℕ) (lines : List Entry)
    → AllLater start before calls
    → nanoseconds start ≤ nanoseconds before
    → (log_calls calls (record { name = name; log_fd = some lines; start_time = start })).log_fd
      ≡ some (lines ++ map (line_of start) calls)
unfolding log_in
log_calls-from start before [] name lines h from = ap some (sym (append-nil lines))
log_calls-from start before ((id, window, now) ∷ rest) name lines (later, small, near, others)
      from =
    let line : ℕ → Entry = λ ms. (id, ms, window) in
    let written : ℕ → Log =
      λ ms. record { name = name; log_fd = some (lines ++ line ms ∷ []); start_time = start } in
    let time = elapsed_lem start now small (omega arith) near in
    ap (λ (ms : ℕ). (log_calls rest (written ms)).log_fd) time
    ∙ log_calls-from start now rest name (lines ++ line (milliseconds start now) ∷ []) others
        (omega arith)
    ∙ ap some (append_assoc lines (line (milliseconds start now) ∷ []) (map (line_of start) rest))

in_order :
    (start before : Timespec) (calls : List Call)
    → AllLater start before calls
    → AllInOrder (milliseconds start before) (map (line_of start) calls)
in_order start before [] h = tt
in_order start before ((id, window, now) ∷ rest) (later, small, near, others) =
    (omega arith, in_order start now rest others)

-- If the file can be opened, each call of LOGIN, made in the order of time from LOGOPEN on and within
-- 2 ^ 63 nanoseconds, adds one line at the end: its chunk, its window, and the whole milliseconds
-- since LOGOPEN. The times of the lines never go back.
pub log_lem :
    (path : Option (List ℕ)) (start : Timespec) (calls : List Call)
    → AllLater start start calls
    → ((log_calls calls (log_open path true start)).log_fd ≡ some (map (line_of start) calls))
      × AllInOrder 0 (map (line_of start) calls)
unfolding log_open
log_lem path start calls h =
    let zero_ms : milliseconds start start ≡ 0 = omega arith in
    (
      log_calls-from start start calls _ [] h (omega arith),
      rw zero_ms at (in_order start start calls h),
    )
