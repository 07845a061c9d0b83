-- ===== src/Debug.antt =====
-- debug.c: the switch of the debugging output.
mod Tests
use p2p_cc.Base.{ℕ, Bool, true, false, ◌&&◌, List, [], ◌∷◌, leb, ◌==◌, if◌then◌else◌}
use p2p_cc.Base.Int.{ℤ, pos, minus_one, to_u32}
use p2p_cc.Chunk.{or_bits}
use p2p_cc.Spiffy.Init.{atoi}

-- strcmp(a, b) == 0
abbrev pub same_text : List ℕ → List ℕ → Bool
same_text [] [] = true
same_text [] (c ∷ b) = false
same_text (c ∷ a) [] = false
same_text (c ∷ a) (c' ∷ b) = c == c' && same_text a b

-- `level` is the global `debug`; the value is kept for "list" and for what begins with '?', which
-- print a help, and a text that begins with no digit sets nothing.
unfoldable pub set_debug : List ℕ → ℕ → ℕ × ℤ
set_debug [] level = (level, minus_one)
set_debug (c ∷ text) level =
    if c == 63
    then (level, minus_one)
    else if same_text (c ∷ text) (108 ∷ 105 ∷ 115 ∷ 116 ∷ [])
    then (level, minus_one)
    else if leb 48 c && leb c 57
    then (or_bits 32 level (to_u32 (atoi (c ∷ text))), pos 0)
    else (level, pos 0)
