-- ===== src/Debug/Tests.antt =====
-- The switch of the debugging output at concrete inputs.
use p2p_cc.Base.{◌≡◌, refl, [], ◌∷◌}
use p2p_cc.Base.Int.{pos, minus_one}
use p2p_cc.Chunk.{or_bits}
use p2p_cc.Spiffy.Init.{atoi, read_digits}
use p2p_cc.Debug.{set_debug}

-- "6" adds the bits 2 and 4 to bit 1.
adds_bits : set_debug (54 ∷ []) 1 ≡ (7, pos 0)
unfolding set_debug or_bits atoi read_digits
adds_bits = refl

-- "list"
helps : set_debug (108 ∷ 105 ∷ 115 ∷ 116 ∷ []) 1 ≡ (1, minus_one)
unfolding set_debug
helps = refl
