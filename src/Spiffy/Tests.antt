-- ===== src/Spiffy/Tests.antt =====
-- The start of spiffy.c, at concrete inputs.
use p2p_cc.Base.{◌≡◌, refl, none, some, [], ◌∷◌}
use p2p_cc.Base.Int.{pos, negsuc, minus_one, ◌-ℤ◌}
use p2p_cc.Packet.{swap16}
use p2p_cc.Tracker.{SockAddr}
use p2p_cc.Spiffy.Init.{not_started, split_colon, read_digits, atoi, spiffy_init}

abbrev address : SockAddr
address = record { sin_family = 2; sin_port = 1000; s_addr = 0 }

-- "-42x" and "4 2"
numbers : (atoi (45 ∷ 52 ∷ 50 ∷ 120 ∷ []) ≡ negsuc 41) × (atoi (52 ∷ 32 ∷ 50 ∷ []) ≡ pos 4)
unfolding atoi read_digits ◌-ℤ◌
numbers = (refl, refl)

no_router : spiffy_init (λ name. none) none (pos 1) address not_started ≡ (not_started, pos 1)
unfolding spiffy_init
no_router = refl

-- "a"
no_colon :
    spiffy_init (λ name. none) (some (97 ∷ [])) (pos 1) address not_started
    ≡ (not_started, minus_one)
unfolding spiffy_init split_colon
no_colon = refl

-- "a:1" leaves the port behind.
no_address : spiffy_init (λ name. none) (some (97 ∷ 58 ∷ 49 ∷ [])) (pos 1) address not_started ≡ (
  record not_started { router = record { sin_family = 0; sin_port = 256; s_addr = 0 } },
  minus_one,
)
unfolding spiffy_init split_colon atoi read_digits swap16
no_address = refl
