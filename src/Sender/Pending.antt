-- ===== src/Sender/Pending.antt =====
-- What `handle_ack` leaves in the list of packets in flight.
use p2p_cc.Base.{ℕ, ◌<◌, ◌≡◌, refl, ◌&&◌, some, [], ◌∷◌, arith, if◌then◌else◌}
use p2p_cc.Base.Int.{ℤ, pos, negsuc, ◌-ℤ◌, -ℤ_parts, ltb_ℤ, ◌==ℤ◌}
use p2p_cc.Tracker.{Trackers, dummy_seq, unlink, remove_from_tracker}

-- A list in use begins with the dummy node.
abbrev pub HasDummy : Trackers → Type 0
HasDummy [] = Unit {0}
HasDummy (head ∷ rest) = head.seq ≡ dummy_seq

-- The entries of other peers, and of packets of this peer from index `a` on.
abbrev pub pending : ℤ → ℕ → Trackers → Trackers
pending socket a [] = []
pending socket a (t ∷ rest) =
    let rest' = pending socket a rest in
    if t.sock ==ℤ socket && ltb_ℤ (t.seq -ℤ pos 1) (pos a) then rest' else t ∷ rest'

pub pending-unlink :
    (socket : ℤ) (i a : ℕ) (l : Trackers)
    → i < a
    → pending socket a (unlink socket (pos i) l).1 ≡ pending socket a l
unfolding unlink
pending-unlink socket i a [] h = refl
pending-unlink socket i a (t ∷ l) h =
    ground (arith, pending-unlink socket i a l h, -ℤ_parts t.seq (pos 1))

-- The list without the first entry of a packet behind the dummy node.
abbrev pub dropped : ℤ → ℕ → Trackers → Trackers
dropped socket i [] = []
dropped socket i (head ∷ rest) = head ∷ (unlink socket (pos i) rest).1

pub remove-dropped :
    (socket : ℤ) (i : ℕ) (l : Trackers)
    → HasDummy l
    → (r : ℤ) × (remove_from_tracker l socket (pos i) ≡ some (r, dropped socket i l))
unfolding remove_from_tracker
remove-dropped socket i [] h = (negsuc 0, refl)
remove-dropped socket i (head ∷ rest) h =
    ((unlink socket (pos i) rest).0, ground (arith, -ℤ_parts head.seq (pos 1)))

pub HasDummy-dropped :
    (socket : ℤ) (i : ℕ) (l : Trackers) → HasDummy l → HasDummy (dropped socket i l)
HasDummy-dropped socket i [] h = tt
HasDummy-dropped socket i (head ∷ rest) h = h

pub pending-dropped :
    (socket : ℤ) (i a : ℕ) (l : Trackers)
    → i < a
    → pending socket a (dropped socket i l) ≡ pending socket a l
pending-dropped socket i a [] h = refl
pending-dropped socket i a (head ∷ rest) h = ground (arith, pending-unlink socket i a rest h)
