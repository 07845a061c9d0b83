-- ===== src/Tracker/Tests.antt =====
-- Runs of the tracker, and its theorems at concrete inputs.
use p2p_cc.Base.{ℕ, ◌≡◌, refl, some, [], ◌∷◌, ◌++◌, arith, bytes_of, map}
use p2p_cc.Base.Int.{ℤ, pos, minus_one, signed, ◌-ℤ◌}
use p2p_cc.Packet.{Packet}
use p2p_cc.Tracker.{
  SockAddr, PacketTracker, dummy_seq, remove_from_tracker, new_tracker, create_timer, timer_expired,
  restart_or_append,
}
use p2p_cc.Tracker.Laws.{create_timer-shared, create_timer-remove, remove_from_tracker-first}

abbrev packet : ℕ → Packet
packet n = record {
  header = record {
    magicnum = 20796;
    version = 1;
    packet_type = 3;
    header_len = 4096;
    packet_len = 4100;
    seq_num = n;
    ack_num = 0;
  };
  payload = bytes_of [];
}

abbrev address : SockAddr
address = record { sin_family = 2; sin_port = 1111; s_addr = 0 }

abbrev entry : ℤ → ℤ → PacketTracker
entry sock seq = record {
  sock = sock;
  seq = seq;
  from = address;
  send_time = 10;
  expire_time = pos 0;
  packet = packet 1;
}

abbrev dummy : PacketTracker
dummy = entry (pos 0) dummy_seq

-- Two timers of one peer, in the order of their start.
two_timers :
    map
      (λ t. t.seq)
      (create_timer dummy 5
        (create_timer dummy 4 [] (packet 1) (pos 2) address)
        (packet 2)
        (pos 2)
        address)
    ≡ dummy_seq ∷ pos 1 ∷ pos 2 ∷ []
unfolding create_timer restart_or_append new_tracker
two_timers = refl

-- After one second a timer has expired.
expired : (timer_expired 11 (entry (pos 2) (pos 1))).1 ≡ minus_one
unfolding timer_expired
expired = refl

remove_from_tracker-first_example :
    remove_from_tracker (dummy ∷ entry (pos 1) (pos 2) ∷ entry (pos 3) (pos 2) ∷ []) (pos 3) (pos 1)
    ≡ some (pos 1, dummy ∷ entry (pos 1) (pos 2) ∷ [])
unfolding ◌-ℤ◌
remove_from_tracker-first_example =
    remove_from_tracker-first (pos 3) (pos 1) dummy (entry (pos 1) (pos 2) ∷ [])
      (entry (pos 3) (pos 2)) [] refl (refl, tt) refl

-- The second packet 2 goes to another peer than the first.
create_timer-shared_example :
    create_timer dummy 20 (dummy ∷ entry (pos 1) (pos 2) ∷ []) (packet 2) (pos 3) address
    ≡ dummy ∷ record (entry (pos 1) (pos 2)) { send_time = 20 } ∷ []
create_timer-shared_example =
    create_timer-shared dummy 20 dummy [] (entry (pos 1) (pos 2)) [] (packet 2) (pos 3) address
      (refl, tt) refl

create_timer-remove_example :
    (create_timer dummy 20 (dummy ∷ entry (pos 1) (pos 2) ∷ []) (packet 3) (pos 1) address
      ≡ dummy ∷ (entry (pos 1) (pos 2) ∷ []) ++ new_tracker 20 (packet 3) (pos 1) address ∷ [])
    × (remove_from_tracker
          (create_timer dummy 20 (dummy ∷ entry (pos 1) (pos 2) ∷ []) (packet 3) (pos 1) address)
          (pos 1)
          (signed 32 3 -ℤ pos 1)
        ≡ some (pos 1, dummy ∷ entry (pos 1) (pos 2) ∷ []))
create_timer-remove_example =
    create_timer-remove dummy 20 dummy (entry (pos 1) (pos 2) ∷ []) (packet 3) (pos 1) address
      (omega arith) (refl, (refl, tt))
