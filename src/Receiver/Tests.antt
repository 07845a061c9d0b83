-- ===== src/Receiver/Tests.antt =====
-- The receiver's theorems at concrete inputs.
use p2p_cc.Base.{
  ℕ, zero, suc, ◌≤◌, ◌≡◌, refl, inl, Bool, true, false, some, none, List, [], ◌∷◌, arith, Bytes,
  bytes_of,
}
use p2p_cc.Base.Int.{ℤ, pos, minus_one, ◌+ℤ◌, ◌-ℤ◌}
use p2p_cc.Packet.{Packet}
use p2p_cc.Sender.{chunk_packet_number}
use p2p_cc.Receiver.{
  Buffer, init_recv_buffer, payload_length, recv_data, release_buffer, is_buffer_full,
}
use p2p_cc.Receiver.Full.{is_buffer_full_lem}
use p2p_cc.Receiver.Restart.{receive_all, restart-never_full}
use p2p_cc.Receiver.Store.{bytes_below}
use p2p_cc.Receiver.Acks.{IsBuffer, IsAnswered}
use p2p_cc.Receiver.Answers.{recv_data-ignored, recv_data-answers, recv_data-skips_first}

abbrev beyond : ℕ → Bool
beyond i = false

abbrev garbage : ℕ → Bytes
garbage i j = 255

-- A DATA packet with 4 bytes of payload.
abbrev packet : ℕ → Packet
packet n = record {
  header = record {
    magicnum = 15441;
    version = 1;
    packet_type = 3;
    header_len = 16;
    packet_len = 20;
    seq_num = n;
    ack_num = 0;
  };
  payload = bytes_of (n ∷ 2 ∷ 3 ∷ 4 ∷ []);
}

abbrev fresh : ℤ → Buffer
fresh socket = record {
  expected = 1;
  socket = socket;
  offset = pos 7;
  busy = true;
  total_recv = pos 0;
  chunks = λ i. record { acked = false; recved = false; length = pos 0; content = garbage i };
}

-- The buffer that `init_recv_buffer` makes.
fresh_made : init_recv_buffer garbage (pos 7) (pos 2) [] ≡ (fresh (pos 2) ∷ [], pos 1)
unfolding init_recv_buffer
fresh_made = refl

fresh-IsBuffer : (socket : ℤ) → IsBuffer (fresh socket)
fresh-IsBuffer socket = record {
  from_one = omega arith;
  in_prefix = λ j p q r. absurd (omega arith);
}

fresh-bytes : (socket : ℤ) (k : ℕ) → bytes_below (fresh socket).chunks k ≡ pos 0
unfolding bytes_below ◌+ℤ◌
fresh-bytes socket zero = refl
fresh-bytes socket (suc k) = rw (fresh-bytes socket k)

recv_data-answers_example :
    (after : Buffer) × (ack : Packet) × (recv_data beyond
        (packet 3)
        (pos 2)
        (fresh (pos 1) ∷ fresh (pos 2) ∷ [])
      ≡ some (fresh (pos 1) ∷ after ∷ [], ack ∷ [], some (pos 7)))
    × IsAnswered 2 (packet 3) (fresh (pos 2)) after ack
unfolding payload_length ◌-ℤ◌
recv_data-answers_example =
    recv_data-answers beyond 2 (packet 3) (pos 2) (fresh (pos 1) ∷ []) (fresh (pos 2)) [] refl
      (omega arith) (omega arith) (refl, tt) refl (fresh-IsBuffer (pos 2))
      (fresh-bytes (pos 2) chunk_packet_number)

recv_data-skips_first_example :
    (after : Buffer) × (ack : Packet) × (recv_data beyond (packet 2) (pos 2) (fresh (pos 2) ∷ [])
      ≡ some (after ∷ [], ack ∷ [], some (pos 7)))
    × (2 ≤ ack.header.ack_num)
    × ((after.chunks 0).recved ≡ false)
unfolding payload_length ◌-ℤ◌
recv_data-skips_first_example =
    recv_data-skips_first beyond (packet 2) (pos 2) [] (fresh (pos 2)) [] refl (omega arith) tt refl
      (fresh-IsBuffer (pos 2)) (fresh-bytes (pos 2) chunk_packet_number) refl

recv_data-ignored_example :
    recv_data beyond (packet 513) (pos 2) (fresh (pos 2) ∷ []) ≡ some (fresh (pos 2) ∷ [], [], none)
recv_data-ignored_example =
    recv_data-ignored beyond (packet 513) (pos 2) (fresh (pos 2) ∷ [])
      (inl (omega arith, omega arith))

is_buffer_full_lem_example : is_buffer_full (pos 7) (fresh (pos 2) ∷ []) ≡ minus_one
unfolding ◌-ℤ◌
is_buffer_full_lem_example = is_buffer_full_lem (pos 7) (fresh (pos 2) ∷ [])

-- Peer 1 went away before anything of the chunk had come; peer 2 is asked, and sends packet 1.
restart-never_full_example :
    (l' : List Buffer) × (receive_all beyond
        (pos 2)
        (packet 1 ∷ [])
        (init_recv_buffer garbage (pos 7) (pos 2) (release_buffer (pos 7) (fresh (pos 1) ∷ []))).0
      ≡ some l')
    × (is_buffer_full (pos 7) l' ≡ minus_one)
unfolding payload_length ◌-ℤ◌
restart-never_full_example =
    restart-never_full beyond garbage (pos 7) (pos 2) (packet 1 ∷ []) (fresh (pos 1) ∷ [])
      (inl (refl, (λ e. ground (arith, e)), refl)) ((0, refl, omega arith, omega arith), tt)
