-- ===== src/Sender/Tests.antt =====
-- Runs of the sender, and its theorems at concrete inputs.
use p2p_cc.Base.{
  ℕ, none, ◌+◌, ◌/◌, ◌%◌, ◌≡◌, refl, Option, some, List, [], ◌∷◌, ◌++◌, arith, leb, Bytes, map,
}
use p2p_cc.Base.Int.{pos, ◌-ℤ◌, ◌+ℤ◌, minus_one}
use p2p_cc.Packet.{Packet, init_packet, fill_plain, host_header}
use p2p_cc.Tracker.{Trackers, remove_from_tracker}
use p2p_cc.Sender.{
  get_content_by_index, LogLine, send_window_of, send_packets, send_next, data_packet, acknowledge,
  mark_from, mark_acked, advance, slow_start_step, enlarge, Data, Flow, FloatOps, unsend, slowstart,
  con_avoid, get_data_by_socket, put_data, new_data, check_return_ack, congestion_control,
  send_data, handle_ack,
}
use p2p_cc.Sender.Sent.{sent_to, room, chunk_packet, chunk_packets, send_data_lem}
use p2p_cc.Sender.Pending.{pending}
use p2p_cc.Sender.Invariant.{IsSender, sent_to-IsSender, new_data-IsSender}
use p2p_cc.Sender.Safety.{IsSafe, handle_ack-IsSafe}
use p2p_cc.Sender.Congestion.{after_acks, after_acks-slow_start}
use p2p_cc.Sender.Replies.{acknowledged, handle_ack-new, handle_ack-repeated}

-- A float in millionths.
instance abbrev scaled : FloatOps ℕ
scaled = record {
  zero = 0;
  one = 1000000;
  inverse = λ n. 1000000 / n;
  add = λ a b. a + b;
  reached = λ a. leb 1000000 a;
}

abbrev bytes : Bytes
bytes i = i % 251

-- A chunk for peer 2, before and after its first packet.
abbrev fresh : Data ℕ
fresh = record {
  socket = pos 2;
  offset = pos 7;
  content = some bytes;
  state = λ i. unsend;
  send_window = 1;
  ssthresh = 64;
  congestion_control_state = slowstart;
  start = minus_one;
  end = minus_one;
  increase_rate = 1000000;
  prev_ack = 99;
  count_ack = pos 0;
}

abbrev one_sent : Data ℕ
one_sent = sent_to 0 1 fresh

abbrev waiting : Flow ℕ
waiting = record { list = fresh ∷ []; log = [] }

abbrev sending : Flow ℕ
sending = record { list = one_sent ∷ []; log = [] }

fresh-IsSender : IsSender bytes 0 0 fresh
unfolding new_data
fresh-IsSender = new_data-IsSender 99 (pos 0) (pos 2) (pos 7) bytes

one_sent-IsSender : IsSender bytes 1 0 one_sent
one_sent-IsSender = sent_to-IsSender bytes 0 1 0 fresh (omega arith) (omega arith) fresh-IsSender

-- The sequence numbers of the packets that go out, and the log.
abbrev seen : Option (Flow ℕ × Trackers × List Packet) → Option (List ℕ × List LogLine)
seen none = none
seen (some (f, trackers, ret)) = some (map (λ p. p.header.seq_num) ret, f.log)

-- The first acknowledgement makes the window 2, and packets 2 and 3 go out, the newest first.
first_ack : seen (handle_ack (pos 2) (pos 0) [] sending) ≡ some (3 ∷ 2 ∷ [], (pos 7, 2) ∷ [])
unfolding handle_ack acknowledge check_return_ack mark_from mark_acked remove_from_tracker advance
    congestion_control slow_start_step enlarge send_data send_window_of send_packets send_next
    data_packet get_content_by_index get_data_by_socket put_data init_packet fill_plain host_header
    ◌+ℤ◌ ◌-ℤ◌ new_data
first_ack = refl

send_data_lem_example :
    send_data (pos 2) waiting
    ≡ some (
      record waiting { list = put_data (pos 2) (sent_to 0 (0 + room 0 fresh) fresh) waiting.list },
      chunk_packets bytes 0 (room 0 fresh),
    )
unfolding get_data_by_socket
send_data_lem_example = send_data_lem (pos 2) bytes 0 fresh waiting refl fresh-IsSender.sent

handle_ack-IsSafe_example : IsSafe (pos 2) 1 [] (handle_ack (pos 2) (pos 0) [] sending)
handle_ack-IsSafe_example =
    handle_ack-IsSafe (pos 2) 1 [] sending
      (record { content = bytes; n = 1; s = 0; valid = one_sent-IsSender }, tt) tt

handle_ack-new_example :
    let (d', lines) = congestion_control (acknowledged 0 1 one_sent) in
    (left : Trackers) × (handle_ack (pos 2) (pos 0) [] sending
      ≡ some (
        record {
          list = put_data (pos 2) (sent_to 1 (1 + room 1 d') d') sending.list;
          log = lines ++ [];
        },
        left,
        chunk_packets bytes 1 (room 1 d'),
      ))
    × (pending (pos 2) 1 left ≡ [])
unfolding get_data_by_socket check_return_ack
handle_ack-new_example =
    handle_ack-new (pos 2) 1 [] sending bytes 1 0 one_sent refl refl (omega arith) one_sent-IsSender
      tt

-- Acknowledgement 1 has been repeated once.
abbrev repeated : Data ℕ
repeated = record one_sent { prev_ack = 0; count_ack = pos 1 }

abbrev resending : Flow ℕ
resending = record { list = repeated ∷ []; log = [] }

handle_ack-repeated_example :
    handle_ack (pos 2) (pos 0) [] resending
    ≡ some (
      record {
        list =
            put_data
              (pos 2)
              (record repeated {
                count_ack = pos 1 +ℤ pos 1;
                ssthresh = 0;
                send_window = 1;
                congestion_control_state = slowstart;
                increase_rate = 1000000;
              })
              (repeated ∷ []);
        log = (pos 7, 1) ∷ [];
      },
      [],
      chunk_packet bytes 1 ∷ [],
    )
unfolding get_data_by_socket
handle_ack-repeated_example =
    handle_ack-repeated (pos 2) 1 [] resending bytes repeated refl refl (omega arith) (omega arith)
      refl

after_acks-slow_start_example :
    (after_acks 63 one_sent ≡ record one_sent { send_window = 64 })
    × (after_acks 64 one_sent ≡ record one_sent {
      send_window = 64;
      congestion_control_state = con_avoid;
      increase_rate = 0;
    })
after_acks-slow_start_example = after_acks-slow_start 63 one_sent refl refl
