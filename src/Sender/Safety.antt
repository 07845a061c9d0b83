-- ===== src/Sender/Safety.antt =====
-- The operations on the sender's list: none of them leaves the bounds of an array or follows a null
-- pointer, and all of them keep every chunk's invariant.
use p2p_cc.Base.{
  ℕ, ◌+◌, ◌-◌, ◌≤◌, min, ◌≡◌, refl, inl, inr, Bool-cases, Option, Option-cases, some, List, [], ◌∷◌,
  ◌++◌, ◌==◌, ◌||◌, arith, leb, Bytes, ◌>>=◌,
}
use p2p_cc.Base.Int.{ℤ, pos, sub_ℕ, ltb_ℤ}
use p2p_cc.Packet.{Packet}
use p2p_cc.Tracker.{Trackers}
use p2p_cc.Sender.{
  Data, Flow, FloatOps, chunk_packet_number, get_data_by_socket, put_data, process_packet_loss,
  check_return_ack, congestion_control, retransmit, advance, acknowledge, handle_ack, Handled,
  Marked,
}
use p2p_cc.Sender.Sent.{chunk_packet, data_packet_lem}
use p2p_cc.Sender.Pending.{HasDummy, pending}
use p2p_cc.Sender.Marks.{IsMarked}
use p2p_cc.Sender.Invariant.{
  IsSender, marked, check_return_ack-IsSender, marked-IsSender, start-IsSender, mark_from-IsMarked,
  congestion_control-IsSender,
}
use p2p_cc.Sender.Sending.{
  Sending, AllSending, next_index, get-Sending, put-AllSending, process_packet_loss-AllSending,
  send_data-AllSending,
}

module _ {F : Type 0} where
  -- What a call of `handle_ack` returns, for an acknowledgement of the packets below index `a`: it
  -- ends without undefined behaviour, every chunk stays valid, the dummy node stays, and so do the
  -- timers of other peers and of later packets.
  pub record IsSafe (socket : ℤ) (a : ℕ) (trackers : Trackers) (result : Option (Handled F))
      : Type 0 where
    pub flow : Flow F
    pub left_over : Trackers
    pub packets : List Packet
    pub returns : result ≡ some (flow, left_over, packets)
    pub all_valid : AllSending flow.list
    pub has_dummy : HasDummy left_over
    pub keeps : pending socket a left_over ≡ pending socket a trackers

module _ {F : Type 0} ⦃fl : FloatOps F⦄ where
  retransmit-IsSafe :
      (socket : ℤ) (a : ℕ) (ack : ℤ) (d : Data F) (trackers : Trackers) (f : Flow F)
      → ack ≡ sub_ℕ a 1
      → Sending d
      → AllSending f.list
      → HasDummy trackers
      → IsSafe socket a trackers (retransmit socket ack d trackers f)
  unfolding retransmit
  retransmit-IsSafe socket a ack d trackers f e w v h =
      elim (Bool-cases (ltb_ℤ ack (pos (chunk_packet_number - 1)))) [
        | inl inside ↦ record {
          flow = process_packet_loss socket f;
          left_over = trackers;
          packets = chunk_packet w.content a ∷ [];
          returns = rw (
            inside,
            next_index a ack e,
            data_packet_lem w.content a d w.valid.sent.has_content (ground arith),
          );
          all_valid = process_packet_loss-AllSending socket f v;
          has_dummy = h;
          keeps = refl;
        }
        | inr last ↦ record {
          flow = f;
          left_over = trackers;
          packets = [];
          returns = rw last;
          all_valid = v;
          has_dummy = h;
          keeps = refl;
        }
      ]

  -- Behind the loop: stopped at a packet that has not been sent, or run to its end.
  advance-IsSafe :
      (socket : ℤ) (a s n : ℕ) (ack : ℤ) (content : Bytes) (d : Data F) (f : Flow F)
      (trackers : Trackers) (result : Option (Marked F))
      → ack ≡ sub_ℕ a 1
      → a ≤ chunk_packet_number + 1
      → IsSender content n s d
      → AllSending f.list
      → IsMarked socket s a n d trackers result
      → IsSafe socket a trackers (result >>= advance socket ack f)
  unfolding advance
  advance-IsSafe socket a s n ack content d f trackers result e h w v m =
      elim (Bool-cases (leb a n || n == chunk_packet_number)) [
        | inl through ↦
            let d1 = record (marked s (min a n) d) { start = ack } in
            let f2 : Flow F = record {
              list = put_data socket (congestion_control d1).0 f.list;
              log = (congestion_control d1).1 ++ f.log;
            } in
            let (f', ret, sends, valid) = send_data-AllSending socket f2 (
              put-AllSending socket f.list _ v (record {
                content = content;
                n = n;
                s = a;
                valid =
                    congestion_control-IsSender content n a _
                      (start-IsSender content n s a ack d w e h through);
              })) in
            record {
              flow = f';
              left_over = m.left_over;
              packets = ret;
              returns = rw (m.returns, through, sends);
              all_valid = valid;
              has_dummy = m.has_dummy;
              keeps = m.keeps;
            }
        | inr stopped ↦ record {
          flow = record f { list = put_data socket (marked s (min a n) d) f.list };
          left_over = m.left_over;
          packets = [];
          returns = rw (m.returns, stopped);
          all_valid = put-AllSending socket f.list _ v (record {
            content = content;
            n = n;
            s = s;
            valid = marked-IsSender content n s a d w;
          });
          has_dummy = m.has_dummy;
          keeps = m.keeps;
        }
      ]

  acknowledge-IsSafe :
      (socket : ℤ) (a : ℕ) (ack : ℤ) (trackers : Trackers) (f : Flow F) (d : Data F)
      → ack ≡ sub_ℕ a 1
      → a ≤ chunk_packet_number + 1
      → Sending d
      → AllSending f.list
      → HasDummy trackers
      → IsSafe socket a trackers (acknowledge socket ack trackers f d)
  unfolding acknowledge
  acknowledge-IsSafe socket a ack trackers f d e h w v dummy =
      let d' = (check_return_ack d ack).0 in
      let valid = check_return_ack-IsSender w.content w.n w.s d ack w.valid in
      let w' : Sending d' = record { content = w.content; n = w.n; s = w.s; valid = valid } in
      let v' = put-AllSending socket f.list d' v w' in
      elim (Bool-cases (check_return_ack d ack).1) [
        | inl repeated ↦ rw repeated (retransmit-IsSafe socket a ack d' trackers _ e w' v' dummy)
        | inr new ↦ rw new (
            advance-IsSafe socket a w.s w.n ack w.content d' _ trackers _ e h valid v'
              (mark_from-IsMarked socket w.content w.n w.s a ack d' trackers valid e dummy))
      ]

  -- For valid chunks and a list of packets in flight that is empty or begins with the dummy node,
  -- `handle_ack` with an acknowledgement number of -1 or more ends without undefined behaviour and
  -- keeps every chunk valid. It leaves in the list the dummy node, every entry of another peer and
  -- every entry of a packet beyond the acknowledgement, in their order.
  pub handle_ack-IsSafe :
      (socket : ℤ) (a : ℕ) (trackers : Trackers) (f : Flow F)
      → AllSending f.list
      → HasDummy trackers
      → IsSafe socket a trackers (handle_ack socket (sub_ℕ a 1) trackers f)
  unfolding handle_ack
  handle_ack-IsSafe socket a trackers f v h =
      elim (Option-cases (get_data_by_socket socket f.list)) [
        | inl e ↦
            rw (e, handle_ack)
              (record {
                flow = f;
                left_over = trackers;
                packets = [];
                returns = refl;
                all_valid = v;
                has_dummy = h;
                keeps = refl;
              })
        | inr (d, e) ↦
            rw (e, handle_ack)
              (elim (Bool-cases (ltb_ℤ (pos chunk_packet_number) (sub_ℕ a 1))) [
                | inl beyond ↦ rw beyond (record {
                  flow = f;
                  left_over = trackers;
                  packets = [];
                  returns = refl;
                  all_valid = v;
                  has_dummy = h;
                  keeps = refl;
                })
                | inr within ↦ rw within (
                    acknowledge-IsSafe socket a (sub_ℕ a 1) trackers f d refl (ground arith)
                      (get-Sending socket f.list v e) v h)
              ])
      ]
