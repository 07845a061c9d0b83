-- ===== src/Sender/Replies.antt =====
-- What `handle_ack` answers: the equations of its branches.
use p2p_cc.Base.{
  ℕ, ◌/◌, ◌+◌, ◌-◌, ◌≤◌, ◌<◌, min, ◌≡◌, refl, ◌∙◌, some, [], ◌∷◌, ◌++◌, ◌==◌, ◌||◌, true, false,
  arith, leb, Bytes,
}
use p2p_cc.Base.Int.{ℤ, pos, sub_ℕ, ◌+ℤ◌, ◌≤ℤ◌, ltb_ℤ, to_u32, +ℤ_parts}
use p2p_cc.Tracker.{Trackers}
use p2p_cc.Sender.{
  Data, Flow, FloatOps, chunk_packet_number, get_data_by_socket, put_data, lose, slowstart,
  process_packet_loss, check_return_ack, congestion_control, retransmit, advance, acknowledge,
  handle_ack,
}
use p2p_cc.Sender.Sent.{sent_to, room, chunk_packet, chunk_packets, data_packet_lem, send_data_lem}
use p2p_cc.Sender.Pending.{HasDummy, pending}
use p2p_cc.Sender.Marks.{mark_range}
use p2p_cc.Sender.Invariant.{
  IsSender, check_return_ack-IsSender, start-IsSender, mark_from-IsMarked,
  congestion_control-IsSender,
}
use p2p_cc.Sender.Sending.{get-put, put-put, next_index}

not-last :
    (a : ℕ) → a < chunk_packet_number → ltb_ℤ (sub_ℕ a 1) (pos (chunk_packet_number - 1)) ≡ true
not-last a h = ground arith

module _ {F : Type 0} ⦃fl : FloatOps F⦄ where
  -- The data after an acknowledgement of the packets below index `a` that is not the second or a
  -- later repetition.
  abbrev pub acknowledged : ℕ → ℕ → Data F → Data F
  acknowledged s a d = record (check_return_ack d (sub_ℕ a 1)).0 {
    state = mark_range d.state s a;
    start = sub_ℕ a 1;
  }

  check-again :
      (d : Data F) (ack : ℤ)
      → d.prev_ack ≡ to_u32 ack
      → pos 1 ≤ℤ d.count_ack
      → check_return_ack d ack ≡ (record d { count_ack = d.count_ack +ℤ pos 1 }, true)
  unfolding check_return_ack
  check-again d ack e h = ground (arith, +ℤ_parts d.count_ack (pos 1))

  loss-found :
      (socket : ℤ) (f : Flow F) (d : Data F)
      → get_data_by_socket socket f.list ≡ some d
      → process_packet_loss socket f
        ≡ record { list = put_data socket (lose d) f.list; log = (d.offset, 1) ∷ f.log }
  unfolding process_packet_loss
  loss-found socket f d e = rw (e, process_packet_loss)

  -- The call behind its guards.
  handle_ack-found :
      (socket ack : ℤ) (trackers : Trackers) (f : Flow F) (d : Data F)
      → get_data_by_socket socket f.list ≡ some d
      → ltb_ℤ (pos chunk_packet_number) ack ≡ false
      → handle_ack socket ack trackers f ≡ acknowledge socket ack trackers f d
  unfolding handle_ack
  handle_ack-found socket ack trackers f d e h = rw (e, handle_ack, h)

  pub socket-congestion_control : (d : Data F) → (congestion_control d).0.socket ≡ d.socket
  unfolding congestion_control
  socket-congestion_control d = ground arith

  -- The end of the call sends from the data that the congestion control leaves.
  advance-sends :
      (socket ack : ℤ) (f : Flow F) (content : Bytes) (n s : ℕ) (d d0 d1 : Data F)
      (trackers : Trackers)
      → get_data_by_socket socket f.list ≡ some d
      → d0.socket ≡ d.socket
      → d1.socket ≡ d.socket
      → IsSender content n s (record d1 { start = ack })
      → let (d', lines) = congestion_control (record d1 { start = ack }) in
        advance socket ack (record f { list = put_data socket d0 f.list }) (true, d1, trackers)
        ≡ some (
          record {
            list = put_data socket (sent_to n (n + room n d') d') f.list;
            log = lines ++ f.log;
          },
          trackers,
          chunk_packets content n (room n d'),
        )
  unfolding advance
  advance-sends socket ack f content n s d d0 d1 trackers e e0 e1 v =
      let d' = (congestion_control (record d1 { start = ack })).0 in
      let same : d'.socket ≡ d.socket =
        socket-congestion_control (record d1 { start = ack }) ∙ e1 in
      let valid = congestion_control-IsSender content n s (record d1 { start = ack }) v in
      let f2 : Flow F = record {
        list = put_data socket d' f.list;
        log = (congestion_control (record d1 { start = ack })).1 ++ f.log;
      } in
      rw (
        put-put socket f.list d d0 d' e e0,
        send_data_lem socket content n d' f2 (get-put socket f.list d d' e same) valid.sent,
        put-put socket f.list d d' (sent_to n (n + room n d') d') e same,
      )

  pub socket-check : (d : Data F) (ack : ℤ) → (check_return_ack d ack).0.socket ≡ d.socket
  unfolding check_return_ack
  socket-check d ack = ground arith

  state-check : (d : Data F) (ack : ℤ) → (check_return_ack d ack).0.state ≡ d.state
  unfolding check_return_ack
  state-check d ack = ground arith

  pub acknowledged-IsSender :
      (content : Bytes) (n s a : ℕ) (d : Data F)
      → a ≤ n
      → IsSender content n s d
      → IsSender content n a (acknowledged s a d)
  acknowledged-IsSender content n s a d h v =
      let ack = sub_ℕ a 1 in
      let d0 : Data F = (check_return_ack d ack).0 in
      let v0 = check_return_ack-IsSender content n s d ack v in
      let all_sent : min a n ≡ a = omega arith in
      let flag : (leb a n || n == chunk_packet_number) ≡ true = ground arith in
      rw (all_sent, state-check d ack) at
        (start-IsSender content n s a ack d0 v0 refl (omega (arith, v.sent.in_chunk)) flag)

  -- An acknowledgement of packets that have all been sent, seen for the first time or repeated once:
  -- the packets below it are marked, the window's start moves to it (back, if it is an old one), the
  -- congestion control makes its step, and the packets that now fit the window are sent. Timers of
  -- other peers and of later packets stay.
  pub handle_ack-new :
      (socket : ℤ) (a : ℕ) (trackers : Trackers) (f : Flow F) (content : Bytes) (n s : ℕ)
      (d : Data F)
      → get_data_by_socket socket f.list ≡ some d
      → (check_return_ack d (sub_ℕ a 1)).1 ≡ false
      → a ≤ n
      → IsSender content n s d
      → HasDummy trackers
      → let (d', lines) = congestion_control (acknowledged s a d) in
        (left : Trackers) × (handle_ack socket (sub_ℕ a 1) trackers f
          ≡ some (
            record {
              list = put_data socket (sent_to n (n + room n d') d') f.list;
              log = lines ++ f.log;
            },
            left,
            chunk_packets content n (room n d'),
          ))
        × (pending socket a left ≡ pending socket a trackers)
  unfolding acknowledge
  handle_ack-new socket a trackers f content n s d e fresh h v dummy =
      let ack = sub_ℕ a 1 in
      let d0 : Data F = (check_return_ack d ack).0 in
      let v0 = check_return_ack-IsSender content n s d ack v in
      let m = mark_from-IsMarked socket content n s a ack d0 trackers v0 refl dummy in
      let all_sent : min a n ≡ a = omega arith in
      let flag : (leb a n || n == chunk_packet_number) ≡ true = ground arith in
      (
        m.left_over,
        handle_ack-found socket ack trackers f d e (ground (arith, v.sent.in_chunk))
            ∙ rw (fresh, m.returns, flag, all_sent, state-check d ack)
                (advance-sends socket ack f content n a d d0
                  (record d0 { state = mark_range d.state s a }) m.left_over e (socket-check d ack)
                  (socket-check d ack) (acknowledged-IsSender content n s a d h v)),
        m.keeps,
      )

  -- The second repetition of an acknowledgement before the chunk's end, and each further one: the
  -- packet behind it is sent again, whatever the window. Half of the window is the new threshold, the
  -- window falls to 1, and slow start begins anew, with its growth rate set back; but for those and the
  -- count of repetitions the chunk stays as it is, and so do the timers.
  pub handle_ack-repeated :
      (socket : ℤ) (a : ℕ) (trackers : Trackers) (f : Flow F) (content : Bytes) (d : Data F)
      → get_data_by_socket socket f.list ≡ some d
      → d.prev_ack ≡ to_u32 (sub_ℕ a 1)
      → pos 1 ≤ℤ d.count_ack
      → a < chunk_packet_number
      → d.content ≡ some content
      → handle_ack socket (sub_ℕ a 1) trackers f
        ≡ some (
          record {
            list =
                put_data socket
                  (record d {
                    count_ack = d.count_ack +ℤ pos 1;
                    ssthresh = d.send_window / 2;
                    send_window = 1;
                    congestion_control_state = slowstart;
                    increase_rate = fl.one;
                  })
                  f.list;
            log = (d.offset, 1) ∷ f.log;
          },
          trackers,
          chunk_packet content a ∷ [],
        )
  unfolding acknowledge retransmit lose
  handle_ack-repeated socket a trackers f content d e same count h has =
      let ack = sub_ℕ a 1 in
      let d0 : Data F = record d { count_ack = d.count_ack +ℤ pos 1 } in
      handle_ack-found socket ack trackers f d e (ground arith)
      ∙ rw
          (
            check-again d ack same count,
            not-last a h,
            next_index a ack refl,
            data_packet_lem content a d0 has h,
          )
          (rw (
            loss-found socket (record f { list = put_data socket d0 f.list }) d0
                (get-put socket f.list d d0 e refl),
            put-put socket f.list d d0 (lose d0) e refl,
          ))
