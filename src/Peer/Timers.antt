-- ===== src/Peer/Timers.antt =====
-- The dummy node of the list of packets in flight stays in front (peer.c, flow_control.c).
use p2p_cc.Base.{
  ℕ, ◌≡◌, refl, ◌∙◌, ◌&&◌, Bool-cases, true, false, inl, inr, List, [], ◌∷◌, ◌==◌, length, arith,
  if◌then◌else◌,
}
use p2p_cc.Base.Int.{ℤ, minus_one, ◌==ℤ◌, to_u32}
use p2p_cc.Packet.{Packet, data_type}
use p2p_cc.Tracker.{
  SockAddr, PacketTracker, Trackers, dummy_seq, create_timer, restart_or_append, timer_expired,
}
use p2p_cc.Sender.{Flow, FloatOps}
use p2p_cc.Sender.Pending.{HasDummy}
use p2p_cc.Sender.Sending.{AllSending, process_packet_loss-AllSending}
use p2p_cc.Peer.{check_timers, convert_last, start_timer, respond_one, respond, sweep}
use p2p_cc.Peer.Sweep.{SameKeys, sweep_lem}

seq-timer_expired : (now : ℕ) (t : PacketTracker) → (timer_expired now t).0.seq ≡ t.seq
unfolding timer_expired
seq-timer_expired now t = ground arith

HasDummy-check_timers :
    (now : ℕ) (packet : Packet) (l : Trackers) → HasDummy l → HasDummy (check_timers now packet l).0
unfolding check_timers
HasDummy-check_timers now packet [] h = tt
HasDummy-check_timers now packet (t ∷ rest) h =
    elim (Bool-cases (
      t.packet.header.seq_num == packet.header.seq_num
      && t.packet.header.ack_num == packet.header.ack_num)) [
        | inl same ↦ rw same (seq-timer_expired now t ∙ h)
        | inr other ↦ rw other h
      ]

HasDummy-convert_last : (l : Trackers) → HasDummy l → HasDummy (convert_last l)
unfolding convert_last
HasDummy-convert_last [] h = tt
HasDummy-convert_last (t ∷ []) h = h
HasDummy-convert_last (t ∷ t' ∷ rest) h = h

HasDummy-create_timer :
    (garbage : PacketTracker) (now : ℕ) (l : Trackers) (packet : Packet) (sock : ℤ)
    (from : SockAddr)
    → HasDummy l
    → HasDummy (create_timer garbage now l packet sock from)
unfolding create_timer restart_or_append
HasDummy-create_timer garbage now [] packet sock from h = refl
HasDummy-create_timer garbage now (t ∷ rest) packet sock from h =
    elim (Bool-cases (to_u32 t.seq == packet.header.seq_num)) [
      | inl here ↦ rw here h
      | inr other ↦ rw other h
    ]

HasDummy-start_timer :
    (garbage : PacketTracker) (now : ℕ) (l : Trackers) (packet : Packet) (sock : ℤ)
    (from : SockAddr)
    → HasDummy l
    → HasDummy (start_timer garbage now l packet sock from)
unfolding start_timer
HasDummy-start_timer garbage now l packet sock from h =
    let l' = create_timer garbage now l packet sock from in
    let h' = HasDummy-create_timer garbage now l packet sock from h in
    elim (Bool-cases (length l' == length l)) [
      | inl same ↦ rw same h'
      | inr longer ↦ rw longer (HasDummy-convert_last l' h')
    ]

HasDummy-respond_one :
    (garbage : PacketTracker) (now : ℕ) (socket : ℤ) (from : SockAddr) (packet : Packet)
    (l : Trackers)
    → HasDummy l
    → HasDummy (respond_one garbage now socket from packet l).0
unfolding respond_one
HasDummy-respond_one garbage now socket from packet l h =
    let checked = check_timers now packet l in
    let h' = HasDummy-check_timers now packet l h in
    elim (Bool-cases checked.1) [
      | inl find ↦ rw find h'
      | inr new ↦ elim (Bool-cases (packet.header.packet_type == data_type)) [
        | inl is_data ↦
            rw (new, is_data) (HasDummy-start_timer garbage now checked.0 packet socket from h')
        | inr other ↦ rw (new, other) h'
      ]
    ]

pub HasDummy-respond :
    (garbage : PacketTracker) (now : ℕ) (socket : ℤ) (from : SockAddr) (packets : List Packet)
    (l : Trackers)
    → HasDummy l
    → HasDummy (respond garbage now socket from packets l).0
unfolding respond
HasDummy-respond garbage now socket from [] l h = h
HasDummy-respond garbage now socket from (packet ∷ rest) l h =
    HasDummy-respond garbage now socket from rest _
      (HasDummy-respond_one garbage now socket from packet l h)

HasDummy-SameKeys : (l l' : Trackers) → SameKeys l l' → HasDummy l → HasDummy l'
HasDummy-SameKeys [] [] k h = tt
HasDummy-SameKeys [] (t ∷ l') k h = absurd k
HasDummy-SameKeys (t ∷ l) [] k h = tt
HasDummy-SameKeys (t ∷ l) (t' ∷ l') k h = k.1 ∙ h

module _ {F : Type 0} ⦃fl : FloatOps F⦄ where
  pub HasDummy-sweep :
      (now : ℕ) (l : Trackers) (f : Flow F) → HasDummy l → HasDummy (sweep now l f).0
  HasDummy-sweep now l f h = HasDummy-SameKeys l (sweep now l f).0 (sweep_lem now l f).1 h

  -- A loss that the sweep finds, of whatever peer, leaves every chunk valid.
  pub AllSending-sweep :
      (now : ℕ) (l : Trackers) (f : Flow F) → AllSending f.list → AllSending (sweep now l f).1.list
  unfolding sweep
  AllSending-sweep now [] f v = v
  AllSending-sweep now (t ∷ rest) f v =
      let due = (timer_expired now t).1 ==ℤ minus_one in
      elim (Bool-cases (due && (if t.seq ==ℤ dummy_seq then false else true))) [
        | inl resend ↦
            rw resend (AllSending-sweep now rest _ (process_packet_loss-AllSending _ f v))
        | inr kept ↦ rw kept (AllSending-sweep now rest f v)
      ]
