-- ===== src/Sender/Ack.antt =====
-- `handle_ack`: an acknowledgement moves the window, or is counted as a repetition.
use p2p_cc.Base.{
  ℕ, zero, suc, ◌+◌, ◌-◌, Bool, true, false, Option, none, some, List, [], ◌∷◌, ◌++◌, if◌then◌else◌,
  ◌>>=◌, store,
}
use p2p_cc.Base.Int.{ℤ, pos, negsuc, ◌+ℤ◌, leb_ℤ, ltb_ℤ}
use p2p_cc.Packet.{Packet}
use p2p_cc.Tracker.{Trackers, remove_from_tracker}
use p2p_cc.Sender.State.{
  Data, Flow, FloatOps, unsend, unacked, acked, chunk_packet_number, get_data_by_socket, put_data,
  check_return_ack, process_packet_loss, congestion_control,
}
use p2p_cc.Sender.Window.{data_packet, send_data}

-- What the loop of `handle_ack` leaves: whether it ran to its end, the data, and the tracker.
abbrev pub Marked : Type 0 → Type 0
Marked F = Bool × Data F × Trackers

-- What a call returns: the state, the tracker, and the packets to send, newest first.
abbrev pub Handled : Type 0 → Type 0
Handled F = Flow F × Trackers × List Packet

module _ {F : Type 0} where
  -- The loop at index `i`, with `left` = 512 - i indices before the end of the array. It stops with
  -- `false` at a packet that has not been sent.
  unfoldable pub mark_acked : ℤ → ℕ → ℕ → ℤ → Data F → Trackers → Option (Marked F)
  mark_acked socket zero i ack_number d trackers = some (true, d, trackers)
  mark_acked socket (suc left) i ack_number d trackers =
      if leb_ℤ (pos i) ack_number
      then elim (d.state i) [
        | unsend ↦ some (false, d, trackers)
        | acked ↦ mark_acked socket left (i + 1) ack_number d trackers
        | unacked ↦ do
          (r, trackers') ← remove_from_tracker trackers socket (pos i)
          mark_acked socket left (i + 1) ack_number (record d { state = store d.state i acked })
              trackers'
      ]
      else some (true, d, trackers)

  -- The loop from `start + 1`; an index below 0 is read out of bounds.
  unfoldable pub mark_from : ℤ → ℤ → ℤ → Data F → Trackers → Option (Marked F)
  unfolding mark_acked
  mark_from socket (pos i) ack_number d trackers =
      mark_acked socket (chunk_packet_number - i) i ack_number d trackers
  mark_from socket (negsuc i) ack_number d trackers =
      if leb_ℤ (negsuc i) ack_number then none else some (true, d, trackers)

module _ {F : Type 0} ⦃fl : FloatOps F⦄ where
  -- The fast retransmission of the packet behind `ack_number`.
  unfoldable pub retransmit : ℤ → ℤ → Data F → Trackers → Flow F → Option (Handled F)
  retransmit socket ack_number d trackers f =
      if ltb_ℤ ack_number (pos (chunk_packet_number - 1))
      then (do
        packet ← data_packet d (ack_number +ℤ pos 1)
        some (process_packet_loss socket f, trackers, packet ∷ []))
      else some (f, trackers, [])

  -- The end of the call, behind a loop that was not stopped.
  unfoldable pub advance : ℤ → ℤ → Flow F → Marked F → Option (Handled F)
  advance socket ack_number f (false, d, trackers) =
      some (record f { list = put_data socket d f.list }, trackers, [])
  advance socket ack_number f (true, d, trackers) =
      let (d', lines) = congestion_control (record d { start = ack_number }) in
      (do
        (f', ret) ←
            send_data socket (record { list = put_data socket d' f.list; log = lines ++ f.log })
        some (f', trackers, ret))

  unfoldable pub acknowledge : ℤ → ℤ → Trackers → Flow F → Data F → Option (Handled F)
  acknowledge socket ack_number trackers f d =
      let (d', repeated) = check_return_ack d ack_number in
      let f' = record f { list = put_data socket d' f.list } in
      if repeated then retransmit socket ack_number d' trackers f' else (do
        marked ← mark_from socket (d'.start +ℤ pos 1) ack_number d' trackers
        advance socket ack_number f' marked)

  unfoldable pub handle_ack : ℤ → ℤ → Trackers → Flow F → Option (Handled F)
  handle_ack socket ack_number trackers f = elim (get_data_by_socket socket f.list) [
    | none ↦ some (f, trackers, [])
    | some d ↦
        if ltb_ℤ (pos chunk_packet_number) ack_number
        then some (f, trackers, [])
        else acknowledge socket ack_number trackers f d
  ]
