-- ===== src/Peer/Sweep.antt =====
-- The sweep over the timers.
use p2p_cc.Base.{
  ℕ, ◌+◌, ◌≡◌, refl, ap, Bool, true, false, ◌&&◌, none, List, [], ◌∷◌, leb, if◌then◌else◌, arith,
  Bool-cases, inl, inr,
}
use p2p_cc.Base.Int.{pos, signed, to_u32, ◌==ℤ◌}
use p2p_cc.Packet.{swap32}
use p2p_cc.Tracker.{PacketTracker, Trackers, timeout, dummy_seq, timer_expired}
use p2p_cc.Sender.{Flow, FloatOps, get_data_by_socket, process_packet_loss}
use p2p_cc.Peer.{Datagram, sweep}

-- Whether an entry is to be sent again.
abbrev pub is_due : ℕ → PacketTracker → Bool
is_due now t = leb (t.send_time + timeout) now && (if t.seq ==ℤ dummy_seq then false else true)

-- The datagram for an entry, with the entry's number in network order.
abbrev pub resent_one : PacketTracker → Datagram
resent_one t = (
  t.from,
  record (t.packet) { header = record (t.packet.header) { seq_num = swap32 (to_u32 t.seq) } },
)

-- The datagrams for the entries that are due.
abbrev pub resent : ℕ → Trackers → List Datagram
resent now [] = []
resent now (t ∷ rest) = if is_due now t then resent_one t ∷ resent now rest else resent now rest

-- No entry is due.
abbrev pub NoneDue : ℕ → Trackers → Type 0
NoneDue now [] = Unit {0}
NoneDue now (t ∷ rest) = (is_due now t ≡ false) × NoneDue now rest

-- No packet in flight has an acknowledgement number.
abbrev pub AllData : Trackers → Type 0
AllData [] = Unit {0}
AllData (t ∷ rest) = (t.packet.header.ack_num ≡ 0) × AllData rest

-- The entries have the same peers and numbers.
abbrev pub SameKeys : Trackers → Trackers → Type 0
SameKeys [] [] = Unit {0}
SameKeys [] (t ∷ l) = ⊥
SameKeys (t ∷ l) [] = ⊥
SameKeys (t ∷ l) (t' ∷ l') = (t'.sock ≡ t.sock) × (t'.seq ≡ t.seq) × SameKeys l l'

module _ {F : Type 0} ⦃fl : FloatOps F⦄ where
  -- The sweep sends the packets whose timers have run out again, each once, in the order of the list,
  -- with its own number and to its own peer. It keeps every entry in its place, and afterwards no
  -- entry is due.
  pub sweep_lem :
      (now : ℕ) (trackers : Trackers) (f : Flow F)
      → let (trackers', f', sent) = sweep now trackers f in
        (sent ≡ resent now trackers) × SameKeys trackers trackers' × NoneDue now trackers'
  unfolding sweep timer_expired
  sweep_lem now [] f = (refl, tt, tt)
  sweep_lem now (t ∷ rest) f = elim (Bool-cases (leb (t.send_time + timeout) now)) [
    | inl expired ↦ elim (Bool-cases (t.seq ==ℤ dummy_seq)) [
      | inl dummy ↦
          let (e, k, d) = sweep_lem now rest f in
          rw (expired, dummy) (e, (refl, refl, k), (ground (arith, dummy), d))
      | inr real ↦
          let (e, k, d) =
            sweep_lem now rest (process_packet_loss (signed 32 t.packet.header.ack_num) f) in
          let renewed : leb (now + timeout) now ≡ false = ground arith in
          rw (expired, real) (ap (λ r. resent_one t ∷ r) e, (refl, refl, k), (rw renewed refl, d))
    ]
    | inr waiting ↦
        let (e, k, d) = sweep_lem now rest f in
        rw waiting (e, (refl, refl, k), (rw waiting refl, d))
  ]

  no-loss :
      (f : Flow F)
      → get_data_by_socket (pos 0) f.list ≡ none
      → process_packet_loss (signed 32 0) f ≡ f
  unfolding process_packet_loss
  no-loss f h = rw (h, process_packet_loss)

  -- With DATA packets in flight, whose acknowledgement number is 0, and no peer of id 0, the sweep
  -- leaves every window and threshold as it is, whatever timers have run out.
  pub sweep-flow :
      (now : ℕ) (trackers : Trackers) (f : Flow F)
      → AllData trackers
      → get_data_by_socket (pos 0) f.list ≡ none
      → (sweep now trackers f).1 ≡ f
  unfolding sweep timer_expired
  sweep-flow now [] f a h = refl
  sweep-flow now (t ∷ rest) f a h = elim (Bool-cases (leb (t.send_time + timeout) now)) [
    | inl expired ↦ elim (Bool-cases (t.seq ==ℤ dummy_seq)) [
      | inl dummy ↦ rw (expired, dummy) (sweep-flow now rest f a.1 h)
      | inr real ↦ rw (expired, real, a.0, no-loss f h) (sweep-flow now rest f a.1 h)
    ]
    | inr waiting ↦ rw waiting (sweep-flow now rest f a.1 h)
  ]
