-- ===== src/Sender/Marks.antt =====
-- The loop of `handle_ack`: which packets it marks, where it stops, and what it leaves tracked.
use p2p_cc.Base.{
  ℕ, zero, suc, ◌+◌, ◌≤◌, ◌<◌, min, ◌≡◌, ◌≢◌, refl, ◌∙◌, fun_ext, ◌&&◌, ◌||◌, Bool, true, false,
  Option, some, ◌==◌, arith, ltb, leb, if◌then◌else◌, store, Bool-cases, ◌⊎◌, inl, inr,
}
use p2p_cc.Base.Int.{ℤ, pos, sub_ℕ, leb_ℤ}
use p2p_cc.Tracker.{Trackers}
use p2p_cc.Sender.{Data, PacketState, unsend, unacked, acked, chunk_packet_number, mark_acked}
use p2p_cc.Sender.Pending.{
  HasDummy, pending, dropped, remove-dropped, HasDummy-dropped, pending-dropped,
}

-- The states after the packets from i up to m have been acknowledged.
abbrev pub mark_range : (ℕ → PacketState) → ℕ → ℕ → ℕ → PacketState
mark_range state i m k = if leb i k && ltb k m then acked else state k

pub mark_range-empty : (state : ℕ → PacketState) (i m : ℕ) → m ≤ i → mark_range state i m ≡ state
mark_range-empty state i m h = fun_ext (λ k. ground arith)

mark_range-store :
    (state : ℕ → PacketState) (i m : ℕ)
    → i < m
    → mark_range (store state i acked) (i + 1) m ≡ mark_range state i m
mark_range-store state i m h = fun_ext (λ k. ground arith)

mark_range-acked :
    (state : ℕ → PacketState) (i m : ℕ)
    → state i ≡ acked
    → i < m
    → mark_range state (i + 1) m ≡ mark_range state i m
mark_range-acked state i m e h =
    fun_ext (λ k. let at_i : k ≡ i → state k ≡ acked = λ q. rw q e in ground arith)

-- The first n packets have been sent, and no other.
pub record SentBelow (n : ℕ) (state : ℕ → PacketState) : Type 0 where
  pub unsent : (i : ℕ) → n ≤ i → state i ≡ unsend
  pub was_sent : (i : ℕ) → i < n → state i ≢ unsend

SentBelow-store :
    (n i : ℕ) (state : ℕ → PacketState)
    → SentBelow n state
    → i < n
    → SentBelow n (store state i acked)
SentBelow-store n i state v h = record {
  unsent = λ k p. ground (arith, v.unsent k p);
  was_sent = λ k p. ground (arith, v.was_sent k p);
}

PacketState-cases : (s : PacketState) → (s ≡ unsend) ⊎ (s ≡ unacked) ⊎ (s ≡ acked)
PacketState-cases unsend = inl refl
PacketState-cases unacked = inr (inl refl)
PacketState-cases acked = inr (inr refl)

module _ {F : Type 0} where
  -- What the loop leaves, for the acknowledgement of the packets below index `a`.
  pub record IsMarked (socket : ℤ) (i a n : ℕ) (d : Data F) (trackers : Trackers)
      (result : Option (Bool × Data F × Trackers)) : Type 0 where
    pub left_over : Trackers
    pub returns :
        result
        ≡ some (
          leb a n || n == chunk_packet_number,
          record d { state = mark_range d.state i (min a n) },
          left_over,
        )
    pub has_dummy : HasDummy left_over
    pub keeps : pending socket a left_over ≡ pending socket a trackers

  pub same_state :
      (d : Data F) {state : ℕ → PacketState} → state ≡ d.state → record d { state = state } ≡ d
  same_state d e i = record d { state = e i }

  IsMarked-acked :
      {socket : ℤ} {i a n : ℕ} {d : Data F} {trackers : Trackers}
      {result : Option (Bool × Data F × Trackers)}
      → d.state i ≡ acked
      → i < n
      → i < a
      → IsMarked socket (i + 1) a n d trackers result
      → IsMarked socket i a n d trackers result
  IsMarked-acked {i} {a} {n} {d} e p q m = record {
    left_over = m.left_over;
    returns = rw (← mark_range-acked d.state i (min a n) e (omega arith)) m.returns;
    has_dummy = m.has_dummy;
    keeps = m.keeps;
  }

  IsMarked-store :
      {socket : ℤ} {i a n : ℕ} {d : Data F} {trackers : Trackers}
      {result : Option (Bool × Data F × Trackers)}
      → i < n
      → i < a
      → IsMarked socket
          (i + 1)
          a
          n
          (record d { state = store d.state i acked })
          (dropped socket i trackers)
          result
      → IsMarked socket i a n d trackers result
  IsMarked-store {socket} {i} {a} {n} {d} {trackers} p q m = record {
    left_over = m.left_over;
    returns = rw (← mark_range-store d.state i (min a n) (omega arith)) m.returns;
    has_dummy = m.has_dummy;
    keeps = m.keeps ∙ pending-dropped socket i a trackers q;
  }

  pub mark_acked-IsMarked :
      (socket : ℤ) (left i a n : ℕ) (ack_number : ℤ) (d : Data F) (trackers : Trackers)
      → i + left ≡ chunk_packet_number
      → i ≤ n
      → n ≤ chunk_packet_number
      → ack_number ≡ sub_ℕ a 1
      → SentBelow n d.state
      → HasDummy trackers
      → IsMarked socket i a n d trackers (mark_acked socket left i ack_number d trackers)
  unfolding mark_acked
  mark_acked-IsMarked socket zero i a n ack_number d trackers len in_sent in_chunk ack v h =
      record {
        left_over = trackers;
        returns =
            rw (same_state d (mark_range-empty d.state i (min a n) (omega arith))) (ground arith);
        has_dummy = h;
        keeps = refl;
      }
  mark_acked-IsMarked socket (suc left) i a n ack_number d trackers len in_sent in_chunk ack v h =
      elim (Bool-cases (leb_ℤ (pos i) ack_number)) [
        | inr above ↦ record {
          left_over = trackers;
          returns =
              rw (above, same_state d (mark_range-empty d.state i (min a n) (ground arith)))
                (ground arith);
          has_dummy = h;
          keeps = refl;
        }
        | inl below ↦ rw below (elim (PacketState-cases (d.state i)) [
          | inl e ↦ rw e (record {
            left_over = trackers;
            returns = rw (
              stopped below e,
              same_state d (mark_range-empty d.state i (min a n) (first_unsent e)),
            );
            has_dummy = h;
            keeps = refl;
          })
          | inr (inl e) ↦
              let sent : i < n = sent_of (λ u. cc) in
              let (r, removed) = remove-dropped socket i trackers h in
              rw (e, removed)
                (IsMarked-store sent (below_a below) (
                  mark_acked-IsMarked socket left (i + 1) a n ack_number _
                    (dropped socket i trackers) (omega arith) (omega arith) in_chunk ack
                    (SentBelow-store n i d.state v sent) (HasDummy-dropped socket i trackers h)))
          | inr (inr e) ↦
              let sent : i < n = sent_of (λ u. cc) in
              rw e (
                IsMarked-acked e sent (below_a below) (
                  mark_acked-IsMarked socket left (i + 1) a n ack_number d trackers (omega arith)
                    (omega arith) in_chunk ack v h))
        ])
      ]
    where
      first_unsent : d.state i ≡ unsend → min a n ≤ i
      first_unsent e = ground (arith, v.was_sent i)

      sent_of : d.state i ≢ unsend → i < n
      sent_of e = ground (arith, v.unsent i)

      below_a : leb_ℤ (pos i) ack_number ≡ true → i < a
      below_a e = ground arith

      stopped :
          leb_ℤ (pos i) ack_number ≡ true
          → d.state i ≡ unsend
          → (leb a n || n == chunk_packet_number) ≡ false
      stopped b e = ground (arith, v.was_sent i)

  -- At the end of a chunk of which all packets have been sent, the loop does nothing.
  pub mark_acked-past :
      (socket : ℤ) (left i a n : ℕ) (ack_number : ℤ) (d : Data F) (trackers : Trackers)
      → left ≡ 0
      → n ≤ i
      → n ≡ chunk_packet_number
      → HasDummy trackers
      → IsMarked socket i a n d trackers (mark_acked socket left i ack_number d trackers)
  unfolding mark_acked
  mark_acked-past socket zero i a n ack_number d trackers z past full h = record {
    left_over = trackers;
    returns = rw (same_state d (mark_range-empty d.state i (min a n) (omega arith))) (ground arith);
    has_dummy = h;
    keeps = refl;
  }
  mark_acked-past socket (suc left) i a n ack_number d trackers z past full h = absurd (omega arith)
