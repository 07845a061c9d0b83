-- ===== src/Sender/Invariant.antt =====
-- The invariant of a chunk that is being sent, and the operations on one `data_t` that keep it.
use p2p_cc.Base.{
  ℕ, ◌+◌, ◌-◌, ◌≤◌, ◌<◌, min, ◌≡◌, refl, ◌∙◌, ◌⊎◌, Bool-cases, inl, inr, some, ◌==◌, ◌||◌, true,
  arith, leb, Bytes,
}
use p2p_cc.Base.Int.{ℤ, pos, sub_ℕ, ◌+ℤ◌, +ℤ_parts, eq_of_parts}
use p2p_cc.Tracker.{Trackers}
use p2p_cc.Sender.{
  Data, FloatOps, acked, chunk_packet_number, new_data, lose, check_return_ack, congestion_control,
  mark_from,
}
use p2p_cc.Sender.Sent.{IsSent, sent_to}
use p2p_cc.Sender.Pending.{HasDummy}
use p2p_cc.Sender.Marks.{SentBelow, mark_range, IsMarked, mark_acked-IsMarked, mark_acked-past}

next_start : (s : ℕ) (start : ℤ) → start ≡ sub_ℕ s 1 → start +ℤ pos 1 ≡ pos s
next_start s start e =
    rw e (eq_of_parts (sub_ℕ s 1 +ℤ pos 1) (pos s) (ground (arith, +ℤ_parts (sub_ℕ s 1) (pos 1))))

module _ {F : Type 0} where
  -- The first n packets have been sent, and the first s of them have been acknowledged: `end` is
  -- n - 1 and `start` is s - 1. Behind the last packet `start` may be one larger than `end`.
  pub record IsSender (content : Bytes) (n s : ℕ) (d : Data F) : Type 0 where
    pub sent : IsSent content n d
    pub states : SentBelow n d.state
    pub start_at : d.start ≡ sub_ℕ s 1
    pub start_in : s ≤ chunk_packet_number + 1
    pub in_order : (s ≤ n) ⊎ (n ≡ chunk_packet_number)
    pub confirmed : (i : ℕ) → i < s → i < n → d.state i ≡ acked
    pub window : 1 ≤ d.send_window

  -- The invariant speaks of these fields only.
  IsSender-same :
      {content : Bytes} {n s : ℕ} {d : Data F} (d' : Data F)
      → d'.content ≡ d.content
      → d'.state ≡ d.state
      → d'.start ≡ d.start
      → d'.end ≡ d.end
      → 1 ≤ d'.send_window
      → IsSender content n s d
      → IsSender content n s d'
  IsSender-same {n} d' content state start end window v = record {
    sent = record {
      has_content = content ∙ v.sent.has_content;
      end_at = end ∙ v.sent.end_at;
      in_chunk = v.sent.in_chunk;
    };
    states = rw state v.states;
    start_at = start ∙ v.start_at;
    start_in = v.start_in;
    in_order = v.in_order;
    confirmed = rw state v.confirmed;
    window = window;
  }

  pub sent_to-IsSender :
      (content : Bytes) (n m s : ℕ) (d : Data F)
      → n ≤ m
      → m ≤ chunk_packet_number
      → IsSender content n s d
      → IsSender content m s (sent_to n m d)
  sent_to-IsSender content n m s d h k v = record {
    sent = record { has_content = v.sent.has_content; end_at = refl; in_chunk = k };
    states = record {
      unsent = λ i p. ground (arith, v.states.unsent i);
      was_sent = λ i p. ground (arith, v.states.was_sent i);
    };
    start_at = v.start_at;
    start_in = v.start_in;
    in_order = ground (arith, v.in_order);
    confirmed = λ i p q. ground (arith, v.confirmed i);
    window = v.window;
  }

  pub check_return_ack-IsSender :
      (content : Bytes) (n s : ℕ) (d : Data F) (ack : ℤ)
      → IsSender content n s d
      → IsSender content n s (check_return_ack d ack).0
  unfolding check_return_ack
  check_return_ack-IsSender content n s d ack v =
      IsSender-same (check_return_ack d ack).0 (ground arith) (ground arith) (ground arith)
        (ground arith) (ground (arith, v.window)) v

  -- The data behind the loop of `handle_ack`.
  abbrev pub marked : ℕ → ℕ → Data F → Data F
  marked s m d = record d { state = mark_range d.state s m }

  -- After the loop has run from the window's start for an acknowledgement of the packets below `a`.
  pub marked-IsSender :
      (content : Bytes) (n s a : ℕ) (d : Data F)
      → IsSender content n s d
      → IsSender content n s (marked s (min a n) d)
  marked-IsSender content n s a d v = record {
    sent = record {
      has_content = v.sent.has_content;
      end_at = v.sent.end_at;
      in_chunk = v.sent.in_chunk;
    };
    states = record {
      unsent = λ i p. ground (arith, v.states.unsent i);
      was_sent = λ i p. ground (arith, v.states.was_sent i);
    };
    start_at = v.start_at;
    start_in = v.start_in;
    in_order = v.in_order;
    confirmed = λ i p q. ground (arith, v.confirmed i);
    window = v.window;
  }

  -- The window's start moves to the acknowledged packet, also where that is further back.
  pub start-IsSender :
      (content : Bytes) (n s a : ℕ) (ack : ℤ) (d : Data F)
      → IsSender content n s d
      → ack ≡ sub_ℕ a 1
      → a ≤ chunk_packet_number + 1
      → (leb a n || n == chunk_packet_number) ≡ true
      → IsSender content n a (record (marked s (min a n) d) { start = ack })
  start-IsSender content n s a ack d v e h flag = record {
    sent = record {
      has_content = v.sent.has_content;
      end_at = v.sent.end_at;
      in_chunk = v.sent.in_chunk;
    };
    states = (marked-IsSender content n s a d v).states;
    start_at = e;
    start_in = h;
    in_order = ground arith;
    confirmed = λ i p q. ground (arith, v.confirmed i);
    window = v.window;
  }

  -- The loop from `start + 1` reads no index out of bounds.
  pub mark_from-IsMarked :
      (socket : ℤ) (content : Bytes) (n s a : ℕ) (ack : ℤ) (d : Data F) (trackers : Trackers)
      → IsSender content n s d
      → ack ≡ sub_ℕ a 1
      → HasDummy trackers
      → IsMarked socket s a n d trackers (mark_from socket (d.start +ℤ pos 1) ack d trackers)
  unfolding mark_from
  mark_from-IsMarked socket content n s a ack d trackers v e h =
      rw (next_start s d.start v.start_at) (elim (Bool-cases (leb s n)) [
        | inl below ↦
            mark_acked-IsMarked socket (chunk_packet_number - s) s a n ack d trackers
              (ground (arith, v.sent.in_chunk)) (ground arith) v.sent.in_chunk e v.states h
        | inr above ↦
            mark_acked-past socket (chunk_packet_number - s) s a n ack d trackers
              (ground (arith, v.in_order)) (ground arith) (ground (arith, v.in_order)) h
      ])

module _ {F : Type 0} ⦃fl : FloatOps F⦄ where
  pub new_data-IsSender :
      (prev : ℕ) (count socket offset : ℤ) (content : Bytes)
      → IsSender {F = F} content 0 0 (new_data prev count socket offset (some content))
  unfolding new_data
  new_data-IsSender prev count socket offset content = record {
    sent = record { has_content = refl; end_at = refl; in_chunk = omega arith };
    states = record { unsent = λ i p. refl; was_sent = λ i p. absurd (omega arith) };
    start_at = refl;
    start_in = omega arith;
    in_order = inl (omega arith);
    confirmed = λ i p q. absurd (omega arith);
    window = omega arith;
  }

  pub lose-IsSender :
      (content : Bytes) (n s : ℕ) (d : Data F)
      → IsSender content n s d
      → IsSender content n s (lose d)
  unfolding lose
  lose-IsSender content n s d v = IsSender-same (lose d) refl refl refl refl (omega arith) v

  pub congestion_control-IsSender :
      (content : Bytes) (n s : ℕ) (d : Data F)
      → IsSender content n s d
      → IsSender content n s (congestion_control d).0
  unfolding congestion_control
  congestion_control-IsSender content n s d v =
      IsSender-same (congestion_control d).0 (ground arith) (ground arith) (ground arith)
        (ground arith) (ground (arith, v.window)) v
