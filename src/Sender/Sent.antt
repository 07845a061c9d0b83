-- ===== src/Sender/Sent.antt =====
-- What `send_data` sends: the packets that fit the window, each with its 1024 bytes of the chunk.
use mathlib.Core.List.{append-nil, append_assoc}
use p2p_cc.Base.{
  ℕ, zero, suc, ◌+◌, ◌-◌, ◌*◌, ◌≤◌, ◌<◌, min, ◌≡◌, refl, sym, ap, ◌∙◌, fun_ext, ◌&&◌, some, true,
  false, Bool-cases, inl, inr, List, [], ◌∷◌, ◌++◌, arith, ltb, leb, if◌then◌else◌, Bytes, store,
}
use p2p_cc.Base.Int.{
  ℤ, pos, pos_part, sub_ℕ, ◌+ℤ◌, ◌-ℤ◌, +ℤ_parts, -ℤ_parts, eq_of_parts, leb_ℤ, ltb_ℤ,
}
use p2p_cc.Packet.{Packet, data_type}
use p2p_cc.Packet.Layout.{plain_packet, init_packet-plain}
use p2p_cc.Sender.{
  Data, Flow, PacketState, unacked, chunk_packet_number, get_content_by_index, get_data_by_socket,
  put_data, with_seq, data_packet, send_next, send_packets, send_window_of, send_data,
}

-- Packet number n + 1 of a chunk: the bytes from n * 1024 on.
abbrev pub chunk_packet : Bytes → ℕ → Packet
chunk_packet content n =
    with_seq (plain_packet data_type (λ k. content (n * 1024 + k)) 1024) (pos (n + 1))

-- The packets at `count` indices from n on, the newest first.
abbrev pub chunk_packets : Bytes → ℕ → ℕ → List Packet
chunk_packets content n zero = []
chunk_packets content n (suc count) =
    chunk_packets content (n + 1) count ++ chunk_packet content n ∷ []

-- The states after the packets from n up to m have been sent.
abbrev pub mark_unacked : (ℕ → PacketState) → ℕ → ℕ → ℕ → PacketState
mark_unacked state n m i = if leb n i && ltb i m then unacked else state i

mark_unacked-empty : (state : ℕ → PacketState) (n m : ℕ) → m ≤ n → mark_unacked state n m ≡ state
mark_unacked-empty state n m h = fun_ext (λ i. ground arith)

mark_unacked-store :
    (state : ℕ → PacketState) (n m : ℕ)
    → n < m
    → mark_unacked (store state n unacked) (n + 1) m ≡ mark_unacked state n m
mark_unacked-store state n m h = fun_ext (λ i. ground arith)

module _ {F : Type 0} where
  -- The first n packets have been sent, and the bytes of the chunk are `content`.
  pub record IsSent (content : Bytes) (n : ℕ) (d : Data F) : Type 0 where
    pub has_content : d.content ≡ some content
    pub end_at : d.end ≡ sub_ℕ n 1
    pub in_chunk : n ≤ chunk_packet_number

  pub data_packet_lem :
      (content : Bytes) (n : ℕ) (d : Data F)
      → d.content ≡ some content
      → n < chunk_packet_number
      → data_packet d (pos n) ≡ some (chunk_packet content n)
  unfolding data_packet get_content_by_index ◌+ℤ◌
  data_packet_lem content n d e h =
      rw e (ground (arith, init_packet-plain [] data_type (λ k. content (n * 1024 + k)) 1024))

  next_end : (content : Bytes) (n : ℕ) (d : Data F) → IsSent content n d → d.end +ℤ pos 1 ≡ pos n
  next_end content n d v =
      rw v.end_at
        (eq_of_parts (sub_ℕ n 1 +ℤ pos 1) (pos n) (ground (arith, +ℤ_parts (sub_ℕ n 1) (pos 1))))

  -- The data after the packets from n up to m have been sent.
  abbrev pub sent_to : ℕ → ℕ → Data F → Data F
  sent_to n m d = record d { end = sub_ℕ m 1; state = mark_unacked d.state n m }

  send_next_lem :
      (content : Bytes) (n : ℕ) (d : Data F)
      → IsSent content n d
      → n < chunk_packet_number
      → send_next d
        ≡ some (record d { end = pos n; state = store d.state n unacked }, chunk_packet content n)
  unfolding send_next
  send_next_lem content n d v h =
      rw (next_end content n d v, data_packet_lem content n d v.has_content h)

  sent_to-same :
      (content : Bytes) (n m : ℕ) (d : Data F) → IsSent content n d → m ≡ n → sent_to n m d ≡ d
  sent_to-same content n m d v e =
      let ends : sub_ℕ m 1 ≡ d.end = rw e (sym v.end_at) in
      let states : mark_unacked d.state n m ≡ d.state =
        mark_unacked-empty d.state n m (omega arith) in
      λ i. record d { end = ends i; state = states i }

  one_more-IsSent :
      (content : Bytes) (n : ℕ) (d : Data F)
      → IsSent content n d
      → n < chunk_packet_number
      → IsSent content (n + 1) (record d { end = pos n; state = store d.state n unacked })
  one_more-IsSent content n d v h = record {
    has_content = v.has_content;
    end_at = ground arith;
    in_chunk = omega arith;
  }

  sent_to-sent_one :
      (n m m' : ℕ) (d : Data F)
      → n < m
      → m ≡ m'
      → sent_to (n + 1) m (record d { end = pos n; state = store d.state n unacked })
        ≡ sent_to n m' d
  sent_to-sent_one n m m' d h e =
      let states = mark_unacked-store d.state n m h in
      λ i. record d { end = sub_ℕ (e i) 1; state = (states ∙ ap (mark_unacked d.state n) e) i }

  not-last :
      (content : Bytes) (n : ℕ) (d : Data F)
      → IsSent content n d
      → n < chunk_packet_number
      → leb_ℤ (pos (chunk_packet_number - 1)) d.end ≡ false
  not-last content n d v h = ground arith

  is-last :
      (content : Bytes) (n : ℕ) (d : Data F)
      → IsSent content n d
      → n ≡ chunk_packet_number
      → leb_ℤ (pos (chunk_packet_number - 1)) d.end ≡ true
  is-last content n d v h = ground arith

  -- The loop sends the next `k` packets, where the chunk ends it early.
  send_packets_lem :
      (content : Bytes) (rounds k n : ℕ) (d : Data F) (ret : List Packet)
      → IsSent content n d
      → k ≡ min rounds (chunk_packet_number - n)
      → send_packets rounds d ret ≡ some (sent_to n (n + k) d, chunk_packets content n k ++ ret)
  unfolding send_packets
  send_packets_lem content zero zero n d ret v e =
      rw (sent_to-same content n (n + 0) d v (omega arith))
  send_packets_lem content zero (suc k) n d ret v e = absurd (omega arith)
  send_packets_lem content (suc rounds) zero n d ret v e =
      rw (is-last content n d v (omega arith), sent_to-same content n (n + 0) d v (omega arith))
  send_packets_lem content (suc rounds) (suc k) n d ret v e =
      let h : n < chunk_packet_number = omega arith in
      rw (
        not-last content n d v h,
        send_next_lem content n d v h,
        send_packets_lem content rounds k (n + 1) _ (chunk_packet content n ∷ ret)
            (one_more-IsSent content n d v h) (omega arith),
        sent_to-sent_one n (n + 1 + k) (n + suc k) d (omega arith) (omega arith),
        append_assoc,
      )

  -- The packets that a call of `send_data` has room for.
  abbrev pub room : ℕ → Data F → ℕ
  room n d = min (pos_part (pos d.send_window -ℤ (d.end -ℤ d.start))) (chunk_packet_number - n)

  end-in :
      (content : Bytes) (n : ℕ) (d : Data F)
      → IsSent content n d
      → leb_ℤ d.end (pos (chunk_packet_number - 1)) ≡ true
  end-in content n d v = ground arith

  no-room :
      (content : Bytes) (n : ℕ) (d : Data F)
      → IsSent content n d
      → ltb_ℤ (d.end -ℤ d.start) (pos d.send_window) ≡ false
      → room n d ≡ 0
  no-room content n d v h = ground (arith, -ℤ_parts (pos d.send_window) (d.end -ℤ d.start))

  pub send_window_of_lem :
      (content : Bytes) (n : ℕ) (d : Data F)
      → IsSent content n d
      → send_window_of d ≡ some (sent_to n (n + room n d) d, chunk_packets content n (room n d))
  unfolding send_window_of
  send_window_of_lem content n d v =
      elim (Bool-cases (ltb_ℤ (d.end -ℤ d.start) (pos d.send_window))) [
        | inl lt ↦ rw (
          lt,
          end-in content n d v,
          send_packets_lem content _ (room n d) n d [] v refl,
          append-nil,
        )
        | inr ge ↦
            rw (ge, no-room content n d v ge, sent_to-same content n (n + 0) d v (omega arith))
      ]

  -- `send_data` for a socket whose chunk is being sent: it moves the window's end on by the packets
  -- that the window and the chunk have room for, marks exactly these as unacknowledged, and returns
  -- them, newest first, each with its sequence number and its 1024 bytes of the chunk.
  pub send_data_lem :
      (socket : ℤ) (content : Bytes) (n : ℕ) (d : Data F) (f : Flow F)
      → get_data_by_socket socket f.list ≡ some d
      → IsSent content n d
      → send_data socket f
        ≡ some (
          record f { list = put_data socket (sent_to n (n + room n d) d) f.list },
          chunk_packets content n (room n d),
        )
  unfolding send_data
  send_data_lem socket content n d f e v = rw (e, send_data, send_window_of_lem content n d v)
