-- ===== src/Peer/Order.antt =====
-- The order in which the packets of a chunk leave.
use p2p_cc.Base.{
  some, ℕ, zero, suc, ◌+◌, ◌%◌, ◌^◌, ◌≤◌, ◌≡◌, refl, ◌∙◌, ap, List, [], ◌∷◌, ◌++◌, map, arith,
  Bytes,
}
use p2p_cc.Base.Int.{ℤ}
use p2p_cc.Sender.{chunk_packet_number, Data, Flow, get_data_by_socket, put_data, send_data}
use p2p_cc.Sender.Sent.{chunk_packet, chunk_packets, IsSent, room, sent_to, send_data_lem}
use p2p_cc.Packet.{Packet}
use p2p_cc.Peer.{reverse_onto, reverse_list}

-- The numbers from, from + 1, ..., k of them.
abbrev pub numbers : ℕ → ℕ → List ℕ
numbers from zero = []
numbers from (suc k) = from ∷ numbers (from + 1) k

pub reverse_onto-append :
    {A : Type 0} (cursor xs ys : List A)
    → reverse_onto cursor (xs ++ ys) ≡ reverse_onto (reverse_onto cursor xs) ys
unfolding reverse_onto
reverse_onto-append cursor [] ys = refl
reverse_onto-append cursor (x ∷ xs) ys = reverse_onto-append (x ∷ cursor) xs ys

-- The numbers of the packets of a chunk, with those that are in the cursor already.
reverse-numbers :
    (content : Bytes) (n count : ℕ)
    → n + count ≤ chunk_packet_number
    → map (λ p. p.header.seq_num) (reverse_list (chunk_packets content n count))
      ≡ numbers (n + 1) count
unfolding reverse_list reverse_onto
reverse-numbers content n zero h = refl
reverse-numbers content n (suc count) h =
    let number : (n + 1) % 2 ^ 32 ≡ n + 1 = omega arith in
    ap (map (λ p. p.header.seq_num))
      (reverse_onto-append [] (chunk_packets content (n + 1) count) (chunk_packet content n ∷ []))
    ∙ rw number
        (ap (λ (r : List ℕ). (n + 1) ∷ r) (reverse-numbers content (n + 1) count (omega arith)))

module _ {F : Type 0} where
  -- What `send_data` returns for a chunk of which the first n packets have been sent leaves in order:
  -- reversed, as `process_inbound_udp` does it, the packets are numbered n + 1, n + 2 and so on, one
  -- for each place that the window has left before the chunk's end.
  pub send_data-reverse_list :
      (socket : ℤ) (content : Bytes) (n : ℕ) (d : Data F) (f : Flow F)
      → get_data_by_socket socket f.list ≡ some d
      → IsSent content n d
      → (f' : Flow F) × (ret : List Packet) × (send_data socket f ≡ some (f', ret))
        × (map (λ p. p.header.seq_num) (reverse_list ret) ≡ numbers (n + 1) (room n d))
  send_data-reverse_list socket content n d f e v = (
    record f { list = put_data socket (sent_to n (n + room n d) d) f.list },
    chunk_packets content n (room n d),
    send_data_lem socket content n d f e v,
    reverse-numbers content n (room n d) (omega (arith, v.in_chunk)),
  )
