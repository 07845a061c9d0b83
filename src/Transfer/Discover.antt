-- ===== src/Transfer/Discover.antt =====
-- How a peer finds a chunk: WHOHAS, IHAVE and GET in `handle_packet` (packet.c) at both ends.
use mathlib.Core.Path.{subst}
use p2p_cc.Base.{
  ℕ, zero, suc, ◌+◌, ◌*◌, ◌≤◌, ◌<◌, ◌≡◌, refl, sym, ◌∙◌, ap, fun_ext, true, false, some, List, [],
  ◌∷◌, inl, inr, arith, Bytes, bytes_of, copy_at, length, Bool-cases, ltb, if◌then◌else◌, ◌/◌,
}
use p2p_cc.Base.Int.{ℤ, pos, minus_one, ◌==ℤ◌}
use p2p_cc.Packet.{
  Packet, from_wire, to_wire, swap_header, host_header, whohas, ihave, get, data_size,
}
use p2p_cc.Packet.Layout.{plain_packet}
use p2p_cc.Tracker.{Trackers}
use p2p_cc.Sender.{FloatOps}
use p2p_cc.Sender.Sent.{chunk_packet}
use p2p_cc.Sender.Sending.{AllSending}
use p2p_cc.Receiver.{in_use, new_buffer}
use p2p_cc.Hashes.{
  get_data_from_hash, read_chunkfile, strlen, search_local, get_off_set_from_master_chunkfile,
}
use p2p_cc.Manager.{Node, Owner, PeerState, count_of, find_node, handle_packet, answer}
use p2p_cc.Manager.Reply.{asked, offered, IsReply, one, handle_packet-whohas}
use p2p_cc.Manager.Stored.{IsFetching, IsListed}
use p2p_cc.Manager.Wanted.{chunk_of, is_wanted}
use p2p_cc.Manager.Have.{handle_packet-ihave}
use p2p_cc.Manager.Get.{hash_of, handle_packet-get}
use p2p_cc.Transfer.Link.{Side}

-- The 20 bytes of the hash are all that counts.
same_hash_bytes :
    (a b : Bytes)
    → ((j : ℕ) → j < 20 → a j ≡ b j)
    → copy_at (bytes_of []) 0 a 20 ≡ copy_at (bytes_of []) 0 b 20
same_hash_bytes a b h = fun_ext (λ j. elim (Bool-cases (ltb j 20)) [
  | inl inside ↦ let at = h j (ground arith) in ground (arith, at)
  | inr outside ↦ ground arith
])

-- A GET packet carries the hash that it is made of.
hash_of-plain_packet :
    (b : Bytes)
    → hash_of (to_wire (plain_packet get (copy_at (bytes_of []) 0 b 20) 20))
      ≡ copy_at (bytes_of []) 0 b 20
unfolding to_wire
hash_of-plain_packet b = fun_ext (λ j. ground arith)

-- The reply to a question for one hash: an IHAVE packet with that hash.
one_reply :
    (p : Packet) (packets : List Packet)
    → IsReply p (0 ∷ []) packets
    → (q : Packet) × (packets ≡ q ∷ [])
      × (q.header.packet_type ≡ ihave)
      × (q.payload 0 ≡ 1)
      × (asked q 0 ≡ asked p 0)
one_reply p packets (one k ks q type len count bytes) = (
  q,
  refl,
  type,
  count,
  same_hash_bytes (λ j. q.payload (4 + 20 * 0 + j)) (λ j. p.payload (4 + 20 * 0 + j))
      (λ j h. byte j h (bytes j (omega arith))),
)
  where
    byte :
        (j : ℕ)
        → j < 20
        → q.payload (4 + j) ≡ (if ltb j 20 then p.payload (4 + 20 * 0 + j) else 0)
        → q.payload (4 + 20 * 0 + j) ≡ p.payload (4 + 20 * 0 + j)
    byte j h e = ground (arith, e)

module _ {F : Type 0} ⦃fl : FloatOps F⦄ where
  -- An IHAVE packet with one hash, which is wanted.
  get_one :
      (asking : Side) (q : Packet) (trackers : Trackers) (a : PeerState F) (node : Node)
      (v : IsFetching a.manager) (used : List Owner)
      → q.header.packet_type ≡ ihave
      → find_node asking.other asking.config.peers ≡ some node
      → a.manager.already_used ≡ some used
      → q.payload 0 ≡ 1
      → is_wanted asking.config asking.other a.recv_list q 0 ≡ true
      → IsListed (chunk_of asking.config q 0) a.manager v
      → (a' : PeerState F) × (handle_packet asking.world asking.config asking.other q trackers a
          ≡ some (answer trackers a' (plain_packet get (asked q 0) 20 ∷ [])))
        × (a'.recv_list
            ≡ new_buffer asking.world.contents (chunk_of asking.config q 0) asking.other
              ∷ a.recv_list)
  get_one asking q trackers a node v used type here owners one_hash wanted listed =
      let count : count_of q ≡ 1 = rw one_hash refl in
      let step =
        handle_packet-ihave asking.world asking.config asking.other node q trackers a v used type
          here owners (omega (arith, count))
          (λ j h w.
            first (λ i. IsListed (chunk_of asking.config q i) a.manager v) j (omega (arith, count))
              listed) in
      elim step [
        | inl (same, none_wanted) ↦
            let other = none_wanted 0 (omega (arith, count)) in
            let wrong : true ≡ false = sym wanted ∙ other in cc
        | inr (k, place, below, w, before, inside, e) ↦
            let is_first : k ≡ 0 = omega (arith, count) in
            let Made : ℕ → Type 0 = λ i.
              (a' : PeerState F) × (handle_packet asking.world asking.config asking.other q trackers
                  a
                ≡ some (answer trackers a' (plain_packet get (asked q i) 20 ∷ [])))
              × (a'.recv_list
                  ≡ new_buffer asking.world.contents (chunk_of asking.config q i) asking.other
                    ∷ a.recv_list) in
            let made : Made k = (_, e, refl) in subst Made is_first made
      ]
    where
      first : (P : ℕ → Type 0) (j : ℕ) → j < 1 → P 0 → P j
      first P zero h p = p
      first P (suc j) h p = absurd (omega arith)

  -- Two peers, one of which asks for a chunk by a WHOHAS packet with one hash. The other has the hash
  -- in its list, and data for it in its master chunk file. The asking peer is fetching a file with
  -- that chunk, knows the other peer, and no buffer in use is for the chunk or the peer. Then the
  -- other peer answers by one IHAVE packet and nothing else; that makes the asking peer a new buffer for the
  -- chunk and one GET packet with the hash, and no other; and that GET packet is answered by the
  -- first DATA packet of the data.
  pub discover_lem :
      (asking having : Side) (question : Packet) (t1 t2 t3 : Trackers) (a b : PeerState F)
      (count size : ℕ) (local : Bytes) (content : Bytes) (node : Node) (v : IsFetching a.manager)
      (used : List Owner)
      → question.header.packet_type ≡ whohas
      → count_of (from_wire question) ≡ 1
      → read_chunkfile 100 having.config.has_chunk_file having.world.local ≡ some (pos count, local)
      → strlen 100 0 local ≡ some size
      → search_local (size / 20) 0 (asked question 0) local ≡ pos 1
      → length having.world.junk + 5 ≤ data_size
      → find_node asking.other asking.config.peers ≡ some node
      → a.manager.already_used ≡ some used
      → is_wanted asking.config asking.other a.recv_list question 0 ≡ true
      → IsListed (chunk_of asking.config question 0) a.manager v
      → get_data_from_hash having.world.block having.world.stray
          (asked question 0)
          having.config.chunk_file
        ≡ some (some content)
      → AllSending b.flow.list
      → (have : Packet) × (a' : PeerState F) × (b' : PeerState F) × (handle_packet having.world
            having.config having.other question t1 b
          ≡ some (answer t1 b (have ∷ [])))
        × (handle_packet asking.world asking.config asking.other (to_wire have) t2 a
            ≡ some (answer t2 a' (plain_packet get (asked question 0) 20 ∷ [])))
        × (a'.recv_list
            ≡ new_buffer asking.world.contents (chunk_of asking.config question 0) asking.other
              ∷ a.recv_list)
        × (handle_packet having.world having.config having.other
              (to_wire (plain_packet get (asked question 0) 20))
              t3
              b
            ≡ some (answer t3 b' (chunk_packet content 0 ∷ [])))
        × AllSending b'.flow.list
  unfolding to_wire from_wire swap_header host_header
  discover_lem asking having question t1 t2 t3 a b count size local content node v used type hashes
        read len found junk here owners wanted listed found_data all =
      let known : offered 1 0 (from_wire question) (size / 20) local ≡ 0 ∷ [] = rw found refl in
      let one_known : offered (count_of (from_wire question)) 0 (from_wire question) (size / 20)
            local
          ≡ 0 ∷ [] =
        ap (λ n. offered n 0 (from_wire question) (size / 20) local) hashes ∙ known in
      let (packets, e, reply) =
        handle_packet-whohas having.world having.config having.other question t1 b count size local
          type read len (omega (arith, hashes)) junk in
      let (q, single, q_type, q_count, q_hash) =
        one_reply (from_wire question) packets
          (subst (λ ks. IsReply (from_wire question) ks packets) one_known reply) in
      let chunk : Bytes → ℤ = λ h. get_off_set_from_master_chunkfile h asking.config.chunk_file in
      let Wanted : Bytes → Type 0 = λ h.
        (if chunk h ==ℤ minus_one
          then false
          else if in_use (chunk h) asking.other a.recv_list
          then false
          else true)
        ≡ true in
      let (a', e', made) =
        get_one asking (to_wire q) t2 a node v used q_type here owners q_count
          (subst Wanted (sym q_hash) wanted)
          (subst (λ (h : Bytes). IsListed (chunk h) a.manager v) (sym q_hash) listed) in
      let request : Bytes → Packet = λ h. to_wire (plain_packet get h 20) in
      let get_hash = hash_of-plain_packet (λ j. question.payload (4 + 20 * 0 + j)) in
      let stored =
        ap
          (λ (h : Bytes).
            get_data_from_hash having.world.block having.world.stray h having.config.chunk_file)
          get_hash
        ∙ found_data in
      let (flow, e'', all', started) =
        handle_packet-get having.world having.config having.other (request (asked question 0)) t3 b
          content refl stored all in
      let b' : PeerState F = record b { flow = flow } in
      (
        q,
        a',
        b',
        e ∙ ap (λ (ps : List Packet). some (answer t1 b ps)) single,
        e' ∙ ap (λ (h : Bytes). some (answer t2 a' (plain_packet get h 20 ∷ []))) q_hash,
        made
            ∙ ap
                (λ (h : Bytes).
                  new_buffer asking.world.contents (chunk h) asking.other ∷ a.recv_list)
                q_hash,
        e'',
        all',
      )
