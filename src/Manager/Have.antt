-- ===== src/Manager/Have.antt =====
-- What an IHAVE packet does (`handle_packet` of packet.c).
use p2p_cc.Base.{
  ℕ, zero, suc, ◌+◌, ◌*◌, ◌≤◌, ◌<◌, ◌≡◌, refl, true, false, some, none, List, [], ◌∷◌, ◌⊎◌, inl,
  inr, Bool-cases, leb, arith,
}
use p2p_cc.Base.Int.{ℤ}
use p2p_cc.Packet.{Packet, from_wire, swap_header, data_size, ihave, get}
use p2p_cc.Packet.Layout.{plain_packet}
use p2p_cc.Tracker.{Trackers}
use p2p_cc.Sender.{FloatOps}
use p2p_cc.Receiver.{Buffer, new_buffer}
use p2p_cc.Manager.{
  Node, Config, Owner, FileManager, PeerState, World, Getting, hash_at, count_of, find_node,
  get_from, handle_ihave, handle_packet, answer,
}
use p2p_cc.Manager.Reply.{asked}
use p2p_cc.Manager.Stored.{IsFetching, IsListed, IsPlace}
use p2p_cc.Manager.Wanted.{
  chunk_of, is_wanted, asked_at, got, get_chunk-other, get_chunk-wanted, got-other, get_from-other,
}

-- What the loop makes of the hashes i, ..., i + left - 1: nothing if none is wanted, else a request for
-- the first that is.
abbrev Answered :
    World
    → Config
    → ℤ
    → Node
    → Packet
    → (m : FileManager) → IsFetching m
    → List Owner
    → List Buffer
    → ℕ
    → ℕ
    → Getting
    → Type 0
Answered w config socket node p m v used l i left g =
    ((g ≡ record { manager = m; recv_list = l; ret = [] })
      × ((j : ℕ) → i ≤ j → j < i + left → is_wanted config socket l p j ≡ false))
    ⊎ ((k : ℕ) × (place : ℕ) × (i ≤ k)
        × (k < i + left)
        × (is_wanted config socket l p k ≡ true)
        × ((j : ℕ) → i ≤ j → j < k → is_wanted config socket l p j ≡ false)
        × IsPlace m v (chunk_of config p k) place
        × (g ≡ got w config socket node p m v used l k place))

get_from_lem :
    (left i : ℕ) (w : World) (config : Config) (socket : ℤ) (node : Node) (p : Packet)
    (m : FileManager) (v : IsFetching m) (used : List Owner) (l : List Buffer)
    → find_node socket config.peers ≡ some node
    → m.already_used ≡ some used
    → 4 + 20 * (i + left) ≤ data_size
    → ((j : ℕ)
        → i ≤ j
        → j < i + left
        → is_wanted config socket l p j ≡ true
        → IsListed (chunk_of config p j) m v)
    → (g : Getting) × (get_from left i w config socket p
          (record { manager = m; recv_list = l; ret = [] })
        ≡ some (true, g))
      × Answered w config socket node p m v used l i left g
unfolding get_from hash_at
get_from_lem zero i w config socket node p m v used l here e room listed =
    (_, refl, inl (refl, λ j a b. absurd (omega arith)))
get_from_lem (suc left) i w config socket node p m v used l here e room listed =
    let fits : leb (4 + 20 * i + 20) data_size ≡ true = ground arith in
    elim (Bool-cases (is_wanted config socket l p i)) [
      | inl wanted ↦
          let (place, inside, now) =
            get_chunk-wanted w config socket node p i m v used l e wanted
              (listed i (omega arith) (omega arith) wanted) in
          let rest =
            get_from-other left (i + 1) w config socket node p
              (got w config socket node p m v used l i place) _ here refl (omega arith)
              (λ j a b. got-other w config socket node p m v used l i place j) in
          (
            got w config socket node p m v used l i place,
            rw (fits, here, now) rest,
            inr (
              i,
              place,
              omega arith,
              omega arith,
              wanted,
              λ j a b. absurd (omega arith),
              inside,
              refl,
            ),
          )
      | inr other ↦
          let skip =
            get_chunk-other w config socket node p i
              (record { manager = m; recv_list = l; ret = [] }) used e other in
          let (g, rest, a) =
            get_from_lem left (i + 1) w config socket node p m v used l here e (omega arith)
              (λ j a b. listed j (omega arith) (omega arith)) in
          (g, rw (fits, here, skip) rest, later w config socket node p m v used l i left g other a)
    ]
  where
    first_or_later : (i j : ℕ) → i ≤ j → (i ≡ j) ⊎ (i + 1 ≤ j)
    first_or_later i j a = elim (Bool-cases (leb (i + 1) j)) [
      | inl behind ↦ inr (ground arith)
      | inr same ↦ inl (ground arith)
    ]

    earlier :
        (config : Config) (socket : ℤ) (l : List Buffer) (p : Packet) (i n : ℕ)
        → is_wanted config socket l p i ≡ false
        → ((j : ℕ) → i + 1 ≤ j → j < n → is_wanted config socket l p j ≡ false)
        → (j : ℕ) → i ≤ j
        → j < n
        → is_wanted config socket l p j ≡ false
    earlier config socket l p i n first rest j a b = elim (first_or_later i j a) [
      | inl same ↦ rw same at first
      | inr behind ↦ rest j behind b
    ]

    later :
        (w : World) (config : Config) (socket : ℤ) (node : Node) (p : Packet) (m : FileManager)
        (v : IsFetching m) (used : List Owner) (l : List Buffer) (i left : ℕ) (g : Getting)
        → is_wanted config socket l p i ≡ false
        → Answered w config socket node p m v used l (i + 1) left g
        → Answered w config socket node p m v used l i (suc left) g
    later w config socket node p m v used l i left g other (inl (same, none_wanted)) = inl (
      same,
      earlier config socket l p i (i + suc left) other (λ j a b. none_wanted j a (omega arith)),
    )
    later w config socket node p m v used l i left g other
          (inr (k, place, a, b, wanted, before, inside, e)) =
        inr (
          k,
          place,
          omega arith,
          omega arith,
          wanted,
          earlier config socket l p i k other before,
          inside,
          e,
        )

module _ {F : Type 0} ⦃fl : FloatOps F⦄ where
  handle_packet-handle_ihave :
      (w : World) (config : Config) (socket : ℤ) (packet : Packet) (trackers : Trackers)
      (s : PeerState F)
      → packet.header.packet_type ≡ ihave
      → handle_packet w config socket packet trackers s
        ≡ handle_ihave w config socket (from_wire packet) trackers s
  unfolding handle_packet from_wire swap_header
  handle_packet-handle_ihave w config socket packet trackers s type = rw type

  pub handle_packet-ihave :
      (w : World) (config : Config) (socket : ℤ) (node : Node) (packet : Packet)
      (trackers : Trackers) (s : PeerState F) (v : IsFetching s.manager) (used : List Owner)
      → packet.header.packet_type ≡ ihave
      → find_node socket config.peers ≡ some node
      → s.manager.already_used ≡ some used
      → 4 + 20 * count_of packet ≤ data_size
      → ((j : ℕ)
          → j < count_of packet
          → is_wanted config socket s.recv_list packet j ≡ true
          → IsListed (chunk_of config packet j) s.manager v)
      → ((handle_packet w config socket packet trackers s ≡ some (answer trackers s []))
          × ((j : ℕ) → j < count_of packet → is_wanted config socket s.recv_list packet j ≡ false))
        ⊎ ((k : ℕ) × (place : ℕ) × (k < count_of packet)
            × (is_wanted config socket s.recv_list packet k ≡ true)
            × ((j : ℕ) → j < k → is_wanted config socket s.recv_list packet j ≡ false)
            × IsPlace s.manager v (chunk_of config packet k) place
            × (handle_packet w config socket packet trackers s
                ≡ some (record {
                  exited = false;
                  peer = record s {
                    manager =
                        asked_at s.manager v
                          (record { offset = chunk_of config packet k; address = node.addr } ∷ used)
                          place
                          w.now;
                    recv_list =
                        new_buffer w.contents (chunk_of config packet k) socket ∷ s.recv_list;
                  };
                  trackers = trackers;
                  packets = plain_packet get (asked packet k) 20 ∷ [];
                  file = none;
                })))
  unfolding handle_ihave from_wire
  handle_packet-ihave w config socket node packet trackers s v used type here e room listed =
      let p = from_wire packet in
      let (g, r, a) =
        get_from_lem (count_of p) 0 w config socket node p s.manager v used s.recv_list here e
          (omega (arith, room)) (λ j x y. listed j (omega (arith, y))) in
      let start = handle_packet-handle_ihave w config socket packet trackers s type in
      elim a [
        | inl (same, none_wanted) ↦
            inl (rw (start, r, same), λ j h. none_wanted j (omega arith) (omega arith))
        | inr (k, place, x, y, wanted, before, inside, same) ↦ inr (
          k,
          place,
          omega arith,
          wanted,
          λ j h. before j (omega arith) h,
          inside,
          rw (start, r, same),
        )
      ]
