-- ===== src/Manager/Wanted.antt =====
-- The hashes of an IHAVE packet that a peer asks for (`handle_packet` of packet.c).
use p2p_cc.Base.{
  ℕ, zero, suc, ◌+◌, ◌*◌, ◌≤◌, ◌<◌, ◌≡◌, refl, Bool, true, false, some, List, [], ◌∷◌, inl, inr,
  Bool-cases, leb, if◌then◌else◌, arith, store, Bytes,
}
use p2p_cc.Base.Int.{ℤ, pos, minus_one, ◌==ℤ◌, ==ℤ_self}
use p2p_cc.Packet.{Packet, data_size, get}
use p2p_cc.Packet.Layout.{plain_packet, init_packet-plain}
use p2p_cc.Receiver.{Buffer, in_use, new_buffer, init_recv_buffer}
use p2p_cc.Hashes.{get_off_set_from_master_chunkfile}
use p2p_cc.Manager.{
  Node, Config, Owner, FileManager, World, Getting, hash_at, find_node, get_chunk, get_from,
}
use p2p_cc.Manager.Reply.{asked}
use p2p_cc.Manager.Stored.{IsFetching, IsListed, IsPlace, set_timer_lem}

-- The chunk of hash i of a packet; -1 if the master chunk file does not have it.
abbrev pub chunk_of : Config → Packet → ℕ → ℤ
chunk_of config p i = get_off_set_from_master_chunkfile (asked p i) config.chunk_file

-- Hash i is that of a chunk of the master chunk file, which no buffer in use is for, and no buffer in
-- use is for the peer.
abbrev pub is_wanted : Config → ℤ → List Buffer → Packet → ℕ → Bool
is_wanted config socket l p i =
    if chunk_of config p i ==ℤ minus_one
    then false
    else if in_use (chunk_of config p i) socket l
    then false
    else true

-- The manager with one more owner, and the time of a place set.
abbrev pub asked_at : (m : FileManager) → IsFetching m → List Owner → ℕ → ℕ → FileManager
asked_at m v used place now = record m {
  timer = some (record { size = v.timers.size; at = store (v.timers.at) place now });
  already_used = some used;
}

-- A hash that is not wanted is passed over.
pub get_chunk-other :
    (w : World) (config : Config) (socket : ℤ) (node : Node) (p : Packet) (i : ℕ) (g : Getting)
    (used : List Owner)
    → g.manager.already_used ≡ some used
    → is_wanted config socket g.recv_list p i ≡ false
    → get_chunk w config socket node (asked p i) g ≡ some g
unfolding get_chunk init_recv_buffer
get_chunk-other w config socket node p i g used e other =
    elim (Bool-cases (chunk_of config p i ==ℤ minus_one)) [
      | inl unknown ↦ rw (e, unknown)
      | inr known ↦ elim (Bool-cases (in_use (chunk_of config p i) socket g.recv_list)) [
        | inl busy ↦ rw (e, known, busy)
        | inr idle ↦ let wrong : true ≡ false = rw (known, idle) at other in cc
      ]
    ]

-- What the packet's hash k makes of the buffers, the manager and the packets to send.
abbrev pub got :
    World
    → Config
    → ℤ
    → Node
    → Packet
    → (m : FileManager) → IsFetching m
    → List Owner
    → List Buffer
    → ℕ
    → ℕ
    → Getting
got w config socket node p m v used l k place =
    let owner : Owner = record { offset = chunk_of config p k; address = node.addr } in
    record {
      manager = asked_at m v (owner ∷ used) place w.now;
      recv_list = new_buffer w.contents (chunk_of config p k) socket ∷ l;
      ret = plain_packet get (asked p k) 20 ∷ [];
    }

-- A hash that is wanted: a buffer is made and the chunk is asked for.
pub get_chunk-wanted :
    (w : World) (config : Config) (socket : ℤ) (node : Node) (p : Packet) (k : ℕ) (m : FileManager)
    (v : IsFetching m) (used : List Owner) (l : List Buffer)
    → m.already_used ≡ some used
    → is_wanted config socket l p k ≡ true
    → IsListed (chunk_of config p k) m v
    → (place : ℕ) × IsPlace m v (chunk_of config p k) place
      × (get_chunk w config socket node
            (asked p k)
            (record { manager = m; recv_list = l; ret = [] })
          ≡ some (got w config socket node p m v used l k place))
unfolding get_chunk init_recv_buffer
get_chunk-wanted w config socket node p k m v used l e wanted listed =
    let owner : Owner = record { offset = chunk_of config p k; address = node.addr } in
    let v' : IsFetching (record m { already_used = some (owner ∷ used) }) = record {
      going = v.going;
      offsets = v.offsets;
      timers = v.timers;
      has_offsets = v.has_offsets;
      has_timers = v.has_timers;
      offsets_room = v.offsets_room;
      timers_room = v.timers_room;
    } in
    let (place, at, t) = set_timer_lem _ v' (chunk_of config p k) w.now listed in
    let packet = init_packet-plain [] get (asked p k) 20 (omega arith) (omega arith) in
    let known : (chunk_of config p k ==ℤ minus_one) ≡ false = unknown_not _ _ wanted in
    let idle : in_use (chunk_of config p k) socket l ≡ false = busy_not _ _ known wanted in
    let one : (pos 1 ==ℤ minus_one) ≡ false = refl in
    (
      place,
      record { inside = at.inside; here = at.here; first = at.first },
      rw (e, known, idle, one, packet, t),
    )
  where
    unknown_not : (a b : Bool) → (if a then false else if b then false else true) ≡ true → a ≡ false
    unknown_not true b h = cc
    unknown_not false b h = refl

    busy_not :
        (a b : Bool)
        → a ≡ false
        → (if a then false else if b then false else true) ≡ true
        → b ≡ false
    busy_not a true e h = let wrong : false ≡ true = rw e at h in cc
    busy_not a false e h = refl

-- A peer that a buffer in use is for is not asked for another chunk.
new_buffer-blocks :
    (garbage : ℕ → Bytes) (offset offset' socket : ℤ) (l : List Buffer)
    → in_use offset' socket (new_buffer garbage offset socket ∷ l) ≡ true
unfolding in_use new_buffer
new_buffer-blocks garbage offset offset' socket l = rw (==ℤ_self socket)

pub got-other :
    (w : World) (config : Config) (socket : ℤ) (node : Node) (p : Packet) (m : FileManager)
    (v : IsFetching m) (used : List Owner) (l : List Buffer) (k place i : ℕ)
    → is_wanted config socket (got w config socket node p m v used l k place).recv_list p i ≡ false
got-other w config socket node p m v used l k place i =
    let blocked =
      new_buffer-blocks w.contents (chunk_of config p k) (chunk_of config p i) socket l in
    elim (Bool-cases (chunk_of config p i ==ℤ minus_one)) [
      | inl unknown ↦ rw unknown
      | inr known ↦ rw (known, blocked)
    ]

-- The rounds of the loop when no hash is wanted.
pub get_from-other :
    (left i : ℕ) (w : World) (config : Config) (socket : ℤ) (node : Node) (p : Packet) (g : Getting)
    (used : List Owner)
    → find_node socket config.peers ≡ some node
    → g.manager.already_used ≡ some used
    → 4 + 20 * (i + left) ≤ data_size
    → ((j : ℕ) → i ≤ j → j < i + left → is_wanted config socket g.recv_list p j ≡ false)
    → get_from left i w config socket p g ≡ some (true, g)
unfolding get_from hash_at
get_from-other zero i w config socket node p g used here e room none_wanted = refl
get_from-other (suc left) i w config socket node p g used here e room none_wanted =
    let fits : leb (4 + 20 * i + 20) data_size ≡ true = ground arith in
    let skip =
      get_chunk-other w config socket node p i g used e
        (none_wanted i (omega arith) (omega arith)) in
    rw (fits, here, skip)
      (get_from-other left (i + 1) w config socket node p g used here e (omega arith)
        (λ j a b. none_wanted j (omega arith) (omega arith)))
