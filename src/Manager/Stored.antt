-- ===== src/Manager/Stored.antt =====
-- A DATA packet in `handle_packet`: `recv_data`, the chunk's time, and `check_file_manager`.
use p2p_cc.Base.{
  ℕ, zero, suc, ◌+◌, ◌≤◌, ◌<◌, ◌≡◌, ◌≢◌, true, false, Option, some, List, ◌==◌, ==_iff, ltb, arith,
  Bool-cases, inl, inr, Array, store,
}
use p2p_cc.Base.Int.{ℤ, ◌==ℤ◌, ==ℤ_self, ==ℤ_iff}
use p2p_cc.Packet.{Packet, from_wire, swap_header, data_type}
use p2p_cc.Tracker.{Trackers}
use p2p_cc.Sender.{FloatOps}
use p2p_cc.Receiver.{Buffer, recv_data}
use p2p_cc.Manager.{
  Config, FileManager, PeerState, World, position, set_timer, check_file_manager, handle_data,
  handle_packet,
}

-- The two arrays of a file that is being fetched.
pub record IsFetching (m : FileManager) : Type 0 where
  pub going : m.init ≢ 0
  pub offsets : Array ℤ
  pub timers : Array ℕ
  pub has_offsets : m.offset ≡ some offsets
  pub has_timers : m.timer ≡ some timers
  pub offsets_room : m.chunk_count ≤ offsets.size
  pub timers_room : m.chunk_count ≤ timers.size

-- The chunk is one of the file's.
abbrev pub IsListed : ℤ → (m : FileManager) → IsFetching m → Type 0
IsListed offset m v = (i : ℕ) × (i < m.chunk_count) × (v.offsets.at i ≡ offset)

position-found :
    (left j i : ℕ) (a : Array ℤ) (offset : ℤ)
    → j ≤ i
    → i < j + left
    → j + left ≤ a.size
    → a.at i ≡ offset
    → (place : ℕ) × (position left j (some a) offset ≡ some place)
      × (place < j + left)
      × (a.at place ≡ offset)
      × ((k : ℕ) → j ≤ k → k < place → a.at k ≢ offset)
unfolding position
position-found zero j i a offset p q room e = absurd (omega arith)
position-found (suc left) j i a offset p q room e =
    let inside : ltb j a.size ≡ true = ground arith in
    elim (Bool-cases (a.at j ==ℤ offset)) [
      | inl here ↦ (
        j,
        rw (inside, here),
        omega arith,
        (==ℤ_iff (a.at j) offset).0 here,
        λ k x y. absurd (omega arith),
      )
      | inr other ↦
          let found : (a.at i ==ℤ offset) ≡ true = rw e (==ℤ_self offset) in
          let later : i ≢ j = λ same. cc in
          let (place, r, s, at, first) =
            position-found left (j + 1) i a offset (omega arith) (omega arith) (omega arith) e in
          (
            place,
            rw (inside, other, r),
            omega arith,
            at,
            λ k x y. elim (Bool-cases (k == j)) [
              | inl same ↦ λ same_at.
                  let found_here = (==ℤ_iff (a.at k) offset).1 same_at in
                  let is_j = (==_iff k j).0 same in cc
              | inr later_k ↦ first k (ground arith) y
            ],
          )
    ]

-- The place of a chunk in the manager's array: the first that has its offset.
pub record IsPlace (m : FileManager) (v : IsFetching m) (offset : ℤ) (place : ℕ) : Type 0 where
  pub inside : place < m.chunk_count
  pub here : v.offsets.at place ≡ offset
  pub first : (k : ℕ) → k < place → v.offsets.at k ≢ offset

-- The time of a chunk of the file is set, and nothing else changes.
pub set_timer_lem :
    (m : FileManager) (v : IsFetching m) (offset : ℤ) (now : ℕ)
    → IsListed offset m v
    → (place : ℕ) × IsPlace m v offset place
      × (set_timer offset now m
          ≡ some (record m {
            timer = some (record { size = v.timers.size; at = store (v.timers.at) place now });
          }))
unfolding set_timer
set_timer_lem m v offset now (i, inside, e) =
    let (place, r, s, at, first) =
      position-found m.chunk_count 0 i v.offsets offset (omega arith) (omega arith)
        (omega (arith, v.offsets_room)) e in
    let room : ltb place v.timers.size ≡ true = ground (arith, v.timers_room) in
    (
      place,
      record { inside = omega arith; here = at; first = λ k h. first k (omega arith) h },
      rw (v.has_offsets, v.has_timers, r, room),
    )

module _ {F : Type 0} ⦃fl : FloatOps F⦄ where
  -- The parts of `handle_data` put together.
  pub handle_packet-recv_data :
      (w : World) (config : Config) (socket : ℤ) (packet : Packet) (trackers : Trackers)
      (s : PeerState F) (l l' : List Buffer) (ret : List Packet) (offset r : ℤ) (m m' : FileManager)
      (file : Option (List ℕ))
      → packet.header.packet_type ≡ data_type
      → recv_data w.beyond (from_wire packet) socket s.recv_list ≡ some (l, ret, some offset)
      → set_timer offset w.now s.manager ≡ some m
      → check_file_manager m l ≡ some (r, m', l', file)
      → handle_packet w config socket packet trackers s
        ≡ some (record {
          exited = false;
          peer = record s { manager = m'; recv_list = l' };
          trackers = trackers;
          packets = ret;
          file = file;
        })
  handle_packet-recv_data w config socket packet trackers s l l' ret offset r m m' file type e0 e1
        e2 =
      let p = from_wire packet in
      let same_type : p.header.packet_type ≡ data_type = unfold from_wire swap_header in type in
      let t0 : (p.header.packet_type == 0) ≡ false = ground arith in
      let t1 : (p.header.packet_type == 1) ≡ false = ground arith in
      let t2 : (p.header.packet_type == 2) ≡ false = ground arith in
      let t3 : (p.header.packet_type == 3) ≡ true = ground arith in
      unfold handle_packet handle_data in rw (t0, t1, t2, t3, e0, e1, e2)
