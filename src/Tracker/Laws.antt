-- ===== src/Tracker/Laws.antt =====
-- What the tracker's operations do to the list.
use p2p_cc.Base.{ℕ, ◌^◌, ◌<◌, ◌≡◌, refl, ap, ◌∙◌, true, false, some, [], ◌∷◌, ◌++◌, arith, ◌==◌}
use p2p_cc.Base.Int.{ℤ, pos, ◌-ℤ◌, minus_one, signed, to_u32, -ℤ_parts}
use mathlib.Core.List.{append-nil}
use p2p_cc.Packet.{Packet}
use p2p_cc.Tracker.{
  SockAddr, PacketTracker, Trackers, tracks, unlink, remove_from_tracker, new_tracker,
  restart_or_append, create_timer,
}

-- No entry matches.
abbrev pub NoMatch : ℤ → ℤ → Trackers → Type 0
NoMatch socket seq [] = Unit {0}
NoMatch socket seq (t ∷ rest) = (tracks socket seq t ≡ false) × NoMatch socket seq rest

unlink-first :
    (socket seq : ℤ) (before : Trackers) (t : PacketTracker) (after : Trackers)
    → NoMatch socket seq before
    → tracks socket seq t ≡ true
    → unlink socket seq (before ++ t ∷ after) ≡ (pos 1, before ++ after)
unfolding unlink
unlink-first socket seq [] t after nm m = ground arith
unlink-first socket seq (x ∷ before) t after nm m =
    ground (arith, unlink-first socket seq before t after nm.1 m)

unlink-none :
    (socket seq : ℤ) (l : Trackers) → NoMatch socket seq l → unlink socket seq l ≡ (minus_one, l)
unfolding unlink
unlink-none socket seq [] nm = refl
unlink-none socket seq (x ∷ l) nm = ground (arith, unlink-none socket seq l nm.1)

-- Behind a head that does not match, `remove_from_tracker` unlinks exactly the first entry of that
-- socket and packet index, keeps every other entry in order, and returns 1.
pub remove_from_tracker-first :
    (socket seq : ℤ) (head : PacketTracker) (before : Trackers) (t : PacketTracker)
    (after : Trackers)
    → tracks socket seq head ≡ false
    → NoMatch socket seq before
    → tracks socket seq t ≡ true
    → remove_from_tracker (head ∷ before ++ t ∷ after) socket seq
      ≡ some (pos 1, head ∷ before ++ after)
unfolding remove_from_tracker
remove_from_tracker-first socket seq head before t after h nm m =
    ground (arith, unlink-first socket seq before t after nm m)

pub remove_from_tracker-none :
    (socket seq : ℤ) (l : Trackers)
    → NoMatch socket seq l
    → remove_from_tracker l socket seq ≡ some (minus_one, l)
unfolding remove_from_tracker
remove_from_tracker-none socket seq [] nm = refl
remove_from_tracker-none socket seq (x ∷ l) nm = ground (arith, unlink-none socket seq l nm.1)

-- No entry has this sequence number, of whatever socket.
abbrev pub NoSeq : ℕ → Trackers → Type 0
NoSeq n [] = Unit {0}
NoSeq n (t ∷ rest) = ((to_u32 t.seq == n) ≡ false) × NoSeq n rest

restart_or_append-new :
    (now : ℕ) (l : Trackers) (p : Packet) (sock : ℤ) (from : SockAddr)
    → NoSeq p.header.seq_num l
    → restart_or_append now l p sock from ≡ l ++ new_tracker now p sock from ∷ []
unfolding restart_or_append
restart_or_append-new now [] p sock from h = refl
restart_or_append-new now (t ∷ l) p sock from h =
    ground (arith, restart_or_append-new now l p sock from h.1)

restart_or_append-old :
    (now : ℕ) (before : Trackers) (t : PacketTracker) (after : Trackers) (p : Packet) (sock : ℤ)
    (from : SockAddr)
    → NoSeq p.header.seq_num before
    → to_u32 t.seq ≡ p.header.seq_num
    → restart_or_append now (before ++ t ∷ after) p sock from
      ≡ before ++ record t { send_time = now } ∷ after
unfolding restart_or_append
restart_or_append-old now [] t after p sock from h e = ground arith
restart_or_append-old now (x ∷ before) t after p sock from h e =
    ground (arith, restart_or_append-old now before t after p sock from h.1 e)

-- `create_timer` looks at the sequence number alone: if the list has an entry with it, for whatever
-- peer, the time of the first such entry is set anew and the packet gets no entry of its own.
pub create_timer-shared :
    (garbage : PacketTracker) (now : ℕ) (head : PacketTracker) (before : Trackers)
    (t : PacketTracker) (after : Trackers) (p : Packet) (sock : ℤ) (from : SockAddr)
    → NoSeq p.header.seq_num (head ∷ before)
    → to_u32 t.seq ≡ p.header.seq_num
    → create_timer garbage now (head ∷ before ++ t ∷ after) p sock from
      ≡ head ∷ before ++ record t { send_time = now } ∷ after
unfolding create_timer
create_timer-shared garbage now head before t after p sock from h e =
    restart_or_append-old now (head ∷ before) t after p sock from h e

-- The numbers that `int seq = packet->header.seq_num` keeps.
signed-to_u32 : (n : ℕ) → n < 2 ^ 31 → to_u32 (signed 32 n) ≡ n
signed-to_u32 n h = ground arith

NoSeq-NoMatch :
    (n : ℕ) (sock : ℤ) (l : Trackers)
    → n < 2 ^ 31
    → NoSeq n l
    → NoMatch sock (signed 32 n -ℤ pos 1) l
NoSeq-NoMatch n sock [] b h = tt
NoSeq-NoMatch n sock (t ∷ l) b h = (
  ground (arith, -ℤ_parts t.seq (pos 1), -ℤ_parts (signed 32 n) (pos 1)),
  NoSeq-NoMatch n sock l b h.1,
)

tracks_new :
    (now : ℕ) (p : Packet) (sock : ℤ) (from : SockAddr)
    → tracks sock (signed 32 p.header.seq_num -ℤ pos 1) (new_tracker now p sock from) ≡ true
unfolding new_tracker
tracks_new now p sock from = ground (arith)

append-nomatch-head :
    (n : ℕ) (sock : ℤ) (l : Trackers) (t : PacketTracker)
    → n < 2 ^ 31
    → NoSeq n l
    → tracks sock (signed 32 n -ℤ pos 1) t ≡ true
    → unlink sock (signed 32 n -ℤ pos 1) (l ++ t ∷ []) ≡ (pos 1, l)
append-nomatch-head n sock l t b h m =
    unlink-first sock (signed 32 n -ℤ pos 1) l t [] (NoSeq-NoMatch n sock l b h) m
    ∙ ap (λ (k : Trackers). (pos 1, k)) (append-nil l)

-- A packet with a sequence number below 2 ^ 31 that no entry of the list has is tracked until its
-- acknowledgement: `create_timer` adds an entry at the end, and `remove_from_tracker` for that peer
-- and packet index gives the list back, without undefined behaviour.
pub create_timer-remove :
    (garbage : PacketTracker) (now : ℕ) (head : PacketTracker) (rest : Trackers) (p : Packet)
    (sock : ℤ) (from : SockAddr)
    → p.header.seq_num < 2 ^ 31
    → NoSeq p.header.seq_num (head ∷ rest)
    → (create_timer garbage now (head ∷ rest) p sock from
        ≡ head ∷ rest ++ new_tracker now p sock from ∷ [])
      × (remove_from_tracker
            (create_timer garbage now (head ∷ rest) p sock from)
            sock
            (signed 32 p.header.seq_num -ℤ pos 1)
          ≡ some (pos 1, head ∷ rest))
unfolding create_timer
create_timer-remove garbage now head rest p sock from b h =
    let e = restart_or_append-new now (head ∷ rest) p sock from h in
    (
      e,
      rw e (
          unfold remove_from_tracker in
          ground (
            arith,
            (NoSeq-NoMatch p.header.seq_num sock (head ∷ rest) b h).0,
            append-nomatch-head p.header.seq_num sock rest (new_tracker now p sock from) b h.1,
            tracks_new now p sock from,
          )),
    )
