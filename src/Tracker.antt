-- ===== src/Tracker.antt =====
-- The list of packets in flight: `packet_tracker_t` of packet.h, and `create_timer`,
-- `remove_from_tracker` and `timer_expired` of flow_control.c. A list stands for the chain of
-- `next` pointers; the head of a list in use is a dummy node with the sequence number -441.
pub mod Laws
mod Tests
use p2p_cc.Base.{
  ℕ, suc, ◌+◌, Bool, true, false, ◌&&◌, Option, none, some, List, [], ◌∷◌, leb, ◌==◌, if◌then◌else◌,
}
use p2p_cc.Base.Int.{ℤ, pos, negsuc, ◌+ℤ◌, ◌-ℤ◌, ◌==ℤ◌, minus_one, signed, to_u32}
use p2p_cc.Packet.{Packet}

-- The fields of `struct sockaddr_in` that the program copies.
pub record SockAddr : Type 0 where
  pub sin_family : ℕ
  pub sin_port : ℕ
  pub s_addr : ℕ

pub record PacketTracker : Type 0 where
  pub sock : ℤ
  pub seq : ℤ
  pub from : SockAddr
  pub send_time : ℕ
  pub expire_time : ℤ
  pub packet : Packet

abbrev pub Trackers : Type 0
Trackers = List PacketTracker

-- TIMEOUT, in seconds.
abbrev pub timeout : ℕ
timeout = 1

abbrev pub dummy_seq : ℤ
dummy_seq = negsuc 440

-- The entry that both loops of `remove_from_tracker` look for.
abbrev pub tracks : ℤ → ℤ → PacketTracker → Bool
tracks socket seq t = t.sock ==ℤ socket && (t.seq -ℤ pos 1) ==ℤ seq

-- The loop behind the head: unlinks the first entry that matches.
unfoldable pub unlink : ℤ → ℤ → Trackers → ℤ × Trackers
unlink socket seq [] = (minus_one, [])
unlink socket seq (t ∷ rest) =
    let (r, rest') = unlink socket seq rest in
    if tracks socket seq t then (pos 1, rest) else (r, t ∷ rest')

-- A head that matches is overwritten by the node behind it; there is undefined behaviour if there
-- is none.
unfoldable pub drop_head : Trackers → Option (ℤ × Trackers)
drop_head [] = none
drop_head (t ∷ rest) = some (pos 1, t ∷ rest)

unfoldable pub remove_from_tracker : Trackers → ℤ → ℤ → Option (ℤ × Trackers)
unfolding drop_head unlink
remove_from_tracker [] socket seq = some (minus_one, [])
remove_from_tracker (head ∷ rest) socket seq =
    let (r, rest') = unlink socket seq rest in
    if tracks socket seq head then drop_head rest else some (r, head ∷ rest')

-- A new entry; its address is a copy.
unfoldable pub new_tracker : ℕ → Packet → ℤ → SockAddr → PacketTracker
new_tracker now packet sock from = record {
  sock = sock;
  seq = signed 32 packet.header.seq_num;
  from = from;
  send_time = now;
  expire_time = pos 0;
  packet = packet;
}

-- The loop of the second branch: restarts the first entry with this sequence number, or appends
-- a new entry.
unfoldable pub restart_or_append : ℕ → Trackers → Packet → ℤ → SockAddr → Trackers
unfolding new_tracker
restart_or_append now [] packet sock from = new_tracker now packet sock from ∷ []
restart_or_append now (t ∷ rest) packet sock from =
    let rest' = restart_or_append now rest packet sock from in
    if to_u32 t.seq == packet.header.seq_num then record t { send_time = now } ∷ rest else t ∷ rest'

-- `garbage` is what `malloc` leaves in the dummy node; `now` is time(NULL).
unfoldable pub create_timer : PacketTracker → ℕ → Trackers → Packet → ℤ → SockAddr → Trackers
unfolding restart_or_append new_tracker
create_timer garbage now [] packet sock from =
    record garbage { seq = dummy_seq } ∷ new_tracker now packet sock from ∷ []
create_timer garbage now (t ∷ rest) packet sock from =
    restart_or_append now (t ∷ rest) packet sock from

-- The entry afterwards, and the return value: -1 if the timer has expired.
unfoldable pub timer_expired : ℕ → PacketTracker → PacketTracker × ℤ
timer_expired now t =
    if leb (t.send_time + timeout) now
    then (record t { expire_time = t.expire_time +ℤ pos 1 }, minus_one)
    else (t, pos 0)
