-- ===== src/Manager/State.antt =====
-- `file_manager_t` and `chunk_owner_list_t` of flow_control.h, the configuration of bt_parse.h, and
-- what a peer keeps.
use p2p_cc.Base.{
  ℕ, zero, suc, ◌+◌, Option, some, List, Bool, if◌then◌else◌, ◌>>=◌, Bytes, Array, get_elem?,
  set_elem?,
}
use p2p_cc.Base.Int.{ℤ, ◌==ℤ◌}
use p2p_cc.Tracker.{SockAddr, Trackers}
use p2p_cc.Packet.{Packet}
use p2p_cc.Sender.{Flow}
use p2p_cc.Receiver.{Buffer}
use p2p_cc.Hashes.{Line, MasterFile}

-- `bt_peer_t`
pub record Node : Type 0 where
  pub id : ℤ
  pub addr : SockAddr

-- `bt_config_t`, with what the files that it names hold.
pub record Config : Type 0 where
  pub chunk_file : Option MasterFile
  pub has_chunk_file : Option (List Line)
  pub identity : ℤ
  pub peers : List Node

pub record Owner : Type 0 where
  pub offset : ℤ
  pub address : SockAddr

-- `offset` and `timer` are arrays from malloc; null or freed, they are `none`. `chunk_count` is
-- counted by itself: after a request that failed it is not the arrays' size. The list
-- `already_used` is `none` once its first element has been freed.
pub record FileManager : Type 0 where
  pub init : ℕ
  pub chunk_count : ℕ
  pub offset : Option (Array ℤ)
  pub top : ℕ
  pub timer : Option (Array ℕ)
  pub already_used : Option (List Owner)

pub record PeerState (F : Type 0) : Type 0 where
  pub flow : Flow F
  pub recv_list : List Buffer
  pub manager : FileManager

-- What a call finds outside of the state: the time, and what is in memory that it does not set.
-- `junk` is behind the padding of a packet on the stack, `beyond` behind the array of parts; the
-- rest is in local variables and in blocks from malloc.
pub record World : Type 0 where
  pub now : ℕ
  pub junk : List ℕ
  pub beyond : ℕ → Bool
  pub contents : ℕ → Bytes
  pub block : Bytes
  pub local : Bytes
  pub stray : ℤ
  pub prev_ack : ℕ
  pub count_ack : ℤ

-- What `handle_packet` leaves: whether the process has exited, the state, the list of packets in
-- flight, the packets to send, and the output file, if it was written.
pub record Outcome (F : Type 0) : Type 0 where
  pub exited : Bool
  pub peer : PeerState F
  pub trackers : Trackers
  pub packets : List Packet
  pub file : Option (List ℕ)

-- The loop that looks for a chunk's place in the array, from place j on.
unfoldable pub position : ℕ → ℕ → Option (Array ℤ) → ℤ → Option ℕ
position zero j offsets offset = some j
position (suc left) j offsets offset = do
  found ← get_elem? offsets j
  let next = position left (j + 1) offsets offset
  if found ==ℤ offset then some j else next

-- That loop, and file_manager.timer[j] = time(NULL).
unfoldable pub set_timer : ℤ → ℕ → FileManager → Option FileManager
unfolding position
set_timer offset now m = do
  j ← position m.chunk_count 0 m.offset offset
  timer ← set_elem? m.timer j now
  some (record m { timer = timer })
