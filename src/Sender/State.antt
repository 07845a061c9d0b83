-- ===== src/Sender/State.antt =====
-- `data_t` of flow_control.h, and its list in flow_control.c: creation, lookup, loss and the
-- congestion control.
use p2p_cc.Base.{
  ℕ, ◌+◌, ◌*◌, ◌/◌, Bool, false, Option, none, some, List, [], ◌∷◌, leb, ◌==◌, if◌then◌else◌, ◌>>=◌,
  ◌>>◌, require, Bytes,
}
use p2p_cc.Base.Int.{ℤ, pos, negsuc, ◌+ℤ◌, ◌==ℤ◌, minus_one, leb_ℤ, to_u32}

-- The operations of C's float that the congestion control uses; `reached` is `>= 1`.
pub record FloatOps (F : Type 0) : Type 0 where
  pub zero : F
  pub one : F
  pub inverse : ℕ → F
  pub add : F → F → F
  pub reached : F → Bool

-- CHUNK_PACKET_NUMBER
abbrev pub chunk_packet_number : ℕ
chunk_packet_number = 512

pub data PacketState : Type 0 where
  unsend unacked acked : PacketState

pub data CongestionState : Type 0 where
  slowstart con_avoid fast_retransmit : CongestionState

-- `content` is a block of 512 * 1024 bytes, or null. `state` has an entry for each packet.
pub record Data (F : Type 0) : Type 0 where
  pub socket : ℤ
  pub offset : ℤ
  pub content : Option Bytes
  pub state : ℕ → PacketState
  pub send_window : ℕ
  pub ssthresh : ℕ
  pub congestion_control_state : CongestionState
  pub start : ℤ
  pub end : ℤ
  pub increase_rate : F
  pub prev_ack : ℕ
  pub count_ack : ℤ

-- A line of the window log: LOGIN(id, window_size), less its time.
abbrev pub LogLine : Type 0
LogLine = ℤ × ℕ

-- The global `list`, and the log, newest line first.
pub record Flow (F : Type 0) : Type 0 where
  pub list : List (Data F)
  pub log : List LogLine

-- An array index; a negative one has no value.
abbrev pub index_of : ℤ → Option ℕ
index_of (pos n) = some n
index_of (negsuc n) = none

module _ {F : Type 0} where
  unfoldable pub get_data_by_socket : ℤ → List (Data F) → Option (Data F)
  get_data_by_socket socket [] = none
  get_data_by_socket socket (d ∷ l) =
      if socket ==ℤ d.socket then some d else get_data_by_socket socket l

  -- A write through the pointer that `get_data_by_socket` returns.
  unfoldable pub put_data : ℤ → Data F → List (Data F) → List (Data F)
  put_data socket d' [] = []
  put_data socket d' (d ∷ l) = if socket ==ℤ d.socket then d' ∷ l else d ∷ put_data socket d' l

  -- The bytes content[index * 1024], ..., content[index * 1024 + 1023].
  unfoldable pub get_content_by_index : Data F → ℤ → Option Bytes
  get_content_by_index d index = do
    content ← d.content
    i ← index_of index
    require (leb (i * 1024 + 1024) (512 * 1024))
    some (λ k. content (i * 1024 + k))

  -- Whether this is the second or a later repetition of an acknowledgement.
  unfoldable pub check_return_ack : Data F → ℤ → Data F × Bool
  check_return_ack d ack_num =
      if d.prev_ack == to_u32 ack_num
      then (record d { count_ack = d.count_ack +ℤ pos 1 }, leb_ℤ (pos 2) (d.count_ack +ℤ pos 1))
      else (record d { count_ack = pos 0; prev_ack = to_u32 ack_num }, false)

module _ {F : Type 0} ⦃fl : FloatOps F⦄ where
  -- `prev` and `count` are what `malloc` leaves in the two fields that are not set.
  unfoldable pub new_data : ℕ → ℤ → ℤ → ℤ → Option Bytes → Data F
  new_data prev count socket offset content = record {
    socket = socket;
    offset = offset;
    content = content;
    state = λ i. unsend;
    send_window = 1;
    ssthresh = 64;
    congestion_control_state = slowstart;
    start = minus_one;
    end = minus_one;
    increase_rate = fl.one;
    prev_ack = prev;
    count_ack = count;
  }

  unfoldable pub init_datalist : ℕ → ℤ → ℤ → ℤ → Option Bytes → Flow F → Flow F
  unfolding new_data
  init_datalist prev count socket offset content f = record f {
    list = new_data prev count socket offset content ∷ f.list;
  }

  unfoldable pub lose : Data F → Data F
  lose d = record d {
    ssthresh = d.send_window / 2;
    send_window = 1;
    congestion_control_state = slowstart;
    increase_rate = fl.one;
  }

  unfoldable pub process_packet_loss : ℤ → Flow F → Flow F
  unfolding lose
  process_packet_loss socket f = elim (get_data_by_socket socket f.list) [
    | none ↦ f
    | some d ↦ record { list = put_data socket (lose d) f.list; log = (d.offset, 1) ∷ f.log }
  ]

  -- The window one larger, with its line of the log.
  unfoldable pub enlarge : Data F → Data F × List LogLine
  enlarge d = (record d { send_window = d.send_window + 1 }, (d.offset, d.send_window + 1) ∷ [])

  unfoldable pub slow_start_step : Data F → Data F × List LogLine
  unfolding enlarge
  slow_start_step d =
      if d.ssthresh == d.send_window
      then (record d { congestion_control_state = con_avoid; increase_rate = fl.zero }, [])
      else enlarge d

  unfoldable pub avoidance_step : Data F → Data F × List LogLine
  unfolding enlarge
  avoidance_step d =
      let rate : F = fl.add d.increase_rate (fl.inverse d.send_window) in
      if fl.reached rate
      then enlarge (record d { increase_rate = fl.zero })
      else (record d { increase_rate = rate }, [])

  unfoldable pub congestion_control : Data F → Data F × List LogLine
  unfolding slow_start_step avoidance_step
  congestion_control d = elim d.congestion_control_state [
    | slowstart ↦ slow_start_step d
    | con_avoid ↦ avoidance_step d
    | fast_retransmit ↦ (d, [])
  ]
