-- ===== src/Sender/Window.antt =====
-- `send_data`: the packets that the window allows.
use p2p_cc.Base.{
  ℕ, zero, suc, ◌-◌, ◌&&◌, Option, none, some, List, [], ◌∷◌, if◌then◌else◌, ◌>>=◌, store,
}
use p2p_cc.Base.Int.{ℤ, pos, pos_part, ◌+ℤ◌, ◌-ℤ◌, leb_ℤ, ltb_ℤ, to_u32}
use p2p_cc.Packet.{Packet, init_packet, data_type}
use p2p_cc.Sender.State.{
  Data, Flow, unacked, chunk_packet_number, get_data_by_socket, put_data, get_content_by_index,
  index_of,
}

-- packet->header.seq_num = n
abbrev pub with_seq : Packet → ℤ → Packet
with_seq p n = record p { header = record (p.header) { seq_num = to_u32 n } }

module _ {F : Type 0} where
  -- A DATA packet with the 1024 bytes at an index. (Its payload starts no padding, so nothing of
  -- the stack gets into it.)
  unfoldable pub data_packet : Data F → ℤ → Option Packet
  data_packet d index = do
    content ← get_content_by_index d index
    packet ← init_packet [] data_type (some content) 1024
    some (with_seq packet (index +ℤ pos 1))

  -- A round of the loop: the window's end moves on, and the packet there is sent.
  unfoldable pub send_next : Data F → Option (Data F × Packet)
  send_next d = do
    let end' = d.end +ℤ pos 1
    packet ← data_packet d end'
    i ← index_of end'
    some (record d { end = end'; state = store d.state i unacked }, packet)

  -- The loop, with the rounds that are left; the newest packet comes first.
  unfoldable pub send_packets : ℕ → Data F → List Packet → Option (Data F × List Packet)
  send_packets zero d ret = some (d, ret)
  send_packets (suc n) d ret =
      if leb_ℤ (pos (chunk_packet_number - 1)) d.end
      then some (d, ret)
      else (do (d', packet) ← send_next d; send_packets n d' (packet ∷ ret))

  unfoldable pub send_window_of : Data F → Option (Data F × List Packet)
  send_window_of d =
      let diff = d.end -ℤ d.start in
      if ltb_ℤ diff (pos d.send_window) && leb_ℤ d.end (pos (chunk_packet_number - 1))
      then send_packets (pos_part (pos d.send_window -ℤ diff)) d []
      else some (d, [])

  unfoldable pub send_data : ℤ → Flow F → Option (Flow F × List Packet)
  send_data socket f = elim (get_data_by_socket socket f.list) [
    | none ↦ some (f, [])
    | some d ↦ do
      (d', ret) ← send_window_of d
      some (record f { list = put_data socket d' f.list }, ret)
  ]
