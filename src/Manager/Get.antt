-- ===== src/Manager/Get.antt =====
-- A GET packet starts the transfer of a chunk.
use mathlib.Core.Path.{subst}
use p2p_cc.Base.{ℕ, ◌≡◌, refl, arith, false, some, none, List, [], ◌∷◌, Bytes, bytes_of, copy_at}
use p2p_cc.Base.Int.{ℤ, ◌-ℤ◌, ==ℤ_self}
use p2p_cc.Packet.{Packet, from_wire, swap_header, get}
use p2p_cc.Tracker.{Trackers}
use p2p_cc.Sender.{
  Data, Flow, FloatOps, new_data, init_datalist, send_data, get_data_by_socket, put_data,
}
use p2p_cc.Sender.Sent.{chunk_packet, sent_to, send_data_lem}
use p2p_cc.Sender.Invariant.{IsSender, new_data-IsSender, sent_to-IsSender}
use p2p_cc.Sender.Sending.{AllSending, get-put, init_datalist-AllSending, send_data-AllSending}
use p2p_cc.Hashes.{get_data_from_hash, get_off_set_from_master_chunkfile}
use p2p_cc.Manager.{Config, PeerState, World, handle_get, handle_packet}

-- The hash that a GET packet carries.
abbrev pub hash_of : Packet → Bytes
hash_of packet = copy_at (bytes_of []) 0 packet.payload 20

-- The newest chunk of the socket has sent its first packet, and has no acknowledgement. The fields
-- that count the acknowledgements are not set: they hold what was in memory.
pub record IsStarted {F : Type 0} (socket : ℤ) (content : Bytes) (prev : ℕ) (count : ℤ)
    (l : List (Data F)) : Type 0 where
  pub chunk : Data F
  pub found : get_data_by_socket socket l ≡ some chunk
  pub valid : IsSender content 1 0 chunk
  pub prev_ack : chunk.prev_ack ≡ prev
  pub count_ack : chunk.count_ack ≡ count

module _ {F : Type 0} ⦃fl : FloatOps F⦄ where
  -- A new chunk sends its first packet.
  first_send :
      (prev : ℕ) (count socket offset : ℤ) (content : Bytes) (f : Flow F)
      → AllSending f.list
      → (f' : Flow F) × (send_data socket (init_datalist prev count socket offset (some content) f)
          ≡ some (f', chunk_packet content 0 ∷ []))
        × AllSending f'.list
        × IsStarted socket content prev count f'.list
  unfolding init_datalist get_data_by_socket new_data ◌-ℤ◌
  first_send prev count socket offset content f v =
      let d : Data F = new_data prev count socket offset (some content) in
      let f0 = init_datalist prev count socket offset (some content) f in
      let found : get_data_by_socket socket f0.list ≡ some d = rw (==ℤ_self socket) in
      let sent = new_data-IsSender prev count socket offset content in
      let e = send_data_lem socket content 0 d f0 found sent.sent in
      let (f', ret, e', valid) =
        send_data-AllSending socket f0
          (init_datalist-AllSending prev count socket offset content f v) in
      let f1 : Flow F = record f0 { list = put_data socket (sent_to 0 1 d) f0.list } in
      let same : f' ≡ f1 = cc in
      (
        f1,
        e,
        subst (λ (g : Flow F). AllSending g.list) same valid,
        record {
          chunk = sent_to 0 1 d;
          found = get-put socket f0.list d (sent_to 0 1 d) found refl;
          valid = sent_to-IsSender content 0 1 0 d (omega arith) (omega arith) sent;
          prev_ack = refl;
          count_ack = refl;
        },
      )

  -- A GET packet whose hash gives data of the master file is answered by the first DATA packet of
  -- that data and by no other, whatever the peer sends already. The sender's chunks stay valid, the
  -- newest for this peer is that data, with one packet sent and none acknowledged, and the receiving
  -- side, the file and the timers stay as they are.
  pub handle_packet-get :
      (w : World) (config : Config) (socket : ℤ) (packet : Packet) (trackers : Trackers)
      (s : PeerState F) (content : Bytes)
      → packet.header.packet_type ≡ get
      → get_data_from_hash w.block w.stray (hash_of packet) config.chunk_file ≡ some (some content)
      → AllSending s.flow.list
      → (flow : Flow F) × (handle_packet w config socket packet trackers s
          ≡ some (record {
            exited = false;
            peer = record s { flow = flow };
            trackers = trackers;
            packets = chunk_packet content 0 ∷ [];
            file = none;
          }))
        × AllSending flow.list
        × IsStarted socket content w.prev_ack w.count_ack flow.list
  handle_packet-get w config socket packet trackers s content type found v =
      let (flow, e, valid, started) =
        first_send w.prev_ack w.count_ack socket
          (get_off_set_from_master_chunkfile (hash_of packet) config.chunk_file) content s.flow v in
      (
        flow,
        unfold handle_packet handle_get from_wire swap_header in rw (type, found, e),
        valid,
        started,
      )
