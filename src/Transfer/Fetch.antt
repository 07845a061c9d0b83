-- ===== src/Transfer/Fetch.antt =====
-- A chunk from the request to the file: `handle_packet` (packet.c) at both ends of the link.
use p2p_cc.Base.{ℕ, ◌+◌, ◌≡◌, ◌≢◌, refl, ◌⊎◌, inl, inr, some, none, [], ◌∷◌, arith, Bytes, slice}
use p2p_cc.Base.Int.{ℤ, pos, ◌≤ℤ◌, +ℤ_parts}
use p2p_cc.Packet.{Packet, to_wire, get}
use p2p_cc.Tracker.{Trackers}
use p2p_cc.Sender.{Data, FloatOps, chunk_packet_number, check_return_ack}
use p2p_cc.Sender.Sent.{chunk_packet}
use p2p_cc.Sender.Pending.{HasDummy}
use p2p_cc.Sender.Sending.{AllSending}
use p2p_cc.Receiver.{new_buffer, chunk_size}
use p2p_cc.Hashes.{get_data_from_hash}
use p2p_cc.Manager.{PeerState}
use p2p_cc.Manager.Get.{hash_of, IsStarted, handle_packet-get}
use p2p_cc.Peer.{reverse_list, reverse_onto}
use p2p_cc.Transfer.Written.{IsSingle}
use p2p_cc.Transfer.Window.{IsFresh}
use p2p_cc.Transfer.Receive.{IsReceiving}
use p2p_cc.Transfer.Link.{Side, Link, fetch}
use p2p_cc.Transfer.Download.{IsSending, download}

module _ {F : Type 0} ⦃fl : FloatOps F⦄ where
  first-IsFresh : (d : Data F) → (d.prev_ack ≢ 0) ⊎ (d.count_ack ≤ℤ pos 0) → IsFresh (0 + 1) d
  unfolding check_return_ack
  first-IsFresh d (inl h) = ground arith
  first-IsFresh d (inr h) = ground (arith, +ℤ_parts d.count_ack (pos 1))

  started-IsSending :
      (content : Bytes) (other : ℤ) (prev : ℕ) (count : ℤ) (s : PeerState F)
      → IsStarted other content prev count s.flow.list
      → AllSending s.flow.list
      → (prev ≢ 0) ⊎ (count ≤ℤ pos 0)
      → IsSending content other 1 0 s
  started-IsSending content other prev count s v all h = record {
    chunk = v.chunk;
    found = v.found;
    valid = v.valid;
    fresh = first-IsFresh v.chunk (rw (v.prev_ack, v.count_ack) h);
    all = all;
  }

  new_buffer-IsReceiving :
      (garbage : ℕ → Bytes) (content : Bytes) (other offset : ℤ) (s : PeerState F)
      → s.recv_list ≡ new_buffer garbage offset other ∷ []
      → IsSingle offset s.manager
      → IsReceiving content other offset 0 s
  unfolding new_buffer
  new_buffer-IsReceiving garbage content other offset s e single = record {
    buffer = new_buffer garbage offset other;
    buffers = e;
    same_socket = refl;
    same_offset = refl;
    parts = record { got = λ j h. absurd (omega arith); missing = λ j h q. refl; total = refl };
    expecting = record { from_one = omega arith; past_parts = omega arith; at_most = omega arith };
    single = single;
  }

  -- A chunk of 512 packets over a link that loses nothing and keeps the order. The sender finds the
  -- data of the hash it is asked for; the receiver has just made its only buffer for that chunk, the
  -- only one of its file. Neither `prev_ack` nor `count_ack` holds by chance what the first
  -- acknowledgement would be taken for. Then the request and 512 rounds, each of a DATA packet and its
  -- ACK, run without undefined behaviour, whatever the timers in between; the receiver has written
  -- exactly the bytes of the chunk to its file and has closed its manager, and the sender's chunks are
  -- valid still.
  pub fetch_lem :
      (from to : Side) (trackers : ℕ → Trackers) (request : Packet) (content : Bytes) (offset : ℤ)
      (garbage : ℕ → Bytes) (sender receiver : PeerState F)
      → request.header.packet_type ≡ get
      → get_data_from_hash from.world.block from.world.stray
          (hash_of request)
          from.config.chunk_file
        ≡ some (some content)
      → AllSending sender.flow.list
      → (from.world.prev_ack ≢ 0) ⊎ (from.world.count_ack ≤ℤ pos 0)
      → receiver.recv_list ≡ new_buffer garbage offset to.other ∷ []
      → IsSingle offset receiver.manager
      → ((j : ℕ) → HasDummy (trackers j))
      → (l : Link F) × (fetch from to trackers chunk_packet_number request sender receiver ≡ some l)
        × (l.file ≡ some (slice content 0 chunk_size))
        × (l.receiver.manager.init ≡ 0)
        × AllSending l.sender.flow.list
  unfolding fetch reverse_list reverse_onto
  fetch_lem from to trackers request content offset garbage sender receiver type found all memory
        buffers single dummy =
      let (flow, e, all', started) =
        handle_packet-get from.world from.config from.other request [] sender content type found
          all in
      let sender' : PeerState F = record sender { flow = flow } in
      let start : Link F = record {
        sender = sender';
        receiver = receiver;
        queue = to_wire (chunk_packet content 0) ∷ [];
        file = none;
      } in
      let (l, e', written, closed, valid) =
        download from to trackers content offset start
          (record {
            n = 1;
            some_sent = omega arith;
            queue = refl;
            sending =
                started-IsSending content from.other from.world.prev_ack from.world.count_ack
                  sender' started all' memory;
            receiving =
                new_buffer-IsReceiving garbage content to.other offset receiver buffers single;
          })
          dummy in
      (l, rw (e, e'), written, closed, valid)
