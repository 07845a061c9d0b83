-- ===== src/Peer/Reachable.antt =====
-- The states that a peer can reach (`peer_run` of peer.c), and what holds in all of them.
use p2p_cc.Base.{
  ℕ, ◌+◌, ◌≡◌, true, false, Option, none, some, List, [], ◌∷◌, ◌==◌, ltb, zero, suc, length,
  get_all, Ensures, Ensures-bind, Ensures->>=, Ensures-eq, if-holds,
}
use p2p_cc.Base.Int.{ℤ, pos, ◌==ℤ◌, minus_one}
use p2p_cc.Packet.{Packet, init_packet, whohas}
use p2p_cc.Tracker.{PacketTracker, Trackers}
use p2p_cc.Sender.{FloatOps}
use p2p_cc.Sender.Pending.{HasDummy}
use p2p_cc.Receiver.{Buffer, is_buffer_full}
use p2p_cc.Receiver.Keeps.{AllRight, release_buffer-AllRight}
use p2p_cc.Hashes.{MasterFile, get_hash_from_master_chunkfile}
use p2p_cc.Manager.{
  Config, FileManager, PeerState, World, Outcome, Asked, ask_chunk, ask_again, re_generate_whohas,
  generate_whohas, handle_packet,
}
use p2p_cc.Input.{process_user_input}
use p2p_cc.Peer.{Datagram, target_id, process_inbound_udp, process_get, check_round}
use p2p_cc.Peer.Run.{
  Files, Running, Round, start_running, scan_get, get_word, handle_user_input, handle_lines,
  inbound, typed, checked, and_then, peer_round,
}
use p2p_cc.Peer.Timers.{HasDummy-respond, HasDummy-sweep, AllSending-sweep}
use p2p_cc.Peer.Handled.{IsPeer, IsHandled, IsAckInRange, handle_packet-IsHandled}

module _ {F : Type 0} where
  -- The sender's chunks and the receiver's buffers are valid, and the timers begin with the dummy.
  pub record IsRunning (r : Running F) : Type 0 where
    pub peer : IsPeer r.peer
    pub dummy : HasDummy r.trackers

  abbrev pub IsRound : Round F → Type 0
  IsRound (exited, r, sent) = IsRunning r

-- What comes in is not an acknowledgement with a number beyond 2 ^ 31.
abbrev pub InRange : Option Datagram → Type 0
InRange none = Unit {0}
InRange (some datagram) = IsAckInRange datagram.1

ask_chunk-AllRight :
    (now : ℕ) (junk : List ℕ) (block : ℕ → ℕ) (master : Option MasterFile) (offset : ℤ) (i : ℕ)
    (a : Asked)
    → AllRight a.1
    → Ensures (λ (a' : Asked). AllRight a'.1) (ask_chunk now junk block master offset i a)
unfolding ask_chunk
ask_chunk-AllRight now junk block master offset i (timer, l, ret) v =
    let Q : Asked → Type 0 = λ a'. AllRight a'.1 in
    if-holds (Ensures Q) (is_buffer_full offset l ==ℤ pos 1) v (
      if-holds (Ensures Q) (ltb (timer i + 10) now)
        (Ensures-bind Q
          (init_packet junk whohas (get_hash_from_master_chunkfile block offset master) 20) _
          (λ packet. release_buffer-AllRight offset l v))
        v)

ask_again-AllRight :
    (now : ℕ) (junk : List ℕ) (block : ℕ → ℕ) (master : Option MasterFile) (offsets : ℕ → ℤ)
    (left i : ℕ) (a : Asked)
    → AllRight a.1
    → Ensures (λ (a' : Asked). AllRight a'.1) (ask_again now junk block master offsets left i a)
unfolding ask_again
ask_again-AllRight now junk block master offsets zero i a v = v
ask_again-AllRight now junk block master offsets (suc left) i a v =
    let Q : Asked → Type 0 = λ a'. AllRight a'.1 in
    Ensures->>= Q Q (ask_chunk now junk block master (offsets i) i a) _
      (ask_chunk-AllRight now junk block master (offsets i) i a v)
      (λ a' v'. ask_again-AllRight now junk block master offsets left (i + 1) a' v')

-- What `re_generate_whohas` returns.
abbrev Again : Type 0
Again = FileManager × List Buffer × List Packet

re_generate_whohas-AllRight :
    (now : ℕ) (junk : List ℕ) (block : ℕ → ℕ) (config : Config) (m : FileManager) (l : List Buffer)
    → AllRight l
    → Ensures (λ (r : Again). AllRight r.1) (re_generate_whohas now junk block config m l)
unfolding re_generate_whohas
re_generate_whohas-AllRight now junk block config m l v =
    let Q : Again → Type 0 = λ r. AllRight r.1 in
    if-holds (Ensures Q) (m.init == 0) v (
      Ensures-bind Q (get_all (pos 0) m.chunk_count m.offset) _ (λ offsets.
        Ensures-bind Q (get_all 0 m.chunk_count m.timer) _ (λ timer.
          Ensures->>= (λ (a : Asked). AllRight a.1) Q
            (ask_again now junk block config.chunk_file offsets m.chunk_count 0 (timer, l, [])) _
            (ask_again-AllRight now junk block config.chunk_file offsets m.chunk_count 0
              (timer, l, []) v)
            (λ a v'. v'))))

module _ {F : Type 0} ⦃fl : FloatOps F⦄ where
  process_inbound_udp-IsHandled :
      (garbage : PacketTracker) (w : World) (config : Config) (datagram : Datagram)
      (trackers : Trackers) (s : PeerState F)
      → IsAckInRange datagram.1
      → IsPeer s
      → HasDummy trackers
      → Ensures
          (λ (r : Outcome F × List Datagram). IsHandled r.0)
          (process_inbound_udp garbage w config datagram trackers s)
  unfolding process_inbound_udp
  process_inbound_udp-IsHandled garbage w config (from, packet) trackers s in_range v h =
      let Q : Outcome F × List Datagram → Type 0 = λ r. IsHandled r.0 in
      let socket = target_id from config.peers in
      if-holds (Ensures Q) (socket ==ℤ minus_one) (record { peer = v; dummy = h })
        (Ensures->>= (IsHandled {F = F}) Q (handle_packet w config socket packet trackers s) _
          (handle_packet-IsHandled w config socket packet trackers s in_range v h)
          (λ o k. record {
            peer = k.peer;
            dummy = HasDummy-respond garbage w.now socket from _ o.trackers k.dummy;
          }))

  -- A command of the user touches the file manager only.
  handle_user_input-IsPeer :
      (w : World) (config : Config) (files : Files) (line : List ℕ) (s : PeerState F)
      → IsPeer s
      → Ensures
          (λ (r : PeerState F × List Datagram). IsPeer r.0)
          (handle_user_input w config files line s)
  unfolding handle_user_input process_get
  handle_user_input-IsPeer w config files line s v =
      let Q : PeerState F × List Datagram → Type 0 = λ r. IsPeer r.0 in
      let scanned = scan_get get_word line in
      if-holds (Ensures Q) (scanned.count ==ℤ pos 0) v (
        if-holds (Ensures Q) (ltb 0 (length scanned.outf))
          (Ensures-bind Q
            (generate_whohas w.now w.junk w.block config (files scanned.chunkf) s.manager) _
            (λ r. record { sending = v.sending; receiving = v.receiving }))
          v)

  handle_lines-IsPeer :
      (w : ℕ → World) (i : ℕ) (config : Config) (files : Files) (lines : List (List ℕ))
      (s : PeerState F)
      → IsPeer s
      → Ensures
          (λ (r : PeerState F × List Datagram). IsPeer r.0)
          (handle_lines w i config files lines s)
  unfolding handle_lines
  handle_lines-IsPeer w i config files [] s v = v
  handle_lines-IsPeer w i config files (line ∷ lines) s v =
      let Q : PeerState F × List Datagram → Type 0 = λ r. IsPeer r.0 in
      Ensures->>= Q Q (handle_user_input (w i) config files line s) _
        (handle_user_input-IsPeer (w i) config files line s v)
        (λ r v'.
          Ensures->>= Q Q (handle_lines w (i + 1) config files lines r.0) _
            (handle_lines-IsPeer w (i + 1) config files lines r.0 v') (λ r' v''. v''))

  inbound-IsRound :
      (garbage : PacketTracker) (w : World) (config : Config) (datagram : Option Datagram)
      (r : Running F)
      → InRange datagram
      → IsRunning r
      → Ensures IsRound (inbound garbage w config datagram r)
  unfolding inbound
  inbound-IsRound garbage w config none r in_range v = v
  inbound-IsRound garbage w config (some datagram) r in_range v =
      Ensures->>= (λ (k : Outcome F × List Datagram). IsHandled k.0) IsRound
        (process_inbound_udp garbage w config datagram r.trackers r.peer) _
        (process_inbound_udp-IsHandled garbage w config datagram r.trackers r.peer in_range v.peer
          v.dummy)
        (λ k h. record { peer = h.peer; dummy = h.dummy })

  typed-IsRound :
      (w : ℕ → World) (config : Config) (files : Files) (input : Option (List ℕ)) (r : Running F)
      → IsRunning r
      → Ensures IsRound (typed w config files input r)
  unfolding typed
  typed-IsRound w config files none r v = v
  typed-IsRound w config files (some input) r v =
      Ensures-bind IsRound (process_user_input input r.userbuf) _ (λ p.
        if-holds (Ensures IsRound) p.exited v (
          Ensures->>= (λ (k : PeerState F × List Datagram). IsPeer k.0) IsRound
            (handle_lines w 0 config files p.lines r.peer) _
            (handle_lines-IsPeer w 0 config files p.lines r.peer v.peer)
            (λ k h. record { peer = h; dummy = v.dummy })))

  checked-IsRound :
      (w : World) (config : Config) (r : Running F)
      → IsRunning r
      → Ensures IsRound (checked w config r)
  unfolding checked check_round
  checked-IsRound w config r v =
      let P : Trackers × PeerState F × List Datagram → Type 0 = λ k. IsPeer k.1 × HasDummy k.0 in
      let s = r.peer in
      Ensures->>= P IsRound (check_round w config r.trackers s) _
        (Ensures->>= (λ (a : Again). AllRight a.1) P
          (re_generate_whohas w.now w.junk w.block config s.manager s.recv_list) _
          (re_generate_whohas-AllRight w.now w.junk w.block config s.manager s.recv_list
            v.peer.receiving)
          (λ a right. (
            record {
              sending = AllSending-sweep w.now r.trackers s.flow v.peer.sending;
              receiving = right;
            },
            HasDummy-sweep w.now r.trackers s.flow v.dummy,
          )))
        (λ k h. record { peer = h.0; dummy = h.1 })

  and_then-IsRound :
      (first : Round F) (next : Running F → Option (Round F))
      → IsRound first
      → ((r : Running F) → IsRunning r → Ensures IsRound (next r))
      → Ensures IsRound (and_then first next)
  unfolding and_then
  and_then-IsRound (true, r, sent) next v k = v
  and_then-IsRound (false, r, sent) next v k =
      Ensures->>= IsRound IsRound (next r) _ (k r v) (λ r' v'. v')

  peer_round-IsRound :
      (garbage : PacketTracker) (w : World) (w' : ℕ → World) (w'' : World) (config : Config)
      (files : Files) (datagram : Option Datagram) (input : Option (List ℕ)) (r : Running F)
      → InRange datagram
      → IsRunning r
      → Ensures IsRound (peer_round garbage w w' w'' config files datagram input r)
  unfolding peer_round
  peer_round-IsRound garbage w w' w'' config files datagram input r in_range v =
      Ensures->>= IsRound IsRound (inbound garbage w config datagram r) _
        (inbound-IsRound garbage w config datagram r in_range v)
        (λ first v1.
          Ensures->>= IsRound IsRound (and_then first (typed w' config files input)) _
            (and_then-IsRound first (typed w' config files input) v1
              (λ r' k. typed-IsRound w' config files input r' k))
            (λ second v2.
              and_then-IsRound second (checked w'' config) v2
                (λ r' k. checked-IsRound w'' config r' k)))

  -- The states between rounds.
  pub data Reachable (config : Config) (files : Files) : Running F → Type 0 where
    start : Reachable config files start_running
    later :
        {r r' : Running F} (garbage : PacketTracker) (w : World) (w' : ℕ → World) (w'' : World)
        (datagram : Option Datagram) (input : Option (List ℕ)) (sent : List Datagram)
        → Reachable config files r
        → InRange datagram
        → peer_round garbage w w' w'' config files datagram input r ≡ some (false, r', sent)
        → Reachable config files r'

  -- In every state that a peer reaches from its start by whole rounds, in which no acknowledgement
  -- beyond 2 ^ 31 comes in and none ends in undefined behaviour or in an exit: each chunk that is
  -- sent is valid, each buffer has all its parts from the second up to `expected` and a right count of
  -- bytes, and the list of packets in flight begins with the dummy node.
  pub reachable-IsRunning :
      {config : Config} {files : Files} {r : Running F} → Reachable config files r → IsRunning r
  unfolding start_running
  reachable-IsRunning start = record { peer = record { sending = tt; receiving = tt }; dummy = tt }
  reachable-IsRunning (later {r} garbage w w' w'' datagram input sent reached in_range e) =
      Ensures-eq IsRound _
        (peer_round-IsRound garbage w w' w'' _ _ datagram input r in_range
          (reachable-IsRunning reached))
        e
