-- ===== src/Peer/Routed.antt =====
-- Two peers behind the router of spiffy.c.
use p2p_cc.Base.{
  ℕ, ap, ◌∙◌, ◌<◌, ◌≤◌, ◌^◌, ◌≡◌, ◌≢◌, refl, true, false, some, none, List, [], ◌∷◌, Bytes, arith,
  Ensures, Ensures-bind, Ensures->>=, Ensures-eq, require,
}
use p2p_cc.Base.Int.{ℤ, pos, minus_one}
use p2p_cc.Packet.{Packet, swap16}
use p2p_cc.Tracker.{SockAddr, PacketTracker, Trackers}
use p2p_cc.Sender.{FloatOps}
use p2p_cc.Spiffy.{Spiffy, Frame, af_inet, spiffy_sendto, spiffy_recvfrom}
use p2p_cc.Spiffy.RoundTrip.{spiffy_recvfrom-spiffy_sendto}
use p2p_cc.Spiffy.Init.{not_started, split_colon, spiffy_init}
use p2p_cc.Config.{Argument, bt_parse_command_line}
use p2p_cc.Manager.{Node, PeerState, World}
use p2p_cc.Peer.{same_address, target_id, process_inbound_udp}
use p2p_cc.Peer.Start.{Environment, Started, my_address, testing_settings, start_peer_run, main}

-- The variable SPIFFY_ROUTER names a router.
abbrev pub HasRouter : Environment → Type 0
HasRouter env =
    (setting : List ℕ) × (name : List ℕ) × (port : List ℕ) × (host : ℕ) × (env.router
      ≡ some setting)
    × (split_colon setting ≡ some (name, port))
    × (env.inet_aton name ≡ some host)

-- No node of the list has the address 0.0.0.0.
abbrev pub AllNamed : List Node → Type 0
AllNamed [] = Unit {0}
AllNamed (node ∷ rest) = (node.addr.s_addr ≢ 0) × AllNamed rest

-- What `spiffy_init` stores of the peer.
abbrev IsRouted : Spiffy → Type 0
IsRouted s = (s.enabled ≡ true) × (s.src_addr ≡ 0) × (s.src_port < 2 ^ 16)

swap16_small : (x : ℕ) → swap16 x < 2 ^ 16
unfolding swap16
swap16_small x = omega arith

spiffy_init-IsRouted :
    (env : Environment) (id : ℤ) (port : ℕ)
    → HasRouter env
    → IsRouted (spiffy_init env.inet_aton env.router id (my_address port) not_started).0
unfolding spiffy_init
spiffy_init-IsRouted env id port (setting, name, behind, host, e0, e1, e2) =
    rw (e0, e1, spiffy_init, e2) (refl, refl, swap16_small port)

start_peer_run-IsRouted :
    (env : Environment) (id : ℤ) (port : ℕ)
    → HasRouter env
    → Ensures IsRouted (start_peer_run env id port)
unfolding start_peer_run
start_peer_run-IsRouted env id port h =
    Ensures-bind IsRouted (require (env.bind port)) _ (λ bound. spiffy_init-IsRouted env id port h)

main-IsRouted :
    {F : Type 0} (env : Environment) (arguments : List Argument) (a : Started F)
    → HasRouter env
    → main env arguments ≡ some a
    → IsRouted a.spiffy
unfolding main
main-IsRouted {F = F} env arguments a h e =
    let Q : Started F → Type 0 = λ a. IsRouted a.spiffy in
    Ensures-eq Q (main env arguments)
      (Ensures-bind Q (bt_parse_command_line env.resolve env.node_files arguments testing_settings)
        _
        (λ r.
          Ensures->>= IsRouted Q (start_peer_run env r.0.identity r.2) _
            (start_peer_run-IsRouted env r.0.identity r.2 h) (λ s routed. routed)))
      e

-- The address that the router's datagrams carry is that of no node.
target_id-unnamed :
    (port : ℕ) (nodes : List Node)
    → AllNamed nodes
    → target_id (record { sin_family = af_inet; sin_port = port; s_addr = 0 }) nodes ≡ minus_one
unfolding target_id
target_id-unnamed port [] h = refl
target_id-unnamed port (node ∷ rest) (named, others) =
    let from : SockAddr = record { sin_family = af_inet; sin_port = port; s_addr = 0 } in
    let other : same_address from node.addr ≡ false = ground arith in
    rw other (target_id-unnamed port rest others)

module _ {F : Type 0} ⦃fl : FloatOps F⦄ where
  -- Two peers that have started with SPIFFY_ROUTER set, the second with no node of address 0.0.0.0 in
  -- its list. A message of at most 1500 bytes that the first sends to an IP address, and that the
  -- router passes on to the second as it is, arrives there with its bytes and its length. But it
  -- seems to come from 0.0.0.0, since `peer_run` gives INADDR_ANY to `spiffy_init`, so
  -- `process_inbound_udp` takes it for a stranger's: it changes nothing and answers nothing,
  -- whatever the packet is.
  pub routed-ignored :
      (env env' : Environment) (arguments arguments' : List Argument) (a b : Started F)
      (newbuf msg buffer : Bytes) (before : SockAddr) (len : ℕ) (to : SockAddr)
      (garbage : PacketTracker) (w : World) (trackers : Trackers) (s : PeerState F)
      → HasRouter env
      → HasRouter env'
      → main env arguments ≡ some a
      → main env' arguments' ≡ some b
      → AllNamed b.config.peers
      → to.sin_family ≡ af_inet
      → len ≤ 1500
      → (f : Frame) × (out : Bytes) × (from : SockAddr) × (spiffy_sendto a.spiffy msg len to
          ≡ some f)
        × (spiffy_recvfrom newbuf b.spiffy buffer before 1500 f ≡ (out, from, pos len))
        × ((j : ℕ) → j < len → out j ≡ msg j)
        × ((packet : Packet)
            → process_inbound_udp garbage w b.config (from, packet) trackers s
              ≡ some (
                record { exited = false; peer = s; trackers = trackers; packets = []; file = none },
                [],
              ))
  unfolding process_inbound_udp
  routed-ignored env env' arguments arguments' a b newbuf msg buffer before len to garbage w
        trackers s h h' e e' named inet fits =
      let (on, source, port) = main-IsRouted env arguments a h e in
      let (on', source', port') = main-IsRouted env' arguments' b h' e' in
      let zero_small : a.spiffy.src_addr < 2 ^ 32 = omega (arith, source) in
      let (f, out, sent, received, same) =
        spiffy_recvfrom-spiffy_sendto newbuf a.spiffy b.spiffy msg buffer before len 1500 to on on'
          inet zero_small port fits in
      let address : ℕ → SockAddr =
        λ x. record { sin_family = af_inet; sin_port = a.spiffy.src_port; s_addr = x } in
      let stranger = target_id-unnamed a.spiffy.src_port b.config.peers named in
      (
        f,
        out,
        address 0,
        sent,
        received ∙ ap (λ (x : ℕ). (out, address x, pos len)) source,
        same,
        λ packet. rw stranger,
      )
