-- ===== src/Transfer/Link.antt =====
-- Two peers and a link between them that loses nothing and keeps the order: each packet is handled
-- by `handle_packet` (packet.c), and the answers are reversed and converted as
-- `process_inbound_udp` (peer.c) does it.
use p2p_cc.Base.{ℕ, zero, suc, Option, none, some, List, [], ◌∷◌, ◌++◌, map, ◌>>=◌}
use p2p_cc.Base.Int.{ℤ}
use p2p_cc.Packet.{Packet, to_wire}
use p2p_cc.Tracker.{Trackers}
use p2p_cc.Sender.{FloatOps}
use p2p_cc.Manager.{Config, PeerState, World, handle_packet}
use p2p_cc.Peer.{reverse_list}

-- What a peer finds around it, and what it knows the other one as.
pub record Side : Type 0 where
  pub world : World
  pub config : Config
  pub other : ℤ

-- The DATA packets on their way, the oldest first, and the file that the receiver has written.
pub record Link (F : Type 0) : Type 0 where
  pub sender : PeerState F
  pub receiver : PeerState F
  pub queue : List Packet
  pub file : Option (List ℕ)

abbrev pub newer {ℓ} : {A : Type ℓ} → Option A → Option A → Option A
newer none old = old
newer (some a) old = some a

module _ {F : Type 0} ⦃fl : FloatOps F⦄ where
  -- The packets that the sender sends for those of the receiver.
  unfoldable pub answers :
      Side → Trackers → List Packet → PeerState F → Option (PeerState F × List Packet)
  answers side trackers [] s = some (s, [])
  answers side trackers (packet ∷ rest) s = do
    o ← handle_packet side.world side.config side.other packet trackers s
    (s', sent) ← answers side trackers rest o.peer
    some (s', map to_wire (reverse_list o.packets) ++ sent)

  -- The oldest packet arrives and is answered, and the sender has the answers. Its timers, which
  -- others use as well, are given for each round.
  unfoldable pub round : Side → Side → Trackers → Link F → Option (Link F)
  unfolding answers
  round from to trackers l = elim l.queue [
    | [] ↦ some l
    | packet ∷ rest ↦ do
      o ← handle_packet to.world to.config to.other packet [] l.receiver
      (sender, sent) ← answers from trackers (map to_wire (reverse_list o.packets)) l.sender
      some (record {
        sender = sender;
        receiver = o.peer;
        queue = rest ++ sent;
        file = newer o.file l.file;
      })
  ]

  unfoldable pub rounds : Side → Side → (ℕ → Trackers) → ℕ → Link F → Option (Link F)
  rounds from to trackers zero l = some l
  rounds from to trackers (suc k) l =
      rounds from to trackers k l >>= (λ l'. round from to (trackers k) l')

  -- A chunk that the sender is asked for, and k rounds.
  unfoldable pub fetch :
      Side → Side → (ℕ → Trackers) → ℕ → Packet → PeerState F → PeerState F → Option (Link F)
  unfolding rounds
  fetch from to trackers k request sender receiver = do
    o ← handle_packet from.world from.config from.other request [] sender
    rounds from to trackers k (record {
      sender = o.peer;
      receiver = receiver;
      queue = map to_wire (reverse_list o.packets);
      file = none;
    })
