-- ===== src/Peer/Start.antt =====
-- The start of the peer: `main` and what `peer_run` does before its loop (peer.c), in the build of
-- the Makefile, which defines TESTING.
use p2p_cc.Base.{ℕ, Bool, none, Option, some, List, [], ◌∷◌, ◌>>=◌, ◌>>◌, require}
use p2p_cc.Base.Int.{ℤ, pos}
use p2p_cc.Packet.{swap16}
use p2p_cc.Tracker.{SockAddr}
use p2p_cc.Hashes.{Line, MasterFile}
use p2p_cc.Manager.{Config}
use p2p_cc.Spiffy.{Spiffy, af_inet}
use p2p_cc.Spiffy.Init.{not_started, spiffy_init}
use p2p_cc.Log.{Timespec, Log, log_open}
use p2p_cc.Config.{Argument, Settings, NodeLine, bt_init, bt_parse_command_line}
use p2p_cc.Peer.Run.{Running, start_running}

-- What the program finds: gethostbyname and inet_aton, the files by their names, the variable
-- SPIFFY_ROUTER, whether a socket can be made and bound to a port, and whether the log can be opened,
-- with the time of that.
pub record Environment : Type 0 where
  pub resolve : List ℕ → Option ℕ
  pub inet_aton : List ℕ → Option ℕ
  pub node_files : List ℕ → List NodeLine
  pub master_files : List ℕ → Option MasterFile
  pub chunk_files : List ℕ → Option (List Line)
  pub router : Option (List ℕ)
  pub bind : ℕ → Bool
  pub log_opened : Bool
  pub now : Timespec

-- The settings before the command line is read: identity 1, "chunkfile" and "haschunks".
unfoldable pub testing_settings : Settings
unfolding bt_init
testing_settings = record bt_init {
  identity = pos 1;
  chunk_file = 99 ∷ 104 ∷ 117 ∷ 110 ∷ 107 ∷ 102 ∷ 105 ∷ 108 ∷ 101 ∷ [];
  has_chunk_file = 104 ∷ 97 ∷ 115 ∷ 99 ∷ 104 ∷ 117 ∷ 110 ∷ 107 ∷ 115 ∷ [];
}

-- `myaddr`: the port, and INADDR_ANY.
abbrev pub my_address : ℕ → SockAddr
my_address port = record { sin_family = af_inet; sin_port = swap16 port; s_addr = 0 }

-- `peer_run` up to its loop: the globals of spiffy.c, whatever `spiffy_init` returns.
unfoldable pub start_peer_run : Environment → ℤ → ℕ → Option Spiffy
start_peer_run env identity port = do
  require (env.bind port)
  some ((spiffy_init env.inet_aton env.router identity (my_address port) not_started).0)

-- A peer that has started.
pub record Started (F : Type 0) : Type 0 where
  pub config : Config
  pub spiffy : Spiffy
  pub running : Running F
  pub log : Log

-- The log is opened twice; the second time is the one that counts.
unfoldable pub main : {F : Type 0} → Environment → List Argument → Option (Started F)
unfolding testing_settings start_peer_run log_open
main env arguments = do
  (c, peers, port) ← bt_parse_command_line env.resolve env.node_files arguments testing_settings
  spiffy ← start_peer_run env c.identity port
  some (record {
    config = record {
      chunk_file = env.master_files c.chunk_file;
      has_chunk_file = env.chunk_files c.has_chunk_file;
      identity = c.identity;
      peers = peers;
    };
    spiffy = spiffy;
    running = start_running;
    log = log_open none env.log_opened env.now;
  })
