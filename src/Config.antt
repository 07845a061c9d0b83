-- ===== src/Config.antt =====
-- bt_parse.c: the options, and the list of nodes. The options are what `getopt` reads, with their
-- numbers converted by `atoi`; a line of the list of nodes is a comment or has its three fields.
-- `none` is an exit, a failed assertion, or a name that is too long for its array.
pub mod Own
mod Tests
use p2p_cc.Base.{
  ℕ, ◌%◌, ◌^◌, Bool, true, false, Option, some, none, List, [], ◌∷◌, ltb, if◌then◌else◌, ◌>>=◌,
  ◌>>◌, require, length,
}
use p2p_cc.Debug.{set_debug}
use p2p_cc.Base.Int.{ℤ, pos, minus_one, signed, to_u32, ◌==ℤ◌}
use p2p_cc.Packet.{swap16}
use p2p_cc.Spiffy.{af_inet}
use p2p_cc.Manager.{Node}

-- An option with its argument.
pub data Argument : Type 0 where
  help : Argument
  debug : (level : List ℕ) → Argument
  peers_file : (name : List ℕ) → Argument
  has_file : (name : List ℕ) → Argument
  master_file : (name : List ℕ) → Argument
  connections : (n : ℤ) → Argument
  node_id : (n : ℤ) → Argument
  unknown : Argument

pub record Settings : Type 0 where
  pub peer_list_file : List ℕ
  pub has_chunk_file : List ℕ
  pub chunk_file : List ℕ
  pub max_conn : ℤ
  pub identity : ℤ

-- `bt_init`: zeros, and the name "nodes.map". (That of the output file is overwritten before it is read.)
unfoldable pub bt_init : Settings
bt_init = record {
  peer_list_file = 110 ∷ 111 ∷ 100 ∷ 101 ∷ 115 ∷ 46 ∷ 109 ∷ 97 ∷ 112 ∷ [];
  has_chunk_file = [];
  chunk_file = [];
  max_conn = pos 0;
  identity = pos 0;
}

-- The conversion of an int to a short.
abbrev pub to_short : ℤ → ℤ
to_short n = signed 16 (to_u32 n % 2 ^ 16)

-- BT_FILENAME_LEN, the size of the arrays that strcpy writes a name and its zero to.
abbrev pub bt_filename_len : ℕ
bt_filename_len = 255

-- The global `debug`, which only output depends on, is left out: `set_debug` is called with a 0.
unfoldable pub set_option : Argument → Settings → Option Settings
set_option help c = none
set_option (debug level) c = if (set_debug level 0).1 ==ℤ minus_one then none else some c
set_option (peers_file name) c =
    require (ltb (length name) bt_filename_len) >> some (record c { peer_list_file = name })
set_option (has_file name) c =
    require (ltb (length name) bt_filename_len) >> some (record c { has_chunk_file = name })
set_option (master_file name) c =
    require (ltb (length name) bt_filename_len) >> some (record c { chunk_file = name })
set_option (connections n) c = some (record c { max_conn = n })
set_option (node_id n) c = some (record c { identity = to_short n })
set_option unknown c = none

unfoldable pub set_options : List Argument → Settings → Option Settings
unfolding set_option
set_options [] c = some c
set_options (a ∷ rest) c = do c' ← set_option a c; set_options rest c'

pub data NodeLine : Type 0 where
  comment : NodeLine
  node_line : (nodeid : ℤ) → (hostname : List ℕ) → (port : ℤ) → NodeLine

abbrev pub new_node : ℤ → ℕ → ℤ → Node
new_node nodeid host port = record {
  id = to_short nodeid;
  addr = record { sin_family = af_inet; sin_port = swap16 (to_u32 port % 2 ^ 16); s_addr = host };
}

-- `resolve` is gethostbyname. The newest node comes first.
unfoldable pub bt_parse_peer_list :
    (List ℕ → Option ℕ) → List NodeLine → List Node → Option (List Node)
bt_parse_peer_list resolve [] peers = some peers
bt_parse_peer_list resolve (comment ∷ rest) peers = bt_parse_peer_list resolve rest peers
bt_parse_peer_list resolve (node_line nodeid hostname port ∷ rest) peers = do
  host ← resolve hostname
  bt_parse_peer_list resolve rest (new_node nodeid host port ∷ peers)

unfoldable pub bt_peer_info : ℤ → List Node → Option Node
bt_peer_info peer_id [] = none
bt_peer_info peer_id (p ∷ rest) =
    let next = bt_peer_info peer_id rest in if p.id ==ℤ peer_id then some p else next

-- The settings, the nodes, and this node's port.
unfoldable pub bt_parse_command_line :
    (List ℕ → Option ℕ)
    → (List ℕ → List NodeLine)
    → List Argument
    → Settings
    → Option (Settings × List Node × ℕ)
bt_parse_command_line resolve read arguments c = do
  c' ← set_options arguments c
  peers ← bt_parse_peer_list resolve (read c'.peer_list_file) []
  require (if c'.identity ==ℤ pos 0 then false else true)
  p ← bt_peer_info c'.identity peers
  require (ltb 0 (length c'.chunk_file))
  require (ltb 0 (length c'.has_chunk_file))
  some (c', peers, swap16 p.addr.sin_port)
