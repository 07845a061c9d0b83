-- ===== src/Config/Tests.antt =====
-- The start of a peer, at a concrete input.
use p2p_cc.Base.{◌≡◌, refl, some, List, [], ◌∷◌, arith}
use p2p_cc.Base.Int.{pos}
use p2p_cc.Manager.{Node}
use p2p_cc.Config.{
  Argument, node_id, has_file, master_file, Settings, NodeLine, comment, node_line, set_options,
  set_option, bt_parse_command_line,
}
use p2p_cc.Config.Own.{bt_parse_command_line_lem}

abbrev start : Settings
start = record {
  peer_list_file = 110 ∷ [];
  has_chunk_file = [];
  chunk_file = [];
  max_conn = pos 0;
  identity = pos 0;
}

abbrev arguments : List Argument
arguments = has_file (65 ∷ []) ∷ master_file (67 ∷ []) ∷ node_id (pos 2) ∷ []

abbrev nodes : List NodeLine
nodes =
    comment ∷ node_line (pos 1) (49 ∷ []) (pos 1111) ∷ node_line (pos 2) (50 ∷ []) (pos 2222) ∷ []

abbrev settings : Settings
settings = record start { has_chunk_file = 65 ∷ []; chunk_file = 67 ∷ []; identity = pos 2 }

bt_parse_command_line_lem_example :
    (peers : List Node) × (bt_parse_command_line (λ name. some 1) (λ file. nodes) arguments start
      ≡ some (settings, peers, 2222))
unfolding set_options set_option
bt_parse_command_line_lem_example =
    bt_parse_command_line_lem (λ name. some 1) (λ file. nodes) arguments start settings (pos 2)
      (50 ∷ []) 2222 (comment ∷ node_line (pos 1) (49 ∷ []) (pos 1111) ∷ []) [] refl
      (λ e. ground (arith, e)) (omega arith) (omega arith) refl refl tt ((1, refl), ((1, refl), tt))
      (omega arith)
