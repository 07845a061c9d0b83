-- ===== src/Config/Own.antt =====
-- The port of this node.
use p2p_cc.Base.{
  ℕ, ◌%◌, ◌^◌, ◌<◌, ◌≡◌, ◌≢◌, refl, true, false, Option, some, List, [], ◌∷◌, ◌++◌, ltb, length,
  arith,
}
use p2p_cc.Base.Int.{ℤ, pos, to_u32, ◌==ℤ◌, ==ℤ_self, ==ℤ_iff}
use p2p_cc.Packet.{swap16}
use p2p_cc.Packet.Layout.{swap16_self}
use p2p_cc.Manager.{Node}
use p2p_cc.Config.{
  Argument, Settings, NodeLine, comment, node_line, to_short, new_node, set_options,
  bt_parse_peer_list, bt_peer_info, bt_parse_command_line,
}

-- All host names of the lines can be resolved.
abbrev pub AllResolved : (List ℕ → Option ℕ) → List NodeLine → Type 0
AllResolved resolve [] = Unit {0}
AllResolved resolve (comment ∷ rest) = AllResolved resolve rest
AllResolved resolve (node_line nodeid hostname port ∷ rest) =
    ((host : ℕ) × (resolve hostname ≡ some host)) × AllResolved resolve rest

-- No line is for this node.
abbrev pub NoId : ℤ → List NodeLine → Type 0
NoId id [] = Unit {0}
NoId id (comment ∷ rest) = NoId id rest
NoId id (node_line nodeid hostname port ∷ rest) = ((to_short nodeid ==ℤ id) ≡ false) × NoId id rest

-- Lines for other nodes do not hide a node that is there.
parse-others :
    (resolve : List ℕ → Option ℕ) (id : ℤ) (lines : List NodeLine) (peers : List Node) (p : Node)
    → AllResolved resolve lines
    → NoId id lines
    → bt_peer_info id peers ≡ some p
    → (peers' : List Node) × (bt_parse_peer_list resolve lines peers ≡ some peers')
      × (bt_peer_info id peers' ≡ some p)
unfolding bt_parse_peer_list bt_peer_info
parse-others resolve id [] peers p r only e = (peers, refl, e)
parse-others resolve id (comment ∷ rest) peers p r only e =
    parse-others resolve id rest peers p r only e
parse-others resolve id (node_line nodeid hostname port ∷ rest) peers p r only e =
    let (peers', e', found) =
      parse-others resolve id rest (new_node nodeid r.0.0 port ∷ peers) p r.1 only.1
        (rw only.0 e) in
    (peers', rw r.0.1 e', found)

-- The last line for a node is the one that counts.
parse-last :
    (resolve : List ℕ → Option ℕ) (nodeid : ℤ) (hostname : List ℕ) (port : ℤ)
    (before after : List NodeLine) (peers : List Node)
    → AllResolved resolve (before ++ node_line nodeid hostname port ∷ after)
    → NoId (to_short nodeid) after
    → (peers' : List Node) × (p : Node) × (bt_parse_peer_list resolve
          (before ++ node_line nodeid hostname port ∷ after)
          peers
        ≡ some peers')
      × (bt_peer_info (to_short nodeid) peers' ≡ some p)
      × (p.addr.sin_port ≡ swap16 (to_u32 port % 2 ^ 16))
unfolding bt_parse_peer_list bt_peer_info
parse-last resolve nodeid hostname port [] after peers r only =
    let self = ==ℤ_self (to_short nodeid) in
    let (peers', e, found) =
      parse-others resolve (to_short nodeid) after (new_node nodeid r.0.0 port ∷ peers)
        (new_node nodeid r.0.0 port) r.1 only (rw self refl) in
    (peers', new_node nodeid r.0.0 port, rw r.0.1 e, found, refl)
parse-last resolve nodeid hostname port (comment ∷ before) after peers r only =
    parse-last resolve nodeid hostname port before after peers r only
parse-last resolve nodeid hostname port (node_line i h q ∷ before) after peers r only =
    let (peers', p, e, found, at) =
      parse-last resolve nodeid hostname port before after (new_node i r.0.0 q ∷ peers) r.1 only in
    (peers', p, rw r.0.1 e, found, at)

-- With options that give this node a number other than 0 and name both chunk files, and with a list of
-- nodes whose hosts are all known, the start succeeds if a line is for this node. Its port is that of
-- the last such line, if that is a port number.
pub bt_parse_command_line_lem :
    (resolve : List ℕ → Option ℕ) (read : List ℕ → List NodeLine) (arguments : List Argument)
    (c c' : Settings) (nodeid : ℤ) (hostname : List ℕ) (port : ℕ) (before after : List NodeLine)
    → set_options arguments c ≡ some c'
    → c'.identity ≢ pos 0
    → 0 < length c'.chunk_file
    → 0 < length c'.has_chunk_file
    → read c'.peer_list_file ≡ before ++ node_line nodeid hostname (pos port) ∷ after
    → c'.identity ≡ to_short nodeid
    → NoId (to_short nodeid) after
    → AllResolved resolve (before ++ node_line nodeid hostname (pos port) ∷ after)
    → port < 2 ^ 16
    → (peers : List Node) × (bt_parse_command_line resolve read arguments c
        ≡ some (c', peers, port))
unfolding bt_parse_command_line
bt_parse_command_line_lem resolve read arguments c c' nodeid hostname port before after set id h1 h2
      file own only r small =
    let (peers, p, e, found, at) =
      parse-last resolve nodeid hostname (pos port) before after [] r only in
    let nonzero : (c'.identity ==ℤ pos 0) ≡ false = ground (arith, ==ℤ_iff c'.identity (pos 0)) in
    let t1 : ltb 0 (length c'.chunk_file) ≡ true = ground arith in
    let t2 : ltb 0 (length c'.has_chunk_file) ≡ true = ground arith in
    let mine : bt_peer_info c'.identity peers ≡ some p = rw own found in
    let same : to_u32 (pos port) % 2 ^ 16 ≡ port = omega arith in
    let port_back : swap16 p.addr.sin_port ≡ port = rw (at, same) (swap16_self port small) in
    (peers, rw (set, file, e, nonzero, mine, t1, t2, port_back))
