-- ===== src/Peer/Run.antt =====
-- `handle_user_input` and the rounds of `peer_run` (peer.c).
use p2p_cc.Base.{
  ℕ, zero, suc, ◌+◌, Bool, true, false, ◌&&◌, ◌||◌, Option, none, some, List, [], ◌∷◌, ◌++◌, ◌==◌,
  leb, ltb, if◌then◌else◌, ◌>>=◌, length,
}
use p2p_cc.Base.Int.{ℤ, pos, minus_one, ◌==ℤ◌}
use p2p_cc.Tracker.{PacketTracker, Trackers}
use p2p_cc.Sender.{FloatOps}
use p2p_cc.Hashes.{Line}
use p2p_cc.Manager.{Config, PeerState, World}
use p2p_cc.Input.{UserIobuf, create_userbuf, process_user_input}
use p2p_cc.Peer.{Datagram, process_inbound_udp, process_get, check_round}

-- The files that chunk file names stand for.
abbrev pub Files : Type 0
Files = List ℕ → Option (List Line)

abbrev pub is_space : ℕ → Bool
is_space c = c == 32 || leb 9 c && leb c 13

abbrev pub skip_space : List ℕ → List ℕ
skip_space [] = []
skip_space (c ∷ text) = let rest = skip_space text in if is_space c then rest else c ∷ text

-- The bytes up to a white space, at most `left`, and what is behind them.
abbrev pub take_word : ℕ → List ℕ → List ℕ × List ℕ
take_word zero text = ([], text)
take_word (suc left) [] = ([], [])
take_word (suc left) (c ∷ text) =
    let (word, rest) = take_word left text in
    if is_space c then ([], c ∷ text) else (c ∷ word, rest)

-- What sscanf leaves in the two arrays, and its return value.
pub record Scanned : Type 0 where
  pub chunkf : List ℕ
  pub outf : List ℕ
  pub count : ℤ

-- sscanf(line, "GET %120s %120s", chunkf, outf), from the directive " %120s" on.
unfoldable pub scan_words : List ℕ → Scanned
scan_words text =
    let (chunkf, rest) = take_word 120 (skip_space text) in
    let (outf, rest') = take_word 120 (skip_space rest) in
    if length chunkf == 0
    then record { chunkf = []; outf = []; count = minus_one }
    else record { chunkf = chunkf; outf = outf; count = if length outf == 0 then pos 1 else pos 2 }

-- The call, with the letters that are still to match.
unfoldable pub scan_get : List ℕ → List ℕ → Scanned
unfolding scan_words
scan_get [] text = scan_words text
scan_get (c ∷ letters) [] = record { chunkf = []; outf = []; count = minus_one }
scan_get (c ∷ letters) (c' ∷ text) =
    let rest = scan_get letters text in
    if c == c' then rest else record { chunkf = []; outf = []; count = pos 0 }

-- "GET"
abbrev pub get_word : List ℕ
get_word = 71 ∷ 69 ∷ 84 ∷ []

-- What a peer keeps from round to round.
pub record Running (F : Type 0) : Type 0 where
  pub userbuf : UserIobuf
  pub trackers : Trackers
  pub peer : PeerState F

-- A peer at its start: the globals are zeros.
unfoldable pub start_running : {F : Type 0} → Running F
unfolding create_userbuf
start_running = record {
  userbuf = create_userbuf;
  trackers = [];
  peer = record {
    flow = record { list = []; log = [] };
    recv_list = [];
    manager = record {
      init = 0;
      chunk_count = 0;
      offset = none;
      top = 0;
      timer = none;
      already_used = some [];
    };
  };
}

-- Whether the process has ended, the state, and the datagrams that go out.
abbrev pub Round : Type 0 → Type 0
Round F = Bool × Running F × List Datagram

module _ {F : Type 0} ⦃fl : FloatOps F⦄ where
  unfoldable pub handle_user_input :
      World → Config → Files → List ℕ → PeerState F → Option (PeerState F × List Datagram)
  unfolding scan_get
  handle_user_input w config files line s =
      let scanned = scan_get get_word line in
      if scanned.count ==ℤ pos 0
      then some (s, [])
      else if ltb 0 (length scanned.outf)
      then process_get w config (files scanned.chunkf) s
      else some (s, [])

  -- The lines that `process_user_input` hands over, each with what it finds around it.
  unfoldable pub handle_lines :
      (ℕ → World)
      → ℕ
      → Config
      → Files
      → List (List ℕ)
      → PeerState F
      → Option (PeerState F × List Datagram)
  unfolding handle_user_input
  handle_lines w i config files [] s = some (s, [])
  handle_lines w i config files (line ∷ lines) s = do
    (s', sent) ← handle_user_input (w i) config files line s
    (s'', sent') ← handle_lines w (i + 1) config files lines s'
    some (s'', sent ++ sent')

  -- The socket has a datagram, or it has none.
  unfoldable pub inbound :
      PacketTracker → World → Config → Option Datagram → Running F → Option (Round F)
  inbound garbage w config none r = some (false, r, [])
  inbound garbage w config (some datagram) r = do
    (o, sent) ← process_inbound_udp garbage w config datagram r.trackers r.peer
    some (o.exited, record r { trackers = o.trackers; peer = o.peer }, sent)

  -- The user has typed something, or nothing.
  unfoldable pub typed :
      (ℕ → World) → Config → Files → Option (List ℕ) → Running F → Option (Round F)
  unfolding handle_lines
  typed w config files none r = some (false, r, [])
  typed w config files (some input) r = do
    p ← process_user_input input r.userbuf
    if p.exited then some (true, r, []) else (do
      (s, sent) ← handle_lines w 0 config files p.lines r.peer
      some (false, record r { userbuf = p.userbuf; peer = s }, sent))

  -- The checks at the end of a round.
  unfoldable pub checked : World → Config → Running F → Option (Round F)
  checked w config r = do
    (trackers, s, sent) ← check_round w config r.trackers r.peer
    some (false, record r { trackers = trackers; peer = s }, sent)

  -- One part of a round after another, unless the process has ended.
  unfoldable pub and_then : Round F → (Running F → Option (Round F)) → Option (Round F)
  and_then (true, r, sent) next = some (true, r, sent)
  and_then (false, r, sent) next = do (exited, r', sent') ← next r; some (exited, r', sent ++ sent')

  -- A round of the loop of `peer_run`.
  unfoldable pub peer_round :
      PacketTracker
      → World
      → (ℕ → World)
      → World
      → Config
      → Files
      → Option Datagram
      → Option (List ℕ)
      → Running F
      → Option (Round F)
  unfolding inbound typed checked and_then
  peer_round garbage w w' w'' config files datagram input r = do
    first ← inbound garbage w config datagram r
    second ← and_then first (typed w' config files input)
    and_then second (checked w'' config)
