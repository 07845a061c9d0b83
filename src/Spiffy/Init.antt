-- ===== src/Spiffy/Init.antt =====
-- The start of spiffy.c: the router's address is read from the environment.
use p2p_cc.Base.{
  ℕ, ◌+◌, ◌-◌, ◌*◌, ◌%◌, ◌^◌, ◌&&◌, ◌||◌, true, false, Option, some, none, List, [], ◌∷◌, leb, ◌==◌,
  if◌then◌else◌,
}
use p2p_cc.Base.Int.{ℤ, pos, minus_one, ◌-ℤ◌, to_u32}
use p2p_cc.Packet.{swap16}
use p2p_cc.Tracker.{SockAddr}
use p2p_cc.Spiffy.{Spiffy}

-- The text up to the first ':' and what is behind it, if there is one.
unfoldable pub split_colon : List ℕ → Option (List ℕ × List ℕ)
split_colon [] = none
split_colon (c ∷ text) =
    let rest = split_colon text in
    if c == 58
    then some ([], text)
    else elim rest [ none ↦ none | some (name, behind) ↦ some (c ∷ name, behind) ]

-- The digits in front of a text, behind those that make `n`.
unfoldable pub read_digits : ℕ → List ℕ → ℕ
read_digits n [] = n
read_digits n (c ∷ text) =
    let next = read_digits (n * 10 + (c - 48)) text in if leb 48 c && leb c 57 then next else n

-- atoi: white space, a sign, and digits.
unfoldable pub atoi : List ℕ → ℤ
unfolding read_digits
atoi [] = pos 0
atoi (c ∷ text) =
    let rest = atoi text in
    if c == 32 || leb 9 c && leb c 13
    then rest
    else if c == 45
    then pos 0 -ℤ pos (read_digits 0 text)
    else if c == 43
    then pos (read_digits 0 text)
    else pos (read_digits 0 (c ∷ text))

-- The globals before: zeros.
abbrev pub not_started : Spiffy
not_started = record {
  enabled = false;
  node_id = 0;
  src_addr = 0;
  src_port = 0;
  router = record { sin_family = 0; sin_port = 0; s_addr = 0 };
}

-- `setting` is the variable SPIFFY_ROUTER. The port of the router is set before its address is read.
unfoldable pub spiffy_init :
    (List ℕ → Option ℕ) → Option (List ℕ) → ℤ → SockAddr → Spiffy → Spiffy × ℤ
unfolding split_colon atoi
spiffy_init inet_aton none id address s = (s, pos 1)
spiffy_init inet_aton (some setting) id address s = elim (split_colon setting) [
  | none ↦ (s, minus_one)
  | some (name, behind) ↦
      let router : SockAddr = record (s.router) {
        sin_port = swap16 (to_u32 (atoi behind) % 2 ^ 16);
      } in
      elim (inet_aton name) [
        | none ↦ (record s { router = router }, minus_one)
        | some host ↦ (
          record {
            enabled = true;
            node_id = to_u32 id;
            src_addr = address.s_addr;
            src_port = address.sin_port;
            router = record router { s_addr = host };
          },
          pos 0,
        )
      ]
]
