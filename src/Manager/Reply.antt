-- ===== src/Manager/Reply.antt =====
-- The answer to a WHOHAS packet.
use p2p_cc.Base.{
  ℕ, zero, suc, ◌+◌, ◌-◌, ◌*◌, ◌/◌, ◌≤◌, ◌<◌, ◌≡◌, refl, ◌∙◌, true, false, some, List, [], ◌∷◌, ltb,
  leb, ◌==◌, if◌then◌else◌, ◌>>=◌, Bytes, bytes_of, copy_at, store, length, arith, Bool-cases, inl,
  inr,
}
use p2p_cc.Base.Int.{ℤ, pos, ◌==ℤ◌, ltb_ℤ}
use p2p_cc.Packet.{Packet, from_wire, swap_header, swap16, init_packet, data_size, whohas, ihave}
use p2p_cc.Packet.Layout.{counted_byte, init_packet-counted}
use p2p_cc.Tracker.{Trackers}
use p2p_cc.Sender.{FloatOps}
use p2p_cc.Hashes.{strlen, search_local, find_in_local_has, read_chunkfile}
use p2p_cc.Manager.{
  Config, PeerState, World, hash_at, count_of, reply_from, handle_whohas, answer, handle_packet,
}

-- Hash k of a packet.
abbrev pub asked : Packet → ℕ → Bytes
asked p k = copy_at (bytes_of []) 0 (λ j. p.payload (4 + 20 * k + j)) 20

-- Those of the hashes i, ..., i + left - 1 of a packet that a local list of `n` hashes has.
abbrev pub offered : ℕ → ℕ → Packet → ℕ → Bytes → List ℕ
offered zero i p n local = []
offered (suc left) i p n local =
    let rest = offered left (i + 1) p n local in
    if pos 1 ==ℤ search_local n 0 (asked p i) local then i ∷ rest else rest

-- Byte j of the hashes ks, one behind the other.
abbrev pub hash_byte : Packet → List ℕ → ℕ → ℕ
hash_byte p [] j = 0
hash_byte p (k ∷ ks) j = if ltb j 20 then p.payload (4 + 20 * k + j) else hash_byte p ks (j - 20)

offered-length :
    (left i : ℕ) (p : Packet) (n : ℕ) (local : Bytes) → length (offered left i p n local) ≤ left
offered-length zero i p n local = omega arith
offered-length (suc left) i p n local = ground (arith, offered-length left (i + 1) p n local)

-- The bytes that are there, and behind them those of the hashes ks, up to c'.
record IsWritten (p : Packet) (ks : List ℕ) (out : Bytes) (c : ℕ) (out' : Bytes) (c' : ℕ)
    : Type 0 where
  end_at : c' ≡ c + 20 * length ks
  before : (j : ℕ) → j < c → out' j ≡ out j
  behind : (j : ℕ) → j < 20 * length ks → out' (c + j) ≡ hash_byte p ks j

IsWritten-cons :
    (p : Packet) (i : ℕ) (ks : List ℕ) (out : Bytes) (c : ℕ) (out' : Bytes) (c' : ℕ)
    → IsWritten p ks (copy_at out c (asked p i) 20) (c + 20) out' c'
    → IsWritten p (i ∷ ks) out c out' c'
IsWritten-cons p i ks out c out' c' w = record {
  end_at = omega (arith, w.end_at);
  before = λ j q. w.before j (omega arith) ∙ ground arith;
  behind = λ j q. elim (Bool-cases (ltb j 20)) [
    | inl first ↦ rw first (w.before (c + j) (ground arith) ∙ ground arith)
    | inr later ↦
        let at : c + 20 + (j - 20) ≡ c + j = ground arith in
        rw later (rw at at (w.behind (j - 20) (ground arith)))
  ];
}

-- The loop writes the hashes that are offered behind the bytes that are there.
reply_from_lem :
    (left i : ℕ) (p : Packet) (size : ℕ) (local out : Bytes) (c : ℕ)
    → strlen 100 0 local ≡ some size
    → 4 + 20 * (i + left) ≤ data_size
    → (out' : Bytes) × (c' : ℕ) × (reply_from left i p local out c ≡ some (out', c'))
      × IsWritten p (offered left i p (size / 20) local) out c out' c'
unfolding reply_from hash_at find_in_local_has
reply_from_lem zero i p size local out c e h = (
  out,
  c,
  refl,
  record { end_at = omega arith; before = λ j q. refl; behind = λ j q. absurd (omega arith) },
)
reply_from_lem (suc left) i p size local out c e h =
    let fits : leb (4 + 20 * i + 20) data_size ≡ true = ground arith in
    elim (Bool-cases (pos 1 ==ℤ search_local (size / 20) 0 (asked p i) local)) [
      | inl found ↦
          let (out', c', r, w) =
            reply_from_lem left (i + 1) p size local (copy_at out c (asked p i) 20) (c + 20) e
              (omega arith) in
          (out', c', rw (fits, e, found) r, rw found (IsWritten-cons p i _ out c out' c' w))
      | inr missing ↦
          let (out', c', r, w) = reply_from_lem left (i + 1) p size local out c e (omega arith) in
          (out', c', rw (fits, e, missing) r, rw missing w)
    ]

-- The packets that answer a request for which the hashes ks are offered.
pub data IsReply (p : Packet) : List ℕ → List Packet → Type 0 where
  nothing : IsReply p [] []
  one :
      (k : ℕ) (ks : List ℕ) (q : Packet)
      → q.header.packet_type ≡ ihave
      → swap16 q.header.packet_len ≡ 20 * length (k ∷ ks) + 20
      → q.payload 0 ≡ length (k ∷ ks)
      → ((j : ℕ) → j < 20 * length (k ∷ ks) → q.payload (4 + j) ≡ hash_byte p (k ∷ ks) j)
      → IsReply p (k ∷ ks) (q ∷ [])

make-IsReply :
    (junk : List ℕ) (p : Packet) (ks : List ℕ) (out : Bytes) (c : ℕ)
    → IsWritten p ks (bytes_of []) 0 out c
    → 4 + 20 * length ks ≤ data_size
    → length junk + 5 ≤ data_size
    → (packets : List Packet) × ((if c == 0
          then some []
          else (init_packet junk ihave (some (store out c 0)) c >>= λ q. some (q ∷ [])))
        ≡ some packets)
      × IsReply p ks packets
make-IsReply junk p [] out c w fits hj =
    let empty : (c == 0) ≡ true = ground (arith, w.end_at) in ([], rw empty, nothing)
make-IsReply junk p (k ∷ ks) out c w fits hj =
    let end : c ≡ 20 * length (k ∷ ks) = omega (arith, w.end_at) in
    let some_bytes : (c == 0) ≡ false = ground arith in
    let (q, e, type, len, bytes) =
      init_packet-counted junk ihave (store out c 0) c (inr refl) (omega arith) hj in
    (
      q ∷ [],
      rw (some_bytes, e),
      one k ks q type (len ∙ omega arith) (bytes 0 (omega arith) ∙ omega arith)
          (λ j h. bytes (4 + j) (omega arith) ∙ written j h),
    )
  where
    written :
        (j : ℕ)
        → j < 20 * length (k ∷ ks)
        → counted_byte (store out c 0) c (4 + j) ≡ hash_byte p (k ∷ ks) j
    written j h =
        let at : 0 + j ≡ j = omega arith in
        let same : out j ≡ hash_byte p (k ∷ ks) j = rw at at (w.behind j h) in
        ground (arith, same, w.end_at)

handle_whohas_lem :
    (w : World) (config : Config) (p : Packet) (count size : ℕ) (local : Bytes)
    → read_chunkfile 100 config.has_chunk_file w.local ≡ some (pos count, local)
    → strlen 100 0 local ≡ some size
    → 4 + 20 * count_of p ≤ data_size
    → length w.junk + 5 ≤ data_size
    → (packets : List Packet) × (handle_whohas w config p ≡ some packets)
      × IsReply p (offered (count_of p) 0 p (size / 20) local) packets
unfolding handle_whohas
handle_whohas_lem w config p count size local read len fits hj =
    let ks = offered (count_of p) 0 p (size / 20) local in
    let (out, c, r, written) =
      reply_from_lem (count_of p) 0 p size local (bytes_of []) 0 len (omega arith) in
    let few = offered-length (count_of p) 0 p (size / 20) local in
    let (packets, e, reply) = make-IsReply w.junk p ks out c written (omega arith) hj in
    let sized : ltb_ℤ (pos count) (pos 0) ≡ false = ground arith in
    (packets, rw (read, sized, r, e), reply)

module _ {F : Type 0} ⦃fl : FloatOps F⦄ where
  -- A WHOHAS packet with room for as many hashes as its count says is answered from the local list,
  -- if that has been read and `strlen` measures it as `size` bytes: if none of the hashes is among
  -- its size / 20 there is no answer, else one IHAVE packet with the count of those that are and
  -- their bytes, in the order of the request. Nothing else changes.
  pub handle_packet-whohas :
      (w : World) (config : Config) (socket : ℤ) (packet : Packet) (trackers : Trackers)
      (s : PeerState F) (count size : ℕ) (local : Bytes)
      → packet.header.packet_type ≡ whohas
      → read_chunkfile 100 config.has_chunk_file w.local ≡ some (pos count, local)
      → strlen 100 0 local ≡ some size
      → 4 + 20 * count_of (from_wire packet) ≤ data_size
      → length w.junk + 5 ≤ data_size
      → (packets : List Packet) × (handle_packet w config socket packet trackers s
          ≡ some (answer trackers s packets))
        × IsReply
            (from_wire packet)
            (offered (count_of (from_wire packet)) 0 (from_wire packet) (size / 20) local)
            packets
  handle_packet-whohas w config socket packet trackers s count size local type read len fits hj =
      let p = from_wire packet in
      let (packets, e, reply) = handle_whohas_lem w config p count size local read len fits hj in
      let same_type : p.header.packet_type ≡ whohas = unfold from_wire swap_header in type in
      let is_whohas : (p.header.packet_type == whohas) ≡ true = ground arith in
      (packets, unfold handle_packet in rw (is_whohas, e), reply)
