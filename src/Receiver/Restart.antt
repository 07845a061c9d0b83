-- ===== src/Receiver/Restart.antt =====
-- A download that is started again with another peer.
use p2p_cc.Base.{
  ℕ, suc, ◌*◌, sym, ◌∙◌, ◌<◌, ◌≡◌, ◌≢◌, refl, ◌⊎◌, inl, inr, Bool, true, false, Option, some, List,
  [], ◌∷◌, arith, ◌>>=◌, Bytes, Bool-cases, Ensures, Ensures->>=, Ensures-bind, Ensures-eq,
  IsDefined, IsDefined-bind,
}
use p2p_cc.Base.Int.{ℤ, ◌≤ℤ◌, pos, ◌==ℤ◌, ==ℤ_iff, ltb_ℤ, signed, minus_one}
use p2p_cc.Packet.{Packet, data_size}
use p2p_cc.Receiver.Store.{store_chunk-new, store_chunk-old}
use p2p_cc.Receiver.Acks.{init_packet-ack}
use p2p_cc.Receiver.Answers.{seq_index}
use p2p_cc.Sender.{chunk_packet_number, index_of}
use p2p_cc.Receiver.{
  Buffer, in_use, is_complete, is_buffer_full, release_buffer, init_recv_buffer, payload_length,
  store_chunk, recv_into, recv_list_data, recv_data,
}
use p2p_cc.Receiver.Full.{all_complete, complete_lem, is_buffer_full_lem}

-- A buffer of this chunk that another peer has filled in part.
abbrev pub HasPartial : ℤ → ℤ → List Buffer → Type 0
HasPartial offset socket [] = ⊥
HasPartial offset socket (b ∷ l) =
    ((b.offset ≡ offset) × (b.socket ≢ socket) × (is_complete b ≡ false))
    ⊎ HasPartial offset socket l

HasPartial-not_full :
    (offset socket : ℤ) (l : List Buffer)
    → HasPartial offset socket l
    → all_complete offset l ≡ false
HasPartial-not_full offset socket [] h = absurd h
HasPartial-not_full offset socket (b ∷ l) (inl h) =
    let part : (b.total_recv ==ℤ pos (512 * 1024)) ≡ false = sym (complete_lem b) ∙ h.2 in
    ground (arith, ==ℤ_iff offset b.offset, part)
HasPartial-not_full offset socket (b ∷ l) (inr h) =
    ground (arith, HasPartial-not_full offset socket l h)

HasPartial-release :
    (offset socket : ℤ) (l : List Buffer)
    → HasPartial offset socket l
    → HasPartial offset socket (release_buffer offset l)
unfolding release_buffer
HasPartial-release offset socket [] h = absurd h
HasPartial-release offset socket (b ∷ l) (inl h) = inl (ground arith, ground arith, ground arith)
HasPartial-release offset socket (b ∷ l) (inr h) = inr (HasPartial-release offset socket l h)

HasPartial-init :
    (garbage : ℕ → Bytes) (offset socket : ℤ) (l : List Buffer)
    → HasPartial offset socket l
    → HasPartial offset socket (init_recv_buffer garbage offset socket l).0
unfolding init_recv_buffer
HasPartial-init garbage offset socket l h = elim (Bool-cases (in_use offset socket l)) [
  | inl used ↦ rw used h
  | inr free ↦ rw free (inr h)
]

HasPartial-recv :
    (beyond : ℕ → Bool) (seq : ℤ) (p : Packet) (offset socket : ℤ) (l : List Buffer)
    → HasPartial offset socket l
    → Ensures (λ r. HasPartial offset socket r.0) (recv_list_data beyond seq p socket l)
unfolding recv_list_data
HasPartial-recv beyond seq p offset socket [] h = absurd h
HasPartial-recv beyond seq p offset socket (b ∷ l) h = elim (Bool-cases (b.socket ==ℤ socket)) [
  | inl here ↦ rw here (
      Ensures-bind Q (index_of seq) _
        (λ i. Ensures-bind Q (recv_into beyond i p b) _ (λ r. inr (elsewhere here h))))
  | inr there ↦ rw there (elim h [
    | inl q ↦ Ensures-bind Q (recv_list_data beyond seq p socket l) _ (λ r. inl q)
    | inr q ↦
        Ensures->>= Q Q (recv_list_data beyond seq p socket l) _
          (HasPartial-recv beyond seq p offset socket l q) (λ r k. inr k)
  ])
]
  where
    Q : List Buffer × List Packet × Option ℤ → Type 0
    Q r = HasPartial offset socket r.0

    elsewhere :
        (b.socket ==ℤ socket) ≡ true → HasPartial offset socket (b ∷ l) → HasPartial offset socket l
    elsewhere here (inl q) = absurd (q.1 ((==ℤ_iff b.socket socket).0 here))
    elsewhere here (inr q) = q

HasPartial-recv_data :
    (beyond : ℕ → Bool) (p : Packet) (offset socket : ℤ) (l : List Buffer)
    → HasPartial offset socket l
    → Ensures (λ r. HasPartial offset socket r.0) (recv_data beyond p socket l)
unfolding recv_data
HasPartial-recv_data beyond p offset socket l h =
    elim (Bool-cases (ltb_ℤ (pos chunk_packet_number) (signed 32 p.header.seq_num))) [
      | inl far ↦ rw far h
      | inr near ↦ rw near (HasPartial-recv beyond _ p offset socket l h)
    ]

-- A run of packets from one peer.
abbrev pub receive_all : (ℕ → Bool) → ℤ → List Packet → List Buffer → Option (List Buffer)
receive_all beyond socket [] l = some l
receive_all beyond socket (p ∷ ps) l =
    recv_data beyond p socket l >>= λ r. receive_all beyond socket ps r.0

HasPartial-receive_all :
    (beyond : ℕ → Bool) (offset socket : ℤ) (ps : List Packet) (l : List Buffer)
    → HasPartial offset socket l
    → Ensures (HasPartial offset socket) (receive_all beyond socket ps l)
HasPartial-receive_all beyond offset socket [] l h = h
HasPartial-receive_all beyond offset socket (p ∷ ps) l h =
    Ensures->>= (λ r. HasPartial offset socket r.0) (HasPartial offset socket)
      (recv_data beyond p socket l) _ (HasPartial-recv_data beyond p offset socket l h)
      (λ r k. HasPartial-receive_all beyond offset socket ps r.0 k)

-- A packet of a chunk whose payload fits.
abbrev pub IsPart : Packet → Type 0
IsPart p =
    (i : ℕ) × (p.header.seq_num ≡ suc i)
    × (i < chunk_packet_number)
    × (payload_length p ≤ℤ pos data_size)

abbrev pub AllParts : List Packet → Type 0
AllParts [] = Unit {0}
AllParts (p ∷ ps) = IsPart p × AllParts ps

recv_into-total :
    (beyond : ℕ → Bool) (i : ℕ) (p : Packet) (b : Buffer)
    → payload_length p ≤ℤ pos data_size
    → IsDefined (recv_into beyond i p b)
unfolding recv_into
recv_into-total beyond i p b fits =
    IsDefined-bind (store_chunk i p b) _ stored
      (λ b'. IsDefined-bind _ _ (_, init_packet-ack) (λ ack. (_, refl)))
  where
    stored : IsDefined (store_chunk i p b)
    stored = elim (Bool-cases (b.chunks i).recved) [
      | inl old ↦ (_, store_chunk-old i p b old)
      | inr new ↦ (_, store_chunk-new i p b new fits)
    ]

recv_list_data-total :
    (beyond : ℕ → Bool) (i : ℕ) (p : Packet) (socket : ℤ) (l : List Buffer)
    → payload_length p ≤ℤ pos data_size
    → IsDefined (recv_list_data beyond (pos i) p socket l)
unfolding recv_list_data
recv_list_data-total beyond i p socket [] fits = (_, refl)
recv_list_data-total beyond i p socket (b ∷ l) fits = elim (Bool-cases (b.socket ==ℤ socket)) [
  | inl found ↦ rw found (IsDefined-bind _ _ (recv_into-total beyond i p b fits) (λ r. (_, refl)))
  | inr other ↦
      rw other (IsDefined-bind _ _ (recv_list_data-total beyond i p socket l fits) (λ r. (_, refl)))
]

receive_all-total :
    (beyond : ℕ → Bool) (socket : ℤ) (ps : List Packet) (l : List Buffer)
    → AllParts ps
    → IsDefined (receive_all beyond socket ps l)
unfolding recv_data
receive_all-total beyond socket [] l h = (l, refl)
receive_all-total beyond socket (p ∷ ps) l ((i, s, k, fits), hs) =
    let near : ltb_ℤ (pos chunk_packet_number) (signed 32 p.header.seq_num) ≡ false =
      ground arith in
    rw (near, seq_index p.header.seq_num i s k)
      (IsDefined-bind _ _ (recv_list_data-total beyond i p socket l fits)
        (λ r. receive_all-total beyond socket ps r.0 hs))

-- A chunk of which another peer has sent a part is asked for again: its buffers are released and a
-- new one is made for `socket`. Whatever parts that peer then sends, all 512 included, they are
-- received without undefined behaviour, but the chunk does not count as full, since the released
-- buffer is still counted.
pub restart-never_full :
    (beyond : ℕ → Bool) (garbage : ℕ → Bytes) (offset socket : ℤ) (ps : List Packet)
    (l : List Buffer)
    → HasPartial offset socket l
    → AllParts ps
    → (l' : List Buffer) × (receive_all beyond socket ps
          (init_recv_buffer garbage offset socket (release_buffer offset l)).0
        ≡ some l')
      × (is_buffer_full offset l' ≡ minus_one)
restart-never_full beyond garbage offset socket ps l h parts =
    let start = (init_recv_buffer garbage offset socket (release_buffer offset l)).0 in
    let (l', e) = receive_all-total beyond socket ps start parts in
    let kept =
      HasPartial-receive_all beyond offset socket ps start
        (HasPartial-init garbage offset socket _ (HasPartial-release offset socket l h)) in
    let partial = Ensures-eq (HasPartial offset socket) _ kept e in
    (
      l',
      e,
      ground (arith, is_buffer_full_lem offset l', HasPartial-not_full offset socket l' partial),
    )
