-- ===== src/Sender/Sending.antt =====
-- The sender's list of chunks: the invariant of all its entries, writes to it, and the operations
-- that come without an acknowledgement.
use p2p_cc.Base.{ℕ, ◌+◌, ◌≡◌, inl, inr, Bool-cases, Option-cases, some, List, [], ◌∷◌, arith, Bytes}
use p2p_cc.Base.Int.{ℤ, pos, sub_ℕ, ◌+ℤ◌, ◌==ℤ◌, eq_of_parts, +ℤ_parts}
use p2p_cc.Packet.{Packet}
use p2p_cc.Sender.{
  Data, Flow, FloatOps, get_data_by_socket, put_data, init_datalist, lose, process_packet_loss,
  send_data,
}
use p2p_cc.Sender.Sent.{sent_to, room, chunk_packets, send_data_lem}
use p2p_cc.Sender.Invariant.{IsSender, sent_to-IsSender, new_data-IsSender, lose-IsSender}

pub next_index : (a : ℕ) (ack : ℤ) → ack ≡ sub_ℕ a 1 → ack +ℤ pos 1 ≡ pos a
next_index a ack e =
    rw e (eq_of_parts (sub_ℕ a 1 +ℤ pos 1) (pos a) (ground (arith, +ℤ_parts (sub_ℕ a 1) (pos 1))))

module _ {F : Type 0} where
  -- A chunk that is being sent, with its bytes and its two counts.
  pub record Sending (d : Data F) : Type 0 where
    pub content : Bytes
    pub n : ℕ
    pub s : ℕ
    pub valid : IsSender content n s d

  abbrev pub AllSending : List (Data F) → Type 0
  AllSending [] = Unit {0}
  AllSending (d ∷ l) = Sending d × AllSending l

  pub get-Sending :
      (socket : ℤ) (l : List (Data F)) {d : Data F}
      → AllSending l
      → get_data_by_socket socket l ≡ some d
      → Sending d
  unfolding get_data_by_socket
  get-Sending socket [] v e = cc
  get-Sending socket (x ∷ l) {d} v e = elim (Bool-cases (socket ==ℤ x.socket)) [
    | inl here ↦ let same : d ≡ x = ground arith in rw same v.0
    | inr there ↦ get-Sending socket l v.1 (ground arith)
  ]

  pub put-AllSending :
      (socket : ℤ) (l : List (Data F)) (d : Data F)
      → AllSending l
      → Sending d
      → AllSending (put_data socket d l)
  unfolding put_data
  put-AllSending socket [] d v w = tt
  put-AllSending socket (x ∷ l) d v w = ground (arith, put-AllSending socket l d v.1 w)

  -- A write is seen by the next lookup of that socket.
  pub get-put :
      (socket : ℤ) (l : List (Data F)) (d d' : Data F)
      → get_data_by_socket socket l ≡ some d
      → d'.socket ≡ d.socket
      → get_data_by_socket socket (put_data socket d' l) ≡ some d'
  unfolding get_data_by_socket put_data
  get-put socket [] d d' e h = cc
  get-put socket (x ∷ l) d d' e h = ground (arith, get-put socket l d d')

  pub put-put :
      (socket : ℤ) (l : List (Data F)) (d d' d'' : Data F)
      → get_data_by_socket socket l ≡ some d
      → d'.socket ≡ d.socket
      → put_data socket d'' (put_data socket d' l) ≡ put_data socket d'' l
  unfolding get_data_by_socket put_data
  put-put socket [] d d' d'' e h = cc
  put-put socket (x ∷ l) d d' d'' e h = ground (arith, put-put socket l d d' d'')

module _ {F : Type 0} ⦃fl : FloatOps F⦄ where
  pub init_datalist-AllSending :
      (prev : ℕ) (count socket offset : ℤ) (content : Bytes) (f : Flow F)
      → AllSending f.list
      → AllSending (init_datalist prev count socket offset (some content) f).list
  unfolding init_datalist
  init_datalist-AllSending prev count socket offset content f v = (
    record {
      content = content;
      n = 0;
      s = 0;
      valid = new_data-IsSender prev count socket offset content;
    },
    v,
  )

  pub process_packet_loss-AllSending :
      (socket : ℤ) (f : Flow F) → AllSending f.list → AllSending (process_packet_loss socket f).list
  unfolding process_packet_loss
  process_packet_loss-AllSending socket f v =
      elim (Option-cases (get_data_by_socket socket f.list)) [
        | inl e ↦ rw (e, process_packet_loss) v
        | inr (d, e) ↦
            let w = get-Sending socket f.list v e in
            rw (e, process_packet_loss)
              (put-AllSending socket f.list (lose d) v (record {
                content = w.content;
                n = w.n;
                s = w.s;
                valid = lose-IsSender w.content w.n w.s d w.valid;
              }))
      ]

  pub send_data-AllSending :
      (socket : ℤ) (f : Flow F)
      → AllSending f.list
      → (f' : Flow F) × (ret : List Packet) × (send_data socket f ≡ some (f', ret))
        × AllSending f'.list
  send_data-AllSending socket f v = elim (Option-cases (get_data_by_socket socket f.list)) [
    | inl e ↦ (f, [], unfold send_data in rw (e, send_data), v)
    | inr (d, e) ↦
        let w = get-Sending socket f.list v e in
        let m : ℕ = w.n + room w.n d in
        (
          record f { list = put_data socket (sent_to w.n m d) f.list },
          chunk_packets w.content w.n (room w.n d),
          send_data_lem socket w.content w.n d f e w.valid.sent,
          put-AllSending socket f.list (sent_to w.n m d) v (record {
            content = w.content;
            n = m;
            s = w.s;
            valid =
                sent_to-IsSender w.content w.n m w.s d (omega arith)
                  (omega (arith, w.valid.sent.in_chunk)) w.valid;
          }),
        )
  ]
