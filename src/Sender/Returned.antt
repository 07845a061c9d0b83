-- ===== src/Sender/Returned.antt =====
-- The places of the packets in the list that `send_data` (flow_control.c) returns.
use p2p_cc.Base.{
  ℕ, zero, suc, ◌+◌, ◌≤◌, ◌<◌, ◌≡◌, refl, ap, ◌∙◌, Option, none, some, List, [], ◌∷◌, ◌++◌, ◌==◌,
  ==_iff, length, length-append, Bool-cases, inl, inr, arith, Bytes,
}
use p2p_cc.Packet.{Packet}
use p2p_cc.Sender.Sent.{chunk_packet, chunk_packets}

-- Entry i of a list.
abbrev pub nth : List Packet → ℕ → Option Packet
nth [] i = none
nth (p ∷ ps) zero = some p
nth (p ∷ ps) (suc i) = nth ps i

nth-before : (ps qs : List Packet) (i : ℕ) → i < length ps → nth (ps ++ qs) i ≡ nth ps i
nth-before [] qs i h = absurd (omega arith)
nth-before (p ∷ ps) qs zero h = refl
nth-before (p ∷ ps) qs (suc i) h = nth-before ps qs i (omega arith)

nth-last : (ps : List Packet) (p : Packet) (i : ℕ) → i ≡ length ps → nth (ps ++ p ∷ []) i ≡ some p
nth-last [] p i e = rw e
nth-last (q ∷ ps) p zero e = absurd (omega arith)
nth-last (q ∷ ps) p (suc i) e = nth-last ps p i (omega arith)

length-chunk_packets :
    (content : Bytes) (n count : ℕ) → length (chunk_packets content n count) ≡ count
length-chunk_packets content n zero = refl
length-chunk_packets content n (suc count) =
    length-append (chunk_packets content (n + 1) count) (chunk_packet content n ∷ [])
    ∙ omega (arith, length-chunk_packets content (n + 1) count)

-- The packets come newest first.
pub nth-chunk_packets :
    (content : Bytes) (n count k i : ℕ)
    → n ≤ k
    → k + i + 1 ≡ n + count
    → nth (chunk_packets content n count) i ≡ some (chunk_packet content k)
nth-chunk_packets content n zero k i h e = absurd (omega arith)
nth-chunk_packets content n (suc count) k i h e =
    let ps = chunk_packets content (n + 1) count in
    let size = length-chunk_packets content (n + 1) count in
    elim (Bool-cases (n == k)) [
      | inl first ↦
          let same : n ≡ k = (==_iff n k).0 first in
          nth-last ps (chunk_packet content n) i (omega (arith, size))
          ∙ ap (λ (j : ℕ). some (chunk_packet content j)) same
      | inr later ↦
          nth-before ps (chunk_packet content n ∷ []) i (ground (arith, size))
          ∙ nth-chunk_packets content (n + 1) count k i (ground arith) (omega arith)
    ]
