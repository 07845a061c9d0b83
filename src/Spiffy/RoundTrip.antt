-- ===== src/Spiffy/RoundTrip.antt =====
-- A message through the router.
use p2p_cc.Base.{
  ℕ, ◌+◌, ◌*◌, ◌^◌, ◌≤◌, ◌<◌, ◌≡◌, ◌==◌, true, false, some, min, Bytes, copy_at, bytes_of, [],
  arith,
}
use p2p_cc.Base.Int.{pos, ◌-ℤ◌, -ℤ_parts, eq_of_parts}
use p2p_cc.Packet.{swap32}
use p2p_cc.Tracker.{SockAddr}
use p2p_cc.Spiffy.{
  SpiffyHeader, Spiffy, Frame, af_inet, header_size, byte_of, header_bytes, word16, word32,
  header_of, spiffy_sendto, spiffy_recvfrom,
}

word16_lem : (x : ℕ) → x < 2 ^ 16 → byte_of x 0 + byte_of x 1 * 256 ≡ x
word16_lem x h = omega arith

word32_lem :
    (x : ℕ)
    → x < 2 ^ 32
    → byte_of x 0 + byte_of x 1 * 256 + byte_of x 2 * 2 ^ 16 + byte_of x 3 * 2 ^ 24 ≡ x
word32_lem x h = omega arith

-- A message that a peer behind the router sends to an IP address, and that the router passes on as it
-- is, arrives at any other peer behind the router with its bytes and its length, and with the
-- address that the sending peer has registered, if the buffer holds it.
pub spiffy_recvfrom-spiffy_sendto :
    (newbuf : Bytes) (a b : Spiffy) (msg buffer : Bytes) (before : SockAddr) (len size : ℕ)
    (to : SockAddr)
    → a.enabled ≡ true
    → b.enabled ≡ true
    → to.sin_family ≡ af_inet
    → a.src_addr < 2 ^ 32
    → a.src_port < 2 ^ 16
    → len ≤ size
    → (f : Frame) × (out : Bytes) × (spiffy_sendto a msg len to ≡ some f)
      × (spiffy_recvfrom newbuf b buffer before size f ≡ (
        out,
        record { sin_family = af_inet; sin_port = a.src_port; s_addr = a.src_addr },
        pos len,
      ))
      × ((j : ℕ) → j < len → out j ≡ msg j)
unfolding spiffy_sendto spiffy_recvfrom
spiffy_recvfrom-spiffy_sendto newbuf a b msg buffer before len size to ea eb ef addr port fits =
    let head : SpiffyHeader = record {
      id = swap32 a.node_id;
      src_addr = a.src_addr;
      dest_addr = to.s_addr;
      src_port = a.src_port;
      dest_port = to.sin_port;
    } in
    let whole : min (len + header_size) (size + header_size) ≡ len + header_size = ground arith in
    let bytes =
      copy_at (copy_at (bytes_of []) header_size msg len) 0 (header_bytes head) header_size in
    let f : Frame = record { address = a.router; bytes = bytes; size = len + header_size } in
    let received = copy_at newbuf 0 bytes (len + header_size) in
    let at : (k : ℕ) → k < header_size → received k ≡ header_bytes head k = λ k q. ground arith in
    let src : word32 received 4 ≡ a.src_addr =
      rw (at 4 (omega arith), at 5 (omega arith), at 6 (omega arith), at 7 (omega arith))
        (unfold header_bytes in word32_lem a.src_addr addr) in
    let src_port : word16 received 12 ≡ a.src_port =
      rw (at 12 (omega arith), at 13 (omega arith))
        (unfold header_bytes in word16_lem a.src_port port) in
    let some_bytes : ((len + header_size) == 0) ≡ false = ground arith in
    let rest : pos (len + header_size) -ℤ pos header_size ≡ pos len =
      eq_of_parts _ (pos len)
        (omega (arith, -ℤ_parts (pos (len + header_size)) (pos header_size))) in
    (
      f,
      copy_at buffer 0 (λ j. received (header_size + j)) size,
      rw (ea, ef),
      unfold header_of in rw (eb, whole, some_bytes, src, src_port, rest),
      λ j h. message j (header_bytes head) h,
    )
  where
    message :
        (j : ℕ) (h : Bytes)
        → j < len
        → copy_at buffer 0
            (λ k.
              copy_at newbuf 0
                (copy_at (copy_at (bytes_of []) header_size msg len) 0 h header_size)
                (len + header_size)
                (header_size + k))
            size
            j
          ≡ msg j
    message j h q = ground arith
