-- ===== src/Spiffy.antt =====
-- spiffy.c: datagrams that go through a router carry a header with both addresses. The header is
-- copied as it lies in memory, on a little-endian host. Sockets are left out: what is given is the
-- datagram that goes to `sendto`, or that has come from `recvfrom`.
pub mod RoundTrip
pub mod Init
mod Tests
use p2p_cc.Base.{
  ℕ, ◌+◌, ◌-◌, ◌*◌, ◌/◌, ◌%◌, ◌^◌, Bool, ◌&&◌, min, Option, some, none, ltb, leb, ◌==◌,
  if◌then◌else◌, Bytes, copy_at, bytes_of, [], ◌∷◌,
}
use p2p_cc.Base.Int.{ℤ, pos, ◌-ℤ◌}
use p2p_cc.Packet.{swap32}
use p2p_cc.Tracker.{SockAddr}

-- `spiffy_header`; the fields are bit patterns of int and short.
pub record SpiffyHeader : Type 0 where
  pub id : ℕ
  pub src_addr : ℕ
  pub dest_addr : ℕ
  pub src_port : ℕ
  pub dest_port : ℕ

-- The globals; `enabled` is giSpiffyEnabled.
pub record Spiffy : Type 0 where
  pub enabled : Bool
  pub node_id : ℕ
  pub src_addr : ℕ
  pub src_port : ℕ
  pub router : SockAddr

-- A datagram on a socket: the address it is sent to or comes from, its bytes and their number.
pub record Frame : Type 0 where
  pub address : SockAddr
  pub bytes : Bytes
  pub size : ℕ

-- AF_INET
abbrev pub af_inet : ℕ
af_inet = 2

abbrev pub header_size : ℕ
header_size = 16

-- Byte k of a word.
abbrev pub byte_of : ℕ → ℕ → ℕ
byte_of x k = x / 256 ^ k % 256

-- The header in memory.
unfoldable pub header_bytes : SpiffyHeader → Bytes
header_bytes h = bytes_of (
    byte_of h.id 0
    ∷ byte_of h.id 1
    ∷ byte_of h.id 2
    ∷ byte_of h.id 3
    ∷ byte_of h.src_addr 0
    ∷ byte_of h.src_addr 1
    ∷ byte_of h.src_addr 2
    ∷ byte_of h.src_addr 3
    ∷ byte_of h.dest_addr 0
    ∷ byte_of h.dest_addr 1
    ∷ byte_of h.dest_addr 2
    ∷ byte_of h.dest_addr 3
    ∷ byte_of h.src_port 0
    ∷ byte_of h.src_port 1
    ∷ byte_of h.dest_port 0
    ∷ byte_of h.dest_port 1
    ∷ [])

abbrev pub word16 : Bytes → ℕ → ℕ
word16 b at = b at + b (at + 1) * 256

abbrev pub word32 : Bytes → ℕ → ℕ
word32 b at = word16 b at + b (at + 2) * 2 ^ 16 + b (at + 3) * 2 ^ 24

unfoldable pub header_of : Bytes → SpiffyHeader
header_of b = record {
  id = word32 b 0;
  src_addr = word32 b 4;
  dest_addr = word32 b 8;
  src_port = word16 b 12;
  dest_port = word16 b 14;
}

-- What `spiffy_sendto` gives to `sendto`; `none` is the error for an address that is not AF_INET. The
-- header goes in front of the message.
unfoldable pub spiffy_sendto : Spiffy → Bytes → ℕ → SockAddr → Option Frame
spiffy_sendto s msg len to =
    if s.enabled
    then (if to.sin_family == af_inet
        then (let head : SpiffyHeader = record {
          id = swap32 s.node_id;
          src_addr = s.src_addr;
          dest_addr = to.s_addr;
          src_port = s.src_port;
          dest_port = to.sin_port;
        } in
            some (record {
              address = s.router;
              bytes =
                  copy_at (copy_at (bytes_of []) header_size msg len) 0 (header_bytes head)
                    header_size;
              size = len + header_size;
            }))
        else none)
    else some (record { address = to; bytes = msg; size = len })

-- What `spiffy_recvfrom` leaves in the buffer, of `size` bytes, the sender's address that it gives,
-- and what it returns. With the header, the whole buffer is overwritten: behind the message with what
-- malloc left in `newbuf`; an empty datagram changes nothing, neither the buffer nor `addr`. A
-- datagram that is too long is cut off by `recvfrom`.
unfoldable pub spiffy_recvfrom :
    Bytes → Spiffy → Bytes → SockAddr → ℕ → Frame → Bytes × SockAddr × ℤ
spiffy_recvfrom newbuf s buffer addr size f =
    if s.enabled
    then (let n = min f.size (size + header_size) in
        let received = copy_at newbuf 0 f.bytes n in
        let head = header_of received in
        if n == 0 then (buffer, addr, pos 0) else (
          copy_at buffer 0 (λ j. received (header_size + j)) size,
          record { sin_family = af_inet; sin_port = head.src_port; s_addr = head.src_addr },
          pos n -ℤ pos header_size,
        ))
    else (let n = min f.size size in (copy_at buffer 0 f.bytes n, f.address, pos n))
