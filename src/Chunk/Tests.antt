-- ===== src/Chunk/Tests.antt =====
-- chunk.c at concrete inputs.
use p2p_cc.Base.{
  ℕ, ◌+◌, ◌-◌, ◌*◌, ◌/◌, ◌%◌, ◌≡◌, refl, List, [], some, arith, Bytes, bytes_of, length,
}
use p2p_cc.Chunk.{
  Sha1, shahash, binary2hex, hex2binary, hex_byte, hex_value, or_bits, toupper, bt_chunk_size,
}
use p2p_cc.Chunk.Hex.{hex2binary-binary2hex}
use p2p_cc.Chunk.Tool.{chunk_tool, printed, AllPrinted, chunk_tool_lem}

-- 'b' and '1' are the byte 0xb1, and so are 'B' and '1'.
b1 : (hex_byte 98 49 ≡ 177) × (hex_byte 66 49 ≡ 177)
unfolding hex_byte hex_value or_bits toupper
b1 = (refl, refl)

abbrev hash : Bytes
hash i = i * 13 % 256

-- Byte 3 of a hash.
hex2binary-binary2hex_example :
    hex2binary (binary2hex hash 20 (bytes_of [])) 40 (bytes_of []) 3 ≡ 39
hex2binary-binary2hex_example =
    hex2binary-binary2hex hash (bytes_of []) (bytes_of []) 20 (λ k h. omega arith) 3 (omega arith)

-- All hashes are 20 equal bytes.
abbrev sha : Sha1 ℕ
sha = record { init = 0; update = λ context str len. 0; final = λ context k. 17 }

-- A file of a chunk and one byte.
chunk_tool_lem_example :
    (lines : List (ℕ × List ℕ)) × (chunk_tool sha (bytes_of []) (some (hash, 524289))
      ≡ some (printed lines))
    × (length lines ≡ (524289 + bt_chunk_size - 1) / bt_chunk_size)
    × AllPrinted (λ k i. 17) 0 lines
unfolding shahash
chunk_tool_lem_example = chunk_tool_lem sha (bytes_of []) hash 524289 (λ b len j h. omega arith)
