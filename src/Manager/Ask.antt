-- ===== src/Manager/Ask.antt =====
-- The requests: `generate_WHOHAS` for a file, and `re_generateWhohas` for the chunks that do not come.
use p2p_cc.Base.{
  ℕ, zero, suc, ◌+◌, Option, some, none, List, [], ◌∷◌, ltb, leb, ◌==◌, if◌then◌else◌, ◌>>=◌, ◌>>◌,
  require, Bytes, bytes_of, store, copy_at, length, get_all, with_entries,
}
use p2p_cc.Base.Int.{ℤ, pos, ◌==ℤ◌}
use p2p_cc.Packet.{Packet, init_packet, whohas}
use p2p_cc.Receiver.{Buffer, is_buffer_full, release_buffer}
use p2p_cc.Hashes.{
  Line, MasterFile, scan_into, hash_into, get_off_set_from_master_chunkfile,
  get_hash_from_master_chunkfile,
}
use p2p_cc.Manager.State.{FileManager, Config}

-- The variables of the first loop of `generate_WHOHAS`.
pub record Asking : Type 0 where
  pub chunk_count : ℕ
  pub bytes : Bytes
  pub count : ℕ
  pub ret : List Packet

-- A packet is made when 50 hashes have been read.
unfoldable pub full_packet : List ℕ → Asking → Option Asking
full_packet junk a =
    if leb 1000 a.count
    then (do
      packet ← init_packet junk whohas (some a.bytes) a.count
      some (record a { bytes = bytes_of []; count = 0; ret = packet ∷ a.ret }))
    else some a

-- The first loop. A word of more than 40 digits is written behind the end of `line` before its
-- length is tested.
unfoldable pub ask_lines : List ℕ → List Line → Asking → Option Asking
unfolding full_packet
ask_lines junk [] a = some a
ask_lines junk ((index, word) ∷ rest) a = do
  require (leb (length word) 40)
  let hash = hash_into (bytes_of word) (λ k. a.bytes (a.count + k))
  a' ← full_packet junk (record a {
    bytes = copy_at a.bytes a.count hash 20;
    count = a.count + 20;
    chunk_count = a.chunk_count + 1;
  })
  ask_lines junk rest a'

-- The second loop: the places of the hashes in the master chunk file.
unfoldable pub offsets_of : Option MasterFile → List Line → Bytes → ℕ → (ℕ → ℤ) → ℕ × (ℕ → ℤ)
offsets_of master [] line top offsets = (top, offsets)
offsets_of master ((index, word) ∷ rest) line top offsets =
    let line' = scan_into line word in
    let offset = get_off_set_from_master_chunkfile (hash_into line' (bytes_of [])) master in
    offsets_of master rest line' (top + 1) (store offsets top offset)

-- `bytes` is what the array `data` holds before. `offset` and `timer` are not set on the ways out
-- before the second loop.
unfoldable pub generate_whohas :
    ℕ
    → List ℕ
    → Bytes
    → Config
    → Option (List Line)
    → FileManager
    → Option (FileManager × List Packet)
unfolding ask_lines offsets_of
generate_whohas now junk bytes config chunkfile m =
    let started = record m { init = 1; chunk_count = 0; top = 0; already_used = some [] } in
    elim chunkfile [
      | none ↦ some (started, [])
      | some lines ↦ do
        a ← ask_lines junk lines (record { chunk_count = 0; bytes = bytes; count = 0; ret = [] })
        let (top, offsets) = offsets_of config.chunk_file lines (bytes_of []) 0 (λ i. pos 0)
        packet ← init_packet junk whohas (some (store a.bytes a.count 0)) a.count
        some (
          record started {
            chunk_count = a.chunk_count;
            top = top;
            offset = some (record { size = a.chunk_count; at = offsets });
            timer = some (record { size = a.chunk_count; at = λ i. now });
          },
          packet ∷ a.ret,
        )
    ]

-- The timers, the buffers and the packets so far.
abbrev pub Asked : Type 0
Asked = (ℕ → ℕ) × List Buffer × List Packet

-- Chunk i, at an offset: if it is not full and has had no packet for more than 10 seconds, its
-- buffers are released, and it is asked for again.
unfoldable pub ask_chunk : ℕ → List ℕ → Bytes → Option MasterFile → ℤ → ℕ → Asked → Option Asked
ask_chunk now junk block master offset i (timer, l, ret) =
    if is_buffer_full offset l ==ℤ pos 1
    then some (timer, l, ret)
    else if ltb (timer i + 10) now
    then (do
      packet ← init_packet junk whohas (get_hash_from_master_chunkfile block offset master) 20
      some (store timer i now, release_buffer offset l, packet ∷ ret))
    else some (timer, l, ret)

-- The loop of `re_generateWhohas` from chunk i on.
unfoldable pub ask_again :
    ℕ → List ℕ → Bytes → Option MasterFile → (ℕ → ℤ) → ℕ → ℕ → Asked → Option Asked
unfolding ask_chunk
ask_again now junk block master offsets zero i a = some a
ask_again now junk block master offsets (suc left) i a = do
  a' ← ask_chunk now junk block master (offsets i) i a
  ask_again now junk block master offsets left (i + 1) a'

unfoldable pub re_generate_whohas :
    ℕ
    → List ℕ
    → Bytes
    → Config
    → FileManager
    → List Buffer
    → Option (FileManager × List Buffer × List Packet)
unfolding ask_again
re_generate_whohas now junk block config m l = if m.init == 0 then some (m, l, []) else (do
  offsets ← get_all (pos 0) m.chunk_count m.offset
  timer ← get_all 0 m.chunk_count m.timer
  (timer', l', ret) ←
      ask_again now junk block config.chunk_file offsets m.chunk_count 0 (timer, l, [])
  some (record m { timer = with_entries m.timer timer' }, l', ret))
