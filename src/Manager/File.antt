-- ===== src/Manager/File.antt =====
-- `check_file_manager`: whether all chunks are there, and the output file.
use p2p_cc.Base.{
  ℕ, zero, suc, ◌+◌, Option, some, none, List, [], ◌++◌, Bool, true, false, ◌==◌, if◌then◌else◌,
  ◌>>=◌, ◌>>◌, require, Bytes, bytes_of, slice, get_all,
}
use p2p_cc.Base.Int.{ℤ, pos, negsuc, pos_part, minus_one, ◌==ℤ◌, leb_ℤ}
use p2p_cc.Receiver.{Buffer, is_buffer_full, release_buffer, copy_chunk_data}
use p2p_cc.Manager.State.{FileManager}

-- The second loop from chunk i on: the buffers of full chunks are released, and the first chunk that
-- is not full ends it, with `false`.
unfoldable pub release_full : ℕ → ℕ → (ℕ → ℤ) → List Buffer → List Buffer × Bool
release_full zero i offsets l = (l, true)
release_full (suc left) i offsets l =
    let buffer_full = is_buffer_full (offsets i) l in
    let l' = if buffer_full ==ℤ pos 1 then release_buffer (offsets i) l else l in
    let rest = release_full left (i + 1) offsets l' in
    if minus_one ==ℤ buffer_full then (l', false) else rest

-- The bytes that are written for the parts of a chunk from part j on.
unfoldable pub write_parts : ℕ → ℕ → ℤ → List Buffer → Bytes → Option (List ℕ)
write_parts zero j offset l temp = some []
write_parts (suc left) j offset l temp = do
  let (temp', length) = copy_chunk_data temp offset j l
  require (leb_ℤ (pos 0) length)
  out ← write_parts left (j + 1) offset l temp'
  some (slice temp' 0 (pos_part length) ++ out)

unfoldable pub write_chunks : ℕ → ℕ → (ℕ → ℤ) → List Buffer → Option (List ℕ)
unfolding write_parts
write_chunks zero i offsets l = some []
write_chunks (suc left) i offsets l = do
  parts ← write_parts 512 0 (offsets i) l (bytes_of [])
  out ← write_chunks left (i + 1) offsets l
  some (parts ++ out)

-- The end of the call, with the output file written.
unfoldable pub finish_file :
    FileManager → (ℕ → ℤ) → List Buffer → Option (ℤ × FileManager × List Buffer × Option (List ℕ))
unfolding write_chunks
finish_file m offsets l = do
  file ← write_chunks m.chunk_count 0 offsets l
  let closed = record m { init = 0; offset = none; timer = none; already_used = none }
  some (pos 1, closed, l, some file)

-- The return value, the manager, the buffers, and the output file. The output file can be opened.
unfoldable pub check_file_manager :
    FileManager → List Buffer → Option (ℤ × FileManager × List Buffer × Option (List ℕ))
unfolding release_full finish_file
check_file_manager m l = if m.init == 0 then some (negsuc 1, m, l, none) else (do
  offsets ← get_all (pos 0) m.chunk_count m.offset
  let (l', full) = release_full m.chunk_count 0 offsets l
  if full then finish_file m offsets l' else some (minus_one, m, l', none))
