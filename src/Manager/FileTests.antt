-- ===== src/Manager/FileTests.antt =====
-- The output file and the requests at concrete inputs.
use p2p_cc.Base.{
  ℕ, zero, suc, ◌*◌, ◌/◌, ◌≡◌, refl, true, some, none, List, [], ◌∷◌, if◌then◌else◌, bytes_of,
  length, arith, ◌++◌, ◌<◌,
}
use p2p_cc.Base.Int.{ℤ, pos, minus_one, ◌+ℤ◌}
use p2p_cc.Packet.{Packet}
use p2p_cc.Sender.{chunk_packet_number}
use p2p_cc.Receiver.{Buffer}
use p2p_cc.Receiver.Store.{bytes_below}
use p2p_cc.Manager.Request.{AllPlaced, generate_whohas_lem}
use p2p_cc.Manager.Questions.{IsQuestion, Asks}
use p2p_cc.Hashes.{Line}
use p2p_cc.Manager.{generate_whohas, Config, FileManager, check_file_manager}
use p2p_cc.Manager.Bytes.{file_bytes, AllKept}
use p2p_cc.Manager.Finish.{IsFull, IsCounted, all_full}
use p2p_cc.Manager.Output.{check_file_manager_lem}

abbrev manager : FileManager
manager = record {
  init = 1;
  chunk_count = 1;
  offset = some (record { size = 1; at = λ i. pos 7 });
  top = 1;
  timer = some (record { size = 1; at = λ i. 0 });
  already_used = some [];
}

-- A buffer of 512 parts of 1024 bytes.
abbrev full : Buffer
full = record {
  expected = 512;
  socket = pos 2;
  offset = pos 7;
  busy = true;
  total_recv = pos 524288;
  chunks = λ i. record { acked = true; recved = true; length = pos 1024; content = λ k. i };
}

full-bytes : (k : ℕ) → bytes_below full.chunks k ≡ pos (k * 1024)
unfolding bytes_below ◌+ℤ◌
full-bytes zero = refl
full-bytes (suc k) = rw (full-bytes k) (ground arith)

full-IsCounted : IsCounted full
full-IsCounted = record { counted = full-bytes chunk_packet_number; lengths = λ j h r. omega arith }

check_file_manager_lem_example :
    (l' : List Buffer) × (out : List ℕ) × (check_file_manager manager (full ∷ []) ≡ (
      if all_full 1 0 (λ i. pos 7) (full ∷ [])
      then some (
        pos 1,
        record manager { init = 0; offset = none; timer = none; already_used = none },
        l',
        some out,
      )
      else some (minus_one, manager, l', none)))
    × (all_full 1 0 (λ i. pos 7) (full ∷ []) ≡ true
        → (out ≡ file_bytes 1 0 (λ i. pos 7) (full ∷ [])) × (length out ≡ 1 * (512 * 1024)))
    × AllKept (IsFull (full ∷ [])) (full ∷ []) l'
check_file_manager_lem_example =
    check_file_manager_lem manager _ (full ∷ []) (omega arith) refl (omega arith)
      (full-IsCounted, tt)

abbrev ones : ℕ → List ℕ
ones zero = []
ones (suc n) = 49 ∷ ones n

abbrev config : Config
config = record { chunk_file = none; has_chunk_file = none; identity = pos 1; peers = [] }

-- A file of one chunk.
generate_whohas_lem_example :
    (m' : FileManager) × (q : Packet) × (ret : List Packet) × (done : List Line) × (last : List
      Line)
    × (offsets : ℕ → ℤ) × (generate_whohas 5 []
          (bytes_of [])
          config
          (some ((pos 0, ones 40) ∷ []))
          manager
        ≡ some (m', q ∷ ret))
    × (done ++ last ≡ (pos 0, ones 40) ∷ [])
    × Asks done ret
    × (length last < 50)
    × IsQuestion last q
    × (length ret ≡ 1 / 50)
    × (m' ≡ record {
      init = 1;
      chunk_count = 1;
      offset = some (record { size = 1; at = offsets });
      top = 1;
      timer = some (record { size = 1; at = λ i. 5 });
      already_used = some [];
    })
    × AllPlaced none 0 ((pos 0, ones 40) ∷ []) offsets
generate_whohas_lem_example =
    generate_whohas_lem 5 [] (bytes_of []) config ((pos 0, ones 40) ∷ []) manager (omega arith)
      (refl, tt)
