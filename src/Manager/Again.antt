-- ===== src/Manager/Again.antt =====
-- The chunks that `re_generateWhohas` asks for again.
use mathlib.Core.List.{append_assoc, append-nil}
use p2p_cc.Base.{
  ℕ, zero, suc, ◌+◌, ◌≤◌, ◌<◌, ◌≡◌, ◌≢◌, refl, sym, ap, ◌∙◌, Bool, Bool-cases, true, false, ◌&&◌,
  inl, inr, Option, some, List, [], ◌∷◌, ◌++◌, ◌==◌, ==_iff, ltb, leb, if◌then◌else◌, arith, Bytes,
  store,
}
use p2p_cc.Base.Int.{ℤ, pos, ◌==ℤ◌}
use p2p_cc.Packet.{Packet, init_packet, whohas}
use p2p_cc.Receiver.{Buffer, is_buffer_full, release_buffer}
use p2p_cc.Hashes.{MasterFile, get_hash_from_master_chunkfile}
use p2p_cc.Manager.{FileManager, Config, ask_chunk, ask_again, re_generate_whohas}
use p2p_cc.Manager.Finish.{is_buffer_full-release}
use p2p_cc.Manager.Stored.{IsFetching}

-- A chunk that is not full and has had no packet for more than 10 seconds.
abbrev pub stalled : ℕ → ℤ → ℕ → List Buffer → Bool
stalled now offset time l =
    (if is_buffer_full offset l ==ℤ pos 1 then false else true) && ltb (time + 10) now

-- The requests for the stalled chunks among i, ..., i + left - 1, the last one first.
abbrev pub requests : (ℕ → Packet) → (ℕ → Bool) → ℕ → ℕ → List Packet
requests packet is_stalled zero i = []
requests packet is_stalled (suc left) i =
    requests packet is_stalled left (i + 1) ++ (if is_stalled i then packet i ∷ [] else [])

requests-same :
    (packet : ℕ → Packet) (a b : ℕ → Bool) (left i : ℕ)
    → ((j : ℕ) → i ≤ j → a j ≡ b j)
    → requests packet a left i ≡ requests packet b left i
requests-same packet a b zero i h = refl
requests-same packet a b (suc left) i h =
    rw (h i (omega arith), requests-same packet a b left (i + 1) (λ j q. h j (omega arith)))

-- What the loop leaves.
record IsAsked (now : ℕ) (offsets : ℕ → ℤ) (packet : ℕ → Packet) (left i : ℕ) (timer : ℕ → ℕ)
    (l : List Buffer) (ret : List Packet) (timer' : ℕ → ℕ) (l' : List Buffer) (ret' : List Packet)
    : Type 0 where
  asked : ret' ≡ requests packet (λ j. stalled now (offsets j) (timer j) l) left i ++ ret
  before : (j : ℕ) → j < i → timer' j ≡ timer j
  timed :
      (j : ℕ)
      → i ≤ j
      → j < i + left
      → timer' j ≡ (if stalled now (offsets j) (timer j) l then now else timer j)
  same_full : (o : ℤ) → is_buffer_full o l' ≡ is_buffer_full o l

ask_chunk-stalled :
    (now : ℕ) (junk : List ℕ) (block : Bytes) (master : Option MasterFile) (offset : ℤ) (i : ℕ)
    (timer : ℕ → ℕ) (l : List Buffer) (ret : List Packet) (packet : Packet)
    → init_packet junk whohas (get_hash_from_master_chunkfile block offset master) 20 ≡ some packet
    → stalled now offset (timer i) l ≡ true
    → ask_chunk now junk block master offset i (timer, l, ret)
      ≡ some (store timer i now, release_buffer offset l, packet ∷ ret)
unfolding ask_chunk
ask_chunk-stalled now junk block master offset i timer l ret packet e s =
    elim (Bool-cases (is_buffer_full offset l ==ℤ pos 1)) [
      | inl full ↦ absurd (ground (arith, s, full))
      | inr part ↦
          let late : ltb (timer i + 10) now ≡ true = ground (arith, s) in rw (part, late, e)
    ]

ask_chunk-other :
    (now : ℕ) (junk : List ℕ) (block : Bytes) (master : Option MasterFile) (offset : ℤ) (i : ℕ)
    (timer : ℕ → ℕ) (l : List Buffer) (ret : List Packet)
    → stalled now offset (timer i) l ≡ false
    → ask_chunk now junk block master offset i (timer, l, ret) ≡ some (timer, l, ret)
unfolding ask_chunk
ask_chunk-other now junk block master offset i timer l ret s =
    elim (Bool-cases (is_buffer_full offset l ==ℤ pos 1)) [
      | inl full ↦ rw full refl
      | inr part ↦
          let early : ltb (timer i + 10) now ≡ false = ground (arith, s) in rw (part, early)
    ]

stored-here : (timer : ℕ → ℕ) (i now : ℕ) → store timer i now i ≡ now
stored-here timer i now = ground arith

stored-other : (timer : ℕ → ℕ) (i j now : ℕ) → j ≢ i → store timer i now j ≡ timer j
stored-other timer i j now h = ground arith

-- A release and a new time of one chunk leave the others as they were.
stalled-later :
    (now : ℕ) (offset o : ℤ) (i j : ℕ) (timer : ℕ → ℕ) (l : List Buffer)
    → j ≢ i
    → stalled now offset (store timer i now j) (release_buffer o l) ≡ stalled now offset (timer j) l
stalled-later now offset o i j timer l h =
    rw (is_buffer_full-release offset o l, stored-other timer i j now h) refl

ask_again-IsAsked :
    (now : ℕ) (junk : List ℕ) (block : Bytes) (master : Option MasterFile) (offsets : ℕ → ℤ)
    (packet : ℕ → Packet) (left i : ℕ) (timer : ℕ → ℕ) (l : List Buffer) (ret : List Packet)
    → ((j : ℕ)
        → i ≤ j
        → j < i + left
        → init_packet junk whohas (get_hash_from_master_chunkfile block (offsets j) master) 20
          ≡ some (packet j))
    → (timer' : ℕ → ℕ) × (l' : List Buffer) × (ret' : List Packet) × (ask_again now junk block
          master offsets left i
          (timer, l, ret)
        ≡ some (timer', l', ret'))
      × IsAsked now offsets packet left i timer l ret timer' l' ret'
unfolding ask_again
ask_again-IsAsked now junk block master offsets packet zero i timer l ret h = (
  timer,
  l,
  ret,
  refl,
  record {
    asked = refl;
    before = λ j q. refl;
    timed = λ j p q. absurd (omega arith);
    same_full = λ o. refl;
  },
)
ask_again-IsAsked now junk block master offsets packet (suc left) i timer l ret h =
    elim (Bool-cases (stalled now (offsets i) (timer i) l)) [
      | inl is_stalled ↦
          let o = offsets i in
          let timer1 = store timer i now in
          let l1 = release_buffer o l in
          let (timer', l', ret', e, v) =
            ask_again-IsAsked now junk block master offsets packet left (i + 1) timer1 l1
              (packet i ∷ ret) (λ j p q. h j (omega arith) (omega arith)) in
          let same = λ (j : ℕ) (q : i + 1 ≤ j).
            stalled-later now (offsets j) o i j (timer) l (omega arith) in
          (
            timer',
            l',
            ret',
            rw (
              ask_chunk-stalled now junk block master o i timer l ret (packet i)
                  (h i (omega arith) (omega arith)) is_stalled,
              e,
            ),
            record {
              asked = rw is_stalled (
                  v.asked
                  ∙ ap (λ (r : List Packet). r ++ packet i ∷ ret)
                      (requests-same packet _ _ left (i + 1) same)
                  ∙ sym (append_assoc (requests packet _ left (i + 1)) (packet i ∷ []) ret));
              before = λ j q. v.before j (omega arith) ∙ stored-other timer i j now (omega arith);
              timed = λ j p q. elim (Bool-cases (j == i)) [
                | inl here ↦
                    rw ((==_iff j i).0 here, is_stalled)
                      (v.before i (omega arith) ∙ stored-here timer i now)
                | inr later ↦
                    let after : i + 1 ≤ j = ground arith in
                    v.timed j after (omega arith)
                    ∙ rw (same j after, stored-other timer i j now (omega arith)) refl
              ];
              same_full = λ k. v.same_full k ∙ is_buffer_full-release k o l;
            },
          )
      | inr not_stalled ↦
          let (timer', l', ret', e, v) =
            ask_again-IsAsked now junk block master offsets packet left (i + 1) timer l ret
              (λ j p q. h j (omega arith) (omega arith)) in
          (
            timer',
            l',
            ret',
            rw (ask_chunk-other now junk block master (offsets i) i timer l ret not_stalled, e),
            record {
              asked = rw (not_stalled, append-nil) v.asked;
              before = λ j q. v.before j (omega arith);
              timed = λ j p q. elim (Bool-cases (j == i)) [
                | inl here ↦ rw ((==_iff j i).0 here, not_stalled) (v.before i (omega arith))
                | inr later ↦ v.timed j (ground arith) (omega arith)
              ];
              same_full = v.same_full;
            },
          )
    ]

-- What the call leaves of a file that is being fetched.
pub record IsAskedAgain (now : ℕ) (packet : ℕ → Packet) (m : FileManager) (v : IsFetching m)
    (l : List Buffer) (times : ℕ → ℕ) (l' : List Buffer) (ret : List Packet) : Type 0 where
  pub asked :
      ret ≡ requests packet (λ j. stalled now (v.offsets.at j) (v.timers.at j) l) m.chunk_count 0
  pub timed :
      (j : ℕ)
      → j < m.chunk_count
      → times j ≡ (if stalled now (v.offsets.at j) (v.timers.at j) l then now else v.timers.at j)
  pub same_full : (o : ℤ) → is_buffer_full o l' ≡ is_buffer_full o l

-- `re_generateWhohas` for a file that is being fetched, where a request can be built for each chunk:
-- it asks for exactly those chunks that are not full and have had no packet for more than 10 seconds,
-- the last one first, starts the times of exactly these anew, and changes which chunks are full for
-- none.
pub re_generate_whohas_lem :
    (now : ℕ) (junk : List ℕ) (block : Bytes) (config : Config) (m : FileManager) (v : IsFetching m)
    (l : List Buffer) (packet : ℕ → Packet)
    → ((j : ℕ)
        → j < m.chunk_count
        → init_packet junk whohas
            (get_hash_from_master_chunkfile block (v.offsets.at j) config.chunk_file)
            20
          ≡ some (packet j))
    → (times : ℕ → ℕ) × (l' : List Buffer) × (ret : List Packet) × (re_generate_whohas now junk
          block config m l
        ≡ some (record m { timer = some (record { size = v.timers.size; at = times }) }, l', ret))
      × IsAskedAgain now packet m v l times l' ret
unfolding re_generate_whohas
re_generate_whohas_lem now junk block config m v l packet h =
    let (times, l', ret, e, a) =
      ask_again-IsAsked now junk block config.chunk_file v.offsets.at packet m.chunk_count 0
        v.timers.at l [] (λ j p q. h j (omega arith)) in
    let run : (m.init == 0) ≡ false = ground (arith, v.going) in
    let room : leb m.chunk_count v.offsets.size ≡ true = ground (arith, v.offsets_room) in
    let room' : leb m.chunk_count v.timers.size ≡ true = ground (arith, v.timers_room) in
    (
      times,
      l',
      ret,
      rw (run, v.has_offsets, v.has_timers, room, room', e),
      record {
        asked = a.asked ∙ append-nil _;
        timed = λ j q. a.timed j (omega arith) (omega arith);
        same_full = a.same_full;
      },
    )
