-- ===== src/Input.antt =====
-- input_buffer.c: the user's input, split into lines. The buffer is a block of USERBUF_SIZE + 1 bytes.
pub mod Lines
pub mod Loop
pub mod Runs
mod Tests
use p2p_cc.Base.{
  ℕ, zero, suc, ◌+◌, ◌-◌, ◌%◌, ◌^◌, Bool, true, false, Option, none, some, List, [], ◌∷◌, ltb, leb,
  ◌==◌, if◌then◌else◌, ◌>>=◌, ◌>>◌, require, Bytes, bytes_of, store, copy_at, slice, length,
}

-- USERBUF_SIZE
abbrev pub userbuf_size : ℕ
userbuf_size = 8191

pub record UserIobuf : Type 0 where
  pub buf : Bytes
  pub cur : ℕ

unfoldable pub create_userbuf : UserIobuf
create_userbuf = record { buf = bytes_of []; cur = 0 }

abbrev pub newline : ℕ
newline = 10

-- strchr(buf + i, '\n') with `left` bytes of the block from there on: the index of the first newline,
-- if there is one before the first zero byte. Without a zero byte it runs out of the block.
unfoldable pub strchr_newline : ℕ → ℕ → Bytes → Option (Option ℕ)
strchr_newline zero i buf = none
strchr_newline (suc left) i buf =
    let rest = strchr_newline left (i + 1) buf in
    if buf i == newline then some (some i) else if buf i == 0 then some none else rest

-- A round of the loop for a newline at index r: the line, and the buffer with what is behind it moved
-- to the front. `cur` is an unsigned int.
unfoldable pub take_line : ℕ → UserIobuf → List ℕ × UserIobuf
take_line r u =
    let ended = store (u.buf) r 0 in
    (
      slice ended 0 r,
      record {
        buf = copy_at ended 0 (λ k. ended (r + 1 + k)) (userbuf_size - r);
        cur = (u.cur + 2 ^ 32 - (r + 1)) % 2 ^ 32;
      },
    )

-- The loop on fuel: the lines that are handled, in their order. Out of fuel is `none` as well.
unfoldable pub take_lines : ℕ → UserIobuf → Option (List (List ℕ) × UserIobuf)
unfolding strchr_newline take_line
take_lines zero u = none
take_lines (suc fuel) u = do
  found ← strchr_newline (userbuf_size + 1) 0 (u.buf)
  elim found [
    | none ↦ some ([], u)
    | some r ↦ do
      let (line, u') = take_line r u
      (lines, u'') ← take_lines fuel u'
      some (line ∷ lines, u'')
  ]

-- What a call leaves: whether the process has exited, the lines that are handled, and the buffer.
pub record Processed : Type 0 where
  pub exited : Bool
  pub lines : List (List ℕ)
  pub userbuf : UserIobuf

-- `input` is what read() gives; it gives no more than it is asked for.
unfoldable pub process_user_input : List ℕ → UserIobuf → Option Processed
unfolding take_lines
process_user_input input u =
    if leb (userbuf_size - 1) (u.cur)
    then some (record { exited = true; lines = []; userbuf = u })
    else (do
      require (leb (length input) (userbuf_size - u.cur))
      let u' : UserIobuf = record {
        buf = copy_at (u.buf) (u.cur) (bytes_of input) (length input);
        cur = u.cur + length input;
      }
      (lines, u'') ← take_lines (userbuf_size + 1) u'
      some (record { exited = false; lines = lines; userbuf = u'' }))
