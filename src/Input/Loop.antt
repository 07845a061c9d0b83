-- ===== src/Input/Loop.antt =====
-- The loop of `process_user_input` on a text, and the call around it.
use p2p_cc.Base.{
  ℕ, zero, suc, ◌+◌, ◌-◌, ◌*◌, ◌%◌, ◌^◌, ◌≤◌, ◌<◌, ◌≡◌, refl, ap, sym, ◌∙◌, inl, inr, true, false,
  Option, some, List, [], ◌∷◌, ◌++◌, leb, ltb, Bool-cases, arith, Bool, require, ◌>>=◌, ◌>>◌,
  if◌then◌else◌, bytes_of, store, copy_at, length, length-append,
}
use p2p_cc.Input.{
  UserIobuf, userbuf_size, newline, take_line, take_lines, Processed, process_user_input,
}
use p2p_cc.Input.Lines.{
  IsText, AllNonzero, cut, split_lines, split_lines-none, split_lines-line, strchr-none,
  strchr-found, bytes_of-behind, slice-line, nonzero-behind,
}

-- The block holds the text, and `cur` is its length.
pub record IsHeld (text : List ℕ) (u : UserIobuf) : Type 0 where
  pub holds : IsText text u.buf
  pub cur_at : u.cur ≡ length text

-- Behind the text are only zeros.
abbrev pub IsClean : UserIobuf → Type 0
IsClean u = (i : ℕ) → u.cur ≤ i → i ≤ userbuf_size → u.buf i ≡ 0

bytes_of-before : (xs ys : List ℕ) (k : ℕ) → k < length xs → bytes_of (xs ++ ys) k ≡ bytes_of xs k
bytes_of-before [] ys k h = absurd (omega arith)
bytes_of-before (x ∷ xs) ys zero h = refl
bytes_of-before (x ∷ xs) ys (suc k) h = bytes_of-before xs ys k (omega arith)

bytes_of-after :
    (xs ys : List ℕ) (i k : ℕ) → i ≡ length xs + k → bytes_of (xs ++ ys) i ≡ bytes_of ys k
bytes_of-after [] ys i k h = let same : i ≡ k = omega arith in rw same
bytes_of-after (x ∷ xs) ys zero k h = absurd (omega arith)
bytes_of-after (x ∷ xs) ys (suc i) k h = bytes_of-after xs ys i k (omega arith)

bytes_of-end : (xs : List ℕ) → bytes_of xs (length xs) ≡ 0
bytes_of-end [] = refl
bytes_of-end (x ∷ xs) = bytes_of-end xs

size-line : (line rest : List ℕ) → length (line ++ newline ∷ rest) ≡ length line + 1 + length rest
size-line line rest = omega (arith, length-append line (newline ∷ rest))

-- A line is taken from the front.
take_line-IsHeld :
    (line rest : List ℕ) (u : UserIobuf)
    → IsHeld (line ++ newline ∷ rest) u
    → ((take_line (length line) u).0 ≡ line) × IsHeld rest (take_line (length line) u).1
unfolding take_line
take_line-IsHeld line rest u v =
    let size = size-line line rest in
    (
      slice-line (store (u.buf) (length line) 0) 0 line (newline ∷ rest) (λ k h.
          let kept : store (u.buf) (length line) 0 (0 + k) ≡ u.buf k = ground arith in
          kept ∙ v.holds.bytes k (omega (arith, size))),
      record {
        holds = record {
          fits = omega (arith, v.holds.fits, size);
          nonzero = nonzero-behind line rest newline v.holds.nonzero;
          bytes = λ k h.
              moved (length line) k (omega (arith, v.holds.fits, size))
              ∙ v.holds.bytes (length line + 1 + k) (omega (arith, size))
              ∙ bytes_of-behind line rest newline k;
        };
        cur_at = omega (arith, v.cur_at, size, v.holds.fits);
      },
    )
  where
    moved :
        (r k : ℕ)
        → k < userbuf_size - r
        → copy_at (store (u.buf) r 0) 0 (λ j. store (u.buf) r 0 (r + 1 + j)) (userbuf_size - r) k
          ≡ u.buf (r + 1 + k)
    moved r k h = ground arith

-- If the text fills at most half of the block, the bytes that the move leaves behind are zeros.
take_line-IsClean :
    (line rest : List ℕ) (u : UserIobuf)
    → IsHeld (line ++ newline ∷ rest) u
    → IsClean u
    → 2 * length (line ++ newline ∷ rest) ≤ userbuf_size
    → IsClean (take_line (length line) u).1
unfolding take_line
take_line-IsClean line rest u v clean h i p q =
    let size = size-line line rest in
    let from : length line + 1 ≤ u.cur = omega (arith, v.cur_at, size) in
    let half : 2 * u.cur ≤ userbuf_size = omega (arith, v.cur_at) in
    behind (length line) from half (omega arith)
  where
    behind :
        (r : ℕ)
        → r + 1 ≤ u.cur
        → 2 * u.cur ≤ userbuf_size
        → (u.cur + 2 ^ 32 - (r + 1)) % 2 ^ 32 ≤ i
        → copy_at (store (u.buf) r 0) 0 (λ j. store (u.buf) r 0 (r + 1 + j)) (userbuf_size - r) i
          ≡ 0
    behind r from half p' = ground (arith, clean i, clean (r + 1 + (i - 0)))

-- What the loop leaves of a text.
record IsSplit (text : List ℕ) (u : UserIobuf) (m : Option (List (List ℕ) × UserIobuf))
    : Type 0 where
  after : UserIobuf
  returns : m ≡ some ((split_lines text).0, after)
  held : IsHeld (split_lines text).1 after
  clean : IsClean u → 2 * length text ≤ userbuf_size → IsClean after

take_lines-IsSplit :
    (fuel : ℕ) (text : List ℕ) (u : UserIobuf)
    → length text < fuel
    → IsHeld text u
    → IsSplit text u (take_lines fuel u)
unfolding take_lines
take_lines-IsSplit zero text u h v = absurd (omega arith)
take_lines-IsSplit (suc fuel) text u h v = elim (cut text) [
  | inl one ↦
      let none_found =
        strchr-none (userbuf_size + 1) 0 (u.buf) text (omega (arith, v.holds.fits)) one
          v.holds.nonzero (from_zero text v) in
      let e = split_lines-none text one in
      record { after = u; returns = rw (none_found, e); held = rw e v; clean = λ c _. c }
  | inr k ↦
      let w : IsHeld (k.line ++ newline ∷ k.rest) u = rw k.parts at v in
      let size = size-line k.line k.rest in
      let found =
        strchr-found (userbuf_size + 1) 0 (u.buf) k.line k.rest (omega (arith, w.holds.fits))
          k.one_line w.holds.nonzero (from_zero (k.line ++ newline ∷ k.rest) w) in
      let at : 0 + length k.line ≡ length k.line = omega arith in
      let (line_is, w') = take_line-IsHeld k.line k.rest u w in
      let whole : length text ≡ length (k.line ++ newline ∷ k.rest) = ap length k.parts in
      let next =
        take_lines-IsSplit fuel k.rest (take_line (length k.line) u).1 (omega (arith, whole, size))
          w' in
      let e = ap split_lines k.parts ∙ split_lines-line k.line k.rest k.one_line in
      record {
        after = next.after;
        returns = rw (found, at, line_is, next.returns, e);
        held = rw e next.held;
        clean = λ c q.
            next.clean (take_line-IsClean k.line k.rest u w c (omega (arith, whole)))
              (omega (arith, whole, size));
      }
]
  where
    from_zero :
        (xs : List ℕ) → IsHeld xs u → (k : ℕ) → k ≤ length xs → u.buf (0 + k) ≡ bytes_of xs k
    from_zero xs v k q = let same : 0 + k ≡ k = omega arith in rw same (v.holds.bytes k q)

-- What is read goes behind the text.
read-IsHeld :
    (text input : List ℕ) (u : UserIobuf)
    → IsHeld text u
    → IsClean u
    → AllNonzero input
    → length text + length input ≤ userbuf_size
    → IsHeld (text ++ input) (record {
      buf = copy_at (u.buf) (u.cur) (bytes_of input) (length input);
      cur = u.cur + length input;
    })
read-IsHeld text input u v clean nonzero room =
    let size = length-append text input in
    record {
      holds = record {
        fits = omega (arith, size);
        nonzero = both text v.holds.nonzero;
        bytes = λ i h. held i (omega (arith, h, size));
      };
      cur_at = omega (arith, v.cur_at, size);
    }
  where
    both : (xs : List ℕ) → AllNonzero xs → AllNonzero (xs ++ input)
    both [] v = nonzero
    both (x ∷ xs) v = (v.0, both xs v.1)

    held :
        (i : ℕ)
        → i ≤ length text + length input
        → copy_at (u.buf) (u.cur) (bytes_of input) (length input) i ≡ bytes_of (text ++ input) i
    held i h = elim (Bool-cases (ltb i (length text))) [
      | inl before ↦
          let kept : copy_at (u.buf) (u.cur) (bytes_of input) (length input) i ≡ u.buf i =
            ground (arith, v.cur_at) in
          kept ∙ v.holds.bytes i (ground arith) ∙ sym (bytes_of-before text input i (ground arith))
      | inr behind ↦ elim (Bool-cases (ltb i (length text + length input))) [
        | inl inside ↦
            let copied : copy_at (u.buf) (u.cur) (bytes_of input) (length input) i
                ≡ bytes_of input (i - u.cur) =
              ground (arith, v.cur_at) in
            copied ∙ sym (bytes_of-after text input i (i - u.cur) (ground (arith, v.cur_at)))
        | inr end ↦
            let kept : copy_at (u.buf) (u.cur) (bytes_of input) (length input) i ≡ u.buf i =
              ground (arith, v.cur_at) in
            let last : i ≡ length text + length input = ground arith in
            kept
            ∙ clean i (ground (arith, v.cur_at)) (ground arith)
            ∙ sym (bytes_of-after text input i (length input) last ∙ bytes_of-end input)
      ]
    ]

below_end : (cur : ℕ) → cur < userbuf_size - 1 → leb (userbuf_size - 1) cur ≡ false
below_end cur h = ground arith

in_room : (cur n : ℕ) → cur + n ≤ userbuf_size → leb n (userbuf_size - cur) ≡ true
in_room cur n h = ground arith

-- A call whose guard lets it pass.
guarded :
    {A : Type 0} (full fits : Bool) (m : Option A) (exit : Option Processed)
    (f : A → Option Processed) (a : A)
    → full ≡ false
    → fits ≡ true
    → m ≡ some a
    → (if full then exit else (require fits >> (m >>= f))) ≡ f a
guarded full fits m exit f a e e' r = rw (e, e', r)

-- A call with room for what is read, on a buffer that holds a text and behind it only zeros: it
-- stays in the block, the fuel is enough for the loop, and the process goes on. It hands over the
-- lines of the text with what is read, and the buffer holds the rest. If no more than half of the
-- block was filled, there are only zeros behind it again.
pub process_user_input_lem :
    (text input : List ℕ) (u : UserIobuf)
    → IsHeld text u
    → IsClean u
    → AllNonzero input
    → length text + length input ≤ userbuf_size
    → length text < userbuf_size - 1
    → let (lines, rest) = split_lines (text ++ input) in
      (u' : UserIobuf) × (process_user_input input u
        ≡ some (record { exited = false; lines = lines; userbuf = u' }))
      × IsHeld rest u'
      × (2 * (length text + length input) ≤ userbuf_size → IsClean u')
unfolding process_user_input
process_user_input_lem text input u v clean nonzero room small =
    let u1 : UserIobuf = record {
      buf = copy_at (u.buf) (u.cur) (bytes_of input) (length input);
      cur = u.cur + length input;
    } in
    let size = length-append text input in
    let v1 = read-IsHeld text input u v clean nonzero room in
    let s = take_lines-IsSplit (userbuf_size + 1) (text ++ input) u1 (omega (arith, size)) v1 in
    let open_end : leb (userbuf_size - 1) u.cur ≡ false =
      below_end u.cur (omega (arith, v.cur_at)) in
    let fits : leb (length input) (userbuf_size - u.cur) ≡ true =
      in_room u.cur (length input) (omega (arith, v.cur_at)) in
    (
      s.after,
      guarded (leb (userbuf_size - 1) u.cur) (leb (length input) (userbuf_size - u.cur)) _ _ _ _
          open_end fits s.returns,
      s.held,
      λ half. s.clean (behind (length input) u1 refl) (omega (arith, size)),
    )
  where
    behind :
        (n : ℕ) (u1 : UserIobuf)
        → u1 ≡ record { buf = copy_at (u.buf) (u.cur) (bytes_of input) n; cur = u.cur + n }
        → IsClean u1
    behind n u1 e = rw e (λ i p q.
        let kept : copy_at (u.buf) (u.cur) (bytes_of input) n i ≡ u.buf i = ground arith in
        kept ∙ clean i (omega arith) q)
