-- ===== src/Gguf/Strings.antt =====
-- src/qx_gguf.c: the strings of a file, and how read_string reads one that the file holds.
use mathlib.Core.List.{append_assoc}
use qx_mini_c.Gguf.Stream.{File, rd, rd_u64, skip_bytes, read_string}
use qx_mini_c.Prelude.Bytes.{le64, u64_at-le64, drop-drop, drop-length-append, take-length-append}
use qx_mini_c.Prelude.{
  ℕ, zero, suc, ◌+◌, ◌-◌, ◌^◌, ◌≤◌, ◌<◌, ◌≡◌, refl, sym, ap, ◌∙◌, true, false, List, [], ◌∷◌, ◌++◌,
  Option, none, some, ltb, ◌==◌, if◌then◌else◌, length, take, drop, length-append, length-take,
  length-drop, take-append-drop, arith, Bool-cases, inl, inr,
}

-- A string in a file: its length in eight bytes, the lowest first, and its bytes.
abbrev pub string_bytes : List ℕ → List ℕ
string_bytes text = le64 (length text) ++ text

-- The file from its position on.
abbrev pub ahead : File → List ℕ
ahead f = drop f.pos f.bytes

abbrev pub at : File → ℕ → File
at f n = record { bytes = f.bytes; pos = n }

-- What is ahead is in the file.
pub ahead-fits :
    (f : File) (xs ys : List ℕ)
    → 0 < length xs
    → ahead f ≡ xs ++ ys
    → f.pos + length xs + length ys ≡ length f.bytes
ahead-fits f xs ys some_bytes e =
    omega (arith, ap length e, length-append xs ys, length-drop f.pos f.bytes, some_bytes)

pub ahead-append :
    (f : File) (xs ys : List ℕ) → ahead f ≡ xs ++ ys → ahead (at f (f.pos + length xs)) ≡ ys
ahead-append f xs ys e =
    sym (drop-drop f.pos (length xs) f.bytes) ∙ ap (drop (length xs)) e ∙ drop-length-append xs ys

rd-append :
    (f : File) (xs ys : List ℕ)
    → ahead f ≡ xs ++ ys
    → 0 < length xs
    → rd (length xs) f ≡ some (xs, at f (f.pos + length xs))
unfolding rd
rd-append f xs ys e some_bytes =
    let fits = ahead-fits f xs ys some_bytes e in
    let enough : ltb (length f.bytes) (f.pos + length xs) ≡ false = ground (arith, fits) in
    let taken : take (length xs) (drop f.pos f.bytes) ≡ xs =
      ap (take (length xs)) e ∙ take-length-append xs ys in
    rw (enough, rd) (ap (λ s. some (s, at f (f.pos + length xs))) taken)

rd_u64-le64 :
    (f : File) (n : ℕ) (ys : List ℕ)
    → n < 2 ^ 64
    → ahead f ≡ le64 n ++ ys
    → rd_u64 f ≡ some (n, at f (f.pos + 8))
unfolding rd_u64
rd_u64-le64 f n ys small e =
    let first = rd-append f (le64 n) ys e (omega arith) in
    rw (first, rd_u64) (ap (λ m. some (m, at f (f.pos + 8))) (u64_at-le64 n [] small))

take-short : (n : ℕ) (xs : List ℕ) → length xs ≤ n → take n xs ≡ xs
take-short zero [] h = refl
take-short zero (x ∷ xs) h = absurd (omega (arith, h))
take-short (suc n) [] h = refl
take-short (suc n) (x ∷ xs) h = ap (◌∷◌ x) (take-short n xs (omega (arith, h)))

-- The bytes that are kept of a string, when it has any.
kept :
    (f : File) (text more : List ℕ) (k : ℕ)
    → 0 < k
    → k ≤ length text
    → ahead f ≡ text ++ more
    → rd k f ≡ some (take k text, at f (f.pos + k))
kept f text more k pos fits e =
    let size : length (take k text) ≡ k = omega (arith, length-take k text, fits) in
    let split : ahead f ≡ take k text ++ (drop k text ++ more) =
      e
      ∙ ap (λ t. t ++ more) (sym (take-append-drop k text))
      ∙ append_assoc (take k text) (drop k text) more in
    let read = rd-append f (take k text) (drop k text ++ more) split (omega (arith, size, pos)) in
    rw size at read

skip_bytes-at :
    (f : File) (n : ℕ)
    → f.pos + n ≤ length f.bytes
    → length f.bytes < 2 ^ 63
    → skip_bytes f n ≡ some (at f (f.pos + n))
unfolding skip_bytes
skip_bytes-at f n inside small =
    let forward : ltb n (2 ^ 63) ≡ true = ground (arith, inside, small) in
    let allowed : ltb (f.pos + n) (2 ^ 63) ≡ true = ground (arith, inside, small) in
    rw (forward, allowed, skip_bytes) refl

-- What read_string does after the length: `keep` bytes are kept of `len`.
read_kept : ℕ → ℕ → File → Option (List ℕ × File)
read_kept keep len f = elim (if keep == 0 then some ([], f) else rd keep f) [
  | none ↦ none
  | some (text, f2) ↦
      if ltb keep len
      then elim (skip_bytes f2 (len - keep)) [ none ↦ none | some f3 ↦ some (text, f3) ]
      else some (text, f2)
]

read_kept-whole :
    (n : ℕ) (f f2 : File) (text : List ℕ)
    → 0 < n
    → rd n f ≡ some (text, f2)
    → read_kept n n f ≡ some (text, f2)
unfolding read_kept
read_kept-whole n f f2 text pos read =
    let some_bytes : (n == 0) ≡ false = ground (arith, pos) in
    let none_left : ltb n n ≡ false = ground arith in
    rw (some_bytes, read, none_left, read_kept) refl

read_kept-cut :
    (keep n : ℕ) (f f2 f3 : File) (text : List ℕ)
    → 0 < keep
    → keep < n
    → rd keep f ≡ some (text, f2)
    → skip_bytes f2 (n - keep) ≡ some f3
    → read_kept keep n f ≡ some (text, f3)
unfolding read_kept
read_kept-cut keep n f f2 f3 text pos more read skipped =
    let some_bytes : (keep == 0) ≡ false = ground (arith, pos) in
    let left : ltb keep n ≡ true = ground (arith, more) in
    rw (some_bytes, read, left, skipped, read_kept) refl

-- A string that is there is kept up to `keep` bytes, and passed over whole.
read_kept-take :
    (keep n : ℕ) (f : File) (text more : List ℕ)
    → 0 < keep
    → keep ≤ n
    → n ≡ length text
    → length f.bytes < 2 ^ 63
    → ahead f ≡ text ++ more
    → read_kept keep n f ≡ some (take keep text, at f (f.pos + n))
read_kept-take keep n f text more pos le size small e =
    let read = kept f text more keep pos (omega (arith, le, size)) e in
    let fits = ahead-fits f text more (omega (arith, pos, le, size)) e in
    elim (Bool-cases (ltb keep n)) [
      | inl cut ↦
          let inside : f.pos + keep + (n - keep) ≤ length f.bytes =
            ground (arith, fits, cut, size) in
          let place : f.pos + keep + (n - keep) ≡ f.pos + n = ground (arith, cut) in
          let over = skip_bytes-at (at f (f.pos + keep)) (n - keep) inside small in
          read_kept-cut keep n f (at f (f.pos + keep)) (at f (f.pos + keep + (n - keep)))
            (take keep text) pos (ground (arith, cut)) read over
          ∙ ap (λ p. some (take keep text, at f p)) place
      | inr whole ↦
          let same : keep ≡ n = ground (arith, whole, le) in
          ap (λ m. read_kept keep m f) (sym same)
          ∙ read_kept-whole keep f (at f (f.pos + keep)) (take keep text) pos read
          ∙ ap (λ p. some (take keep text, at f (f.pos + p))) same
    ]

read_string-read_kept :
    (cap len : ℕ) (f f1 : File)
    → rd_u64 f ≡ some (len, f1)
    → read_string cap f ≡ read_kept (if ltb len (cap - 1) then len else cap - 1) len f1
unfolding read_string read_kept
read_string-read_kept cap len f f1 first = rw (first, read_string) refl

keep_bounds :
    (n : ℕ)
    → 0 < n
    → (0 < (if ltb n 65535 then n else 65535)) × ((if ltb n 65535 then n else 65535) ≤ n)
keep_bounds n pos = (ground (arith, pos), ground (arith, pos))

-- A string is read into a buffer of 65536 bytes as its first 65535, and passed over whole.
pub read_string-string_bytes :
    (f : File) (text more : List ℕ)
    → length f.bytes < 2 ^ 63
    → ahead f ≡ string_bytes text ++ more
    → read_string 65536 f ≡ some (take 65535 text, at f (f.pos + length (string_bytes text)))
unfolding read_string
read_string-string_bytes f [] more small e =
    let first = rd_u64-le64 f 0 more (omega arith) e in rw (first, read_string) refl
read_string-string_bytes f (c ∷ cs) more small e =
    let text = c ∷ cs in
    let n = length text in
    let fits = ahead-fits f (string_bytes text) more (omega arith) e in
    let first = rd_u64-le64 f n (text ++ more) (omega (arith, fits, small)) e in
    let f1 = at f (f.pos + 8) in
    let rest = ahead-append f (le64 n) (text ++ more) e in
    let place : f.pos + 8 + n ≡ f.pos + length (string_bytes text) = omega arith in
    let keep = if ltb n 65535 then n else 65535 in
    let size = keep_bounds n (omega arith) in
    let taken : take keep text ≡ take 65535 text = elim (Bool-cases (ltb n 65535)) [
      | inl short ↦
          rw short
            (take-short n text (omega arith) ∙ sym (take-short 65535 text (ground (arith, short))))
      | inr long ↦ rw long refl
    ] in
    read_string-read_kept 65536 n f f1 first
    ∙ read_kept-take keep n f1 text more size.0 size.1 refl small rest
    ∙ ap (λ p. some (take keep text, at f p)) place
    ∙ ap (λ t. some (t, at f (f.pos + length (string_bytes text)))) taken
