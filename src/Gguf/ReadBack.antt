-- ===== src/Gguf/ReadBack.antt =====
-- src/qx_gguf.c: the tokens that are exported, as a reader of the lines finds them.
use mathlib.Core.List.{append_assoc, append-nil}
use mathlib.Core.Path.{subst}
use qx_mini_c.Container.Directory.{c_string}
use qx_mini_c.Gguf.Export.{
  escape_byte, write_tsv_escaped, digits, token_line, export_tokens, locate_tokens, title,
  export_tokenizer_tokens,
}
use native.Mathlib.Nat.{pow-suc}
use qx_mini_c.Gguf.Stream.{File}
use qx_mini_c.Gguf.Strings.{string_bytes, ahead, at, ahead-append, read_string-string_bytes}
use qx_mini_c.Prelude.{
  ℕ, zero, suc, ◌+◌, ◌-◌, ◌*◌, ◌/◌, ◌%◌, ◌^◌, ◌≤◌, ◌<◌, ◌≡◌, refl, sym, ap, ◌∙◌, Bool, true, false,
  ◌&&◌, List, [], ◌∷◌, ◌++◌, map, flatten, length, take, length-append, length-drop, Option, none,
  some, ltb, ◌==◌, if◌then◌else◌, arith, Bool-cases, inl, inr,
}
use qx_mini_c.Prelude.Results.{ok}

-- A line is a number in decimal digits, a tab, and a text in which a tab, a newline, a carriage return
-- and a backslash are written as a backslash and a letter. Where a reader is: in the first line, at the
-- start of a line, after so much of its number, in its text with so much of it read, after a
-- backslash there, or past something that no line has.
pub data Mode : Type 0 where
  in_title at_start broken : Mode
  in_number : ℕ → Mode
  in_text in_escape : ℕ → List ℕ → Mode

abbrev is_digit : ℕ → Bool
is_digit c = ltb 47 c && ltb c 58

abbrev escape_of : ℕ → Option ℕ
escape_of c =
    if c == b't'
    then some b'\t'
    else if c == b'n'
    then some b'\n'
    else if c == b'r'
    then some b'\r'
    else if c == b'\\'
    then some b'\\'
    else none

-- The next mode, and the line that ends here: its number and its text.
step_line : Mode → ℕ → Mode × List (ℕ × List ℕ)
step_line in_title c = if c == b'\n' then (at_start, []) else (in_title, [])
step_line at_start c = if is_digit c then (in_number (c - 48), []) else (broken, [])
step_line broken c = (broken, [])
step_line (in_number n) c =
    if c == b'\t'
    then (in_text n [], [])
    else if is_digit c
    then (in_number (n * 10 + (c - 48)), [])
    else (broken, [])
step_line (in_text n read) c =
    if c == b'\n'
    then (at_start, (n, read) ∷ [])
    else if c == b'\\'
    then (in_escape n read, [])
    else if c == b'\t'
    then (broken, [])
    else if c == b'\r'
    then (broken, [])
    else (in_text n (read ++ c ∷ []), [])
step_line (in_escape n read) c = elim (escape_of c) [
  | none ↦ (broken, [])
  | some d ↦ (in_text n (read ++ d ∷ []), [])
]

pub read_lines : Mode → List ℕ → List (ℕ × List ℕ)
unfolding step_line
read_lines mode [] = []
read_lines mode (c ∷ cs) = let (next, lines) = step_line mode c in lines ++ read_lines next cs

-- What the lines are to say: the numbers from `j` on, and of each text the first 65535 bytes, up to
-- a 0.
abbrev pub numbered : ℕ → List (List ℕ) → List (ℕ × List ℕ)
numbered j [] = []
numbered j (text ∷ texts) = (j, c_string (take 65535 text)) ∷ numbered (suc j) texts

digit_test : (d : ℕ) → d < 10 → is_digit (48 + d) ≡ true
digit_test d h = ground (arith, h)

digit_read :
    (n d : ℕ) (rest : List ℕ)
    → d < 10
    → read_lines (in_number n) ((48 + d) ∷ rest) ≡ read_lines (in_number (n * 10 + d)) rest
unfolding read_lines step_line
digit_read n d rest h =
    let other : (48 + d == b'\t') ≡ false = ground (arith, h) in
    let value : n * 10 + (48 + d - 48) ≡ n * 10 + d = omega arith in
    rw (other, digit_test d h, step_line) (ap (λ m. read_lines (in_number m) rest) value)

few_read :
    (fuel n : ℕ) (rest : List ℕ)
    → ltb n 10 ≡ true
    → read_lines at_start (digits (suc fuel) n ++ rest) ≡ read_lines (in_number n) rest
unfolding digits read_lines step_line
few_read fuel n rest few =
    let value : 48 + n - 48 ≡ n = omega arith in
    let test = digit_test n (ground (arith, few)) in
    rw (few, test, digits, step_line) (ap (λ m. read_lines (in_number m) rest) value)

-- A number with enough digits is read back.
digits_read :
    (fuel n : ℕ) (rest : List ℕ)
    → n < 10 ^ suc fuel
    → read_lines at_start (digits (suc fuel) n ++ rest) ≡ read_lines (in_number n) rest
unfolding digits
digits_read zero n rest h = few_read zero n rest (ground (arith, h))
digits_read (suc fuel) n rest h = elim (Bool-cases (ltb n 10)) [
  | inl few ↦ few_read (suc fuel) n rest few
  | inr many ↦
      let last = (48 + n % 10) ∷ [] in
      let high : n / 10 < 10 ^ suc fuel = omega (arith, h, pow-suc 10 (suc fuel)) in
      let value : n / 10 * 10 + n % 10 ≡ n = omega arith in
      rw (many, digits)
        (ap (read_lines at_start) (append_assoc (digits (suc fuel) (n / 10)) last rest)
          ∙ digits_read fuel (n / 10) (last ++ rest) high
          ∙ digit_read (n / 10) (n % 10) rest (omega arith)
          ∙ ap (λ m. read_lines (in_number m) rest) value)
]

-- A byte of a text, as it is written, is read as itself.
byte_read :
    (n c : ℕ) (read rest : List ℕ)
    → read_lines (in_text n read) (escape_byte c ++ rest)
      ≡ read_lines (in_text n (read ++ c ∷ [])) rest
unfolding read_lines step_line escape_byte
byte_read n c read rest =
    let same : (k : ℕ) → (c == k) ≡ true → k ≡ c = λ k e. ground (arith, e) in
    elim (Bool-cases (c == b'\\')) [
      | inl e ↦
          subst
            (λ c.
              read_lines (in_text n read) (escape_byte c ++ rest)
              ≡ read_lines (in_text n (read ++ c ∷ [])) rest)
            (same b'\\' e) refl
      | inr n1 ↦ elim (Bool-cases (c == b'\t')) [
        | inl e ↦
            subst
              (λ c.
                read_lines (in_text n read) (escape_byte c ++ rest)
                ≡ read_lines (in_text n (read ++ c ∷ [])) rest)
              (same b'\t' e) refl
        | inr n2 ↦ elim (Bool-cases (c == b'\n')) [
          | inl e ↦
              subst
                (λ c.
                  read_lines (in_text n read) (escape_byte c ++ rest)
                  ≡ read_lines (in_text n (read ++ c ∷ [])) rest)
                (same b'\n' e) refl
          | inr n3 ↦ elim (Bool-cases (c == b'\r')) [
            | inl e ↦
                subst
                  (λ c.
                    read_lines (in_text n read) (escape_byte c ++ rest)
                    ≡ read_lines (in_text n (read ++ c ∷ [])) rest)
                  (same b'\r' e) refl
            | inr n4 ↦ rw (n1, n2, n3, n4, n3, n1, n2, n4) refl
          ]
        ]
      ]
    ]

text_read :
    (n : ℕ) (text read rest : List ℕ)
    → read_lines (in_text n read) (write_tsv_escaped text ++ b'\n' ∷ rest)
      ≡ (n, read ++ c_string text) ∷ read_lines at_start rest
unfolding read_lines step_line write_tsv_escaped c_string
text_read n [] read rest = ap (λ t. (n, t) ∷ read_lines at_start rest) (sym (append-nil read))
text_read n (c ∷ cs) read rest = elim (Bool-cases (c == 0)) [
  | inl zero_here ↦
      rw zero_here (ap (λ t. (n, t) ∷ read_lines at_start rest) (sym (append-nil read)))
  | inr more ↦
      let later = write_tsv_escaped cs in
      rw more (
        ap (read_lines (in_text n read)) (append_assoc (escape_byte c) later (b'\n' ∷ rest))
        ∙ byte_read n c read (later ++ b'\n' ∷ rest)
        ∙ text_read n cs (read ++ c ∷ []) rest
        ∙ ap (λ t. (n, t) ∷ read_lines at_start rest) (append_assoc read (c ∷ []) (c_string cs)))
]

line_read :
    (j : ℕ) (text rest : List ℕ)
    → j < 10 ^ 20
    → read_lines at_start (token_line j text ++ rest)
      ≡ (j, c_string text) ∷ read_lines at_start rest
unfolding token_line read_lines step_line
line_read j text rest h =
    let written = write_tsv_escaped text in
    ap (read_lines at_start) (
      append_assoc (digits 20 j) (b'\t' ∷ (written ++ b'\n' ∷ [])) rest
      ∙ ap (λ t. digits 20 j ++ b'\t' ∷ t) (append_assoc written (b'\n' ∷ []) rest))
    ∙ digits_read 19 j (b'\t' ∷ (written ++ b'\n' ∷ rest)) h
    ∙ text_read j text [] rest

lines_read :
    (texts : List (List ℕ)) (j : ℕ) (f : File) (more : List ℕ)
    → j + length texts ≤ 10 ^ 20
    → length f.bytes < 2 ^ 63
    → ahead f ≡ flatten (map string_bytes texts) ++ more
    → (lines : List ℕ) × (export_tokens (length texts) j f ≡ ok lines)
      × (read_lines at_start lines ≡ numbered j texts)
unfolding export_tokens read_lines
lines_read [] j f more fits small e = ([], refl, refl)
lines_read (text ∷ texts) j f more fits small e =
    let later = flatten (map string_bytes texts) in
    let here : ahead f ≡ string_bytes text ++ (later ++ more) =
      e ∙ append_assoc (string_bytes text) later more in
    let read = read_string-string_bytes f text (later ++ more) small here in
    let next = at f (f.pos + length (string_bytes text)) in
    let there = ahead-append f (string_bytes text) (later ++ more) here in
    let (rest, done, back) = lines_read texts (suc j) next more (omega (arith, fits)) small there in
    (
      token_line j (take 65535 text) ++ rest,
      rw (read, done, export_tokens) refl,
      line_read j (take 65535 text) rest (omega (arith, fits))
          ∙ ap (λ ls. (j, c_string (take 65535 text)) ∷ ls) back,
    )

-- Each string takes eight bytes or more.
length-flatten-string_bytes :
    (texts : List (List ℕ)) → length texts * 8 ≤ length (flatten (map string_bytes texts))
length-flatten-string_bytes [] = omega arith
length-flatten-string_bytes (text ∷ texts) =
    let later = flatten (map string_bytes texts) in
    omega (arith, length-append (string_bytes text) later, length-flatten-string_bytes texts)

-- In a file of less than 2^63 bytes that has, where the array of tokens is found, as many strings as
-- the array says, each its length and its bytes, the export succeeds with their number, and a reader
-- of its lines that undoes the escapes gets the numbers from 0 on with the strings in their order:
-- of each the first 65535 bytes, up to a 0.
pub export_tokenizer_tokens-read_lines :
    (bytes : List ℕ) (count : ℕ) (f : File) (texts : List (List ℕ)) (more : List ℕ)
    → locate_tokens bytes ≡ ok (count, f)
    → count ≡ length texts
    → length f.bytes < 2 ^ 63
    → ahead f ≡ flatten (map string_bytes texts) ++ more
    → (out : List ℕ) × (export_tokenizer_tokens bytes ≡ ok (out, count))
      × (read_lines in_title out ≡ numbered 0 texts)
unfolding export_tokenizer_tokens read_lines step_line
export_tokenizer_tokens-read_lines bytes count f texts more found size small e =
    let all = flatten (map string_bytes texts) in
    let few : length texts ≤ 10 ^ 20 = omega (
      arith,
      length-flatten-string_bytes texts,
      ap length e,
      length-append all more,
      length-drop f.pos f.bytes,
      small,
    ) in
    let (lines, done, back) = lines_read texts 0 f more (omega (arith, few)) small e in
    let exported : export_tokens count 0 f ≡ ok lines = ap (λ n. export_tokens n 0 f) size ∙ done in
    (title ++ lines, rw (found, exported, export_tokenizer_tokens) refl, back)
