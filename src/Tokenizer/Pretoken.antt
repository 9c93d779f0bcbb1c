-- ===== src/Tokenizer/Pretoken.antt =====
-- src/qx_tokenizer.c: qx_tok_pretoken_length and the character classes. `s` is the text from a cursor
-- to the end of the segment, so that `cursor >= length` is the empty list.
pub mod Bounds
use qx_mini_c.Prelude.{
  ℕ, zero, suc, ◌+◌, Bool, true, false, not, ◌&&◌, ◌||◌, List, [], ◌∷◌, Option, none, some, ltb,
  leb, ◌==◌, if◌then◌else◌, length, get_or, drop, take,
}
use qx_mini_c.Prelude.Results.{Result, ok, err}
use qx_mini_c.Tokenizer.{Error, unsupported_class, no_progress}
use qx_mini_c.Tokenizer.Utf8.{utf8_next}

pub data Class : Type 0 where
  letter number space newline other unsupported : Class

abbrev between : ℕ → ℕ → ℕ → Bool
between lo hi cp = leb lo cp && leb cp hi

unfoldable pub is_letter : ℕ → Bool
is_letter cp =
    between b'A' b'Z' cp
    || between b'a' b'z' cp
    || between 0x00C0 0x02AF cp
    || between 0x0370 0x052F cp
    || between 0x0620 0x065F cp
    || between 0x066E 0x06D3 cp
    || between 0x06D5 0x06DC cp
    || between 0x06DF 0x06E8 cp
    || between 0x06EA 0x06ED cp
    || between 0x3040 0x30FF cp
    || between 0x3400 0x4DBF cp
    || between 0x4E00 0x9FFF cp
    || between 0xAC00 0xD7AF cp
    || between 0xF900 0xFAFF cp

unfoldable pub is_number : ℕ → Bool
is_number cp =
    between b'0' b'9' cp
    || between 0x0660 0x0669 cp
    || between 0x06F0 0x06F9 cp
    || between 0x0966 0x096F cp
    || between 0xFF10 0xFF19 cp

unfoldable pub is_other : ℕ → Bool
is_other cp =
    between 0x21 0x7E cp
    || between 0x00A1 0x00BF cp
    || between 0x0300 0x036F cp
    || between 0x1AB0 0x1AFF cp
    || between 0x1DC0 0x1DFF cp
    || between 0x20D0 0x20FF cp
    || between 0xFE20 0xFE2F cp
    || between 0x2000 0x206F cp
    || between 0x20A0 0x20CF cp
    || between 0x0600 0x061F cp
    || between 0x066A 0x066D cp
    || cp == 0x06D4
    || cp == 0x06DD
    || cp == 0x06DE
    || between 0x2190 0x2BFF cp
    || between 0x3000 0x303F cp
    || between 0xFF01 0xFF0F cp
    || between 0xFF1A 0xFF20 cp
    || between 0xFF3B 0xFF40 cp
    || between 0xFF5B 0xFF65 cp
    || between 0x1F000 0x1FAFF cp

-- 13 and 10 are \r and \n; 9, 11 and 12 are \t, \v and \f.
unfoldable pub classify : ℕ → Class
unfolding is_letter is_number is_other
classify cp =
    if cp == 13 || cp == 10
    then newline
    else if cp == b' ' || cp == 9 || cp == 11 || cp == 12
    then space
    else if is_letter cp
    then letter
    else if is_number cp
    then number
    else if is_other cp
    then other
    else unsupported

-- The class and the width of the character at the cursor.
unfoldable pub char_at : List ℕ → Option (Class × ℕ)
char_at s = elim (utf8_next s) [
  | none ↦ none
  | some (cp, width) ↦ elim (classify cp) [ unsupported ↦ none | k ↦ some (k, width) ]
]

abbrev suffixes : List (List ℕ)
suffixes =
    (b's' ∷ [])
    ∷ (b't' ∷ [])
    ∷ (b'r' ∷ b'e' ∷ [])
    ∷ (b'v' ∷ b'e' ∷ [])
    ∷ (b'm' ∷ [])
    ∷ (b'l' ∷ b'l' ∷ [])
    ∷ (b'd' ∷ [])
    ∷ []

abbrev lower : ℕ → ℕ
lower c = if leb b'A' c && leb c b'Z' then c + 32 else c

-- The loop over the letters of a suffix, at the start of a text that is long enough.
unfoldable pub starts_with : List ℕ → List ℕ → Bool
starts_with [] s = true
starts_with (c ∷ cs) [] = false
starts_with (c ∷ cs) (d ∷ s) = lower d == c && starts_with cs s

unfoldable pub match_suffix : List (List ℕ) → List ℕ → Option ℕ
unfolding starts_with
match_suffix [] s = none
match_suffix (x ∷ xs) s =
    if not (ltb (length s) (length x)) && starts_with x s
    then some (length x + 1)
    else match_suffix xs s

-- 39 is the apostrophe.
unfoldable pub ascii_contract : List ℕ → Option ℕ
unfolding match_suffix
ascii_contract [] = none
ascii_contract (a ∷ s) = if not (a == 39) then none else match_suffix suffixes s

abbrev pub is_class : Class → Class → Bool
is_class letter letter = true
is_class number number = true
is_class space space = true
is_class newline newline = true
is_class other other = true
is_class _ _ = false

-- `do { cursor += width; ... } while (first == k)`: the bytes passed over. Each round takes a
-- character, so the length of the text is fuel enough.
unfoldable pub run_of : Class → ℕ → List ℕ → ℕ → ℕ
run_of k zero s width = width
run_of k (suc fuel) s width = elim (char_at (drop width s)) [
  | none ↦ width
  | some (k', width') ↦
      let more = width + run_of k fuel (drop width s) width' in
      if is_class k k' then more else width
]

-- The `while` over newlines that follows a run of the class `other`.
unfoldable pub newlines : ℕ → List ℕ → ℕ
newlines zero s = 0
newlines (suc fuel) s = elim (char_at s) [
  | none ↦ 0
  | some (k, width) ↦
      let more = width + newlines fuel (drop width s) in if is_class newline k then more else 0
]

-- `run_end`, `last_newline_end`, `last_unit_start` and `units`, counted from `offset`.
pub record Blank : Type 0 where
  pub run_end : ℕ
  pub newline_end : ℕ
  pub unit_start : ℕ
  pub units : ℕ

abbrev pub pass : Class → ℕ → Blank → Blank
pass k width r = record {
  run_end = r.run_end + width;
  newline_end = if is_class newline k then r.run_end + width else r.newline_end;
  unit_start = r.run_end;
  units = r.units + 1;
}

unfoldable pub blank_run : ℕ → List ℕ → Class → ℕ → Blank → Blank
blank_run zero s k width r = r
blank_run (suc fuel) s k width r =
    let more : Blank = elim (char_at (drop width s)) [
      | none ↦ pass k width r
      | some (k', width') ↦ blank_run fuel (drop width s) k' width' (pass k width r)
    ] in
    if is_class space k || is_class newline k then more else r

-- The chunk that a run of spaces and newlines gives.
abbrev pub blank_length : ℕ → Blank → ℕ
blank_length size r =
    if ltb 0 r.newline_end
    then r.newline_end
    else if r.run_end == size
    then r.run_end
    else if ltb 1 r.units
    then r.unit_start
    else r.run_end

-- The character after the first one: none if the text ends, an error if it has no class.
unfoldable pub next_char : List ℕ → Result Error (Option (Class × ℕ))
next_char [] = ok none
next_char (a ∷ s) = elim (char_at (a ∷ s)) [ none ↦ err unsupported_class | some c ↦ ok (some c) ]

-- A run of the class `other` that starts after `before` bytes, and the newlines that follow it.
unfoldable pub other_chunk : ℕ → List ℕ → ℕ → ℕ
unfolding run_of newlines
other_chunk before s width =
    let run = before + run_of other (length s) (drop before s) width in
    run + newlines (length s) (drop run s)

unfoldable pub blank_chunk : List ℕ → Class → ℕ → ℕ
unfolding blank_run
blank_chunk s first width = blank_length (length s) (
    blank_run (length s) s first width
      (record { run_end = 0; newline_end = 0; unit_start = 0; units = 0 }))

-- From the test for a number on.
unfoldable pub chunk_rest : List ℕ → Class → ℕ → Option (Class × ℕ) → Result Error ℕ
unfolding other_chunk blank_chunk
chunk_rest s first width next =
    if is_class number first
    then ok width
    else elim (is_class space first && get_or s 0 0 == b' ') [
      | true ↦ elim next [
        | some (other, w) ↦ ok (other_chunk width s w)
        | _ ↦ ok (blank_chunk s first width)
      ]
      | false ↦
          if is_class other first
          then ok (other_chunk 0 s width)
          else if is_class space first || is_class newline first
          then ok (blank_chunk s first width)
          else err no_progress
    ]

-- From the loop over letters on, for a text whose first character has a class.
unfoldable pub plain_length : List ℕ → Class → ℕ → Result Error ℕ
unfolding chunk_rest next_char
plain_length s first width =
    if is_class letter first
    then ok (run_of letter (length s) s width)
    else if is_class newline first || is_class number first
    then chunk_rest s first width none
    else elim (next_char (drop width s)) [
      | err e ↦ err e
      | ok (some (letter, w)) ↦ ok (width + run_of letter (length s) (drop width s) w)
      | ok next ↦ chunk_rest s first width next
    ]

unfoldable pub pretoken_length : List ℕ → Result Error ℕ
unfolding plain_length char_at
pretoken_length s = elim (char_at s) [
  | none ↦ err unsupported_class
  | some (first, width) ↦ elim (ascii_contract s) [
    | some contraction ↦ ok contraction
    | none ↦ plain_length s first width
  ]
]
