-- ===== src/Gguf/Stream.antt =====
-- src/qx_gguf.c: how a GGUF file is read: numbers, strings, and values that are passed over. A file is its
-- bytes and the position in it; `off_t` has 64 bits, and a seek past the end succeeds. The machine's numbers have their
-- lowest byte first.
use qx_mini_c.Prelude.Bytes.{u32_at, u64_at}
use qx_mini_c.Prelude.{
  ℕ, zero, suc, ◌+◌, ◌-◌, ◌*◌, ◌^◌, List, [], ◌∷◌, Option, none, some, ltb, ◌==◌, if◌then◌else◌,
  length, get_or, take, drop, u64_mod, mul64,
}

pub record File : Type 0 where
  pub bytes : List ℕ
  pub pos : ℕ

unfoldable pub rd : ℕ → File → Option (List ℕ × File)
rd n f =
    if ltb (length f.bytes) (f.pos + n)
    then none
    else some (take n (drop f.pos f.bytes), record { bytes = f.bytes; pos = f.pos + n })

unfoldable pub rd_u32 : File → Option (ℕ × File)
rd_u32 f = elim (rd 4 f) [ none ↦ none | some (s, rest) ↦ some (u32_at s, rest) ]

unfoldable pub rd_u64 : File → Option (ℕ × File)
rd_u64 f = elim (rd 8 f) [ none ↦ none | some (s, rest) ↦ some (u64_at s, rest) ]

-- `(off_t)n` is negative from 2^63 on.
unfoldable pub skip_bytes : File → ℕ → Option File
skip_bytes f n =
    if ltb n (2 ^ 63)
    then if ltb (f.pos + n) (2 ^ 63)
      then some (record { bytes = f.bytes; pos = f.pos + n })
      else none
    else if ltb f.pos (u64_mod - n)
    then none
    else some (record { bytes = f.bytes; pos = f.pos - (u64_mod - n) })

-- A string into a buffer of `cap` bytes: those that are kept, before the 0.
unfoldable pub read_string : ℕ → File → Option (List ℕ × File)
unfolding rd_u64 skip_bytes rd
read_string cap f = elim (rd_u64 f) [
  | none ↦ none
  | some (len, f1) ↦
      let keep = if ltb len (cap - 1) then len else cap - 1 in
      elim (if keep == 0 then some ([], f1) else rd keep f1) [
        | none ↦ none
        | some (text, f2) ↦
            if ltb keep len
            then elim (skip_bytes f2 (len - keep)) [ none ↦ none | some f3 ↦ some (text, f3) ]
            else some (text, f2)
      ]
]

-- A string without a buffer.
unfoldable pub skip_string : File → Option File
unfolding rd_u64 skip_bytes
skip_string f = elim (rd_u64 f) [ none ↦ none | some (len, f1) ↦ skip_bytes f1 len ]

-- The values of `qx_gguf_type`.
abbrev pub string_type : ℕ
string_type = 8

abbrev pub array_type : ℕ
array_type = 9

abbrev pub scalar_size : ℕ → ℕ
scalar_size type = get_or (1 ∷ 1 ∷ 2 ∷ 2 ∷ 4 ∷ 4 ∷ 4 ∷ 1 ∷ 0 ∷ 0 ∷ 8 ∷ 8 ∷ 8 ∷ []) type 0

unfoldable pub skip_strings : ℕ → File → Option File
unfolding skip_string
skip_strings zero f = some f
skip_strings (suc count) f = elim (skip_string f) [ none ↦ none | some f1 ↦ skip_strings count f1 ]

unfoldable pub skip_array : File → Option File
unfolding rd_u32 rd_u64 skip_bytes skip_strings
skip_array f = elim (rd_u32 f) [
  | none ↦ none
  | some (elem_type, f1) ↦ elim (rd_u64 f1) [
    | none ↦ none
    | some (count, f2) ↦
        if elem_type == string_type
        then skip_strings count f2
        else if scalar_size elem_type == 0
        then none
        else skip_bytes f2 (mul64 (scalar_size elem_type) count)
  ]
]

unfoldable pub skip_value : File → ℕ → Option File
unfolding skip_string skip_array skip_bytes
skip_value f type =
    if type == string_type
    then skip_string f
    else if type == array_type
    then skip_array f
    else if scalar_size type == 0
    then none
    else skip_bytes f (scalar_size type)

-- A signed number of `w` bits as one of 64.
abbrev pub extend : ℕ → ℕ → ℕ
extend w n = if ltb n (2 ^ (w - 1)) then n else n + (u64_mod - 2 ^ w)

-- The lowest bytes of a number.
abbrev low_bytes : List ℕ → ℕ
low_bytes [] = 0
low_bytes (b ∷ bs) = b + 2 ^ 8 * low_bytes bs

-- A number that takes `size` bytes, and how it becomes one of 64 bits.
abbrev number : ℕ → (ℕ → ℕ) → File → Option (Option ℕ × File)
number size convert f = elim (rd size f) [
  | none ↦ none
  | some (s, f1) ↦ some (some (convert (low_bytes s)), f1)
]

abbrev same : ℕ → ℕ
same n = n

-- The number, or no number for a value that is passed over.
unfoldable pub read_u64_value : File → ℕ → Option (Option ℕ × File)
unfolding skip_value rd
read_u64_value f type =
    if type == 0
    then number 1 same f
    else if type == 1
    then number 1 (extend 8) f
    else if type == 2
    then number 2 same f
    else if type == 3
    then number 2 (extend 16) f
    else if type == 4
    then number 4 same f
    else if type == 5
    then number 4 (extend 32) f
    else if type == 10
    then number 8 same f
    else if type == 11
    then number 8 same f
    else elim (skip_value f type) [ none ↦ none | some f1 ↦ some (none, f1) ]
