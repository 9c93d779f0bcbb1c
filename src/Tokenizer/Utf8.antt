-- ===== src/Tokenizer/Utf8.antt =====
-- src/qx_tokenizer.c: qx_tok_utf8_next and qx_tok_valid_utf8. Shifts and masks are written with the
-- powers of two: on a byte, `x & 0xC0` is 0x80 when x / 64 is 2, and `x & 0x3F` is x % 64.
pub mod Codec
pub mod Valid
use qx_mini_c.Prelude.{
  ℕ, zero, suc, ◌+◌, ◌*◌, ◌/◌, ◌%◌, Bool, true, false, ◌&&◌, ◌||◌, List, [], ◌∷◌, Option, none,
  some, ltb, leb, ◌==◌, if◌then◌else◌, length, get_or, drop,
}

abbrev pub is_continuation : ℕ → Bool
is_continuation b = b / 64 == 2

-- The tests on the code point of three bytes, and of four.
abbrev pub three_bytes : ℕ → Option (ℕ × ℕ)
three_bytes cp = if ltb cp 0x800 || (leb 0xD800 cp && leb cp 0xDFFF) then none else some (cp, 3)

abbrev pub four_bytes : ℕ → Option (ℕ × ℕ)
four_bytes cp = if ltb cp 0x10000 || ltb 0x10FFFF cp then none else some (cp, 4)

-- The guards of the branches for two, three and four bytes; `s` is the text after the byte `a`.
unfoldable pub leads_two : ℕ → List ℕ → Bool
leads_two a s = leb 0xC2 a && leb a 0xDF && leb 1 (length s) && is_continuation (get_or s 0 0)

unfoldable pub leads_three : ℕ → List ℕ → Bool
leads_three a s =
    leb 0xE0 a
    && leb a 0xEF
    && leb 2 (length s)
    && is_continuation (get_or s 0 0)
    && is_continuation (get_or s 1 0)

unfoldable pub leads_four : ℕ → List ℕ → Bool
leads_four a s =
    leb 0xF0 a
    && leb a 0xF4
    && leb 3 (length s)
    && is_continuation (get_or s 0 0)
    && is_continuation (get_or s 1 0)
    && is_continuation (get_or s 2 0)

-- The code point and the width at the start of `text + offset`.
unfoldable pub utf8_next : List ℕ → Option (ℕ × ℕ)
utf8_next [] = none
utf8_next (a ∷ s) =
    let b = get_or s 0 0 in
    let c = get_or s 1 0 in
    let d = get_or s 2 0 in
    if ltb a 0x80
    then some (a, 1)
    else if leads_two a s
    then some (a % 32 * 64 + b % 64, 2)
    else if leads_three a s
    then three_bytes (a % 16 * 4096 + b % 64 * 64 + c % 64)
    else if leads_four a s
    then four_bytes (a % 8 * 262144 + b % 64 * 4096 + c % 64 * 64 + d % 64)
    else none

-- The loop of qx_tok_valid_utf8 on what is left of the text; a round takes at least one byte.
unfoldable pub valid_loop : ℕ → List ℕ → Bool
valid_loop fuel [] = true
valid_loop zero (a ∷ s) = false
valid_loop (suc fuel) (a ∷ s) = elim (utf8_next (a ∷ s)) [
  | none ↦ false
  | some (cp, width) ↦ valid_loop fuel (drop width (a ∷ s))
]

unfoldable pub valid_utf8 : List ℕ → Bool
unfolding valid_loop
valid_utf8 text = valid_loop (length text) text
