-- ===== src/Tokenizer/Bytes.antt =====
-- src/qx_tokenizer.c: the GPT-2 byte table, qx_tok_byte_codepoint, qx_tok_write_utf8 and
-- qx_tok_codepoint_byte.
pub mod Table
use qx_mini_c.Prelude.{
  ℕ, zero, suc, ◌+◌, ◌*◌, ◌/◌, ◌%◌, Bool, not, ◌&&◌, ◌||◌, List, [], ◌∷◌, ◌++◌, Option, none, some,
  ltb, leb, ◌==◌, if◌then◌else◌, bit, bit_or,
}

unfoldable pub is_plain : ℕ → Bool
is_plain b = leb 33 b && leb b 126 || leb 161 b && leb b 172 || leb 174 b

-- How many of the values below a byte are not plain.
unfoldable pub byte_rank : ℕ → ℕ
byte_rank zero = 0
byte_rank (suc v) = if not (is_plain v) then byte_rank v + 1 else byte_rank v

unfoldable pub byte_codepoint : ℕ → ℕ
byte_codepoint b = if is_plain b then b else 256 + byte_rank b

unfoldable pub write_utf8 : ℕ → List ℕ
write_utf8 cp =
    if ltb cp 0x80 then cp ∷ [] else bit_or 0xC0 (cp / 64) % 256 ∷ bit_or 0x80 (cp % 64) % 256 ∷ []

-- The bytes of a chunk as qx_tok_bpe_chunk writes them, one symbol each, joined.
abbrev pub byte_text : List ℕ → List ℕ
byte_text [] = []
byte_text (b ∷ bs) = write_utf8 (byte_codepoint b) ++ byte_text bs

-- The search from `value` on, over `n` values.
unfoldable pub codepoint_scan : ℕ → ℕ → ℕ → Option ℕ
codepoint_scan zero value cp = none
codepoint_scan (suc n) value cp =
    let rest = codepoint_scan n (suc value) cp in
    if byte_codepoint value == cp then some value else rest

unfoldable pub codepoint_byte : ℕ → Option ℕ
unfolding codepoint_scan
codepoint_byte cp = codepoint_scan 256 0 cp
