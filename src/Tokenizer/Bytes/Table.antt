-- ===== src/Tokenizer/Bytes/Table.antt =====
-- src/qx_tokenizer.c: the byte table and its inverse, and the bytes that it writes.
use qx_mini_c.Prelude.{
  ℕ, zero, suc, ◌+◌, ◌-◌, ◌/◌, ◌%◌, ◌≤◌, ◌<◌, ◌≡◌, ◌≢◌, refl, true, List, [], ◌∷◌, ◌++◌, some, ltb,
  leb, ◌==◌, if◌then◌else◌, arith, get_or, length, bit_or, ==_iff, holds_below_sound, Bool-cases,
  inl, inr, ap, ◌∙◌,
}
use qx_mini_c.Tokenizer.Bytes.{
  is_plain, byte_rank, byte_codepoint, write_utf8, codepoint_scan, codepoint_byte,
}
use qx_mini_c.Tokenizer.Utf8.{utf8_next}
use qx_mini_c.Tokenizer.Utf8.Codec.{IsScalar, encode, utf8_next-encode}

-- The table in closed form.
abbrev code_of : ℕ → ℕ
code_of b =
    if ltb b 33
    then 256 + b
    else if leb b 126
    then b
    else if leb b 160
    then b + 162
    else if b == 173
    then 323
    else b

byte_rank_low : (b : ℕ) → b ≤ 33 → byte_rank b ≡ b
unfolding byte_rank is_plain
byte_rank_low zero h = refl
byte_rank_low (suc b) h = ground (arith, byte_rank_low b)

byte_rank_plain : (b : ℕ) → 33 ≤ b → b ≤ 127 → byte_rank b ≡ 33
unfolding byte_rank is_plain
byte_rank_plain zero l h = absurd (omega arith)
byte_rank_plain (suc b) l h = ground (arith, byte_rank_plain b, byte_rank_low (suc b))

byte_rank_high : (b : ℕ) → 127 ≤ b → b ≤ 161 → byte_rank b ≡ b - 94
unfolding byte_rank is_plain
byte_rank_high zero l h = absurd (omega arith)
byte_rank_high (suc b) l h = ground (arith, byte_rank_high b, byte_rank_plain (suc b))

byte_rank_last : (b : ℕ) → 161 ≤ b → b ≤ 173 → byte_rank b ≡ 67
unfolding byte_rank is_plain
byte_rank_last zero l h = absurd (omega arith)
byte_rank_last (suc b) l h = ground (arith, byte_rank_last b, byte_rank_high (suc b))

byte_codepoint-code_of : (b : ℕ) → byte_codepoint b ≡ code_of b
unfolding byte_codepoint is_plain
byte_codepoint-code_of b =
    ground (arith, byte_rank_low b, byte_rank_plain b, byte_rank_high b, byte_rank_last b)

-- No two bytes have one code point.
byte_codepoint_injective :
    (a b : ℕ) → a < 256 → b < 256 → byte_codepoint a ≡ byte_codepoint b → a ≡ b
byte_codepoint_injective a b p q h =
    ground (arith, byte_codepoint-code_of a, byte_codepoint-code_of b)

codepoint_scan-found :
    (n value b : ℕ)
    → value ≤ b
    → b < value + n
    → value + n ≤ 256
    → codepoint_scan n value (byte_codepoint b) ≡ some b
unfolding codepoint_scan
codepoint_scan-found zero value b l h k = absurd (omega arith)
codepoint_scan-found (suc n) value b l h k =
    elim (Bool-cases (byte_codepoint value == byte_codepoint b)) [
      | inl same ↦
          let here : value ≡ b =
            byte_codepoint_injective value b (omega arith) (omega arith) ((==_iff _ _).0 same) in
          rw same (ap some here)
      | inr other ↦
          let later : value ≢ b = λ e. ground (arith, other, ap byte_codepoint e) in
          rw other (codepoint_scan-found n (suc value) b (omega arith) (omega arith) (omega arith))
    ]

-- The search finds the byte that a code point of the table stands for.
pub codepoint_byte-byte_codepoint : (b : ℕ) → b < 256 → codepoint_byte (byte_codepoint b) ≡ some b
unfolding codepoint_byte
codepoint_byte-byte_codepoint b h =
    codepoint_scan-found 256 0 b (omega arith) (omega arith) (omega arith)

pub byte_codepoint-IsScalar : (b : ℕ) → b < 256 → IsScalar (byte_codepoint b)
byte_codepoint-IsScalar b h = inl (ground (arith, byte_codepoint-code_of b))

first_byte : (k : ℕ) → k < 32 → bit_or 0xC0 k % 256 ≡ 0xC0 + k
first_byte k h =
    (==_iff _ _).0 (holds_below_sound 32 (λ x. bit_or 0xC0 x % 256 == 0xC0 + x) k refl h)

second_byte : (k : ℕ) → k < 64 → bit_or 0x80 k % 256 ≡ 0x80 + k
second_byte k h =
    (==_iff _ _).0 (holds_below_sound 64 (λ x. bit_or 0x80 x % 256 == 0x80 + x) k refl h)

write_utf8-encode : (cp : ℕ) → cp < 0x800 → write_utf8 cp ≡ encode cp
unfolding write_utf8
write_utf8-encode cp h = elim (Bool-cases (ltb cp 0x80)) [
  | inl one ↦ rw one refl
  | inr two ↦
      let below : ltb cp 0x800 ≡ true = ground arith in
      rw (two, below, first_byte (cp / 64) (omega arith), second_byte (cp % 64) (omega arith)) refl
]

-- The bytes that the table writes for a byte are the UTF-8 encoding of its code point.
pub write_utf8-byte_codepoint :
    (b : ℕ) → b < 256 → write_utf8 (byte_codepoint b) ≡ encode (byte_codepoint b)
write_utf8-byte_codepoint b h =
    write_utf8-encode (byte_codepoint b) (ground (arith, byte_codepoint-code_of b))

-- Reading back what the table writes for a byte gives its code point, and the search then the byte.
pub utf8_next-byte :
    (b : ℕ) (rest : List ℕ)
    → b < 256
    → utf8_next (write_utf8 (byte_codepoint b) ++ rest)
      ≡ some (byte_codepoint b, length (write_utf8 (byte_codepoint b)))
utf8_next-byte b rest h =
    rw (write_utf8-byte_codepoint b h)
      (utf8_next-encode (byte_codepoint b) rest (byte_codepoint-IsScalar b h))

encode_low :
    (cp : ℕ) (rest : List ℕ)
    → get_or (encode cp ++ rest) 0 0 ≤ 126
    → (cp < 0x80) × (encode cp ≡ cp ∷ [])
encode_low cp rest h = ground (arith, h)

-- A byte whose code point the table writes as visible ASCII is that byte.
pub write_visible :
    (b : ℕ) (rest : List ℕ)
    → b < 256
    → get_or (write_utf8 (byte_codepoint b) ++ rest) 0 0 ≤ 126
    → (write_utf8 (byte_codepoint b) ≡ b ∷ [])
write_visible b rest h' h =
    let written = write_utf8-byte_codepoint b h' in
    let low : get_or (encode (byte_codepoint b) ++ rest) 0 0 ≤ 126 = rw written at h in
    let (small, single) = encode_low (byte_codepoint b) rest low in
    let same : byte_codepoint b ≡ b = ground (arith, byte_codepoint-code_of b, small) in
    written ∙ single ∙ ap (λ (c : ℕ). c ∷ []) same
