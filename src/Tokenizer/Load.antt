-- ===== src/Tokenizer/Load.antt =====
-- src/qx_tokenizer.c: qx_tokenizer_load, on the bytes of the file. Opening and reading the file, their
-- failures and those of the allocations are not modelled.
pub mod Print
pub mod Parsed
pub mod Accepted
pub mod RoundTrip
pub mod Checked
use qx_mini_c.Prelude.Bytes.{same_text, u32_at, u64_at, take_bytes}
use qx_mini_c.Prelude.{
  ℕ, zero, suc, ◌+◌, ◌-◌, ◌*◌, ◌/◌, ◌%◌, ◌^◌, Bool, true, false, not, ◌&&◌, ◌||◌, List, [], ◌∷◌,
  ◌++◌, Option, none, some, ltb, leb, ◌==◌, if◌then◌else◌, length, get_or, take, drop, u32_mod,
}
use qx_mini_c.Prelude.Results.{Result, ok, err}
use qx_mini_c.Tokenizer.{
  Token, Merge, Tokenizer, Error, size_outside_limits, bad_magic, unsupported_version, item_count,
  invalid_metadata, size_mismatch, special_id_range, checksum_mismatch, metadata_exceeds_payload,
  unsupported_model, truncated_tokens, invalid_token, nul_in_token, token_utf8, truncated_merges,
  invalid_merge, nul_in_merge, merge_utf8, trailing_bytes,
}
use qx_mini_c.Tokenizer.Utf8.{valid_utf8}
use qx_mini_c.Tokenizer.Index.{fnv1a64}

-- `memchr(text, 0, length) != NULL`.
unfoldable pub has_zero : List ℕ → Bool
has_zero [] = false
has_zero (c ∷ cs) = c == 0 || has_zero cs

-- One round of the loop over the tokens, and one of that over the merges.
unfoldable pub parse_token : List ℕ → Result Error (Token × List ℕ)
parse_token s =
    let size = u32_at s in
    let kind = u32_at (drop 4 s) in
    if ltb (length s) 8
    then err truncated_tokens
    else if ltb (2 ^ 20) size || ltb kind 1 || ltb 6 kind
    then err invalid_token
    else elim (take_bytes size (drop 8 s)) [
      | none ↦ err invalid_token
      | some (text, rest) ↦
          if has_zero text
          then err nul_in_token
          else if not (valid_utf8 text)
          then err token_utf8
          else ok (record { text = text; kind = kind }, rest)
    ]

unfoldable pub parse_merge : List ℕ → Result Error (Merge × List ℕ)
parse_merge s =
    let left_size = u32_at s in
    let right_size = u32_at (drop 4 s) in
    if ltb (length s) 8
    then err truncated_merges
    else if left_size == 0 || right_size == 0 || ltb (2 ^ 20) left_size || ltb (2 ^ 20) right_size
    then err invalid_merge
    else elim (take_bytes left_size (drop 8 s)) [
      | none ↦ err invalid_merge
      | some (left, middle) ↦ elim (take_bytes right_size middle) [
        | none ↦ err invalid_merge
        | some (right, rest) ↦
            if has_zero left || has_zero right
            then err nul_in_merge
            else if not (valid_utf8 left) || not (valid_utf8 right)
            then err merge_utf8
            else ok (record { left = left; right = right }, rest)
      ]
    ]

-- A loop of `n` rounds over the rest of the payload.
unfoldable pub parse_many {ℓ} :
    {A : Type ℓ}
    → (List ℕ → Result Error (A × List ℕ))
    → ℕ
    → List ℕ
    → Result Error (List A × List ℕ)
parse_many parse zero s = ok ([], s)
parse_many parse (suc n) s = elim (parse s) [
  | err e ↦ err e
  | ok (a, rest) ↦ elim (parse_many parse n rest) [
    | err e ↦ err e
    | ok (items, end) ↦ ok (a ∷ items, end)
  ]
]

-- "QXT2", "gpt2" and "qwen2".
abbrev pub magic : List ℕ
magic = b'Q' ∷ b'X' ∷ b'T' ∷ b'2' ∷ []

abbrev pub gpt2 : List ℕ
gpt2 = b'g' ∷ b'p' ∷ b't' ∷ b'2' ∷ []

abbrev pub qwen2 : List ℕ
qwen2 = b'q' ∷ b'w' ∷ b'e' ∷ b'n' ∷ b'2' ∷ []

-- The numbers of the header that are read before the payload.
pub record Header : Type 0 where
  pub version : ℕ
  pub vocab_count : ℕ
  pub merge_count : ℕ
  pub model_length : ℕ
  pub pre_length : ℕ
  pub bos_token_id : ℕ
  pub eos_token_id : ℕ
  pub flags : ℕ
  pub payload_size : ℕ
  pub checksum : ℕ

abbrev pub header_of : List ℕ → Header
header_of s = record {
  version = u32_at (drop 4 s);
  vocab_count = u32_at (drop 8 s);
  merge_count = u32_at (drop 12 s);
  model_length = u32_at (drop 16 s);
  pre_length = u32_at (drop 20 s);
  bos_token_id = u32_at (drop 24 s);
  eos_token_id = u32_at (drop 28 s);
  flags = u32_at (drop 32 s);
  payload_size = u32_at (drop 36 s);
  checksum = u64_at (drop 40 s);
}

-- `id < -1 || id >= (int32_t)vocab_count`, where the 32 bits of -1 are all set.
abbrev pub bad_id : ℕ → ℕ → Bool
bad_id vocab_count id = if leb (2 ^ 31) id then ltb id (2 ^ 32 - 1) else leb vocab_count id

-- The guards on the header, for a file of so many bytes.
unfoldable pub check_header : Header → ℕ → Option Error
check_header h file_size =
    if not (h.version == 2)
    then some unsupported_version
    else if h.vocab_count == 0 || ltb 1000000 h.vocab_count || ltb 1000000 h.merge_count
    then some item_count
    else if h.model_length == 0
        || ltb 64 h.model_length
        || h.pre_length == 0
        || ltb 64 h.pre_length
        || not (leb h.flags 3)
    then some invalid_metadata
    else if not (h.payload_size == file_size - 48)
    then some size_mismatch
    else if bad_id h.vocab_count h.bos_token_id || bad_id h.vocab_count h.eos_token_id
    then some special_id_range
    else none

-- The two names, the tokens and the merges, up to the end of the payload.
unfoldable pub parse_payload : Header → List ℕ → Result Error Tokenizer
parse_payload h payload = elim (take_bytes h.model_length payload) [
  | none ↦ err metadata_exceeds_payload
  | some (model, s) ↦ elim (take_bytes h.pre_length s) [
    | none ↦ err metadata_exceeds_payload
    | some (pre, s') ↦
        if not (same_text model gpt2) || not (same_text pre qwen2)
        then err unsupported_model
        else elim (parse_many parse_token h.vocab_count s') [
          | err e ↦ err e
          | ok (tokens, s'') ↦ elim (parse_many parse_merge h.merge_count s'') [
            | err e ↦ err e
            | ok (merges, end) ↦
                if not (length end == 0)
                then err trailing_bytes
                else ok (record {
                  tokens = tokens;
                  merges = merges;
                  bos_token_id = h.bos_token_id;
                  eos_token_id = h.eos_token_id;
                  flags = h.flags;
                })
          ]
        ]
  ]
]

-- QX_TOKENIZER_HEADER_SIZE is 48 and QX_TOKENIZER_MAX_PAYLOAD 2 ^ 28; `h` is the header read.
unfoldable pub load_with : Header → List ℕ → Result Error Tokenizer
load_with h file =
    let payload = drop 48 file in
    if ltb (length file) 48 || ltb (48 + 2 ^ 28) (length file)
    then err size_outside_limits
    else if not (same_text (take 4 file) magic)
    then err bad_magic
    else elim (check_header h (length file)) [
      | some e ↦ err e
      | none ↦
          if not (fnv1a64 payload == h.checksum)
          then err checksum_mismatch
          else parse_payload h payload
    ]

unfoldable pub load : List ℕ → Result Error Tokenizer
unfolding load_with
load file = load_with (header_of file) file
