-- ===== src/Gguf/Export.antt =====
-- src/qx_gguf.c: qx_gguf_export_tokenizer_tokens, from the bytes of the file to those it writes. Opening and writing
-- files, their failures, a failed allocation, null arguments and what is written before a failure are not modelled.
use qx_mini_c.Gguf.{
  Error, bad_header, bad_metadata, not_string_array, bad_token_string, unsupported_value,
  tokens_not_found, is_key, read_key, read_counts, read_magic,
}
use qx_mini_c.Gguf.Keys.{tokens_key}
use qx_mini_c.Gguf.Stream.{File, rd_u32, rd_u64, read_string, skip_value, string_type, array_type}
use qx_mini_c.Prelude.Bytes.{same_text}
use qx_mini_c.Prelude.{
  ℕ, zero, suc, ◌+◌, ◌/◌, ◌%◌, ◌&&◌, List, [], ◌∷◌, ◌++◌, none, some, ltb, ◌==◌, if◌then◌else◌,
}
use qx_mini_c.Prelude.Results.{Result, ok, err}

unfoldable pub escape_byte : ℕ → List ℕ
escape_byte c =
    if c == b'\\'
    then b'\\' ∷ b'\\' ∷ []
    else if c == b'\t'
    then b'\\' ∷ b't' ∷ []
    else if c == b'\n'
    then b'\\' ∷ b'n' ∷ []
    else if c == b'\r'
    then b'\\' ∷ b'r' ∷ []
    else c ∷ []

-- Up to a 0.
unfoldable pub write_tsv_escaped : List ℕ → List ℕ
unfolding escape_byte
write_tsv_escaped [] = []
write_tsv_escaped (c ∷ cs) =
    let rest = write_tsv_escaped cs in if c == 0 then [] else escape_byte c ++ rest

-- "%llu": a number of 64 bits has 20 digits at most.
unfoldable pub digits : ℕ → ℕ → List ℕ
digits zero n = []
digits (suc fuel) n =
    let high = digits fuel (n / 10) in
    if ltb n 10 then (48 + n) ∷ [] else high ++ (48 + n % 10) ∷ []

unfoldable pub token_line : ℕ → List ℕ → List ℕ
unfolding digits write_tsv_escaped
token_line j text = digits 20 j ++ b'\t' ∷ (write_tsv_escaped text ++ b'\n' ∷ [])

-- The loop over the tokens from the `j`th on.
unfoldable pub export_tokens : ℕ → ℕ → File → Result Error (List ℕ)
unfolding read_string token_line
export_tokens zero j f = ok []
export_tokens (suc count) j f = elim (read_string 65536 f) [
  | none ↦ err bad_token_string
  | some (text, f1) ↦ elim (export_tokens count (suc j) f1) [
    | err e ↦ err e
    | ok rest ↦ ok (token_line j text ++ rest)
  ]
]

-- The array of the tokens: how many they are, and the file at the first.
unfoldable pub open_tokens : File → Result Error (ℕ × File)
unfolding rd_u32 rd_u64
open_tokens f = elim (rd_u32 f) [
  | none ↦ err not_string_array
  | some (elem_type, f1) ↦ elim (rd_u64 f1) [
    | none ↦ err not_string_array
    | some (count, f2) ↦ if elem_type == string_type then ok (count, f2) else err not_string_array
  ]
]

-- The loop over the metadata, up to the tokens.
unfoldable pub find_tokens : ℕ → File → Result Error (ℕ × File)
unfolding read_key open_tokens skip_value same_text
find_tokens zero f = err tokens_not_found
find_tokens (suc kv_count) f = elim (read_key f) [
  | none ↦ err bad_metadata
  | some ((key, type), f1) ↦
      if is_key key tokens_key && type == array_type
      then open_tokens f1
      else elim (skip_value f1 type) [
        | none ↦ err unsupported_value
        | some f2 ↦ find_tokens kv_count f2
      ]
]

unfoldable pub locate_tokens : List ℕ → Result Error (ℕ × File)
unfolding read_magic read_counts find_tokens
locate_tokens bytes = elim (read_magic bytes) [
  | none ↦ err bad_header
  | some f ↦ elim (read_counts f) [
    | none ↦ err bad_header
    | some ((version, tensor_count, kv_count), f1) ↦ find_tokens kv_count f1
  ]
]

-- "# qx-tokenizer-v1" and a newline.
abbrev pub title : List ℕ
title =
    b'#' ∷ b' ' ∷ b'q' ∷ b'x' ∷ b'-' ∷ b't' ∷ b'o' ∷ b'k' ∷ b'e' ∷ b'n' ∷ b'i' ∷ b'z' ∷ b'e' ∷ b'r'
    ∷ b'-' ∷ b'v' ∷ b'1' ∷ b'\n' ∷ []

unfoldable pub export_tokenizer_tokens : List ℕ → Result Error (List ℕ × ℕ)
unfolding locate_tokens export_tokens
export_tokenizer_tokens bytes = elim (locate_tokens bytes) [
  | err e ↦ err e
  | ok (count, f) ↦ elim (export_tokens count 0 f) [
    | err e ↦ err e
    | ok lines ↦ ok (title ++ lines, count)
  ]
]
