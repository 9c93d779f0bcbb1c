-- ===== src/Tokenizer.antt =====
-- src/qx_tokenizer.c: the QXT2 tokenizer. A text is the list of its bytes; a pointer with the length
-- that remains is the rest of the list.
pub mod Utf8
pub mod Bytes
pub mod Decode
pub mod Index
pub mod Bpe
pub mod Pretoken
pub mod Special
pub mod Encode
pub mod Load
pub mod Chat
pub mod Meaning
pub mod RoundTrip
mod Tests
use qx_mini_c.Prelude.{ℕ, List}

-- `qx_token_entry` and `qx_merge_entry`; `kind` is the field `type`, and a merge's rank is its
-- place in the list.
pub record Token : Type 0 where
  pub text : List ℕ
  pub kind : ℕ

pub record Merge : Type 0 where
  pub left : List ℕ
  pub right : List ℕ

-- `qx_tokenizer`. The two ids are the 32 bits of an `int32_t`.
pub record Tokenizer : Type 0 where
  pub tokens : List Token
  pub merges : List Merge
  pub bos_token_id : ℕ
  pub eos_token_id : ℕ
  pub flags : ℕ

pub data Error : Type 0 where
  size_outside_limits bad_magic unsupported_version item_count invalid_metadata : Error
  size_mismatch special_id_range checksum_mismatch metadata_exceeds_payload : Error
  unsupported_model truncated_tokens invalid_token nul_in_token token_utf8 : Error
  truncated_merges invalid_merge nul_in_merge merge_utf8 trailing_bytes : Error
  invalid_messages unsupported_role content_utf8 render_limit : Error
  hash_size_overflow duplicate_token duplicate_merge : Error
  unsupported_class no_progress work_limit missing_symbol token_capacity : Error
  input_limit input_utf8 invalid_bos invalid_eos : Error
  id_range special_needs_flag decoded_capacity bad_piece decoded_utf8 no_fuel : Error
