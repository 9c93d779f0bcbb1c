-- ===== src/Gguf.antt =====
-- src/qx_gguf.c: qx_gguf_inspect, on the bytes of the file. Opening the file and its failures, null arguments and
-- qx_gguf_dump_summary, which prints, are not modelled.
pub mod Stream
pub mod Strings
pub mod Keys
pub mod Table
pub mod Sizes
pub mod Loaded
pub mod LaidOut
pub mod Export
pub mod ReadBack
mod Tests
use qx_mini_c.Container.{align_u64}
use qx_mini_c.Container.Directory.{c_string}
use qx_mini_c.Gguf.Keys.{
  general_alignment, general_architecture, general_name, qwen3_prefix, qwen3moe_prefix,
  block_count_key, expert_count_key, expert_used_count_key, embedding_length_key,
  feed_forward_length_key, head_count_key, head_count_kv_key,
}
use qx_mini_c.Gguf.Stream.{File, rd, rd_u32, rd_u64, read_string, read_u64_value, string_type}
use qx_mini_c.Prelude.Bytes.{same_text}
use qx_mini_c.Prelude.{
  ℕ, zero, suc, ◌+◌, ◌-◌, ◌*◌, ◌%◌, Bool, true, false, not, ◌&&◌, ◌||◌, List, [], ◌∷◌, ◌++◌, Option,
  none, some, ltb, ◌==◌, if◌then◌else◌, length, take, drop, u32_mod,
}
use qx_mini_c.Prelude.Results.{Result, ok, err}

pub data Error : Type 0 where
  bad_magic short_header unsupported_version bad_metadata bad_string_metadata unsupported_value :
      Error
  bad_tensor_info rank_too_high bad_tensor_dims bad_tensor_tail : Error
  data_past_eof offset_past_eof not_monotonic : Error
  bad_header not_string_array bad_token_string tokens_not_found : Error

-- `qx_gguf_tensor_info`: the bytes of the name that are kept, and the first `n_dims` of the dimensions; the
-- others are 0.
pub record Info : Type 0 where
  pub name : List ℕ
  pub n_dims : ℕ
  pub dims : List ℕ
  pub ggml_type : ℕ
  pub offset : ℕ
  pub byte_size : ℕ

pub record Summary : Type 0 where
  pub version : ℕ
  pub tensor_count : ℕ
  pub metadata_kv_count : ℕ
  pub alignment : ℕ
  pub tensor_info_offset : ℕ
  pub data_offset : ℕ
  pub architecture : List ℕ
  pub name : List ℕ
  pub block_count : ℕ
  pub expert_count : ℕ
  pub expert_used_count : ℕ
  pub embedding_length : ℕ
  pub feed_forward_length : ℕ
  pub head_count : ℕ
  pub head_count_kv : ℕ
  pub first_tensors : List Info

-- "GGUF", and the keys.
abbrev pub gguf_magic : List ℕ
gguf_magic = b'G' ∷ b'G' ∷ b'U' ∷ b'F' ∷ []

-- `strcmp` of a key, and `strncmp` with a prefix.
abbrev pub is_key : List ℕ → List ℕ → Bool
is_key key name = same_text (c_string key) name

abbrev pub has_prefix : List ℕ → List ℕ → Bool
has_prefix key prefix = same_text (take (length prefix) (c_string key)) prefix

unfoldable pub apply_u64_meta : Summary → List ℕ → ℕ → Summary
unfolding c_string same_text
apply_u64_meta s key value =
    let k =
      if has_prefix key qwen3_prefix
      then drop (length qwen3_prefix) (c_string key)
      else drop (length qwen3moe_prefix) (c_string key) in
    if is_key key general_alignment
    then record s { alignment = value % u32_mod }
    else if has_prefix key qwen3_prefix || has_prefix key qwen3moe_prefix
    then if is_key k block_count_key
      then record s { block_count = value }
      else if is_key k expert_count_key
      then record s { expert_count = value }
      else if is_key k expert_used_count_key
      then record s { expert_used_count = value }
      else if is_key k embedding_length_key
      then record s { embedding_length = value }
      else if is_key k feed_forward_length_key
      then record s { feed_forward_length = value }
      else if is_key k head_count_key
      then record s { head_count = value }
      else if is_key k head_count_kv_key
      then record s { head_count_kv = value }
      else s
    else s

-- `snprintf` into a buffer keeps one byte less than it has.
unfoldable pub apply_string_meta : File → Summary → List ℕ → Option (Summary × File)
unfolding read_string c_string same_text
apply_string_meta f s key = elim (read_string 160 f) [
  | none ↦ none
  | some (text, f1) ↦ some (
    if is_key key general_architecture
        then record s { architecture = take 63 (c_string text) }
        else if is_key key general_name
        then record s { name = take 127 (c_string text) }
        else s,
    f1,
  )
]

-- One pair of the metadata, and the loop over them.
unfoldable pub read_value : File → Summary → List ℕ → ℕ → Result Error (Summary × File)
unfolding apply_string_meta read_u64_value apply_u64_meta c_string same_text
read_value f s key type =
    if type == string_type && (is_key key general_architecture || is_key key general_name)
    then elim (apply_string_meta f s key) [ none ↦ err bad_string_metadata | some done ↦ ok done ]
    else elim (read_u64_value f type) [
      | none ↦ err unsupported_value
      | some (none, f1) ↦ ok (s, f1)
      | some (some num, f1) ↦ ok (apply_u64_meta s key num, f1)
    ]

-- The key and the type of a value.
unfoldable pub read_key : File → Option ((List ℕ × ℕ) × File)
unfolding read_string rd_u32
read_key f = elim (read_string 160 f) [
  | none ↦ none
  | some (key, f1) ↦ elim (rd_u32 f1) [ none ↦ none | some (type, f2) ↦ some ((key, type), f2) ]
]

unfoldable pub read_metadata : ℕ → File → Summary → Result Error (Summary × File)
unfolding read_key read_value
read_metadata zero f s = ok (s, f)
read_metadata (suc count) f s = elim (read_key f) [
  | none ↦ err bad_metadata
  | some ((key, type), f1) ↦ elim (read_value f1 s key type) [
    | err e ↦ err e
    | ok (s1, f2) ↦ read_metadata count f2 s1
  ]
]

unfoldable pub read_dims : ℕ → File → Option (List ℕ × File)
unfolding rd_u64
read_dims zero f = some ([], f)
read_dims (suc n) f = elim (rd_u64 f) [
  | none ↦ none
  | some (dim, f1) ↦ elim (read_dims n f1) [ none ↦ none | some (dims, f2) ↦ some (dim ∷ dims, f2) ]
]

-- The start of a tensor's entry, its name and its rank, and the whole entry.
unfoldable pub read_name : File → Option ((List ℕ × ℕ) × File)
unfolding read_key
read_name f = read_key f

unfoldable pub read_tail : File → Option ((ℕ × ℕ) × File)
unfolding rd_u32 rd_u64
read_tail f = elim (rd_u32 f) [
  | none ↦ none
  | some (ggml_type, f1) ↦ elim (rd_u64 f1) [
    | none ↦ none
    | some (offset, f2) ↦ some ((ggml_type, offset), f2)
  ]
]

unfoldable pub read_tensor : File → Result Error (Info × File)
unfolding read_name read_dims read_tail
read_tensor f = elim (read_name f) [
  | none ↦ err bad_tensor_info
  | some ((name, n_dims), f1) ↦
      if ltb 4 n_dims then err rank_too_high else elim (read_dims n_dims f1) [
        | none ↦ err bad_tensor_dims
        | some (dims, f2) ↦ elim (read_tail f2) [
          | none ↦ err bad_tensor_tail
          | some ((ggml_type, offset), f3) ↦ ok (
            record {
              name = name;
              n_dims = n_dims;
              dims = dims;
              ggml_type = ggml_type;
              offset = offset;
              byte_size = 0;
            },
            f3,
          )
        ]
      ]
]

-- The loop over the tensors; the first eight are kept.
unfoldable pub pass_tensors : ℕ → File → List Info → Result Error (List Info × File)
unfolding read_tensor
pass_tensors zero f kept = ok (kept, f)
pass_tensors (suc count) f kept = elim (read_tensor f) [
  | err e ↦ err e
  | ok (t, f1) ↦ pass_tensors count f1 (if ltb (length kept) 8 then kept ++ t ∷ [] else kept)
]

abbrev pub empty_summary : ℕ → ℕ → ℕ → Summary
empty_summary version tensor_count metadata_kv_count = record {
  version = version;
  tensor_count = tensor_count;
  metadata_kv_count = metadata_kv_count;
  alignment = 32;
  tensor_info_offset = 0;
  data_offset = 0;
  architecture = [];
  name = [];
  block_count = 0;
  expert_count = 0;
  expert_used_count = 0;
  embedding_length = 0;
  feed_forward_length = 0;
  head_count = 0;
  head_count_kv = 0;
  first_tensors = [];
}

-- The three numbers after the magic.
unfoldable pub read_counts : File → Option ((ℕ × ℕ × ℕ) × File)
unfolding rd_u32 rd_u64
read_counts f = elim (rd_u32 f) [
  | none ↦ none
  | some (version, f1) ↦ elim (rd_u64 f1) [
    | none ↦ none
    | some (tensor_count, f2) ↦ elim (rd_u64 f2) [
      | none ↦ none
      | some (metadata_kv_count, f3) ↦ some ((version, tensor_count, metadata_kv_count), f3)
    ]
  ]
]

unfoldable pub read_magic : List ℕ → Option File
unfolding rd same_text
read_magic bytes = elim (rd 4 (record { bytes = bytes; pos = 0 })) [
  | none ↦ none
  | some (start, f) ↦ if same_text start gguf_magic then some f else none
]

unfoldable pub inspect : List ℕ → Result Error Summary
unfolding read_magic read_counts read_metadata pass_tensors align_u64
inspect bytes = elim (read_magic bytes) [
  | none ↦ err bad_magic
  | some f ↦ elim (read_counts f) [
    | none ↦ err short_header
    | some ((version, tensor_count, metadata_kv_count), f1) ↦
        if ltb version 2 || ltb 3 version
        then err unsupported_version
        else elim (read_metadata metadata_kv_count f1
            (empty_summary version tensor_count metadata_kv_count)) [
              | err e ↦ err e
              | ok (s, f2) ↦ elim (pass_tensors tensor_count f2 []) [
                | err e ↦ err e
                | ok (first, f3) ↦ ok (record s {
                  tensor_info_offset = f2.pos;
                  data_offset = align_u64 f3.pos (if s.alignment == 0 then 32 else s.alignment);
                  first_tensors = first;
                })
              ]
            ]
  ]
]
