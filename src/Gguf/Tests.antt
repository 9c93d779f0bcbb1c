-- ===== src/Gguf/Tests.antt =====
-- src/qx_gguf.c: a small file of two tokens and two tensors.
use mathlib.Core.List.Perm
use qx_mini_c.Container.Directory.{c_string}
use qx_mini_c.Gguf.{Info, Summary, inspect, empty_summary, gguf_magic}
use qx_mini_c.Gguf.Export.{locate_tokens, export_tokenizer_tokens}
use qx_mini_c.Gguf.Keys.{tokens_key}
use qx_mini_c.Gguf.LaidOut.{IsLaidOut, load_tensor_table-IsLaidOut}
use qx_mini_c.Gguf.ReadBack.{in_title, read_lines, numbered, export_tokenizer_tokens-read_lines}
use qx_mini_c.Gguf.Stream.{rd, skip_bytes, skip_array}
use qx_mini_c.Gguf.Strings.{string_bytes}
use qx_mini_c.Gguf.Table.{Place, Table, load_tensors, give_sizes, load_tensor_table}
use qx_mini_c.Prelude.Bytes.{le32, le64}
use qx_mini_c.Prelude.{ℕ, ◌-◌, ◌^◌, ◌≡◌, refl, List, [], ◌∷◌, ◌++◌, replicate, some, arith}
use qx_mini_c.Prelude.Results.{ok}

abbrev tensor_bytes : List ℕ → ℕ → ℕ → List ℕ
tensor_bytes name dim offset =
    string_bytes name ++ (le32 1 ++ (le64 dim ++ (le32 0 ++ le64 offset)))

-- The tokens are an "a" with a tab, and "b"; the tensors "w" and "v" have 32 bytes each.
abbrev tokens_bytes : List ℕ
tokens_bytes =
    string_bytes tokens_key
    ++ (le32 9
        ++ (le32 8 ++ (le64 2 ++ (string_bytes (b'a' ∷ b'\t' ∷ []) ++ string_bytes (b'b' ∷ [])))))

abbrev small : List ℕ
small =
    gguf_magic
    ++ (le32 3
        ++ (le64 2
            ++ (le64 1
                ++ (tokens_bytes
                    ++ (tensor_bytes (b'w' ∷ []) 8 0
                        ++ (tensor_bytes (b'v' ∷ []) 8 32 ++ replicate 70 0))))))

abbrev info : ℕ → ℕ → ℕ → Info
info name offset byte_size = record {
  name = name ∷ [];
  n_dims = 1;
  dims = 8 ∷ [];
  ggml_type = 0;
  offset = offset;
  byte_size = byte_size;
}

abbrev small_summary : Summary
small_summary = record (empty_summary 3 2 1) {
  tensor_info_offset = 88;
  data_offset = 160;
  first_tensors = info b'w' 0 0 ∷ info b'v' 32 0 ∷ [];
}

abbrev small_table : Table
small_table = record {
  data_offset = 160;
  file_size = 224;
  tensors = info b'w' 0 32 ∷ info b'v' 32 32 ∷ [];
}

abbrev unsorted : List Place → List Place
unsorted ps = ps

small_loaded : load_tensor_table unsorted small ≡ ok (small_summary, small_table)
unfolding load_tensor_table give_sizes load_tensors inspect
small_loaded = refl

load_tensor_table-IsLaidOut_example : IsLaidOut small_table
load_tensor_table-IsLaidOut_example =
    load_tensor_table-IsLaidOut unsorted (λ ps. Perm.refl ps) small small_summary small_table
      small_loaded

small_tokens : locate_tokens small ≡ ok (2, record { bytes = small; pos = 69 })
unfolding locate_tokens c_string
small_tokens = refl

-- What follows the tokens.
abbrev after_tokens : List ℕ
after_tokens = tensor_bytes (b'w' ∷ []) 8 0 ++ (tensor_bytes (b'v' ∷ []) 8 32 ++ replicate 70 0)

abbrev two_texts : List (List ℕ)
two_texts = (b'a' ∷ b'\t' ∷ []) ∷ (b'b' ∷ []) ∷ []

export_tokenizer_tokens-read_lines_example :
    (out : List ℕ) × (export_tokenizer_tokens small ≡ ok (out, 2))
    × (read_lines in_title out ≡ numbered 0 two_texts)
export_tokenizer_tokens-read_lines_example =
    export_tokenizer_tokens-read_lines small 2 (record { bytes = small; pos = 69 }) two_texts
      after_tokens small_tokens refl (omega arith) refl

-- The lines of the two tokens.
numbered_texts : numbered 0 two_texts ≡ (0, b'a' ∷ b'\t' ∷ []) ∷ (1, b'b' ∷ []) ∷ []
unfolding c_string
numbered_texts = refl

-- A length of 2^64 - 8 goes back by 8 bytes.
skipped_back :
    skip_bytes (record { bytes = []; pos = 100 }) (2 ^ 64 - 8)
    ≡ some (record { bytes = []; pos = 92 })
unfolding skip_bytes
skipped_back = refl

-- An array of 2^61 numbers of 8 bytes is passed over as if it were empty.
abbrev long_array : List ℕ
long_array = le32 10 ++ (0 ∷ 0 ∷ 0 ∷ 0 ∷ 0 ∷ 0 ∷ 0 ∷ 32 ∷ [])

array_passed_over :
    skip_array (record { bytes = long_array; pos = 0 })
    ≡ some (record { bytes = long_array; pos = 12 })
unfolding skip_array rd
array_passed_over = refl
