-- ===== src/Writer/Tests.antt =====
-- src/qx_format.c: the layout of two tensors, and a copy.
use qx_mini_c.Container.{Header}
use qx_mini_c.Gguf.{Info}
use qx_mini_c.Prelude.{ℕ, ◌≡◌, refl, [], ◌∷◌, some, arith, inr}
use qx_mini_c.Prelude.Results.{ok}
use qx_mini_c.Spans.{Opened, buffered, verify_tensor_checksum}
use qx_mini_c.Spans.Agree.{hash_of}
use qx_mini_c.Writer.{entry_at, plan_copy, copy_tensor_bytes}
use qx_mini_c.Writer.Copied.{
  copy_tensor_bytes-take, verify_tensor_checksum-copy_tensor_bytes, entry_of,
}
use qx_mini_c.Writer.Placed.{IsAccepted, plan_copy-IsAccepted}

-- A tensor of 64 numbers of 4 bytes and one of a block of Q4_K.
abbrev numbers : Info
numbers = record {
  name = b'n' ∷ [];
  n_dims = 1;
  dims = 64 ∷ [];
  ggml_type = 0;
  offset = 0;
  byte_size = 256;
}

abbrev blocks : Info
blocks = record {
  name = b'b' ∷ [];
  n_dims = 1;
  dims = 256 ∷ [];
  ggml_type = 12;
  offset = 256;
  byte_size = 144;
}

abbrev header : Header
header = record {
  header_size = 272;
  dir_entry_size = 208;
  tensor_count = 2;
  dir_offset = 4096;
  data_offset = 8192;
  file_size = 16384;
}

planned_two :
    plan_copy 1 (numbers ∷ blocks ∷ [])
    ≡ ok (header, entry_at 1 8192 numbers ∷ entry_at 1 12288 blocks ∷ [])
unfolding plan_copy
planned_two = refl

plan_copy-IsAccepted_example :
    IsAccepted header (entry_at 1 8192 numbers ∷ entry_at 1 12288 blocks ∷ [])
plan_copy-IsAccepted_example =
    plan_copy-IsAccepted 1 (numbers ∷ blocks ∷ []) header
      (entry_at 1 8192 numbers ∷ entry_at 1 12288 blocks ∷ []) planned_two

abbrev copied : Opened
copied = record { file_size = 4; bytes = 0 ∷ 20 ∷ 30 ∷ 0 ∷ []; backend = buffered; directory = [] }

copy_tensor_bytes-take_example :
    copy_tensor_bytes (10 ∷ 20 ∷ 30 ∷ []) 1 2 ≡ some (20 ∷ 30 ∷ [], hash_of (20 ∷ 30 ∷ []))
copy_tensor_bytes-take_example = copy_tensor_bytes-take (10 ∷ 20 ∷ 30 ∷ []) 1 2 (omega arith)

verify_tensor_checksum-copy_tensor_bytes_example :
    (checksum : ℕ) × (copy_tensor_bytes (10 ∷ 20 ∷ 30 ∷ []) 1 2 ≡ some (20 ∷ 30 ∷ [], checksum))
    × (verify_tensor_checksum copied (entry_of (b't' ∷ 0 ∷ []) 1 2 checksum) ≡ ok tt)
verify_tensor_checksum-copy_tensor_bytes_example =
    verify_tensor_checksum-copy_tensor_bytes (10 ∷ 20 ∷ 30 ∷ []) 1 2 copied (b't' ∷ 0 ∷ []) 1
      (omega arith) (omega arith) (inr refl) (omega arith) (omega arith) refl
