-- ===== src/Writer.antt =====
-- src/qx_format.c: qx_write_tensor_copy_from_gguf up to the files: the header and the directory that it lays out for a
-- GGUF table. Null arguments, failed allocations and the writes are not modelled.
pub mod Traits
pub mod Placed
pub mod Copied
mod Tests
use qx_mini_c.Container.{
  Header, Tensor, align_bytes, header_struct_size, entry_struct_size, max_dims, name_max,
  align_u64_checked,
}
use qx_mini_c.Container.Directory.{c_string}
use qx_mini_c.Gguf.{Info}
use qx_mini_c.Prelude.{
  ℕ, zero, suc, ◌+◌, ◌-◌, Bool, true, false, not, ◌||◌, List, [], ◌∷◌, ◌++◌, Option, none, some,
  ltb, ◌==◌, if◌then◌else◌, length, get_or, take, drop, replicate, u32_max, u64_max, mul64,
}
use qx_mini_c.Prelude.Bytes.{take_bytes}
use qx_mini_c.Prelude.Results.{Result, ok, err}
use qx_mini_c.Spans.{fnv1a64_update, fnv_start, buffer_size}

pub data Error : Type 0 where
  empty_directory too_many_tensors layout_overflow tensor_layout_overflow : Error

-- QX_DTYPE_F16, F32, Q4, Q3, Q2 and U8 are 1 to 6.
abbrev pub dtype_from_ggml_type : ℕ → ℕ
dtype_from_ggml_type ggml_type =
    get_or
      (2 ∷ 1 ∷ 3 ∷ 3 ∷ 6 ∷ 6 ∷ 6 ∷ 6 ∷ 6 ∷ 6 ∷ 5 ∷ 4 ∷ 3 ∷ 3 ∷ 3 ∷ 6 ∷ 5 ∷ 5 ∷ 4 ∷ 6 ∷ 6 ∷ 4 ∷ 5 ∷ 3
        ∷ [])
      ggml_type 6

abbrev pub padded_to : ℕ → List ℕ → List ℕ
padded_to size s = s ++ replicate (size - length s) 0

-- The entry of a tensor at `cursor`.
abbrev pub entry_at : ℕ → ℕ → Info → Tensor
entry_at quant cursor gt =
    let dtype = dtype_from_ggml_type gt.ggml_type in
    record {
      name = padded_to name_max (take (name_max - 1) (c_string gt.name));
      dtype = dtype;
      quant = quant;
      rank = gt.n_dims;
      dims = padded_to max_dims (take max_dims gt.dims);
      offset = cursor;
      byte_size = gt.byte_size;
      group_size = if dtype == 2 || dtype == 1 || dtype == 6 then 0 else 64;
      flags = gt.ggml_type;
    }

-- The loop over the tensors: their entries, and where the last one ends.
unfoldable pub lay_out : ℕ → ℕ → List Info → Option (List Tensor × ℕ)
unfolding align_u64_checked c_string
lay_out quant cursor [] = some ([], cursor)
lay_out quant cursor (gt ∷ gts) =
    if ltb (u64_max - gt.byte_size) cursor
    then none
    else elim (align_u64_checked (cursor + gt.byte_size) align_bytes) [
      | none ↦ none
      | some next ↦ elim (lay_out quant next gts) [
        | none ↦ none
        | some (ts, end) ↦ some (entry_at quant cursor gt ∷ ts, end)
      ]
    ]

unfoldable pub plan_copy : ℕ → List Info → Result Error (Header × List Tensor)
unfolding align_u64_checked lay_out
plan_copy quant gts =
    let count = length gts in
    let directory_bytes = mul64 count entry_struct_size in
    if count == 0
    then err empty_directory
    else if ltb u32_max count
    then err too_many_tensors
    else elim (align_u64_checked header_struct_size align_bytes) [
      | none ↦ err layout_overflow
      | some dir_offset ↦
          if ltb (u64_max - directory_bytes) dir_offset
          then err layout_overflow
          else elim (align_u64_checked (dir_offset + directory_bytes) align_bytes) [
            | none ↦ err layout_overflow
            | some data_offset ↦ elim (lay_out quant data_offset gts) [
              | none ↦ err tensor_layout_overflow
              | some (ts, end) ↦ ok (
                record {
                  header_size = header_struct_size;
                  dir_entry_size = entry_struct_size;
                  tensor_count = count;
                  dir_offset = dir_offset;
                  data_offset = data_offset;
                  file_size = end;
                },
                ts,
              )
            ]
          ]
    ]

-- The loop that copies `n` bytes in pieces of 64 KiB; each round takes at least one.
unfoldable pub copy_chunks : ℕ → ℕ → List ℕ → ℕ → Option (List ℕ × ℕ)
unfolding fnv1a64_update
copy_chunks zero h src n = if n == 0 then some ([], h) else none
copy_chunks (suc fuel) h src n =
    if n == 0
    then some ([], h)
    else let want = if ltb n buffer_size then n else buffer_size in
      elim (take_bytes want src) [
        | none ↦ none
        | some (chunk, more) ↦ elim (copy_chunks fuel (fnv1a64_update h chunk) more (n - want)) [
          | none ↦ none
          | some (written, last) ↦ some (chunk ++ written, last)
        ]
      ]

-- What is written, and its checksum.
unfoldable pub copy_tensor_bytes : List ℕ → ℕ → ℕ → Option (List ℕ × ℕ)
unfolding copy_chunks
copy_tensor_bytes src src_abs n = copy_chunks n fnv_start (drop src_abs src) n
