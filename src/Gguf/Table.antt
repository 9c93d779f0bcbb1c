-- ===== src/Gguf/Table.antt =====
-- src/qx_gguf.c: qx_gguf_load_tensor_table, on the bytes of the file. `qsort` is a parameter. Failed allocations, the
-- failures to open the file and to find its size, and null arguments are not modelled; a failure frees what was
-- allocated.
use qx_mini_c.Gguf.{
  Info, Summary, Error, data_past_eof, offset_past_eof, not_monotonic, read_tensor, inspect,
}
use qx_mini_c.Gguf.Stream.{File}
use qx_mini_c.Prelude.{
  ℕ, zero, suc, ◌-◌, List, [], ◌∷◌, Option, none, some, ltb, if◌then◌else◌, length, get_or, set,
  add64,
}
use qx_mini_c.Prelude.Results.{Result, ok, err}

pub record Table : Type 0 where
  pub data_offset : ℕ
  pub file_size : ℕ
  pub tensors : List Info

-- `offset_idx`.
pub record Place : Type 0 where
  pub offset : ℕ
  pub index : ℕ

-- The loop over the tensors.
unfoldable pub load_tensors : ℕ → ℕ → ℕ → File → Result Error (List Info)
unfolding read_tensor
load_tensors data_offset file_size zero f = ok []
load_tensors data_offset file_size (suc count) f = elim (read_tensor f) [
  | err e ↦ err e
  | ok (t, f1) ↦
      if ltb file_size (add64 data_offset t.offset)
      then err offset_past_eof
      else elim (load_tensors data_offset file_size count f1) [
        | err e ↦ err e
        | ok ts ↦ ok (t ∷ ts)
      ]
]

-- The array that is sorted, for the tensors from `index` on.
abbrev pub places : ℕ → List Info → List Place
places index [] = []
places index (t ∷ ts) = record { offset = t.offset; index = index } ∷ places (suc index) ts

abbrev pub no_info : Info
no_info = record { name = []; n_dims = 0; dims = []; ggml_type = 0; offset = 0; byte_size = 0 }

abbrev pub next_offset : List Place → ℕ → ℕ
next_offset [] end = end
next_offset (p ∷ ps) end = p.offset

-- The loop over the sorted places: a tensor ends where the next one starts, and the last with the file.
unfoldable pub give_sizes : ℕ → List Info → List Place → Option (List Info)
give_sizes end ts [] = some ts
give_sizes end ts (p ∷ ps) =
    let t = get_or ts p.index no_info in
    let next = next_offset ps end in
    let rest = give_sizes end (set ts p.index (record t { byte_size = next - t.offset })) ps in
    if ltb next t.offset then none else rest

unfoldable pub load_tensor_table :
    (List Place → List Place) → List ℕ → Result Error (Summary × Table)
unfolding inspect load_tensors give_sizes
load_tensor_table sort bytes = elim (inspect bytes) [
  | err e ↦ err e
  | ok s ↦
      let size = length bytes in
      if ltb size s.data_offset
      then err data_past_eof
      else elim (load_tensors s.data_offset size s.tensor_count
          (record { bytes = bytes; pos = s.tensor_info_offset })) [
            | err e ↦ err e
            | ok ts ↦ elim (give_sizes (size - s.data_offset) ts (sort (places 0 ts))) [
              | none ↦ err not_monotonic
              | some sized ↦
                  ok (s, record { data_offset = s.data_offset; file_size = size; tensors = sized })
            ]
          ]
]
