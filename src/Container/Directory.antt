-- ===== src/Container/Directory.antt =====
-- src/qx_format.c: the loop of qx_open_file_with_backend over the tensor directory, and its checks
-- for names that occur twice and for ranges that overlap. `qsort` is a parameter.
use qx_mini_c.Prelude.{
  ℕ, Bool, true, false, not, ◌&&◌, ◌||◌, List, [], ◌∷◌, ◌++◌, none, some, map, ltb, ◌==◌,
  if◌then◌else◌,
}
use qx_mini_c.Container.{
  Header, Tensor, Span, Result, ok, err, duplicate_name, overlapping_ranges, check_header,
  check_tensor,
}

unfoldable pub check_tensors : Header → Bool → List Tensor → Result (List Span)
check_tensors h metadata_only [] = ok []
check_tensors h metadata_only (t ∷ ts) = elim (check_tensor h metadata_only t) [
  | err e ↦ err e
  | ok span ↦ elim (check_tensors h metadata_only ts) [
    | err e ↦ err e
    | ok spans ↦ ok (span ++ spans)
  ]
]

-- The C string in an array: the bytes before the first NUL.
unfoldable pub c_string : List ℕ → List ℕ
c_string [] = []
c_string (c ∷ cs) = if c == 0 then [] else c ∷ c_string cs

-- `strcmp(a, b) == 0` on the bytes of two C strings.
unfoldable pub same_bytes : List ℕ → List ℕ → Bool
same_bytes [] [] = true
same_bytes [] (d ∷ ds) = false
same_bytes (c ∷ cs) [] = false
same_bytes (c ∷ cs) (d ∷ ds) = c == d && same_bytes cs ds

-- The loop that compares each sorted name with the one before it.
unfoldable pub has_neighbours : List (List ℕ) → Bool
unfolding same_bytes
has_neighbours [] = false
has_neighbours (a ∷ []) = false
has_neighbours (a ∷ b ∷ names) = same_bytes a b || has_neighbours (b ∷ names)

-- The loop over the sorted spans; `previous_end` starts at the header's `data_offset`.
unfoldable pub in_order : ℕ → List Span → Bool
in_order previous_end [] = true
in_order previous_end (s ∷ spans) = not (ltb s.offset previous_end) && in_order s.end spans

-- The checks of qx_open_file_with_backend on a header, the file's size and the directory. The
-- spans are the array that it sorts; a file of metadata alone has none.
unfoldable pub open_directory :
    (List (List ℕ) → List (List ℕ))
    → (List Span → List Span)
    → Header
    → ℕ
    → List Tensor
    → Result (List Span)
open_directory sort_names sort_spans h actual_size ts = elim (check_header h actual_size) [
  | some e ↦ err e
  | none ↦
      let metadata_only = h.file_size == h.data_offset in
      elim (check_tensors h metadata_only ts) [
        | err e ↦ err e
        | ok spans ↦
            if has_neighbours (sort_names (map (λ (t : Tensor). c_string t.name) ts))
            then err duplicate_name
            else if not metadata_only && not (in_order h.data_offset (sort_spans spans))
            then err overlapping_ranges
            else ok spans
      ]
]
