-- ===== src/Container/Tests.antt =====
-- src/qx_format.c: a container of two tensors, and the theorems at concrete inputs.
use mathlib.Core.List.{Pairwise-pair}
use mathlib.Core.List.Perm
use mathlib.Core.Path.{ap₂}
use mathlib.Core.Bool.{false≢true, Bool-set}
use qx_mini_c.Prelude.{
  ℕ, ◌<◌, ◌≡◌, ◌↔◌, Bool, ◌==◌, ltb, ◌&&◌, ◌||◌, refl, List, [], ◌∷◌, true, false, some, none,
  arith, ◌≤◌,
}
use qx_mini_c.Container.{
  Header, Tensor, ok, err, overlapping_ranges, inconsistent_byte_size, align_u64, align_u64_checked,
  dimensions_loop, validate_dimensions, block_geometry, expected_byte_size, validate_traits,
  check_header, has_nul, check_placement, check_tensor,
}
use qx_mini_c.Container.Directory.{
  check_tensors, c_string, same_bytes, has_neighbours, in_order, open_directory,
}
use qx_mini_c.Container.Align.{IsNext, align_u64_checked_iff}
use qx_mini_c.Container.Dimensions.{IsShape, validate_dimensions_iff}
use qx_mini_c.Container.Open.{IsLaidOut, open_directory-IsLaidOut}

abbrev weights : Tensor
weights = record {
  name = 97 ∷ 0 ∷ [];
  dtype = 1;
  quant = 1;
  rank = 2;
  dims = 4 ∷ 3 ∷ 0 ∷ 0 ∷ [];
  offset = 8192;
  byte_size = 24;
  group_size = 0;
  flags = 1;
}

abbrev norms : Tensor
norms = record {
  name = 98 ∷ 0 ∷ [];
  dtype = 2;
  quant = 1;
  rank = 1;
  dims = 5 ∷ 0 ∷ 0 ∷ 0 ∷ [];
  offset = 12288;
  byte_size = 20;
  group_size = 0;
  flags = 0;
}

abbrev header : Header
header = record {
  header_size = 272;
  dir_entry_size = 208;
  tensor_count = 2;
  dir_offset = 4096;
  data_offset = 8192;
  file_size = 12308;
}

abbrev same {ℓ} : {A : Type ℓ} → A → A
same x = x

accepted :
    open_directory same same header 12308 (weights ∷ norms ∷ [])
    ≡ ok (record { offset = 8192; end = 8216 } ∷ record { offset = 12288; end = 12308 } ∷ [])
unfolding open_directory check_header check_tensors check_tensor has_nul validate_traits
    validate_dimensions dimensions_loop check_placement expected_byte_size block_geometry
    has_neighbours same_bytes c_string in_order
accepted = refl

overlapping :
    open_directory same same header 12308 (weights ∷ record norms { offset = 8192 } ∷ [])
    ≡ err overlapping_ranges
unfolding open_directory check_header check_tensors check_tensor has_nul validate_traits
    validate_dimensions dimensions_loop check_placement expected_byte_size block_geometry
    has_neighbours same_bytes c_string in_order
overlapping = refl

wrong_size :
    open_directory same same header 12308 (record weights { byte_size = 25 } ∷ norms ∷ [])
    ≡ err inconsistent_byte_size
unfolding open_directory check_header check_tensors check_tensor has_nul validate_traits
    validate_dimensions dimensions_loop check_placement expected_byte_size block_geometry
wrong_size = refl

-- The order of `strcmp`.
abbrev bytes_le : List ℕ → List ℕ → Bool
bytes_le [] bs = true
bytes_le (a ∷ rest) [] = false
bytes_le (a ∷ rest) (b ∷ bs) = ltb a b || a == b && bytes_le rest bs

abbrev Before : List ℕ → List ℕ → Type 0
Before a b = bytes_le a b ≡ true

Before-antisymmetric : (a b : List ℕ) → Before a b → Before b a → a ≡ b
Before-antisymmetric [] [] p q = refl
Before-antisymmetric [] (b ∷ bs) p q = absurd (false≢true q)
Before-antisymmetric (a ∷ rest) [] p q = absurd (false≢true p)
Before-antisymmetric (a ∷ rest) (b ∷ bs) p q =
    let head : a ≡ b = ground (arith, p, q) in
    let tail =
      Before-antisymmetric rest bs (ground (arith, p, q, head)) (ground (arith, p, q, head)) in
    ap₂ ◌∷◌ head tail

open_directory-IsLaidOut_example : IsLaidOut header 12308 (weights ∷ norms ∷ [])
unfolding c_string
open_directory-IsLaidOut_example =
    open_directory-IsLaidOut same same Before Before-antisymmetric (λ names. Perm.refl names)
      (λ ss. Perm.refl ss) header 12308 (weights ∷ norms ∷ [])
      (record { offset = 8192; end = 8216 } ∷ record { offset = 12288; end = 12308 } ∷ [])
      (omega arith) (omega arith) (omega arith)
      ((Pairwise-pair (λ a b. Bool-set (bytes_le a b) true)).1 refl) accepted

validate_dimensions_iff_example :
    (validate_dimensions weights ≡ some 12)
    ↔ ((0 < 2) × (2 ≤ 4) × IsShape 2 (4 ∷ 3 ∷ 0 ∷ 0 ∷ []) 12)
validate_dimensions_iff_example = validate_dimensions_iff weights 12

align_u64_checked_iff_example : (align_u64_checked 4097 4096 ≡ some 8192) ↔ IsNext 4097 4096 8192
align_u64_checked_iff_example =
    align_u64_checked_iff 4097 4096 (omega arith) (omega arith) (omega arith) 8192

wraps : align_u64 18446744073709551615 4096 ≡ 0
unfolding align_u64
wraps = refl

no_room : align_u64_checked 18446744073709551615 4096 ≡ none
unfolding align_u64_checked
no_room = refl
