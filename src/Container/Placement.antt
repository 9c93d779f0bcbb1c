-- ===== src/Container/Placement.antt =====
-- src/qx_format.c: what the checks of qx_open_file_with_backend make sure of, for each tensor.
use native.Mathlib.Nat.{div-add-mod', mul_right_comm}
use qx_mini_c.Prelude.{
  no_overflow, mul64-fits, ℕ, ◌+◌, ◌*◌, ◌/◌, ◌%◌, ◌≤◌, ◌<◌, ◌≡◌, refl, sym, ap, ◌∙◌, Option-cases,
  ◌⊎◌, inl, inr, false, map, ◌++◌, All, List, [], ◌∷◌, some, IsU64, u64_max, arith, mul64, add64,
}
use qx_mini_c.Container.{
  max_dims, Header, Tensor, Span, Error, Result, ok, err, align_bytes, block_geometry,
  expected_byte_size, check_placement, check_tensor, validate_dimensions,
}
use qx_mini_c.Container.Directory.{check_tensors}
use qx_mini_c.Container.Dimensions.{IsShape, validate_dimensions_iff}

pub Result-cases {ℓ} :
    {A : Type ℓ} (r : Result A) → ((e : Error) × (r ≡ err e)) ⊎ ((a : A) × (r ≡ ok a))
Result-cases (ok a) = inr (a, refl)
Result-cases (err e) = inl (e, refl)

-- The block layout of a tensor's type fits its number of elements, in `bytes` bytes.
pub record IsPacked (t : Tensor) (elements bytes : ℕ) : Type 0 where
  pub block_elements : ℕ
  pub block_bytes : ℕ
  pub known : block_geometry t.flags ≡ some (block_elements, block_bytes)
  pub exact : bytes * block_elements ≡ elements * block_bytes

block_geometry_pos : (flags e b : ℕ) → block_geometry flags ≡ some (e, b) → (0 < e) × (0 < b)
unfolding block_geometry
block_geometry_pos flags e b h = (ground (arith, h), ground (arith, h))

expected_byte_size-IsPacked :
    (t : Tensor) (elements bytes : ℕ)
    → expected_byte_size t elements ≡ some bytes
    → IsPacked t elements bytes
unfolding expected_byte_size
expected_byte_size-IsPacked t elements bytes h = elim (Option-cases (block_geometry t.flags)) [
  | inl unknown ↦ ground (arith, h, unknown)
  | inr ((e, b), known) ↦
      let (e_pos, b_pos) = block_geometry_pos t.flags e b known in
      let whole : elements % e ≡ 0 = ground (arith, h, known) in
      let fits : elements / e ≤ u64_max / b = ground (arith, h, known) in
      let value : bytes ≡ mul64 (elements / e) b = ground (arith, h, known) in
      let elements_eq : elements / e * e ≡ elements =
        grind (arith, div-add-mod' elements e, whole) in
      let bytes_eq : bytes ≡ elements / e * b =
        value
        ∙ mul64-fits (elements / e) b (no_overflow (elements / e) b (omega (arith, b_pos)) fits) in
      record {
        block_elements = e;
        block_bytes = b;
        known = known;
        exact =
            ap (λ (m : ℕ). m * e) bytes_eq
            ∙ mul_right_comm (elements / e) b e
            ∙ ap (λ (m : ℕ). m * b) elements_eq;
      }
]

-- Where the bytes of a tensor lie.
pub record IsPlaced (h : Header) (t : Tensor) : Type 0 where
  pub after : h.data_offset ≤ t.offset
  pub aligned : t.offset % align_bytes ≡ 0
  pub nonempty : 0 < t.byte_size
  pub inside : t.offset + t.byte_size ≤ h.file_size

abbrev pub span : Tensor → Span
span t = record { offset = t.offset; end = t.offset + t.byte_size }

check_placement_sound :
    (h : Header) (t : Tensor) (elements : ℕ) (s : Span)
    → IsU64 h.file_size
    → check_placement h t elements ≡ ok s
    → (s ≡ span t) × IsPlaced h t × IsPacked t elements t.byte_size
unfolding check_placement
check_placement_sound h t elements s w g = elim (Option-cases (expected_byte_size t elements)) [
  | inl unknown ↦ ground (arith, g, unknown)
  | inr (bytes, known) ↦
      let same : t.byte_size ≡ bytes = ground (arith, g, known) in
      let placed : IsPlaced h t = record {
        after = ground (arith, g, known);
        aligned = ground (arith, g, known);
        nonempty = ground (arith, g, known);
        inside = ground (arith, g, known);
      } in
      let inside = placed.inside in
      let fits : add64 t.offset t.byte_size ≡ t.offset + t.byte_size = omega (arith, w, inside) in
      let value : s ≡ record { offset = t.offset; end = add64 t.offset t.byte_size } =
        ground (arith, g, known) in
      (
        value ∙ ap (λ (m : ℕ). record { offset = t.offset; end = m }) fits,
        placed,
        expected_byte_size-IsPacked t elements t.byte_size (known ∙ ap some (sym same)),
      )
]

-- What the loop of qx_open_file_with_backend makes sure of for a tensor whose bytes are in the file.
pub record IsSound (h : Header) (t : Tensor) : Type 0 where
  pub elements : ℕ
  pub shape : (0 < t.rank) × (t.rank ≤ max_dims) × IsShape t.rank t.dims elements
  pub packed : IsPacked t elements t.byte_size
  pub placed : IsPlaced h t

check_tensor-IsSound :
    (h : Header) (t : Tensor) (ss : List Span)
    → IsU64 h.file_size
    → check_tensor h false t ≡ ok ss
    → (ss ≡ span t ∷ []) × IsSound h t
unfolding check_tensor
check_tensor-IsSound h t ss w g = elim (Option-cases (validate_dimensions t)) [
  | inl unknown ↦ ground (arith, g, unknown)
  | inr (n, shape) ↦ elim (Result-cases (check_placement h t n)) [
    | inl (e, bad) ↦ ground (arith, g, shape, bad)
    | inr (s, good) ↦
        let (same, placed, packed) = check_placement_sound h t n s w good in
        let here : ss ≡ s ∷ [] = ground (arith, g, shape, good) in
        (
          here ∙ ap (λ (r : Span). r ∷ []) same,
          record {
            elements = n;
            shape = (validate_dimensions_iff t n).0 shape;
            packed = packed;
            placed = placed;
          },
        )
  ]
]

-- The loop over the directory of a file that holds tensor bytes, when it finds no error: every
-- tensor is sound, and the spans are theirs, in the order of the directory.
pub check_tensors-IsSound :
    (h : Header) (ts : List Tensor) (ss : List Span)
    → IsU64 h.file_size
    → check_tensors h false ts ≡ ok ss
    → (ss ≡ map span ts) × All (IsSound h) ts
unfolding check_tensors
check_tensors-IsSound h [] ss w g = (ground (arith, g), tt)
check_tensors-IsSound h (t ∷ ts) ss w g = elim (Result-cases (check_tensor h false t)) [
  | inl (e, bad) ↦ ground (arith, g, bad)
  | inr (here, good) ↦ elim (Result-cases (check_tensors h false ts)) [
    | inl (e, bad) ↦ ground (arith, g, good, bad)
    | inr (rest, others) ↦
        let (here_eq, sound) = check_tensor-IsSound h t here w good in
        let (rest_eq, all) = check_tensors-IsSound h ts rest w others in
        let value : ss ≡ here ++ rest = ground (arith, g, good, others) in
        (
          value ∙ ap (λ (l : List Span). l ++ rest) here_eq ∙ ap (◌∷◌ (span t)) rest_eq,
          (sound, all),
        )
  ]
]
