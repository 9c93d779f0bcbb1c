-- ===== src/Container/Open.antt =====
-- src/qx_format.c: qx_open_file_with_backend, on the header, the size and the directory of a file
-- that holds tensor bytes.
use mathlib.Core.List.{Pairwise, Perm, Nodup}
use mathlib.Core.List.Perm
use native.Mathlib.Bridge.{le_prop}
use qx_mini_c.Prelude.{
  ℕ, ◌≤◌, ◌*◌, ◌+◌, ◌≡◌, ◌≢◌, List, [], ◌∷◌, map, true, false, ◌==◌, arith, Option-cases, inl, inr,
  All, IsU64, IsU32, none,
}
use qx_mini_c.Container.{Header, Tensor, Span, ok, check_header, entry_struct_size}
use qx_mini_c.Container.Directory.{
  open_directory, c_string, has_neighbours, check_tensors, in_order,
}
use qx_mini_c.Container.Placement.{IsSound, span, Result-cases, check_tensors-IsSound}
use qx_mini_c.Container.Ranges.{IsApart, IsForward, in_order-Pairwise, All-Perm, Perm-Pairwise}
use qx_mini_c.Container.Names.{has_neighbours-Nodup}

-- The C string in a tensor's name.
abbrev pub c_name : Tensor → List ℕ
c_name t = c_string t.name

-- What opening a file that holds tensor bytes makes sure of.
pub record IsLaidOut (h : Header) (size : ℕ) (ts : List Tensor) : Type 0 where
  pub exact : h.file_size ≡ size
  pub directory : h.dir_offset + h.tensor_count * entry_struct_size ≤ h.data_offset
  pub ends : h.data_offset ≤ h.file_size
  pub sound : All (IsSound h) ts
  pub apart : Pairwise IsApart (map span ts)
  pub named : Nodup (map c_name ts)

check_header_sound :
    (h : Header) (size : ℕ)
    → IsU64 h.file_size
    → IsU32 h.tensor_count
    → check_header h size ≡ none
    → (h.file_size ≡ size)
      × (h.dir_offset + h.tensor_count * entry_struct_size ≤ h.data_offset)
      × (h.data_offset ≤ h.file_size)
unfolding check_header
check_header_sound h size w c g = (ground (arith, g), ground (arith, g), ground (arith, g))

spans-IsForward : (ts : List Tensor) → All IsForward (map span ts)
spans-IsForward [] = tt
spans-IsForward (t ∷ ts) = (omega arith, spans-IsForward ts)

module _ (sort_names : List (List ℕ) → List (List ℕ)) (sort_spans : List Span → List Span)
    (Le : List ℕ → List ℕ → Type 0) (antisymmetric : (a b : List ℕ) → Le a b → Le b a → a ≡ b)
    (names_perm : (names : List (List ℕ)) → Perm (sort_names names) names)
    (spans_perm : (ss : List Span) → Perm (sort_spans ss) ss) where
  names_apart :
      (names : List (List ℕ))
      → Pairwise Le (sort_names names)
      → has_neighbours (sort_names names) ≡ false
      → Nodup names
  names_apart names s h =
      Perm.nodup (names_perm names) (has_neighbours-Nodup Le antisymmetric (sort_names names) s h)

  ranges-IsApart :
      (start : ℕ) (ss : List Span)
      → All IsForward ss
      → in_order start (sort_spans ss) ≡ true
      → Pairwise IsApart ss
  ranges-IsApart start ss f h =
      let forward = All-Perm IsForward (sort_spans ss) ss (λ r. le_prop) (spans_perm ss) f in
      Perm-Pairwise ss (sort_spans ss) (spans_perm ss)
        (in_order-Pairwise start (sort_spans ss) forward h)

  -- A file of 64-bit size with a 32-bit number of tensors that holds bytes after its header and directory, whose names the sort
  -- puts in an antisymmetric order, where both sorts permute: when qx_open_file_with_backend
  -- accepts the header and the directory, the declared size is the file's, the directory ends before
  -- the tensor bytes, every tensor has a shape of 64-bit volume and the bytes
  -- that its blocks need, aligned and inside the file, no two tensors overlap, and no two have the
  -- same name.
  pub open_directory-IsLaidOut :
      (h : Header) (size : ℕ) (ts : List Tensor) (ss : List Span)
      → IsU64 h.file_size
      → IsU32 h.tensor_count
      → h.file_size ≢ h.data_offset
      → Pairwise Le (sort_names (map c_name ts))
      → open_directory sort_names sort_spans h size ts ≡ ok ss
      → IsLaidOut h size ts
  unfolding open_directory
  open_directory-IsLaidOut h size ts ss w count bytes sorted g =
      elim (Option-cases (check_header h size)) [
        | inr (e, bad) ↦ ground (arith, g, bad)
        | inl fine ↦
            let holds_bytes : (h.file_size == h.data_offset) ≡ false = ground (arith, bytes) in
            elim (Result-cases (check_tensors h (h.file_size == h.data_offset) ts)) [
              | inl (e, bad) ↦ ground (arith, g, fine, bad)
              | inr (spans, good) ↦
                  let (same, sound) = check_tensors-IsSound h ts spans w (rw holds_bytes at good) in
                  let apart : has_neighbours (sort_names (map c_name ts)) ≡ false =
                    ground (arith, g, fine, good) in
                  let order : in_order h.data_offset (sort_spans spans) ≡ true =
                    ground (arith, g, fine, good, apart, holds_bytes) in
                  record {
                    exact = (check_header_sound h size w count fine).0;
                    directory = (check_header_sound h size w count fine).1;
                    ends = (check_header_sound h size w count fine).2;
                    sound = sound;
                    apart =
                        ranges-IsApart h.data_offset (map span ts) (spans-IsForward ts)
                          (rw same at order);
                    named = names_apart (map c_name ts) sorted apart;
                  }
            ]
      ]
