-- ===== src/Gguf/LaidOut.antt =====
-- src/qx_gguf.c: where the tensors of a table lie.
use mathlib.Core.HLevel.{¬_prop}
use mathlib.Core.List.{
  Pairwise, Mem, Perm, mem-cons_self, mem-cons_of_mem, not-mem-nil, eq-or-mem_of_mem-cons,
}
use mathlib.Core.List.Perm
use mathlib.Core.Logic.Or
use mathlib.Core.Path.{subst}
use native.Mathlib.Bridge.{le_prop}
use native.Mathlib.Nat.{ℕ_set}
use qx_mini_c.Gguf.{Info, Summary}
use qx_mini_c.Gguf.Loaded.{load_tensor_table-IsLoaded}
use qx_mini_c.Gguf.Sizes.{
  at, IsPlaceOf, IsDistinct, IsApart, give_sizes-HasSized, Sized-Pairwise, Sized-inside,
}
use qx_mini_c.Gguf.Table.{Place, Table, places, give_sizes, load_tensor_table}
use qx_mini_c.Prelude.{
  ℕ, zero, suc, ◌+◌, ◌-◌, ◌≤◌, ◌<◌, ◌≡◌, sym, ap, ◌∙◌, List, [], ◌∷◌, some, length, arith, All,
}
use qx_mini_c.Prelude.Results.{ok}

-- The places of the tensors have their indices in order.
places_from : (index : ℕ) (ts : List Info) (q : Place) → Mem q (places index ts) → index ≤ q.index
places_from index [] q m = absurd (not-mem-nil m)
places_from index (t ∷ ts) q m =
    Or.elim le_prop (eq-or-mem_of_mem-cons m)
      (λ same. omega (arith, ap (λ (x : Place). x.index) same))
      (λ later. omega (arith, places_from (suc index) ts q later))

places-Pairwise : (index : ℕ) (ts : List Info) → Pairwise IsDistinct (places index ts)
places-Pairwise index [] = Pairwise.nil
places-Pairwise index (t ∷ ts) =
    Pairwise.cons (λ q m same. omega (arith, places_from (suc index) ts q m, same))
      (places-Pairwise (suc index) ts)

-- The place of a tensor.
mem_place :
    (index k : ℕ) (ts : List Info)
    → k < length ts
    → Mem {A = Place} (record { offset = (at ts k).offset; index = index + k }) (places index ts)
mem_place index k [] h = absurd (omega (arith, h))
mem_place index zero (t ∷ ts) h =
    subst (λ n. Mem {A = Place} (record { offset = t.offset; index = n }) (places index (t ∷ ts)))
      (omega arith) mem-cons_self
mem_place index (suc k) (t ∷ ts) h =
    let first : Place = record { offset = t.offset; index = index } in
    subst
      (λ n.
        Mem {A = Place} (record { offset = (at ts k).offset; index = n }) (places index (t ∷ ts)))
      (omega arith) (mem-cons_of_mem first (mem_place (suc index) k ts (omega (arith, h))))

-- What holds of the tensor at every index holds of every tensor.
members {κ} :
    (P : Info → Type κ) (ts : List Info)
    → ((t : Info) → IsProp (P t))
    → ((k : ℕ) → k < length ts → P (at ts k))
    → (t : Info) → Mem t ts
    → P t
members P [] prop h t m = absurd (not-mem-nil m)
members P (x ∷ ts) prop h t m =
    Or.elim (prop t) (eq-or-mem_of_mem-cons m) (λ same. subst P (sym same) (h zero (omega arith)))
      (λ later. members P ts prop (λ k less. h (suc k) (omega (arith, less))) t later)

All-members {κ} : (P : Info → Type κ) (ts : List Info) → ((t : Info) → Mem t ts → P t) → All P ts
All-members P [] h = tt
All-members P (t ∷ ts) h = (h t mem-cons_self, All-members P ts (λ x m. h x (mem-cons_of_mem t m)))

-- If the tensors of `us` at the places of `ts` are apart, those of `us` from there on are.
places-IsApart :
    (us ts rest : List Info) (index : ℕ)
    → length ts ≡ length rest
    → ((i : ℕ) → at us (index + i) ≡ at rest i)
    → Pairwise (λ (p q : Place). IsApart (at us p.index) (at us q.index)) (places index ts)
    → Pairwise IsApart rest
places-IsApart us [] [] index size same h = Pairwise.nil
places-IsApart us [] (r ∷ rest) index size same h = absurd (omega (arith, size))
places-IsApart us (t ∷ ts) [] index size same h = absurd (omega (arith, size))
places-IsApart us (t ∷ ts) (r ∷ rest) index size same (Pairwise.cons here h) =
    let first : at us index ≡ r = ap (at us) (omega arith) ∙ same zero in
    let later : (i : ℕ) → at us (suc index + i) ≡ at rest i =
      λ i. ap (at us) (omega arith) ∙ same (suc i) in
    Pairwise.cons
      (members (IsApart r) rest (λ t. ¬_prop)
        (λ k less.
          let apart =
            here (record { offset = (at ts k).offset; index = suc index + k })
              (mem_place (suc index) k ts (omega (arith, less, size))) in
          subst (λ x. IsApart x (at rest k)) first (subst (IsApart (at us index)) (later k) apart)))
      (places-IsApart us ts rest (suc index) (omega (arith, size)) later h)

place_of :
    (us ts : List Info) (index : ℕ) (q : Place)
    → ((i : ℕ) → at us (index + i) ≡ at ts i)
    → Mem q (places index ts)
    → (at us q.index).offset ≡ q.offset
place_of us [] index q same m = absurd (not-mem-nil m)
place_of us (t ∷ ts) index q same m =
    let first : at us index ≡ t = ap (at us) (omega arith) ∙ same zero in
    let later : (i : ℕ) → at us (suc index + i) ≡ at ts i =
      λ i. ap (at us) (omega arith) ∙ same (suc i) in
    Or.elim (ℕ_set (at us q.index).offset q.offset) (eq-or-mem_of_mem-cons m)
      (λ here.
        subst (λ (x : Place). (at us x.index).offset ≡ x.offset) (sym here)
          (ap (λ (x : Info). x.offset) first))
      (λ more. place_of us ts (suc index) q later more)

place_inside :
    (ts : List Info) (index : ℕ) (q : Place) → Mem q (places index ts) → q.index < index + length ts
place_inside [] index q m = absurd (not-mem-nil m)
place_inside (t ∷ ts) index q m =
    Or.elim le_prop (eq-or-mem_of_mem-cons m)
      (λ here. omega (arith, ap (λ (x : Place). x.index) here))
      (λ more. omega (arith, place_inside ts (suc index) q more))

-- Where the tensors of a table lie.
pub record IsLaidOut (table : Table) : Type 0 where
  pub inside :
      All
        (λ (t : Info). table.data_offset + (t.offset + t.byte_size) ≤ table.file_size)
        table.tensors
  pub apart : Pairwise IsApart table.tensors

module _ (sort : List Place → List Place) (perm : (ps : List Place) → Perm (sort ps) ps) where
  sized-IsLaidOut :
      (data_offset size : ℕ) (ts us : List Info)
      → data_offset ≤ size
      → give_sizes (size - data_offset) ts (sort (places 0 ts)) ≡ some us
      → IsLaidOut (record { data_offset = data_offset; file_size = size; tensors = us })
  sized-IsLaidOut data_offset size ts us fits e =
      let ps = sort (places 0 ts) in
      let end = size - data_offset in
      let distinct : Pairwise IsDistinct ps =
        Perm.pairwise {R = IsDistinct} (λ a b. ¬_prop) (λ a b r x. r (sym x))
          (Perm.symm (perm (places 0 ts))) (places-Pairwise 0 ts) in
      let place : (q : Place) → Mem q ps → IsPlaceOf ts q = λ q m.
        let there = (Perm.mem_iff (perm (places 0 ts))).0 m in
        (
          omega (arith, place_inside ts 0 q there),
          place_of ts ts 0 q (λ i. ap (at ts) (omega arith)) there,
        ) in
      let done = give_sizes-HasSized end ts us ps e distinct place in
      let apart =
        Perm.pairwise {R = λ p q. IsApart (at us p.index) (at us q.index)} (λ a b. ¬_prop)
          (λ a b r (x, y). r (y, x)) (perm (places 0 ts)) (Sized-Pairwise end us ps done.sized) in
      let inside : (k : ℕ)
          → k < length us
          → data_offset + ((at us k).offset + (at us k).byte_size) ≤ size =
        λ k less.
          let there = mem_place 0 k ts (omega (arith, less, done.size)) in
          let below =
            Sized-inside end us ps done.sized (record { offset = (at ts k).offset; index = 0 + k })
              ((Perm.mem_iff (perm (places 0 ts))).1 there) in
          let below' : (at us k).offset + (at us k).byte_size ≤ end =
            subst (λ n. (at us n).offset + (at us n).byte_size ≤ end) (omega arith) below in
          omega (arith, below', fits) in
      record {
        inside =
            All-members (λ (t : Info). data_offset + (t.offset + t.byte_size) ≤ size) us
              (members (λ (t : Info). data_offset + (t.offset + t.byte_size) ≤ size) us
                (λ t. le_prop) inside);
        apart = places-IsApart us ts us 0 (sym done.size) (λ i. ap (at us) (omega arith)) apart;
      }

  -- Where the sort permutes its array: in a table that qx_gguf_load_tensor_table loads, every
  -- tensor lies inside the file behind the data offset, and no two tensors have a byte in common.
  pub load_tensor_table-IsLaidOut :
      (bytes : List ℕ) (s : Summary) (table : Table)
      → load_tensor_table sort bytes ≡ ok (s, table)
      → IsLaidOut table
  load_tensor_table-IsLaidOut bytes s table e =
      let (ts, us, done) = load_tensor_table-IsLoaded sort bytes s table e in
      subst IsLaidOut done.made
        (sized-IsLaidOut s.data_offset (length bytes) ts us done.fits done.given)
