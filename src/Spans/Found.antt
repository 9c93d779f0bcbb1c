-- ===== src/Spans/Found.antt =====
-- src/qx_format.c: qx_find_tensor in a directory without a name that occurs twice.
use mathlib.Core.List.{Pairwise, Nodup, Mem, mem-cons_self, mem-cons_of_mem}
use mathlib.Core.Option.{some-injective, none-ne-some}
use mathlib.Core.Path.{ap₂, subst}
use qx_mini_c.Container.Directory.{c_string, same_bytes}
use qx_mini_c.Container.Names.{same_bytes_refl}
use qx_mini_c.Prelude.{
  ℕ, zero, suc, ◌≡◌, refl, true, List, [], ◌∷◌, map, some, get_elem?, arith, Bool-cases, inl, inr,
}
use qx_mini_c.Spans.{DirEntry, find_tensor}

same_bytes_sound : (a b : List ℕ) → same_bytes a b ≡ true → a ≡ b
unfolding same_bytes
same_bytes_sound [] [] h = refl
same_bytes_sound [] (d ∷ ds) h = ground (arith, h)
same_bytes_sound (c ∷ cs) [] h = ground (arith, h)
same_bytes_sound (c ∷ cs) (d ∷ ds) h =
    let head : c ≡ d = ground (arith, h) in
    ap₂ ◌∷◌ head (same_bytes_sound cs ds (ground (arith, h)))

-- The names of a directory, as C strings.
abbrev pub c_names : List DirEntry → List (List ℕ)
c_names entries = map (λ (e : DirEntry). c_string e.name) entries

mem_c_names :
    (entries : List DirEntry) (i : ℕ) (e : DirEntry)
    → get_elem? entries i ≡ some e
    → Mem (c_string e.name) (c_names entries)
mem_c_names [] i e h = absurd (none-ne-some e h)
mem_c_names (x ∷ entries) zero e h =
    subst (λ (y : DirEntry). Mem (c_string y.name) (c_names (x ∷ entries))) (some-injective x e h)
      mem-cons_self
mem_c_names (x ∷ entries) (suc i) e h =
    mem-cons_of_mem (c_string x.name) (mem_c_names entries i e h)

-- In a directory whose names are different C strings, the search for the name of an entry finds
-- that entry.
pub find_tensor_each :
    (entries : List DirEntry) (i : ℕ) (e : DirEntry)
    → Nodup (c_names entries)
    → get_elem? entries i ≡ some e
    → find_tensor entries (c_string e.name) ≡ some e
unfolding find_tensor
find_tensor_each [] i e names h = absurd (none-ne-some e h)
find_tensor_each (x ∷ entries) zero e names h =
    subst (λ (y : DirEntry). find_tensor (x ∷ entries) (c_string y.name) ≡ some y)
      (some-injective x e h) (rw (same_bytes_refl (c_string x.name), find_tensor) refl)
find_tensor_each (x ∷ entries) (suc i) e (Pairwise.cons first names) h =
    elim (Bool-cases (same_bytes (c_string x.name) (c_string e.name))) [
      | inl same ↦ absurd (
          first (c_string e.name) (mem_c_names entries i e h)
            (same_bytes_sound (c_string x.name) (c_string e.name) same))
      | inr other ↦ rw (other, find_tensor) (find_tensor_each entries i e names h)
    ]
