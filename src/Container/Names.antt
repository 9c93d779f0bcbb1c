-- ===== src/Container/Names.antt =====
-- src/qx_format.c: the loop over the sorted names, as a check that no name occurs twice.
use mathlib.Core.List.{
  Pairwise, Nodup, eq-or-mem_of_mem-cons, rel_of_Pairwise-cons, mem-cons_self, Pairwise-singleton,
  Pairwise-cons,
}
use mathlib.Core.Path.{subst}
use mathlib.Core.Logic.Or
use mathlib.Core.Bool.{true≢false}
use mathlib.Core.HLevel.{¬_prop}
use qx_mini_c.Prelude.{ℕ, ◌≡◌, ◌≢◌, refl, sym, ap, ◌∙◌, List, [], ◌∷◌, true, false, arith}
use qx_mini_c.Container.Directory.{same_bytes, has_neighbours}

pub same_bytes_refl : (a : List ℕ) → same_bytes a a ≡ true
unfolding same_bytes
same_bytes_refl [] = refl
same_bytes_refl (c ∷ cs) = ground (arith, same_bytes_refl cs)

same_bytes-ne : (a b : List ℕ) → same_bytes a b ≡ false → a ≢ b
same_bytes-ne a b h e = true≢false (sym (same_bytes_refl a) ∙ ap (same_bytes a) e ∙ h)

module _ (Le : List ℕ → List ℕ → Type 0)
    (antisymmetric : (a b : List ℕ) → Le a b → Le b a → a ≡ b) where
  -- In a sorted list of names, two equal ones are neighbours.
  pub has_neighbours-Nodup :
      (names : List (List ℕ)) → Pairwise Le names → has_neighbours names ≡ false → Nodup names
  unfolding has_neighbours
  has_neighbours-Nodup [] s h = Pairwise.nil
  has_neighbours-Nodup (a ∷ []) s h = Pairwise-singleton ◌≢◌ a
  has_neighbours-Nodup (a ∷ b ∷ names) s h =
      let apart = same_bytes-ne a b (ground (arith, h)) in
      let tail = (Pairwise-cons.0 s).1 in
      let first : Le a b = rel_of_Pairwise-cons s mem-cons_self in
      Pairwise.cons
        (λ c m.
          Or.elim ¬_prop (eq-or-mem_of_mem-cons m) (λ e same. apart (same ∙ e))
            (λ later same. apart (
              antisymmetric a b first (subst (Le b) (sym same) (rel_of_Pairwise-cons tail later)))))
        (has_neighbours-Nodup (b ∷ names) tail (ground (arith, h)))
