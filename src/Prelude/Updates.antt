-- ===== src/Prelude/Updates.antt =====
-- Lists after a write at a place.
use Prim.Native.Nat.{ℕ, zero, suc, ◌<◌}
use mathlib.Core.Path.{◌≡◌, refl, ap, ◌∙◌}
use mathlib.Core.Bool.{false}
use mathlib.Core.List.{List, [], ◌∷◌}
use native.Mathlib.Omega.{arith}
use qx_mini_c.Prelude.Tests.{◌==◌, if◌then◌else◌}
use qx_mini_c.Prelude.Lists.{length, get_or, set}

pub get_or-set {ℓ} :
    {A : Type ℓ} (xs : List A) (i j : ℕ) (x d : A)
    → j < length xs
    → get_or (set xs i x) j d ≡ (if i == j then x else get_or xs j d)
get_or-set [] i j x d h = absurd (omega (arith, h))
get_or-set (y ∷ xs) zero zero x d h = refl
get_or-set (y ∷ xs) zero (suc j) x d h =
    let e : false ≡ (zero == suc j) = ground arith in ap (λ b. if b then x else get_or xs j d) e
get_or-set (y ∷ xs) (suc i) zero x d h =
    let e : false ≡ (suc i == zero) = ground arith in ap (λ b. if b then x else y) e
get_or-set (y ∷ xs) (suc i) (suc j) x d h =
    let e : (i == j) ≡ (suc i == suc j) = ground arith in
    get_or-set xs i j x d (omega (arith, h)) ∙ ap (λ b. if b then x else get_or xs j d) e

pub length-set {ℓ} : {A : Type ℓ} (xs : List A) (i : ℕ) (x : A) → length (set xs i x) ≡ length xs
length-set [] i x = refl
length-set (y ∷ xs) zero x = refl
length-set (y ∷ xs) (suc i) x = ap suc (length-set xs i x)
