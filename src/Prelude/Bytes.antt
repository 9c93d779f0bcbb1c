-- ===== src/Prelude/Bytes.antt =====
-- Lists of bytes: how they are compared, numbers in them, and what is read off their start.
use Prim.Native.Nat.{ℕ, zero, suc, ◌+◌, ◌*◌, ◌%◌, ◌/◌, ◌^◌, ◌<◌, ◌≤◌}
use mathlib.Core.Path.{◌≡◌, refl, sym, ap, ap₂, ◌∙◌}
use mathlib.Core.Bool.{Bool, true, false, ◌&&◌}
use mathlib.Core.Option.{Option, none, some}
use mathlib.Core.List.{List, [], ◌∷◌, ◌++◌}
use mathlib.Core.Logic.{inl, inr}
use native.Mathlib.Omega.{arith}
use qx_mini_c.Prelude.Tests.{ltb, ◌==◌, if◌then◌else◌, Bool-cases}
use qx_mini_c.Prelude.Lists.{
  length, get_or, take, drop, All, length-append, length-take, take-append-drop,
}
use qx_mini_c.Prelude.Words.{IsU32, IsU64}

abbrev pub IsByte : ℕ → Type 0
IsByte b = b < 256

-- `memcmp` on texts of one length, after the test of the lengths.
unfoldable pub same_text : List ℕ → List ℕ → Bool
same_text [] [] = true
same_text [] (d ∷ ds) = false
same_text (c ∷ cs) [] = false
same_text (c ∷ cs) (d ∷ ds) = c == d && same_text cs ds

pub same_text_sound : (a b : List ℕ) → same_text a b ≡ true → a ≡ b
unfolding same_text
same_text_sound [] [] h = refl
same_text_sound [] (d ∷ ds) h = ground (arith, h)
same_text_sound (c ∷ cs) [] h = ground (arith, h)
same_text_sound (c ∷ cs) (d ∷ ds) h =
    let head : c ≡ d = ground (arith, h) in ap₂ ◌∷◌ head (same_text_sound cs ds (ground (arith, h)))

pub same_text_refl : (a : List ℕ) → same_text a a ≡ true
unfolding same_text
same_text_refl [] = refl
same_text_refl (c ∷ cs) = ground (arith, same_text_refl cs)

-- Four and eight bytes, the lowest first.
abbrev pub u32_at : List ℕ → ℕ
u32_at s = get_or s 0 0 + get_or s 1 0 * 2 ^ 8 + get_or s 2 0 * 2 ^ 16 + get_or s 3 0 * 2 ^ 24

abbrev pub u64_at : List ℕ → ℕ
u64_at s = u32_at s + u32_at (drop 4 s) * 2 ^ 32

abbrev pub le32 : ℕ → List ℕ
le32 n = n % 256 ∷ n / 2 ^ 8 % 256 ∷ n / 2 ^ 16 % 256 ∷ n / 2 ^ 24 % 256 ∷ []

pub u32_at-le32 : (n : ℕ) (s : List ℕ) → IsU32 n → u32_at (le32 n ++ s) ≡ n
u32_at-le32 n s h = omega (arith, h)

abbrev pub le64 : ℕ → List ℕ
le64 n = le32 (n % 2 ^ 32) ++ le32 (n / 2 ^ 32)

pub u64_at-le64 : (n : ℕ) (s : List ℕ) → IsU64 n → u64_at (le64 n ++ s) ≡ n
u64_at-le64 n s h =
    let low : n % 2 ^ 32 < 2 ^ 32 = omega arith in
    let high : n / 2 ^ 32 < 2 ^ 32 = omega (arith, h) in
    rw (u32_at-le32 (n % 2 ^ 32) (le32 (n / 2 ^ 32) ++ s) low, u32_at-le32 (n / 2 ^ 32) s high)
      (omega arith)

-- The number of four bytes, written out, is the bytes.
pub le32-u32_at : (s : List ℕ) → All IsByte s → 4 ≤ length s → s ≡ le32 (u32_at s) ++ drop 4 s
le32-u32_at [] h size = absurd (omega (arith, size))
le32-u32_at (a ∷ []) h size = absurd (omega (arith, size))
le32-u32_at (a ∷ b ∷ []) h size = absurd (omega (arith, size))
le32-u32_at (a ∷ b ∷ c ∷ []) h size = absurd (omega (arith, size))
le32-u32_at (a ∷ b ∷ c ∷ d ∷ s) h size =
    let n = u32_at (a ∷ b ∷ c ∷ d ∷ s) in
    let b0 = h.0 in
    let b1 = h.1.0 in
    let b2 = h.1.1.0 in
    let b3 = h.1.1.1.0 in
    let e0 : a ≡ n % 256 = omega (arith, b0) in
    let e1 : b ≡ n / 2 ^ 8 % 256 = omega (arith, b0, b1) in
    let e2 : c ≡ n / 2 ^ 16 % 256 = omega (arith, b0, b1, b2) in
    let e3 : d ≡ n / 2 ^ 24 % 256 = omega (arith, b0, b1, b2, b3) in
    λ i. e0 i ∷ e1 i ∷ e2 i ∷ e3 i ∷ s

pub get_or-IsByte : (s : List ℕ) (i : ℕ) → All IsByte s → IsByte (get_or s i 0)
get_or-IsByte [] i h = omega arith
get_or-IsByte (b ∷ s) zero h = h.0
get_or-IsByte (b ∷ s) (suc i) h = get_or-IsByte s i h.1

pub u32_at-IsU32 : (s : List ℕ) → All IsByte s → IsU32 (u32_at s)
u32_at-IsU32 s h =
    let b0 = get_or-IsByte s 0 h in
    let b1 = get_or-IsByte s 1 h in
    let b2 = get_or-IsByte s 2 h in let b3 = get_or-IsByte s 3 h in omega (arith, b0, b1, b2, b3)

-- So many bytes off the start, and the rest.
abbrev pub take_bytes : ℕ → List ℕ → Option (List ℕ × List ℕ)
take_bytes n s = if ltb (length s) n then none else some (take n s, drop n s)

pub drop-length-append {ℓ} : {A : Type ℓ} (xs ys : List A) → drop (length xs) (xs ++ ys) ≡ ys
drop-length-append [] ys = refl
drop-length-append (x ∷ xs) ys = drop-length-append xs ys

drop-nil : (n : ℕ) → drop {A = ℕ} n [] ≡ []
drop-nil zero = refl
drop-nil (suc n) = refl

pub drop-drop : (n m : ℕ) (s : List ℕ) → drop m (drop n s) ≡ drop (n + m) s
drop-drop zero m s = ap (λ k. drop k s) (omega arith)
drop-drop (suc n) m [] = drop-nil m ∙ sym (drop-nil (suc n + m))
drop-drop (suc n) m (b ∷ s) =
    let same : suc (n + m) ≡ suc n + m = omega arith in
    drop-drop n m s ∙ ap (λ k. drop k (b ∷ s)) same

pub take-length-append {ℓ} : {A : Type ℓ} (xs ys : List A) → take (length xs) (xs ++ ys) ≡ xs
take-length-append [] ys = refl
take-length-append (x ∷ xs) ys = ap (◌∷◌ x) (take-length-append xs ys)

pub take_bytes-append : (xs ys : List ℕ) → take_bytes (length xs) (xs ++ ys) ≡ some (xs, ys)
take_bytes-append xs ys =
    let size = length-append xs ys in
    let enough : ltb (length (xs ++ ys)) (length xs) ≡ false = ground (arith, size) in
    rw (enough, take-length-append xs ys, drop-length-append xs ys) refl

-- What is taken and the rest are the bytes.
pub take_bytes_sound :
    (n : ℕ) (s x rest : List ℕ) → take_bytes n s ≡ some (x, rest) → (s ≡ x ++ rest) × (length x ≡ n)
take_bytes_sound n s x rest e = elim (Bool-cases (ltb (length s) n)) [
  | inl short ↦ ground (arith, e, short)
  | inr enough ↦
      let fits : n ≤ length s = ground (arith, enough) in
      let taken : take n s ≡ x = ground (arith, e, enough) in
      let left : drop n s ≡ rest = ground (arith, e, enough) in
      (
        sym (take-append-drop n s) ∙ ap₂ ◌++◌ taken left,
        omega (arith, ap length taken, length-take n s, fits),
      )
]
