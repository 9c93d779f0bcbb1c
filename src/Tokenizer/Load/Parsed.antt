-- ===== src/Tokenizer/Load/Parsed.antt =====
-- src/qx_tokenizer.c: the loops of qx_tokenizer_load on a printed payload.
use mathlib.Core.List.{append_assoc}
use qx_mini_c.Prelude.Bytes.{le32, u32_at-le32, take_bytes-append}
use qx_mini_c.Prelude.{
  ℕ, ◌^◌, ◌≡◌, refl, ap, false, List, [], ◌∷◌, ◌++◌, map, ltb, ◌==◌, ◌||◌, arith, length, flatten,
  All,
}
use qx_mini_c.Prelude.Results.{Result, ok}
use qx_mini_c.Tokenizer.{Error, Token, Merge}
use qx_mini_c.Tokenizer.Load.{parse_token, parse_merge, parse_many}
use qx_mini_c.Tokenizer.Load.Print.{print_token, print_merge, IsToken, IsMerge}

pub parse_token-print :
    (t : Token) (rest : List ℕ) → IsToken t → parse_token (print_token t ++ rest) ≡ ok (t, rest)
unfolding parse_token
parse_token-print t rest h =
    let short = h.text.short in
    let size = u32_at-le32 (length t.text) (le32 t.kind ++ t.text ++ rest) (omega (arith, short)) in
    let kind = u32_at-le32 t.kind (t.text ++ rest) (omega (arith, h.kind_high)) in
    let limits : (ltb (2 ^ 20) (length t.text) || ltb t.kind 1 || ltb 6 t.kind) ≡ false =
      ground (arith, short, h.kind_low, h.kind_high) in
    let enough : ltb (length (print_token t ++ rest)) 8 ≡ false = ground arith in
    rw (size, kind, limits, take_bytes-append t.text rest, h.text.no_zero, h.text.valid, enough)
      (ap (λ k. ok (record { text = t.text; kind = k }, rest)) kind)

pub parse_merge-print :
    (m : Merge) (rest : List ℕ) → IsMerge m → parse_merge (print_merge m ++ rest) ≡ ok (m, rest)
unfolding parse_merge
parse_merge-print m rest h =
    let short = h.left.short in
    let size =
      u32_at-le32 (length m.left) (le32 (length m.right) ++ (m.left ++ m.right) ++ rest)
        (omega (arith, short)) in
    let size' =
      u32_at-le32 (length m.right) ((m.left ++ m.right) ++ rest) (omega (arith, h.right.short)) in
    let limits : (length m.left == 0
          || length m.right == 0
          || ltb (2 ^ 20) (length m.left)
          || ltb (2 ^ 20) (length m.right))
        ≡ false =
      ground (arith, short, h.right.short, h.left_pos, h.right_pos) in
    rw
      (
        size,
        size',
        limits,
        append_assoc m.left m.right rest,
        take_bytes-append m.left (m.right ++ rest),
        size',
        take_bytes-append m.right rest,
        h.left.no_zero,
        h.right.no_zero,
        h.left.valid,
        h.right.valid,
      )
      (ground arith)

-- A loop over the items, printed one after the other.
pub parse_many-print {ℓ} :
    {A : Type ℓ} (parse : List ℕ → Result Error (A × List ℕ)) (print : A → List ℕ) {P : A → Type 0}
    (reads : (a : A) (rest : List ℕ) → P a → parse (print a ++ rest) ≡ ok (a, rest))
    (items : List A) (rest : List ℕ)
    → All P items
    → parse_many parse (length items) (flatten (map print items) ++ rest) ≡ ok (items, rest)
unfolding parse_many
parse_many-print parse print reads [] rest h = refl
parse_many-print parse print reads (a ∷ items) rest h =
    let more = flatten (map print items) ++ rest in
    rw
      (
        append_assoc (print a) (flatten (map print items)) rest,
        reads a more h.0,
        parse_many-print parse print reads items rest h.1,
      )
      refl
