-- ===== src/Tokenizer/Index/Search.antt =====
-- src/qx_tokenizer.c: a lookup in an index that was built, against a search of the table.
use native.Mathlib.Nat.{pow-suc}
use mathlib.Core.Path.{subst}
use qx_mini_c.Prelude.Bytes.{same_text, same_text_sound, same_text_refl}
use qx_mini_c.Prelude.{
  ℕ, zero, suc, ◌+◌, ◌-◌, ◌*◌, ◌%◌, ◌^◌, ◌≤◌, ◌<◌, ◌≡◌, ◌↔◌, refl, sym, ap, ◌∙◌, Bool, true, List,
  [], ◌∷◌, some, ◌==◌, ◌&&◌, ltb, if◌then◌else◌, arith, length, get_elem?, replicate, u32_mod,
  Bool-cases, inl, inr,
}
use qx_mini_c.Prelude.Results.{ok, err, Result-cases}
use qx_mini_c.Tokenizer.{Token, Merge, Error, duplicate_token, duplicate_merge, hash_size_overflow}
use qx_mini_c.Tokenizer.Index.{
  Index, fnv1a64, hash_pair, index_size, index_init, put, is_token, is_merge, add_tokens,
  add_merges, build_token_index, build_merge_index, find_token, find_merge,
}
use qx_mini_c.Tokenizer.Index.Walk.{zeros}
use qx_mini_c.Tokenizer.Index.Invariant.{IsIndexed, search, put-IsIndexed, found-search}

index_size_ge :
    (fuel size wanted n : ℕ)
    → 0 < size
    → index_size fuel size wanted ≡ ok n
    → (wanted ≤ n) × (0 < n)
unfolding index_size
index_size_ge zero size wanted n pos h = ground (arith, h)
index_size_ge (suc fuel) size wanted n pos h =
    let rest = index_size_ge fuel (size * 2) wanted n (omega (arith, pos)) in
    ground (arith, h, rest, pos)

double : (a b : ℕ) → a * (b * 2) ≡ a * 2 * b
double a b = grind arith

index_size_fails :
    (fuel size wanted : ℕ) (e : Error)
    → size ≤ 2 ^ 31
    → 2 ^ 32 ≤ size * 2 ^ fuel
    → index_size fuel size wanted ≡ err e
    → e ≡ hash_size_overflow
unfolding index_size
index_size_fails zero size wanted e small large h = absurd (omega (arith, small, large))
index_size_fails (suc fuel) size wanted e small large h =
    let doubling : 2 ^ 32 ≤ size * (2 ^ fuel * 2) =
      subst (λ n. 2 ^ 32 ≤ size * n) (pow-suc 2 fuel) large in
    let doubled : 2 ^ 32 ≤ size * 2 * 2 ^ fuel =
      subst (λ n. 2 ^ 32 ≤ n) (double size (2 ^ fuel)) doubling in
    elim (Bool-cases (ltb (2 ^ 30) size)) [
      | inl over ↦ ground (arith, h, over)
      | inr under ↦
          let rest = index_size_fails fuel (size * 2) wanted e (ground (arith, under)) doubled in
          ground (arith, h, under, rest)
    ]

pub index_init_fails : (count : ℕ) (e : Error) → index_init count ≡ err e → e ≡ hash_size_overflow
unfolding index_init
index_init_fails count e h = elim (Result-cases (index_size 32 1 (count * 2 % u32_mod))) [
  | inl (e', bad) ↦
      let same : e' ≡ e = ground (arith, h, bad) in
      sym same ∙ index_size_fails 32 1 (count * 2 % u32_mod) e' (omega arith) (omega arith) bad
  | inr (size, good) ↦ ground (arith, h, good)
]

zeros-replicate : (n : ℕ) → zeros (replicate n 0) ≡ n
zeros-replicate zero = refl
zeros-replicate (suc n) = ap suc (zeros-replicate n)

length-replicate : (n : ℕ) → length {A = ℕ} (replicate n 0) ≡ n
length-replicate zero = refl
length-replicate (suc n) = ap suc (length-replicate n)

module _ {ℓ κ} {A : Type ℓ} {K : Type κ} (key : A → K) (hash : K → ℕ) (test : K → A → Bool)
    (test_iff : (k : K) (a : A) → (test k a ≡ true) ↔ (key a ≡ k)) (all : List A) where
  pub index_init-IsIndexed :
      (count : ℕ) (index : Index)
      → count < 2 ^ 31
      → index_init count ≡ ok index
      → IsIndexed key hash test test_iff all 0 index × (count ≤ index.mask)
  unfolding index_init
  index_init-IsIndexed count index small h =
      elim (Result-cases (index_size 32 1 (count * 2 % u32_mod))) [
        | inl (e, bad) ↦ ground (arith, h, bad)
        | inr (size, good) ↦
            let (wide, pos) = index_size_ge 32 1 (count * 2 % u32_mod) size (omega arith) good in
            let empty : Index = record { slots = replicate size 0; mask = size - 1 } in
            let same : empty ≡ index = ground (arith, h, good) in
            let whole : size - 1 + 1 ≡ size = omega (arith, pos) in
            let indexed : IsIndexed key hash test test_iff all 0 empty = record {
              size = length-replicate size ∙ sym whole;
              room = omega (arith, zeros-replicate size, whole);
              placed = λ id a lt. absurd (omega (arith, lt));
              distinct = λ i j a b lt lt'. absurd (omega (arith, lt'));
            } in
            let enough : count ≤ size - 1 = omega (arith, wide, pos, small) in
            subst (λ x. IsIndexed key hash test test_iff all 0 x × (count ≤ x.mask)) same
              (indexed, enough)
      ]

pub token_test_iff : (text : List ℕ) (t : Token) → (same_text t.text text ≡ true) ↔ (t.text ≡ text)
token_test_iff text t = (
  same_text_sound t.text text,
  λ e. subst (λ s. same_text t.text s ≡ true) e (same_text_refl t.text),
)

abbrev pub same_merge : Merge → Merge → Bool
same_merge k m = same_text m.left k.left && same_text m.right k.right

pub merge_test_iff : (k m : Merge) → (same_merge k m ≡ true) ↔ (m ≡ k)
merge_test_iff k m = (
  λ h. λ i. record {
    left = same_text_sound m.left k.left (ground (arith, h)) i;
    right = same_text_sound m.right k.right (ground (arith, h)) i;
  },
  λ e.
      subst (λ x. same_merge x m ≡ true) e
        (rw (same_text_refl m.left, same_text_refl m.right) refl),
)

abbrev pub merge_hash : Merge → ℕ
merge_hash k = hash_pair k.left k.right

abbrev pub TokenIndexed : List Token → ℕ → Index → Type 0
TokenIndexed all =
    IsIndexed (λ (t : Token). t.text) fnv1a64 (λ text t. same_text t.text text) token_test_iff all

abbrev pub MergeIndexed : List Merge → ℕ → Index → Type 0
MergeIndexed all = IsIndexed (λ m. m) merge_hash same_merge merge_test_iff all

-- Entries that stand in the table from `n` on.
abbrev pub StandsAt {ℓ} : {A : Type ℓ} → List A → ℕ → List A → Type ℓ
StandsAt all n items = (j : ℕ) → get_elem? items j ≡ get_elem? all (n + j)

pub stands_first {ℓ} :
    {A : Type ℓ} (all : List A) (n : ℕ) (a : A) (items : List A)
    → StandsAt all n (a ∷ items)
    → get_elem? all n ≡ some a
stands_first all n a items from =
    let same : n + 0 ≡ n = omega arith in ap (get_elem? all) (sym same) ∙ sym (from 0)

pub stands_rest {ℓ} :
    {A : Type ℓ} (all : List A) (n : ℕ) (a : A) (items : List A)
    → StandsAt all n (a ∷ items)
    → StandsAt all (suc n) items
stands_rest all n a items from j =
    let same : n + suc j ≡ suc n + j = omega arith in from (suc j) ∙ ap (get_elem? all) same

pub stands_all {ℓ} : {A : Type ℓ} (all : List A) → StandsAt all 0 all
stands_all all j = let same : j ≡ 0 + j = omega arith in ap (get_elem? all) same

add_tokens-IsIndexed :
    (all : List Token) (n : ℕ) (ts : List Token) (index index' : Index)
    → StandsAt all n ts
    → n + length ts ≡ length all
    → TokenIndexed all n index
    → add_tokens all n ts index ≡ ok index'
    → TokenIndexed all (length all) index' × (index'.mask ≡ index.mask)
unfolding add_tokens
add_tokens-IsIndexed all n [] index index' from size inv h =
    let same : index ≡ index' = ground (arith, h) in
    let count : n ≡ length all = omega (arith, size) in
    (
      subst (λ k. TokenIndexed all k index') count (subst (TokenIndexed all n) same inv),
      ap (λ x. x.mask) (sym same),
    )
add_tokens-IsIndexed all n (t ∷ ts) index index' from size inv h =
    elim (Result-cases (put duplicate_token (is_token all t.text) (fnv1a64 t.text) n index)) [
      | inl (e, bad) ↦ ground (arith, h, bad)
      | inr (mid, good) ↦
          let (inv', mask) =
            put-IsIndexed (λ (t : Token). t.text) fnv1a64 (λ text t. same_text t.text text)
              token_test_iff all duplicate_token n t index mid inv (stands_first all n t ts from)
              good in
          let (inv'', mask') =
            add_tokens-IsIndexed all (suc n) ts mid index' (stands_rest all n t ts from)
              (omega (arith, size)) inv' (ground (arith, h, good)) in
          (inv'', mask' ∙ mask)
    ]

add_merges-IsIndexed :
    (all : List Merge) (n : ℕ) (ms : List Merge) (index index' : Index)
    → StandsAt all n ms
    → n + length ms ≡ length all
    → MergeIndexed all n index
    → add_merges all n ms index ≡ ok index'
    → MergeIndexed all (length all) index' × (index'.mask ≡ index.mask)
unfolding add_merges
add_merges-IsIndexed all n [] index index' from size inv h =
    let same : index ≡ index' = ground (arith, h) in
    let count : n ≡ length all = omega (arith, size) in
    (
      subst (λ k. MergeIndexed all k index') count (subst (MergeIndexed all n) same inv),
      ap (λ x. x.mask) (sym same),
    )
add_merges-IsIndexed all n (m ∷ ms) index index' from size inv h =
    elim (Result-cases
      (put duplicate_merge (is_merge all m.left m.right) (hash_pair m.left m.right) n index)) [
        | inl (e, bad) ↦ ground (arith, h, bad)
        | inr (mid, good) ↦
            let (inv', mask) =
              put-IsIndexed (λ m. m) merge_hash same_merge merge_test_iff all duplicate_merge n m
                index mid inv (stands_first all n m ms from) good in
            let (inv'', mask') =
              add_merges-IsIndexed all (suc n) ms mid index' (stands_rest all n m ms from)
                (omega (arith, size)) inv' (ground (arith, h, good)) in
            (inv'', mask' ∙ mask)
      ]

-- In the index built for fewer than 2 ^ 31 tokens, looking a text up gives the place of the first
-- token with that text in the vocabulary, or that there is none: what a search of the list gives.
pub find_token-search :
    (tokens : List Token) (index : Index) (text : List ℕ)
    → length tokens < 2 ^ 31
    → build_token_index tokens ≡ ok index
    → find_token tokens index text ≡ ok (search (λ t. same_text t.text text) 0 tokens)
unfolding build_token_index find_token
find_token-search tokens index text small h = elim (Result-cases (index_init (length tokens))) [
  | inl (e, bad) ↦ ground (arith, h, bad)
  | inr (start, good) ↦
      let (inv, room) =
        index_init-IsIndexed (λ (t : Token). t.text) fnv1a64 (λ text t. same_text t.text text)
          token_test_iff tokens (length tokens) start small good in
      let (inv', mask) =
        add_tokens-IsIndexed tokens 0 tokens start index (stands_all tokens) (omega arith) inv
          (ground (arith, h, good)) in
      found-search (λ (t : Token). t.text) fnv1a64 (λ text t. same_text t.text text) token_test_iff
        tokens index inv' (omega (arith, room, mask)) text
]

-- In the index built for fewer than 2 ^ 31 merges, looking a pair up gives the rank of the first merge
-- of the pair, or that there is none.
pub find_merge-search :
    (merges : List Merge) (index : Index) (left right : List ℕ)
    → length merges < 2 ^ 31
    → build_merge_index merges ≡ ok index
    → find_merge merges index left right
      ≡ ok (search (same_merge (record { left = left; right = right })) 0 merges)
unfolding build_merge_index find_merge
find_merge-search merges index left right small h =
    let count = if length merges == 0 then 1 else length merges in
    let count_small : count < 2 ^ 31 = ground (arith, small) in
    let count_ge : length merges ≤ count = ground arith in
    elim (Result-cases (index_init count)) [
      | inl (e, bad) ↦ ground (arith, h, bad)
      | inr (start, good) ↦
          let (inv, room) =
            index_init-IsIndexed (λ m. m) merge_hash same_merge merge_test_iff merges count start
              count_small good in
          let (inv', mask) =
            add_merges-IsIndexed merges 0 merges start index (stands_all merges) (omega arith) inv
              (ground (arith, h, good)) in
          found-search (λ m. m) merge_hash same_merge merge_test_iff merges index inv'
            (omega (arith, room, mask, count_ge)) (record { left = left; right = right })
    ]
