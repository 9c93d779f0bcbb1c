-- ===== src/Tokenizer/Index/Invariant.antt =====
-- src/qx_tokenizer.c: the invariant of the two hash indices, and what a lookup in one gives.
use mathlib.Core.Bool.{true≢false}
use native.Mathlib.Decide.{dec_lt}
use mathlib.Core.Option.{some-injective}
use mathlib.Core.Path.{subst}
use native.Mathlib.Nat.{mod-lt}
use qx_mini_c.Prelude.{
  ℕ, zero, suc, ◌+◌, ◌≤◌, ◌<◌, ◌≡◌, ◌≢◌, ◌↔◌, refl, sym, ap, ◌∙◌, Bool, true, false, List, [], ◌∷◌,
  Option, none, some, ◌==◌, if◌then◌else◌, arith, length, get_elem?, get_or, set, Bool-cases,
  Option-cases, inl, inr, ◌⊎◌,
}
use qx_mini_c.Prelude.Results.{ok, err}
use qx_mini_c.Tokenizer.{Error}
use qx_mini_c.Tokenizer.Index.{Index, Probe, hit, vacant, endless, probe, home, put, found}
use qx_mini_c.Tokenizer.Index.Found.{probe-hit}
use qx_mini_c.Tokenizer.Index.Walk.{
  length-set, probe-set_keeps, probe-set_new, probe-vacant, probe-vacant_inside, probe_finds,
  probe-hit_unique, probe-ne-endless, zeros, zeros-set, zeros_found,
}

Probe-cases :
    (p : Probe) → ((id : ℕ) × (p ≡ hit id)) ⊎ (((slot : ℕ) × (p ≡ vacant slot)) ⊎ (p ≡ endless))
Probe-cases (hit id) = inl (id, refl)
Probe-cases (vacant slot) = inr (inl (slot, refl))
Probe-cases endless = inr (inr refl)

home_inside : (hash mask : ℕ) → home hash mask ≤ mask
home_inside hash mask =
    let inside : home hash mask < mask + 1 = mod-lt _ (omega arith) in omega (arith, inside)

-- The place of the first element that passes a test, counted from `i`.
abbrev pub search {ℓ} : {A : Type ℓ} → (A → Bool) → ℕ → List A → Option ℕ
search p i [] = none
search p i (a ∷ items) = if p a then some i else search p (suc i) items

pub search-some {ℓ} :
    {A : Type ℓ} (p : A → Bool) (i : ℕ) (items : List A) (id : ℕ)
    → search p i items ≡ some id
    → (j : ℕ) × (id ≡ i + j) × (a : A) × (get_elem? items j ≡ some a) × (p a ≡ true)
search-some p i [] id h = ground (arith, h)
search-some p i (a ∷ items) id h = elim (Bool-cases (p a)) [
  | inl yes' ↦ (0, ground (arith, h, yes'), a, refl, yes')
  | inr no' ↦
      let (j, place, b, there, good) = search-some p (suc i) items id (ground (arith, h, no')) in
      (suc j, omega (arith, place), b, there, good)
]

search-none {ℓ} :
    {A : Type ℓ} (p : A → Bool) (i : ℕ) (items : List A) (j : ℕ) (a : A)
    → search p i items ≡ none
    → get_elem? items j ≡ some a
    → p a ≡ false
search-none p i [] j a h there = ground (arith, there)
search-none p i (b ∷ items) zero a h there =
    let same : b ≡ a = some-injective b a there in ground (arith, h, ap p same)
search-none p i (b ∷ items) (suc j) a h there =
    search-none p (suc i) items j a (ground (arith, h)) there

pub get_elem?-inside {ℓ} :
    {A : Type ℓ} (items : List A) (i : ℕ) (a : A) → get_elem? items i ≡ some a → i < length items
get_elem?-inside [] i a h = ground (arith, h)
get_elem?-inside (b ∷ items) zero a h = omega arith
get_elem?-inside (b ∷ items) (suc i) a h = omega (arith, get_elem?-inside items i a h)

module _ {ℓ κ} {A : Type ℓ} {K : Type κ} (key : A → K) (hash : K → ℕ) (test : K → A → Bool)
    (test_iff : (k : K) (a : A) → (test k a ≡ true) ↔ (key a ≡ k)) (all : List A) where
  -- The test of an id against a key.
  abbrev pub is_at : K → ℕ → Bool
  is_at k id = elim (get_elem? all id) [ none ↦ false | some a ↦ test k a ]

  is_at_sound :
      (k : K) (id : ℕ) → is_at k id ≡ true → (a : A) × (get_elem? all id ≡ some a) × (key a ≡ k)
  is_at_sound k id h = elim (Option-cases (get_elem? all id)) [
    | inl missing ↦ ground (arith, h, missing)
    | inr (a, there) ↦ (a, there, (test_iff k a).0 (ground (arith, h, there)))
  ]

  is_at_complete :
      (k : K) (id : ℕ) (a : A) → get_elem? all id ≡ some a → key a ≡ k → is_at k id ≡ true
  is_at_complete k id a there same = rw (there, is_at) ((test_iff k a).1 same)

  abbrev walk : (ℕ → Bool) → Index → ℕ → Probe
  walk same index h = probe same index.slots index.mask (index.mask + 1) (home h index.mask)

  -- The first `n` entries are in the index, each where the loop finds it, and no two have one key.
  pub record IsIndexed (n : ℕ) (index : Index) : Type (ℓ ⊔ κ) where
    pub size : length index.slots ≡ index.mask + 1
    pub room : index.mask + 1 ≤ zeros index.slots + n
    pub placed :
        (id : ℕ) (a : A)
        → id < n
        → get_elem? all id ≡ some a
        → walk (λ x. x == id) index (hash (key a)) ≡ hit id
    pub distinct :
        (i j : ℕ) (a b : A)
        → i < j
        → j < n
        → get_elem? all i ≡ some a
        → get_elem? all j ≡ some b
        → key a ≢ key b

  start_inside : (index : Index) (k : K) → home (hash k) index.mask ≤ index.mask
  start_inside index k = home_inside (hash k) index.mask

  -- A walk that ends at an empty slot has found that no entry has the key.
  fresh :
      (n slot : ℕ) (a : A) (index : Index)
      → IsIndexed n index
      → walk (is_at (key a)) index (hash (key a)) ≡ vacant slot
      → (i : ℕ) (b : A) → i < n
      → get_elem? all i ≡ some b
      → key b ≢ key a
  fresh n slot a index inv walked i b lt at same =
      let placed : walk (λ x. x == i) index (hash (key a)) ≡ hit i =
        subst (λ k. walk (λ x. x == i) index (hash k) ≡ hit i) same (inv.placed i b lt at) in
      let (id, found) =
        probe_finds index.mask (is_at (key a)) index.slots (index.mask + 1)
          (home (hash (key a)) index.mask) i placed (is_at_complete (key a) i b at same) in
      ground (arith, found, walked)

  -- The slot where a walk for a new entry ends takes it in.
  filled-IsIndexed :
      (n slot : ℕ) (a : A) (index : Index)
      → IsIndexed n index
      → get_elem? all n ≡ some a
      → walk (is_at (key a)) index (hash (key a)) ≡ vacant slot
      → IsIndexed (suc n) (record index { slots = set index.slots slot (n + 1) })
  filled-IsIndexed n slot a index inv there walked =
      let start = home (hash (key a)) index.mask in
      let empty =
        probe-vacant index.mask (is_at (key a)) index.slots (index.mask + 1) start slot walked in
      let inside =
        probe-vacant_inside index.mask (is_at (key a)) index.slots (index.mask + 1) start slot
          (start_inside index (key a)) walked in
      let new =
        probe-set_new index.mask (is_at (key a)) index.slots (index.mask + 1) start slot n
          (omega (arith, inside, inv.size)) walked in
      record {
        size = length-set index.slots slot (n + 1) ∙ inv.size;
        room = omega (arith, inv.room, zeros-set index.slots slot (n + 1));
        placed = λ id b lt at. elim (dec_lt id n) [
          | yes old ↦
              probe-set_keeps index.mask index.slots (index.mask + 1)
                (home (hash (key b)) index.mask) slot (n + 1) id empty (inv.placed id b old at)
          | no last ↦
              let same : n ≡ id = omega (arith, lt, last) in
              let entry : a ≡ b = some-injective a b (sym there ∙ ap (get_elem? all) same ∙ at) in
              subst
                (λ i.
                  walk (λ x. x == i) (record index { slots = set index.slots slot (n + 1) })
                    (hash (key b))
                  ≡ hit i)
                same
                (subst
                  (λ c.
                    walk (λ x. x == n) (record index { slots = set index.slots slot (n + 1) })
                      (hash (key c))
                    ≡ hit n)
                  entry new)
        ];
        distinct = λ i j b c lt lt' at at' same. elim (dec_lt j n) [
          | yes old ↦ inv.distinct i j b c lt old at at' same
          | no last ↦
              let final : n ≡ j = omega (arith, lt', last) in
              let entry : a ≡ c = some-injective a c (sym there ∙ ap (get_elem? all) final ∙ at') in
              fresh n slot a index inv walked i b (omega (arith, lt, final)) at
                (same ∙ ap key (sym entry))
        ];
      }

  -- One call of `put` for the next entry keeps the invariant, and fails only on a key that is there.
  pub put-IsIndexed :
      (duplicate : Error) (n : ℕ) (a : A) (index index' : Index)
      → IsIndexed n index
      → get_elem? all n ≡ some a
      → put duplicate (is_at (key a)) (hash (key a)) n index ≡ ok index'
      → IsIndexed (suc n) index' × (index'.mask ≡ index.mask)
  unfolding put
  put-IsIndexed duplicate n a index index' inv there e =
      elim (Probe-cases (walk (is_at (key a)) index (hash (key a)))) [
        | inl (id, walked) ↦ ground (arith, e, walked)
        | inr (inr walked) ↦ ground (arith, e, walked)
        | inr (inl (slot, walked)) ↦
            let filled : Index = record index { slots = set index.slots slot (n + 1) } in
            let same : filled ≡ index' = ground (arith, e, walked) in
            (
              subst (IsIndexed (suc n)) same (filled-IsIndexed n slot a index inv there walked),
              ap (λ x. x.mask) (sym same),
            )
      ]

  some_empty :
      (n : ℕ) (index : Index)
      → IsIndexed n index
      → n ≤ index.mask
      → (i : ℕ) × (i ≤ index.mask) × (get_or index.slots i 0 ≡ 0)
  some_empty n index inv few =
      let (i, inside, empty) = zeros_found index.slots (omega (arith, inv.room, few)) in
      (i, omega (arith, inside, inv.size), empty)

  walk-ne-endless :
      (n : ℕ) (index : Index)
      → IsIndexed n index
      → n ≤ index.mask
      → (same : ℕ → Bool) (k : K) → walk same index (hash k) ≢ endless
  walk-ne-endless n index inv few same k =
      let (i, inside, empty) = some_empty n index inv few in
      probe-ne-endless index.mask same index.slots (home (hash k) index.mask) i
        (start_inside index k) inside empty

  -- With room left, `put` fails only on a key that is there.
  pub put_fails :
      (duplicate : Error) (n : ℕ) (a : A) (index : Index) (e : Error)
      → IsIndexed n index
      → n ≤ index.mask
      → put duplicate (is_at (key a)) (hash (key a)) n index ≡ err e
      → e ≡ duplicate
  unfolding put
  put_fails duplicate n a index e inv few h =
      elim (Probe-cases (walk (is_at (key a)) index (hash (key a)))) [
        | inl (id, walked) ↦ ground (arith, h, walked)
        | inr (inr walked) ↦ absurd (walk-ne-endless n index inv few (is_at (key a)) (key a) walked)
        | inr (inl (slot, walked)) ↦ ground (arith, h, walked)
      ]

  -- No two entries of a full index have one key.
  one_place :
      (index : Index)
      → IsIndexed (length all) index
      → (i j : ℕ) (a b : A) → get_elem? all i ≡ some a
      → get_elem? all j ≡ some b
      → key a ≡ key b
      → i ≡ j
  one_place index inv i j a b at at' same =
      let inside = get_elem?-inside all i a at in
      let inside' = get_elem?-inside all j b at' in
      elim (dec_lt i j) [
        | yes before ↦ absurd (inv.distinct i j a b before inside' at at' same)
        | no not_before ↦ elim (dec_lt j i) [
          | yes after ↦ absurd (inv.distinct j i b a after inside at' at (sym same))
          | no not_after ↦ omega (arith, not_before, not_after)
        ]
      ]

  -- In an index of all entries with a slot left, a lookup finds what a search of the list would.
  pub found-search :
      (index : Index)
      → IsIndexed (length all) index
      → length all ≤ index.mask
      → (k : K) → found (walk (is_at k) index (hash k)) ≡ ok (search (test k) 0 all)
  found-search index inv few k = elim (Option-cases (search (test k) 0 all)) [
    | inl none_there ↦ elim (Probe-cases (walk (is_at k) index (hash k))) [
      | inl (id, walked) ↦
          let (a, there, same) = is_at_sound k id (
            probe-hit (is_at k) index.slots index.mask (index.mask + 1) (home (hash k) index.mask)
              id walked) in
          absurd (
            true≢false
              (sym ((test_iff k a).1 same) ∙ search-none (test k) 0 all id a none_there there))
      | inr (inl (slot, walked)) ↦ ap found walked ∙ ap ok (sym none_there)
      | inr (inr walked) ↦ absurd (walk-ne-endless (length all) index inv few (is_at k) k walked)
    ]
    | inr (id, there) ↦
        let (j, place, a, at, good) = search-some (test k) 0 all id there in
        let here : j ≡ id = omega (arith, place) in
        let at_id : get_elem? all id ≡ some a = ap (get_elem? all) (sym here) ∙ at in
        let same = (test_iff k a).0 good in
        let placed : walk (λ x. x == id) index (hash k) ≡ hit id =
          subst (λ q. walk (λ x. x == id) index (hash q) ≡ hit id) same
            (inv.placed id a (get_elem?-inside all id a at_id) at_id) in
        let hits =
          probe-hit_unique index.mask (is_at k) index.slots (index.mask + 1)
            (home (hash k) index.mask) id placed (is_at_complete k id a at_id same)
            (λ id' other.
              let (b, at', same') = is_at_sound k id' other in
              one_place index inv id' id b a at' at_id (same' ∙ sym same)) in
        ap found hits ∙ ap ok (sym there)
  ]
