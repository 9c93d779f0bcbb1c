-- ===== src/Snapshot/Order.antt =====
-- src/qx_format.c: which slots the loops of a snapshot go through, and what is stored in them.
use mathlib.Core.Path.{ap₂}
use native.Mathlib.Nat.{div-add-mod', mod-lt, mul-le-mul_right, suc-mul}
use qx_mini_c.Prelude.{
  get_or-set, length-set, ℕ, zero, suc, ◌+◌, ◌*◌, ◌/◌, ◌%◌, ◌≤◌, ◌<◌, ◌≡◌, refl, ap, ◌∙◌, Bool,
  true, false, ◌||◌, ◌&&◌, List, [], ◌∷◌, ◌++◌, map, length, get_or, set, flatten, ltb, leb, ◌==◌,
  if◌then◌else◌, arith, Bool-cases, ◌⊎◌, inl, inr,
}
use qx_mini_c.Snapshot.{Config, Slot, blank, range, slot_order}
use qx_mini_c.Snapshot.Print.{store}
use qx_mini_c.Snapshot.Written.{written_slots}

-- Whether a number is in a list.
unfoldable pub has : List ℕ → ℕ → Bool
has [] i = false
has (x ∷ xs) i = x == i || has xs i

has-append : (xs ys : List ℕ) (i : ℕ) → has (xs ++ ys) i ≡ (has xs i || has ys i)
unfolding has
has-append [] ys i = refl
has-append (x ∷ xs) ys i = ground (arith, has-append xs ys i)

-- The positions of a layer.
has_row :
    (base from n i : ℕ)
    → has (map (λ position. base + position) (range from n)) i
      ≡ (leb (base + from) i && ltb i (base + from + n))
unfolding has
has_row base from zero i = ground arith
has_row base from (suc n) i = ground (arith, has_row base (suc from) n i)

layer_below : (ctx layer q : ℕ) → layer < q → layer * ctx + ctx ≤ q * ctx
layer_below ctx layer q h =
    let more : suc layer * ctx ≤ q * ctx = mul-le-mul_right ctx (omega (arith, h)) in
    omega (arith, more, suc-mul layer ctx)

-- A slot `b + r` in layer `q` is not in a layer that starts elsewhere, at `a`.
in_layer :
    (a b ctx positions layer q r i : ℕ)
    → positions ≤ ctx
    → b + r ≡ i
    → r < ctx
    → (layer < q) × (a + ctx ≤ b) ⊎ (layer ≡ q) × (a ≡ b) ⊎ (q < layer) × (b + ctx ≤ a)
    → (leb (a + 0) i && ltb i (a + 0 + positions)) ≡ (layer == q && ltb r positions)
in_layer a b ctx positions layer q r i fits split small (inl (lt, below)) =
    ground (arith, fits, split, small, lt, below)
in_layer a b ctx positions layer q r i fits split small (inr (inl (eq, same))) =
    ground (arith, fits, split, small, eq, same)
in_layer a b ctx positions layer q r i fits split small (inr (inr (gt, above))) =
    ground (arith, fits, split, small, gt, above)

starts :
    (ctx layer q : ℕ)
    → (layer < q) × (layer * ctx + ctx ≤ q * ctx)
      ⊎ (layer ≡ q) × (layer * ctx ≡ q * ctx)
      ⊎ (q < layer) × (q * ctx + ctx ≤ layer * ctx)
starts ctx layer q = elim (Bool-cases (ltb layer q)) [
  | inl lt ↦
      let below : layer < q = ground (arith, lt) in inl (below, layer_below ctx layer q below)
  | inr ge ↦ elim (Bool-cases (layer == q)) [
    | inl eq ↦ let same : layer ≡ q = ground (arith, eq) in inr (inl (same, ap (λ l. l * ctx) same))
    | inr ne ↦
        let above : q < layer = ground (arith, ge, ne) in
        inr (inr (above, layer_below ctx q layer above))
  ]
]

-- A slot is a position of just the layer its number divided by the context gives.
one_layer :
    (ctx positions layer i : ℕ)
    → positions ≤ ctx
    → 0 < ctx
    → (leb (layer * ctx + 0) i && ltb i (layer * ctx + 0 + positions))
      ≡ (layer == i / ctx && ltb (i % ctx) positions)
one_layer ctx positions layer i fits some_ctx =
    in_layer (layer * ctx) (i / ctx * ctx) ctx positions layer (i / ctx) (i % ctx) i fits
      (div-add-mod' i ctx) (mod-lt i some_ctx) (starts ctx layer (i / ctx))

next_layer :
    (from n q : ℕ) (b : Bool)
    → (from == q && b || leb (suc from) q && ltb q (suc from + n) && b)
      ≡ (leb from q && ltb q (from + suc n) && b)
next_layer from n q b = ground arith

layers_have :
    (ctx positions from n i : ℕ)
    → positions ≤ ctx
    → 0 < ctx
    → has
        (flatten (
          map
            (λ layer. map (λ position. layer * ctx + position) (range 0 positions))
            (range from n)))
        i
      ≡ (leb from (i / ctx) && ltb (i / ctx) (from + n) && ltb (i % ctx) positions)
unfolding has
layers_have ctx positions from zero i fits some_ctx = ground arith
layers_have ctx positions from (suc n) i fits some_ctx =
    let row = map (λ position. from * ctx + position) (range 0 positions) in
    let more = flatten (
      map (λ layer. map (λ position. layer * ctx + position) (range 0 positions))
        (range (suc from) n)) in
    let here = has_row (from * ctx) 0 positions i ∙ one_layer ctx positions from i fits some_ctx in
    let later = layers_have ctx positions (suc from) n i fits some_ctx in
    has-append row more i
    ∙ ap₂ ◌||◌ here later
    ∙ next_layer from n (i / ctx) (ltb (i % ctx) positions)

from_zero : (q n : ℕ) → (leb 0 q && ltb q (0 + n)) ≡ ltb q n
from_zero q n = ground arith

pub has-slot_order :
    (cfg : Config) (positions i : ℕ)
    → 0 < positions
    → positions ≤ cfg.ctx_tokens
    → has (slot_order cfg positions) i
      ≡ (ltb (i / cfg.ctx_tokens) cfg.layers && ltb (i % cfg.ctx_tokens) positions)
has-slot_order cfg positions i pos fits =
    layers_have cfg.ctx_tokens positions 0 cfg.layers i fits (omega (arith, pos, fits))
    ∙ ap (λ b. b && ltb (i % cfg.ctx_tokens) positions) (from_zero (i / cfg.ctx_tokens) cfg.layers)

pick {ℓ} :
    {A : Type ℓ} (same again : Bool) (c x o : A)
    → x ≡ (if same then c else o)
    → (if again then c else x) ≡ (if same || again then c else o)
pick true true c x o h = refl
pick true false c x o h = h
pick false true c x o h = refl
pick false false c x o h = h

same_slot :
    (cache : List Slot) (slot i : ℕ) (o : Slot)
    → (if slot == i then get_or cache slot blank else o)
      ≡ (if slot == i then get_or cache i blank else o)
same_slot cache slot i o = elim (Bool-cases (slot == i)) [
  | inl eq ↦
      let same : slot ≡ i = ground (arith, eq) in
      ap (λ s. if slot == i then get_or cache s blank else o) same
  | inr ne ↦ rw ne refl
]

-- Slots of one cache stored in another.
pub store-written :
    (cache old : List Slot) (slots : List ℕ) (i : ℕ)
    → i < length old
    → get_or (store slots (written_slots cache slots) old) i blank
      ≡ (if has slots i then get_or cache i blank else get_or old i blank)
unfolding has
store-written cache old [] i h = refl
store-written cache old (slot ∷ slots) i h =
    let s = get_or cache slot blank in
    store-written cache (set old slot s) slots i (omega (arith, h, length-set old slot s))
    ∙ pick (slot == i) (has slots i) (get_or cache i blank) (get_or (set old slot s) i blank)
        (get_or old i blank)
        (get_or-set old slot i s blank h ∙ same_slot cache slot i (get_or old i blank))
