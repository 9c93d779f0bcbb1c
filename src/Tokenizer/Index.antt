-- ===== src/Tokenizer/Index.antt =====
-- src/qx_tokenizer.c: the two hash indices, open addressing by the hash that the source
-- calls FNV-1a, from a basis of its own. `mask` is one less
-- than a power of two, so `x & mask` is x % (mask + 1). A slot holds an id and one, or 0.
pub mod Found
pub mod Walk
pub mod Invariant
pub mod Search
pub mod Built
use Prim.Native.Nat.{bit_xor}
use qx_mini_c.Prelude.Bytes.{same_text}
use qx_mini_c.Prelude.{
  ℕ, zero, suc, ◌+◌, ◌-◌, ◌*◌, ◌%◌, ◌^◌, Bool, true, false, ◌&&◌, List, [], ◌∷◌, Option, none, some,
  ltb, ◌==◌, if◌then◌else◌, length, get_or, get_elem?, mul64, u32_mod, set, replicate,
}
use qx_mini_c.Prelude.Results.{Result, ok, err}
use qx_mini_c.Tokenizer.{
  Token, Merge, Error, hash_size_overflow, duplicate_token, duplicate_merge, no_fuel,
}

pub record Index : Type 0 where
  pub slots : List ℕ
  pub mask : ℕ

abbrev pub fnv_prime : ℕ
fnv_prime = 1099511628211

-- The rounds of the hash, from a value on.
unfoldable pub fnv_from : ℕ → List ℕ → ℕ
fnv_from value [] = value
fnv_from value (b ∷ bs) = fnv_from (mul64 (bit_xor value b) fnv_prime) bs

unfoldable pub fnv1a64 : List ℕ → ℕ
unfolding fnv_from
fnv1a64 bytes = fnv_from 1469598103934665603 bytes

unfoldable pub hash_pair : List ℕ → List ℕ → ℕ
unfolding fnv_from
hash_pair left right = fnv_from (mul64 (bit_xor (fnv1a64 left) 0) fnv_prime) right

-- The loop of qx_tok_index_init that doubles the size.
unfoldable pub index_size : ℕ → ℕ → ℕ → Result Error ℕ
index_size zero size wanted = err no_fuel
index_size (suc fuel) size wanted =
    let rest = index_size fuel (size * 2) wanted in
    if ltb size wanted
    then (if ltb (2 ^ 30) size then err hash_size_overflow else rest)
    else ok size

unfoldable pub index_init : ℕ → Result Error Index
unfolding index_size
index_init count = elim (index_size 32 1 (count * 2 % u32_mod)) [
  | err e ↦ err e
  | ok size ↦ ok (record { slots = replicate size 0; mask = size - 1 })
]

-- Where the loop over the slots ends: at an id that is the one looked for, or at an empty slot.
pub data Probe : Type 0 where
  hit : ℕ → Probe
  vacant : ℕ → Probe
  endless : Probe

-- The loop `while (index->slots[slot] != 0u)` that building and finding share, on fuel.
unfoldable pub probe : (ℕ → Bool) → List ℕ → ℕ → ℕ → ℕ → Probe
probe same slots mask zero slot = endless
probe same slots mask (suc fuel) slot =
    let rest = probe same slots mask fuel ((slot + 1) % (mask + 1)) in
    let value = get_or slots slot 0 in
    if value == 0 then vacant slot else if same (value - 1) then hit (value - 1) else rest

abbrev pub home : ℕ → ℕ → ℕ
home hash mask = hash % u32_mod % (mask + 1)

-- One id put in: `same` compares an id with the entry, whose hash is given.
unfoldable pub put : Error → (ℕ → Bool) → ℕ → ℕ → Index → Result Error Index
unfolding probe
put duplicate same hash id index =
    elim (probe same index.slots index.mask (index.mask + 1) (home hash index.mask)) [
      | hit prior ↦ err duplicate
      | vacant slot ↦ ok (record index { slots = set index.slots slot (id + 1) })
      | endless ↦ err no_fuel
    ]

abbrev pub is_token : List Token → List ℕ → ℕ → Bool
is_token tokens text id = elim (get_elem? tokens id) [
  | none ↦ false
  | some t ↦ same_text t.text text
]

abbrev pub is_merge : List Merge → List ℕ → List ℕ → ℕ → Bool
is_merge merges left right rank = elim (get_elem? merges rank) [
  | none ↦ false
  | some m ↦ same_text m.left left && same_text m.right right
]

-- The loop of qx_tok_build_token_index from `id` on, and that of qx_tok_build_merge_index.
unfoldable pub add_tokens : List Token → ℕ → List Token → Index → Result Error Index
unfolding put
add_tokens all id [] index = ok index
add_tokens all id (t ∷ ts) index =
    elim (put duplicate_token (is_token all t.text) (fnv1a64 t.text) id index) [
      | err e ↦ err e
      | ok index' ↦ add_tokens all (suc id) ts index'
    ]

unfoldable pub add_merges : List Merge → ℕ → List Merge → Index → Result Error Index
unfolding put
add_merges all rank [] index = ok index
add_merges all rank (m ∷ ms) index =
    elim (put duplicate_merge (is_merge all m.left m.right) (hash_pair m.left m.right) rank index) [
      | err e ↦ err e
      | ok index' ↦ add_merges all (suc rank) ms index'
    ]

unfoldable pub build_token_index : List Token → Result Error Index
unfolding index_init add_tokens
build_token_index tokens = elim (index_init (length tokens)) [
  | err e ↦ err e
  | ok index ↦ add_tokens tokens 0 tokens index
]

unfoldable pub build_merge_index : List Merge → Result Error Index
unfolding index_init add_merges
build_merge_index merges = elim (index_init (if length merges == 0 then 1 else length merges)) [
  | err e ↦ err e
  | ok index ↦ add_merges merges 0 merges index
]

-- What a finished loop means for a caller that only looks.
abbrev pub found : Probe → Result Error (Option ℕ)
found (hit id) = ok (some id)
found (vacant slot) = ok none
found endless = err no_fuel

unfoldable pub find_token : List Token → Index → List ℕ → Result Error (Option ℕ)
unfolding probe
find_token tokens index text = found (
    probe (is_token tokens text) index.slots index.mask (index.mask + 1)
      (home (fnv1a64 text) index.mask))

unfoldable pub find_merge : List Merge → Index → List ℕ → List ℕ → Result Error (Option ℕ)
unfolding probe
find_merge merges index left right = found (
    probe (is_merge merges left right) index.slots index.mask (index.mask + 1)
      (home (hash_pair left right) index.mask))
