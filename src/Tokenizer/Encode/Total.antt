-- ===== src/Tokenizer/Encode/Total.antt =====
-- src/qx_tokenizer.c: the loops of qx_tokenizer_encode, and how they end.
use qx_mini_c.Prelude.Bytes.{same_text}
use qx_mini_c.Prelude.{
  ℕ, suc, ◌+◌, ◌^◌, ◌≤◌, ◌<◌, ◌≡◌, refl, sym, ap, ◌∙◌, Bool, true, false, not, List, [], ◌∷◌, ◌++◌,
  Option, none, some, arith, length, drop, Bool-cases, Option-cases, inl, inr, u32_max,
}
use qx_mini_c.Prelude.Results.{Result, ok, err, Result-cases}
use qx_mini_c.Tokenizer.{Tokenizer, Merge, Error, no_fuel, work_limit, no_progress}
use qx_mini_c.Tokenizer.Utf8.{utf8_next}
use qx_mini_c.Tokenizer.Index.{Index, build_token_index, build_merge_index, find_token, find_merge}
use qx_mini_c.Tokenizer.Index.Invariant.{get_elem?-inside, search, search-some}
use qx_mini_c.Tokenizer.Index.Search.{same_merge, find_token-search, find_merge-search}
use qx_mini_c.Tokenizer.Bpe.{emit, byte_symbols, bpe_limit, bpe_chunk}
use qx_mini_c.Tokenizer.Bpe.Rounds.{merge_loop-Merged, triangle, triangle_limit}
use qx_mini_c.Tokenizer.Pretoken.{
  Class, letter, number, space, newline, other, unsupported, char_at, is_class, next_char,
  chunk_rest, plain_length, pretoken_length,
}

-- The error is one of a loop that did not end, or of a limit on its work.
abbrev pub internal : Error → Bool
internal no_fuel = true
internal work_limit = true
internal no_progress = true
internal _ = false

abbrev pub ends {ℓ} : {A : Type ℓ} → Result Error A → Bool
ends (ok a) = true
ends (err e) = not (internal e)

abbrev known : Class → Bool
known unsupported = false
known _ = true

char_at_known : (s : List ℕ) (k : Class) (w : ℕ) → char_at s ≡ some (k, w) → known k ≡ true
unfolding char_at
char_at_known s k w h = elim (Option-cases (utf8_next s)) [
  | inl bad ↦ ground (arith, h, bad)
  | inr ((cp, width), good) ↦ ground (arith, h, good)
]

blank_ends :
    (s : List ℕ) (width : ℕ) (next : Option (Class × ℕ))
    → ends (chunk_rest s space width next) ≡ true
unfolding chunk_rest
blank_ends s width none = ground arith
blank_ends s width (some (letter, w)) = ground arith
blank_ends s width (some (number, w)) = ground arith
blank_ends s width (some (space, w)) = ground arith
blank_ends s width (some (newline, w)) = ground arith
blank_ends s width (some (other, w)) = ground arith
blank_ends s width (some (unsupported, w)) = ground arith

chunk_rest_ends :
    (s : List ℕ) (first : Class) (width : ℕ) (next : Option (Class × ℕ))
    → known first ≡ true
    → is_class letter first ≡ false
    → ends (chunk_rest s first width next) ≡ true
unfolding chunk_rest
chunk_rest_ends s letter width next h h' = ground (arith, h')
chunk_rest_ends s number width next h h' = refl
chunk_rest_ends s space width next h h' = blank_ends s width next
chunk_rest_ends s newline width next h h' = refl
chunk_rest_ends s other width next h h' = refl
chunk_rest_ends s unsupported width next h h' = ground (arith, h)

next_char_ends : (s : List ℕ) → ends (next_char s) ≡ true
unfolding next_char
next_char_ends [] = refl
next_char_ends (a ∷ s) = ground arith

plain_length_ends :
    (s : List ℕ) (first : Class) (width : ℕ)
    → known first ≡ true
    → ends (plain_length s first width) ≡ true
unfolding plain_length
plain_length_ends s first width h = elim (Bool-cases (is_class letter first)) [
  | inl yes' ↦ ground (arith, yes')
  | inr no' ↦ elim (Result-cases (next_char (drop width s))) [
    | inl (e, bad) ↦ ground (
      arith,
      no',
      bad,
      ap ends (sym bad) ∙ next_char_ends (drop width s),
      chunk_rest_ends s first width none h no',
    )
    | inr (next, there) ↦ ground (
      arith,
      no',
      there,
      chunk_rest_ends s first width none h no',
      chunk_rest_ends s first width next h no',
    )
  ]
]

pub pretoken_length_ends : (s : List ℕ) → ends (pretoken_length s) ≡ true
unfolding pretoken_length
pretoken_length_ends s = elim (Option-cases (char_at s)) [
  | inl bad ↦ ground (arith, bad)
  | inr ((first, width), good) ↦
      ground (arith, good, plain_length_ends s first width (char_at_known s first width good))
]

emit_ends :
    (find : List ℕ → Result Error (Option ℕ)) (answer : List ℕ → Option ℕ)
    (answers : (s : List ℕ) → find s ≡ ok (answer s)) (capacity : ℕ) (ss : List (List ℕ))
    (ids : List ℕ)
    → ends (emit find capacity ss ids) ≡ true
unfolding emit
emit_ends find answer answers capacity [] ids = refl
emit_ends find answer answers capacity (s ∷ ss) ids = elim (Option-cases (answer s)) [
  | inl missing ↦ ground (arith, answers s, missing)
  | inr (id, there) ↦
      ground (arith, answers s, there, emit_ends find answer answers capacity ss (ids ++ id ∷ []))
]

byte_symbols-length : (chunk : List ℕ) → length (byte_symbols chunk) ≡ length chunk
byte_symbols-length [] = refl
byte_symbols-length (b ∷ chunk) = ap suc (byte_symbols-length chunk)

rank_small :
    (merges : List Merge) (k : Merge) (r : ℕ)
    → length merges < 2 ^ 31
    → search (same_merge k) 0 merges ≡ some r
    → r < u32_max
rank_small merges k r small h =
    let (j, place, m, at, same) = search-some (same_merge k) 0 merges r h in
    omega (arith, place, small, get_elem?-inside merges j m at)

-- On the indices that were built, the merging of a chunk ends within the limit on its work.
pub bpe_chunk_ends :
    (tok : Tokenizer) (ti mi : Index) (chunk : List ℕ) (capacity : ℕ) (ids : List ℕ)
    → length tok.tokens < 2 ^ 31
    → length tok.merges < 2 ^ 31
    → build_token_index tok.tokens ≡ ok ti
    → build_merge_index tok.merges ≡ ok mi
    → length chunk < u32_max
    → ends (bpe_chunk tok ti mi chunk capacity ids) ≡ true
unfolding bpe_chunk
bpe_chunk_ends tok ti mi chunk capacity ids few few' tokens_built merges_built short =
    let rank : List ℕ → List ℕ → Option ℕ =
      λ a b. search (same_merge (record { left = a; right = b })) 0 tok.merges in
    let count = byte_symbols-length chunk in
    let room : 0 + triangle (length (byte_symbols chunk)) ≤ bpe_limit (length chunk) =
      rw (count, triangle_limit (length chunk)) (omega arith) in
    let (ss, merged, whole) =
      merge_loop-Merged (find_merge tok.merges mi) rank
        (λ a b. find_merge-search tok.merges mi a b few' merges_built)
        (λ a b r. rank_small tok.merges (record { left = a; right = b }) r few')
        (bpe_limit (length chunk)) (length chunk + 1) 0 (byte_symbols chunk) (omega (arith, count))
        (omega (arith, count, short)) room in
    let last =
      emit_ends (find_token tok.tokens ti)
        (λ text. search (λ t. same_text t.text text) 0 tok.tokens)
        (λ text. find_token-search tok.tokens ti text few tokens_built) capacity ss ids in
    ground (arith, merged, last)
