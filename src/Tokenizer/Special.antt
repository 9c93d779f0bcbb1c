-- ===== src/Tokenizer/Special.antt =====
-- src/qx_tokenizer.c: qx_tok_match_special and qx_tok_next_special_offset.
pub mod Found
pub mod Longest
use qx_mini_c.Prelude.{
  ℕ, zero, suc, ◌+◌, ◌-◌, Bool, true, false, not, ◌&&◌, ◌||◌, List, [], ◌∷◌, Option, none, some,
  ltb, ◌==◌, if◌then◌else◌, length, drop,
}
use qx_mini_c.Tokenizer.{Token}
use qx_mini_c.Tokenizer.Decode.{is_special}

-- `memcmp(input, text, length) == 0`, where the input is long enough.
unfoldable pub is_prefix : List ℕ → List ℕ → Bool
is_prefix [] s = true
is_prefix (c ∷ cs) [] = false
is_prefix (c ∷ cs) (d ∷ s) = c == d && is_prefix cs s

-- The id and the length of the match so far; no match has length 0.
pub record Match : Type 0 where
  pub id : ℕ
  pub matched : ℕ

-- The loop over the vocabulary, from `id` on.
unfoldable pub match_from : List Token → ℕ → List ℕ → Match → Match
unfolding is_prefix
match_from [] id input best = best
match_from (t ∷ ts) id input best = match_from ts (suc id) input (
    if is_special t
      && not (ltb (length input) (length t.text))
      && ltb best.matched (length t.text)
      && is_prefix t.text input
    then record { id = id; matched = length t.text }
    else best)

unfoldable pub match_special : List Token → List ℕ → Option Match
unfolding match_from
match_special tokens input =
    let best = match_from tokens 0 input (record { id = 0; matched = 0 }) in
    if best.matched == 0 then none else some best

-- The loop over the candidates, from `candidate` on; `s` is the input there.
unfoldable pub first_at : List ℕ → List ℕ → ℕ → ℕ → ℕ
unfolding is_prefix
first_at text [] candidate earliest = earliest
first_at text (c ∷ s) candidate earliest =
    let later = first_at text s (suc candidate) earliest in
    if ltb earliest (candidate + length text)
    then earliest
    else if is_prefix text (c ∷ s)
    then candidate
    else later

-- The loop over the vocabulary; offsets count from the start of `s`.
unfoldable pub next_special : List Token → List ℕ → ℕ → ℕ
unfolding first_at
next_special [] s earliest = earliest
next_special (t ∷ ts) s earliest = next_special ts s (
    if not (is_special t) || length t.text == 0 || ltb (length s) (length t.text)
    then earliest
    else first_at t.text s 0 earliest)
