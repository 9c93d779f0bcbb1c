-- ===== src/Tokenizer/Special/Longest.antt =====
-- src/qx_tokenizer.c: qx_tok_match_special, against a search for the longest special token.
use qx_mini_c.Prelude.Bytes.{same_text}
use qx_mini_c.Prelude.{
  ℕ, suc, ◌≤◌, ◌<◌, ◌≡◌, refl, sym, ap, ◌∙◌, Bool, true, false, not, ◌&&◌, ◌||◌, List, [], ◌∷◌,
  Option, none, some, ltb, leb, ◌==◌, if◌then◌else◌, arith, length, take, Bool-cases, Option-cases,
  inl, inr,
}
use qx_mini_c.Tokenizer.{Token}
use qx_mini_c.Tokenizer.Decode.{is_special}
use qx_mini_c.Tokenizer.Special.{is_prefix, Match, match_from, match_special}

-- A control or user-defined token, of kind 3 or 4, with a text that is not empty and that the input starts with.
unfoldable pub is_candidate : List ℕ → Token → Bool
is_candidate input t =
    (t.kind == 3 || t.kind == 4)
    && ltb 0 (length t.text)
    && same_text (take (length t.text) input) t.text

-- Of the tokens from `id` on, the longest candidate; of two that are as long, the one before.
unfoldable pub longest : List ℕ → ℕ → List Token → Option Match
longest input id [] = none
longest input id (t ∷ ts) =
    let here : Match = record { id = id; matched = length t.text } in
    elim (longest input (suc id) ts) [
      | none ↦ if is_candidate input t then some here else none
      | some m ↦ if is_candidate input t && leb m.matched (length t.text) then some here else some m
    ]

is_prefix-take : (x s : List ℕ) → is_prefix x s ≡ same_text (take (length x) s) x
unfolding is_prefix same_text
is_prefix-take [] s = refl
is_prefix-take (c ∷ cs) [] = refl
is_prefix-take (c ∷ cs) (d ∷ s) = ground (arith, is_prefix-take cs s)

is_prefix-fits : (x s : List ℕ) → is_prefix x s ≡ true → length x ≤ length s
unfolding is_prefix
is_prefix-fits [] s h = omega arith
is_prefix-fits (c ∷ cs) [] h = ground (arith, h)
is_prefix-fits (c ∷ cs) (d ∷ s) h =
    let rest : is_prefix cs s ≡ true = ground (arith, h) in omega (arith, is_prefix-fits cs s rest)

-- The test of the loop is that of a candidate that is longer than the match so far.
loop_test :
    (input : List ℕ) (t : Token) (best : ℕ)
    → (is_special t
        && not (ltb (length input) (length t.text))
        && ltb best (length t.text)
        && is_prefix t.text input)
      ≡ (is_candidate input t && ltb best (length t.text))
unfolding is_candidate is_special
loop_test input t best = elim (Bool-cases (is_prefix t.text input)) [
  | inl starts ↦
      let fits = is_prefix-fits t.text input starts in
      let same : same_text (take (length t.text) input) t.text ≡ true =
        sym (is_prefix-take t.text input) ∙ starts in
      ground (arith, starts, fits, same)
  | inr other ↦
      let same : same_text (take (length t.text) input) t.text ≡ false =
        sym (is_prefix-take t.text input) ∙ other in
      ground (arith, other, same)
]

-- A match that goes on, against what the rest has.
abbrev improved : Match → Option Match → Match
improved best none = best
improved best (some m) = if ltb best.matched m.matched then m else best

improved-once :
    (best here : Match) (takes : Bool) (rest : Option Match)
    → improved (if takes && ltb best.matched here.matched then here else best) rest
      ≡ improved best (elim rest as (λ x. Option Match) [
        | none ↦ if takes then some here else none
        | some m ↦ if takes && leb m.matched here.matched then some here else some m
      ])
improved-once best here false none = refl
improved-once best here false (some m) = refl
improved-once best here true none = refl
improved-once best here true (some m) = elim (Bool-cases (ltb best.matched here.matched)) [
  | inl over ↦ elim (Bool-cases (leb m.matched here.matched)) [
    | inl less ↦
        let no : ltb here.matched m.matched ≡ false = ground (arith, less) in
        rw (over, less, no, over) refl
    | inr more ↦
        let e1 : ltb here.matched m.matched ≡ true = ground (arith, more) in
        let e2 : ltb best.matched m.matched ≡ true = ground (arith, more, over) in
        rw (over, more, e1, e2) refl
  ]
  | inr under ↦ elim (Bool-cases (leb m.matched here.matched)) [
    | inl less ↦
        let no : ltb best.matched m.matched ≡ false = ground (arith, less, under) in
        rw (under, less, no, under) refl
    | inr more ↦ rw (under, more) refl
  ]
]

match_from-longest :
    (input : List ℕ) (ts : List Token) (id : ℕ) (best : Match)
    → match_from ts id input best ≡ improved best (longest input id ts)
unfolding match_from longest
match_from-longest input [] id best = refl
match_from-longest input (t ∷ ts) id best =
    let here : Match = record { id = id; matched = length t.text } in
    ap (λ b. match_from ts (suc id) input (if b then here else best))
      (loop_test input t best.matched)
    ∙ match_from-longest input ts (suc id)
        (if is_candidate input t && ltb best.matched (length t.text) then here else best)
    ∙ improved-once best here (is_candidate input t) (longest input (suc id) ts)

-- What is found is not empty.
longest_pos :
    (input : List ℕ) (ts : List Token) (id : ℕ) (m : Match)
    → longest input id ts ≡ some m
    → 0 < m.matched
unfolding longest is_candidate
longest_pos input [] id m h = ground (arith, h)
longest_pos input (t ∷ ts) id m h = elim (Option-cases (longest input (suc id) ts)) [
  | inl nothing ↦ ground (arith, h, nothing)
  | inr (later, found) ↦
      let pos = longest_pos input ts (suc id) later found in ground (arith, h, found, pos)
]

-- On any vocabulary and input, qx_tok_match_special finds the longest of the tokens of kind 3 and 4
-- with a text that is not empty and that the input starts with, and of those as long the one with
-- the least id; it finds none when there is no such token.
pub match_special-longest :
    (tokens : List Token) (input : List ℕ) → match_special tokens input ≡ longest input 0 tokens
unfolding match_special
match_special-longest tokens input =
    let none_yet : Match = record { id = 0; matched = 0 } in
    let all = match_from-longest input tokens 0 none_yet in
    elim (Option-cases (longest input 0 tokens)) [
      | inl nothing ↦
          let best = all ∙ ap (improved none_yet) nothing in
          ap (λ (b : Match). if b.matched == 0 then none else some b) best ∙ sym nothing
      | inr (m, found) ↦
          let pos = longest_pos input tokens 0 m found in
          let over : ltb 0 m.matched ≡ true = ground (arith, pos) in
          let some_bytes : (m.matched == 0) ≡ false = ground (arith, pos) in
          let best =
            all ∙ ap (improved none_yet) found ∙ ap (λ b. if b then m else none_yet) over in
          ap (λ (b : Match). if b.matched == 0 then none else some b) best
          ∙ ap (λ b. if b then none else some m) some_bytes
          ∙ sym found
    ]
