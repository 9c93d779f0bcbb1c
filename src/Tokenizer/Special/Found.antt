-- ===== src/Tokenizer/Special/Found.antt =====
-- src/qx_tokenizer.c: what qx_tok_match_special finds.
use mathlib.Core.Path.{ap₂}
use qx_mini_c.Prelude.{
  ℕ, suc, ◌+◌, ◌≤◌, ◌<◌, ◌≡◌, refl, sym, true, List, [], ◌∷◌, some, ltb, ◌&&◌, not, arith, length,
  take, get_elem?, Bool-cases, ◌⊎◌, inl, inr,
}
use qx_mini_c.Tokenizer.{Token}
use qx_mini_c.Tokenizer.Decode.{is_special}
use qx_mini_c.Tokenizer.Special.{is_prefix, Match, match_from, match_special}

pub is_prefix_sound : (x s : List ℕ) → is_prefix x s ≡ true → take (length x) s ≡ x
unfolding is_prefix
is_prefix_sound [] s h = refl
is_prefix_sound (c ∷ cs) [] h = ground (arith, h)
is_prefix_sound (c ∷ cs) (d ∷ s) h =
    let head : c ≡ d = ground (arith, h) in
    ap₂ ◌∷◌ (sym head) (is_prefix_sound cs s (ground (arith, h)))

-- A special token of the vocabulary that stands at the start of the input.
pub record IsMatch (tokens : List Token) (input : List ℕ) (id matched : ℕ) : Type 0 where
  pub token : Token
  pub there : get_elem? tokens id ≡ some token
  pub special : is_special token ≡ true
  pub size : matched ≡ length token.text
  pub fits : length token.text ≤ length input
  pub start : take (length token.text) input ≡ token.text

module _ (input : List ℕ) where
  later :
      (t : Token) (ts : List Token) (j matched : ℕ)
      → IsMatch ts input j matched
      → IsMatch (t ∷ ts) input (suc j) matched
  later t ts j matched m = record {
    token = m.token;
    there = m.there;
    special = m.special;
    size = m.size;
    fits = m.fits;
    start = m.start;
  }

  match_from_sound :
      (ts : List Token) (id : ℕ) (best m : Match)
      → match_from ts id input best ≡ m
      → (m ≡ best) ⊎ ((j : ℕ) × (m.id ≡ id + j) × IsMatch ts input j m.matched)
  unfolding match_from
  match_from_sound [] id best m h = inl (sym h)
  match_from_sound (t ∷ ts) id best m h =
      elim (Bool-cases (
        is_special t
        && not (ltb (length input) (length t.text))
        && ltb best.matched (length t.text)
        && is_prefix t.text input)) [
          | inl takes ↦
              elim (match_from_sound ts (suc id) (record { id = id; matched = length t.text }) m
                (rw takes at h)) [
                  | inl kept ↦ inr (
                    0,
                    ground (arith, kept),
                    record {
                      token = t;
                      there = refl;
                      special = ground (arith, takes);
                      size = ground (arith, kept);
                      fits = ground (arith, takes);
                      start = is_prefix_sound t.text input (ground (arith, takes));
                    },
                  )
                  | inr (j, e, found) ↦ inr (suc j, omega (arith, e), later t ts j m.matched found)
                ]
          | inr passes ↦ elim (match_from_sound ts (suc id) best m (rw passes at h)) [
            | inl kept ↦ inl kept
            | inr (j, e, found) ↦ inr (suc j, omega (arith, e), later t ts j m.matched found)
          ]
        ]

-- What qx_tok_match_special finds is a special token, at its id, whose text is not empty and stands
-- at the start of the input.
pub match_special-IsMatch :
    (tokens : List Token) (input : List ℕ) (m : Match)
    → match_special tokens input ≡ some m
    → (0 < m.matched) × IsMatch tokens input m.id m.matched
unfolding match_special
match_special-IsMatch tokens input m h =
    let none_yet : Match = record { id = 0; matched = 0 } in
    let best = match_from tokens 0 input none_yet in
    let same : best ≡ m = ground (arith, h) in
    let pos : 0 < m.matched = ground (arith, h, same) in
    elim (match_from_sound input tokens 0 none_yet m same) [
      | inl nothing ↦ ground (arith, nothing, pos)
      | inr (j, e, found) ↦ let id : j ≡ m.id = omega (arith, e) in (pos, rw id at found)
    ]
