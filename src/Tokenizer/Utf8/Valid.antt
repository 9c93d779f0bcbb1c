-- ===== src/Tokenizer/Utf8/Valid.antt =====
-- src/qx_tokenizer.c: qx_tok_valid_utf8, against the encodings of sequences of scalar values.
use mathlib.Core.Path.{subst}
use qx_mini_c.Prelude.Bytes.{drop-length-append}
use qx_mini_c.Prelude.{
  ℕ, zero, suc, ◌≤◌, ◌≡◌, ◌↔◌, inl, inr, refl, sym, ap, ◌∙◌, true, List, [], ◌∷◌, ◌++◌, some,
  length, drop, All, arith, Option-cases, length-append,
}
use qx_mini_c.Tokenizer.Utf8.{utf8_next, valid_loop, valid_utf8}
use qx_mini_c.Tokenizer.Utf8.Codec.{
  IsScalar, length-encode_pos, encode, utf8_next_sound, utf8_next-encode,
}

abbrev pub encode_all : List ℕ → List ℕ
encode_all [] = []
encode_all (cp ∷ cps) = encode cp ++ encode_all cps

valid_loop-next :
    (fuel a : ℕ) (s : List ℕ) (cp w : ℕ)
    → utf8_next (a ∷ s) ≡ some (cp, w)
    → valid_loop (suc fuel) (a ∷ s) ≡ valid_loop fuel (drop w (a ∷ s))
unfolding valid_loop
valid_loop-next fuel a s cp w h = rw (h, valid_loop) refl

valid_loop_step :
    (fuel : ℕ) (s : List ℕ) (cp w : ℕ)
    → utf8_next s ≡ some (cp, w)
    → valid_loop (suc fuel) s ≡ valid_loop fuel (drop w s)
unfolding valid_loop utf8_next
valid_loop_step fuel [] cp w h = ground (arith, h)
valid_loop_step fuel (a ∷ s) cp w h = valid_loop-next fuel a s cp w h

valid_loop_sound :
    (fuel : ℕ) (s : List ℕ)
    → valid_loop fuel s ≡ true
    → (cps : List ℕ) × All IsScalar cps × (s ≡ encode_all cps)
unfolding valid_loop
valid_loop_sound fuel [] h = ([], tt, refl)
valid_loop_sound zero (a ∷ s) h = ground (arith, h)
valid_loop_sound (suc fuel) (a ∷ s) h = elim (Option-cases (utf8_next (a ∷ s))) [
  | inl bad ↦ ground (arith, h, bad)
  | inr ((cp, w), good) ↦
      let rest : valid_loop fuel (drop w (a ∷ s)) ≡ true = ground (arith, h, good) in
      let (cps, scalars, same) = valid_loop_sound fuel (drop w (a ∷ s)) rest in
      let (scalar, width, whole) = utf8_next_sound (a ∷ s) cp w good in
      (cp ∷ cps, (scalar, scalars), sym whole ∙ ap (λ (t : List ℕ). encode cp ++ t) same)
]

valid_loop_complete :
    (fuel : ℕ) (cps : List ℕ)
    → All IsScalar cps
    → length (encode_all cps) ≤ fuel
    → valid_loop fuel (encode_all cps) ≡ true
valid_loop_complete fuel [] a h = unfold valid_loop in refl
valid_loop_complete zero (cp ∷ cps) a h =
    absurd (omega (arith, h, length-encode_pos cp, length-append (encode cp) (encode_all cps)))
valid_loop_complete (suc fuel) (cp ∷ cps) a h =
    valid_loop_step fuel (encode cp ++ encode_all cps) cp (length (encode cp))
      (utf8_next-encode cp (encode_all cps) a.0)
    ∙ ap (valid_loop fuel) (drop-length-append (encode cp) (encode_all cps))
    ∙ valid_loop_complete fuel cps a.1
        (omega (arith, h, length-encode_pos cp, length-append (encode cp) (encode_all cps)))

-- qx_tok_valid_utf8 accepts a text exactly when it is the encoding of a sequence of Unicode scalar
-- values.
pub valid_utf8_iff :
    (text : List ℕ)
    → (valid_utf8 text ≡ true) ↔ ((cps : List ℕ) × All IsScalar cps × (text ≡ encode_all cps))
unfolding valid_utf8
valid_utf8_iff text = (
  valid_loop_sound (length text) text,
  λ (cps, scalars, same).
      subst (λ (t : List ℕ). valid_loop (length t) t ≡ true) (sym same)
        (valid_loop_complete (length (encode_all cps)) cps scalars (omega arith)),
)
