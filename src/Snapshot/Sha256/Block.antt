-- ===== src/Snapshot/Sha256/Block.antt =====
-- src/qx_format.c: qx_kv_sha256_transform, against a step of Sha256.Fips.
use qx_mini_c.Prelude.{
  ℕ, zero, suc, ◌+◌, ◌-◌, ◌%◌, ◌^◌, ◌≡◌, refl, ap, ◌∙◌, List, [], ◌∷◌, ◌++◌, get_or, drop, add32,
  arith, bit_or, ◌*◌,
}
use qx_mini_c.Snapshot.Sha256.{State, constants, block_words, extend_words, rounds, transform}
use qx_mini_c.Snapshot.Sha256.Fips.{
  words_of, next_word, schedule, sigma0, sigma1, big_sigma0, big_sigma1, ch, maj, round_constants,
  round, all_rounds, compress_block,
}

-- Sums taken one by one, each modulo 2^32.
add32_four : (a b c d : ℕ) → add32 (add32 (add32 a b) c) d ≡ (d + c + b + a) % 2 ^ 32
add32_four a b c d = omega arith

add32_five :
    (a b c d e : ℕ) → add32 (add32 (add32 (add32 a b) c) d) e ≡ (a + b + c + d + e) % 2 ^ 32
add32_five a b c d e = omega arith

add32_comm : (a b : ℕ) → add32 a b ≡ (b + a) % 2 ^ 32
add32_comm a b = omega arith

block_words-words_of : (n : ℕ) (block : List ℕ) → block_words n block ≡ words_of n block
unfolding block_words words_of
block_words-words_of zero block = refl
block_words-words_of (suc n) block =
    let word =
      bit_or
        (bit_or (bit_or (get_or block 0 0 * 2 ^ 24) (get_or block 1 0 * 2 ^ 16))
          (get_or block 2 0 * 2 ^ 8))
        (get_or block 3 0) in
    ap (◌∷◌ word) (block_words-words_of n (drop 4 block))

-- The word that the second loop adds.
extend_words-next_word :
    (n k : ℕ) (ws : List ℕ)
    → extend_words (suc n) (k + 16) ws ≡ extend_words n (suc k + 16) (ws ++ next_word k ws ∷ [])
unfolding extend_words
extend_words-next_word n k ws =
    let at15 : k + 16 - 15 ≡ 1 + k = omega arith in
    let at2 : k + 16 - 2 ≡ 14 + k = omega arith in
    let at16 : k + 16 - 16 ≡ k = omega arith in
    let at7 : k + 16 - 7 ≡ 9 + k = omega arith in
    let step : k + 16 + 1 ≡ suc k + 16 = omega arith in
    let word =
      add32_four (get_or ws k 0) (sigma0 (get_or ws (1 + k) 0)) (get_or ws (9 + k) 0)
        (sigma1 (get_or ws (14 + k) 0)) in
    rw (at15, at2, at16, at7, step) (ap (λ w. extend_words n (suc k + 16) (ws ++ w ∷ [])) word)

extend_words-schedule :
    (n k : ℕ) (block : List ℕ) → extend_words n (k + 16) (schedule k block) ≡ schedule (n + k) block
unfolding schedule extend_words
extend_words-schedule zero k block =
    let same : k ≡ 0 + k = omega arith in ap (λ m. schedule m block) same
extend_words-schedule (suc n) k block =
    let count : n + suc k ≡ suc n + k = omega arith in
    extend_words-next_word n k (schedule k block)
    ∙ extend_words-schedule n (suc k) block
    ∙ ap (λ m. schedule m block) count

rounds-all_rounds : (ks ws : List ℕ) (s : State) → rounds ks ws s ≡ all_rounds ks ws s
unfolding rounds all_rounds
rounds-all_rounds [] ws s = refl
rounds-all_rounds (k ∷ ks) [] s = refl
rounds-all_rounds (k ∷ ks) (w ∷ ws) s =
    let t2 = add32 (big_sigma0 s.a) (maj s.a s.b s.c) in
    ap
      (λ t1. rounds ks ws (record {
        a = add32 t1 t2;
        b = s.a;
        c = s.b;
        d = s.c;
        e = add32 s.d t1;
        f = s.e;
        g = s.f;
        h = s.g;
      }))
      (add32_five s.h (big_sigma1 s.e) (ch s.e s.f s.g) k w)
    ∙ rounds-all_rounds ks ws (round k w s)

abbrev added : State → State → State
added s t = record {
  a = add32 s.a t.a;
  b = add32 s.b t.b;
  c = add32 s.c t.c;
  d = add32 s.d t.d;
  e = add32 s.e t.e;
  f = add32 s.f t.f;
  g = add32 s.g t.g;
  h = add32 s.h t.h;
}

added_comm :
    (s t : State)
    → added s t ≡ record {
      a = (t.a + s.a) % 2 ^ 32;
      b = (t.b + s.b) % 2 ^ 32;
      c = (t.c + s.c) % 2 ^ 32;
      d = (t.d + s.d) % 2 ^ 32;
      e = (t.e + s.e) % 2 ^ 32;
      f = (t.f + s.f) % 2 ^ 32;
      g = (t.g + s.g) % 2 ^ 32;
      h = (t.h + s.h) % 2 ^ 32;
    }
added_comm s t = λ i. record {
  a = add32_comm s.a t.a i;
  b = add32_comm s.b t.b i;
  c = add32_comm s.c t.c i;
  d = add32_comm s.d t.d i;
  e = add32_comm s.e t.e i;
  f = add32_comm s.f t.f i;
  g = add32_comm s.g t.g i;
  h = add32_comm s.h t.h i;
}

rounds-schedule :
    (s : State) (block : List ℕ)
    → rounds constants (extend_words 48 16 (block_words 16 block)) s
      ≡ all_rounds round_constants (schedule 48 block) s
unfolding schedule
rounds-schedule s block =
    let words = ap (extend_words 48 16) (block_words-words_of 16 block) in
    ap (λ ws. rounds constants ws s) (words ∙ extend_words-schedule 48 0 block)
    ∙ rounds-all_rounds round_constants (schedule 48 block) s

pub transform-compress_block :
    (s : State) (block : List ℕ) → transform s block ≡ compress_block s block
unfolding transform compress_block
transform-compress_block s block =
    ap (added s) (rounds-schedule s block)
    ∙ added_comm s (all_rounds round_constants (schedule 48 block) s)
