-- ===== src/Tokenizer/Utf8/Codec.antt =====
-- src/qx_tokenizer.c: what qx_tok_utf8_next and qx_tok_valid_utf8 accept, against the encoding of
-- the Unicode standard.
use mathlib.Core.Path.{subst}
use native.Mathlib.Decide.{dec_lt}
use qx_mini_c.Prelude.{
  ℕ, ◌+◌, ◌*◌, ◌/◌, ◌%◌, ◌≤◌, ◌<◌, ◌≡◌, ◌↔◌, ◌⊎◌, inl, inr, refl, sym, ap, ◌∙◌, true, List, [], ◌∷◌,
  ◌++◌, some, ltb, if◌then◌else◌, length, drop, arith, Bool-cases, length-append,
}
use qx_mini_c.Tokenizer.Utf8.{leads_two, leads_three, leads_four, utf8_next}

-- A Unicode scalar value.
abbrev pub IsScalar : ℕ → Type 0
IsScalar cp = (cp < 0xD800) ⊎ ((0xDFFF < cp) × (cp ≤ 0x10FFFF))

abbrev pub encode : ℕ → List ℕ
encode cp =
    if ltb cp 0x80
    then cp ∷ []
    else if ltb cp 0x800
    then (0xC0 + cp / 64) ∷ (0x80 + cp % 64) ∷ []
    else if ltb cp 0x10000
    then (0xE0 + cp / 4096) ∷ (0x80 + cp / 64 % 64) ∷ (0x80 + cp % 64) ∷ []
    else (0xF0 + cp / 262144)
      ∷ (0x80 + cp / 4096 % 64)
      ∷ (0x80 + cp / 64 % 64)
      ∷ (0x80 + cp % 64)
      ∷ []

pub utf8_next-encode :
    (cp : ℕ) (rest : List ℕ)
    → IsScalar cp
    → utf8_next (encode cp ++ rest) ≡ some (cp, length (encode cp))
unfolding utf8_next leads_two leads_three leads_four
utf8_next-encode cp rest h = ground (arith, h)

-- What `utf8_next` promises of a result.
abbrev pub Decodes : List ℕ → ℕ → ℕ → Type 0
Decodes s cp w = IsScalar cp × (w ≡ length (encode cp)) × (encode cp ++ drop w s ≡ s)

module _ (a : ℕ) where
  leads_two_sound :
      (s : List ℕ)
      → leads_two a s ≡ true
      → (b : ℕ) × (t : List ℕ) × (s ≡ b ∷ t) × (0xC2 ≤ a) × (a ≤ 0xDF) × (b / 64 ≡ 2)
  unfolding leads_two
  leads_two_sound [] h = ground (arith, h)
  leads_two_sound (b ∷ t) h = (b, t, refl, ground (arith, h), ground (arith, h), ground (arith, h))

  leads_three_sound :
      (s : List ℕ)
      → leads_three a s ≡ true
      → (b c : ℕ) × (t : List ℕ) × (s ≡ b ∷ c ∷ t)
        × (0xE0 ≤ a)
        × (a ≤ 0xEF)
        × (b / 64 ≡ 2)
        × (c / 64 ≡ 2)
  unfolding leads_three
  leads_three_sound [] h = ground (arith, h)
  leads_three_sound (b ∷ []) h = ground (arith, h)
  leads_three_sound (b ∷ c ∷ t) h =
      (b, c, t, refl, ground (arith, h), ground (arith, h), ground (arith, h), ground (arith, h))

  leads_four_sound :
      (s : List ℕ)
      → leads_four a s ≡ true
      → (b c d : ℕ) × (t : List ℕ) × (s ≡ b ∷ c ∷ d ∷ t)
        × (0xF0 ≤ a)
        × (a ≤ 0xF4)
        × (b / 64 ≡ 2)
        × (c / 64 ≡ 2)
        × (d / 64 ≡ 2)
  unfolding leads_four
  leads_four_sound [] h = ground (arith, h)
  leads_four_sound (b ∷ []) h = ground (arith, h)
  leads_four_sound (b ∷ c ∷ []) h = ground (arith, h)
  leads_four_sound (b ∷ c ∷ d ∷ t) h = (
    b,
    c,
    d,
    t,
    refl,
    ground (arith, h),
    ground (arith, h),
    ground (arith, h),
    ground (arith, h),
    ground (arith, h),
  )

encode_two :
    (cp : ℕ) → 0x80 ≤ cp → cp < 0x800 → encode cp ≡ (0xC0 + cp / 64) ∷ (0x80 + cp % 64) ∷ []
encode_two cp l h = ground arith

encode_three :
    (cp : ℕ)
    → 0x800 ≤ cp
    → cp < 0x10000
    → encode cp ≡ (0xE0 + cp / 4096) ∷ (0x80 + cp / 64 % 64) ∷ (0x80 + cp % 64) ∷ []
encode_three cp l h = ground arith

encode_four :
    (cp : ℕ)
    → 0x10000 ≤ cp
    → encode cp
      ≡ (0xF0 + cp / 262144)
        ∷ (0x80 + cp / 4096 % 64)
        ∷ (0x80 + cp / 64 % 64)
        ∷ (0x80 + cp % 64)
        ∷ []
encode_four cp l = ground arith

module _ (a b : ℕ) (t : List ℕ) (cp w : ℕ) (tail : b / 64 ≡ 2) where
  Decodes-two : 0xC2 ≤ a → a ≤ 0xDF → cp ≡ a % 32 * 64 + b % 64 → w ≡ 2 → Decodes (a ∷ b ∷ t) cp w
  Decodes-two low high e we =
      let low' : 0x80 ≤ cp = omega arith in
      let high' : cp < 0x800 = omega arith in
      let first : 0xC0 + cp / 64 ≡ a = omega arith in
      let second : 0x80 + cp % 64 ≡ b = omega arith in
      let code = encode_two cp low' high' in
      (inl (omega arith), rw code we, rw (code, we, first, second) refl)

  Decodes-three :
      (c : ℕ)
      → c / 64 ≡ 2
      → 0xE0 ≤ a
      → a ≤ 0xEF
      → cp ≡ a % 16 * 4096 + b % 64 * 64 + c % 64
      → 0x800 ≤ cp
      → IsScalar cp
      → w ≡ 3
      → Decodes (a ∷ b ∷ c ∷ t) cp w
  Decodes-three c tail_c low high e low' scalar we =
      let first : 0xE0 + cp / 4096 ≡ a = omega arith in
      let second : 0x80 + cp / 64 % 64 ≡ b = omega arith in
      let third : 0x80 + cp % 64 ≡ c = omega arith in
      let code = encode_three cp low' (omega arith) in
      (scalar, rw code we, rw (code, we, first, second, third) refl)

  Decodes-four :
      (c d : ℕ)
      → c / 64 ≡ 2
      → d / 64 ≡ 2
      → 0xF0 ≤ a
      → a ≤ 0xF4
      → cp ≡ a % 8 * 262144 + b % 64 * 4096 + c % 64 * 64 + d % 64
      → 0x10000 ≤ cp
      → cp ≤ 0x10FFFF
      → w ≡ 4
      → Decodes (a ∷ b ∷ c ∷ d ∷ t) cp w
  Decodes-four c d tail_c tail_d low high e low' high' we =
      let first : 0xF0 + cp / 262144 ≡ a = omega arith in
      let second : 0x80 + cp / 4096 % 64 ≡ b = omega arith in
      let third : 0x80 + cp / 64 % 64 ≡ c = omega arith in
      let fourth : 0x80 + cp % 64 ≡ d = omega arith in
      let code = encode_four cp low' in
      (inr (omega arith), rw code we, rw (code, we, first, second, third, fourth) refl)

pub utf8_next_sound : (s : List ℕ) (cp w : ℕ) → utf8_next s ≡ some (cp, w) → Decodes s cp w
unfolding utf8_next
utf8_next_sound [] cp w h = ground (arith, h)
utf8_next_sound (a ∷ s) cp w h = elim (dec_lt a 0x80) [
  | yes low ↦
      let value : cp ≡ a = ground (arith, h) in
      let width : w ≡ 1 = ground (arith, h) in
      let code : encode cp ≡ cp ∷ [] = ground arith in
      (inl (omega arith), rw code width, rw (code, width, value) refl)
  | no high ↦ elim (Bool-cases (leads_two a s)) [
    | inl two ↦
        let (b, t, e, low, top, tail) = leads_two_sound a s two in
        rw e (Decodes-two a b t cp w tail low top (ground (arith, h)) (ground (arith, h)))
    | inr not_two ↦ elim (Bool-cases (leads_three a s)) [
      | inl three ↦
          let (b, c, t, e, low, top, tail, tail_c) = leads_three_sound a s three in
          rw e (
            Decodes-three a b t cp w tail c tail_c low top (ground (arith, h)) (ground (arith, h))
              (ground (arith, h)) (ground (arith, h)))
      | inr not_three ↦ elim (Bool-cases (leads_four a s)) [
        | inl four ↦
            let (b, c, d, t, e, low, top, tail, tail_c, tail_d) = leads_four_sound a s four in
            rw e (
              Decodes-four a b t cp w tail c d tail_c tail_d low top (ground (arith, h))
                (ground (arith, h)) (ground (arith, h)) (ground (arith, h)))
        | inr none_left ↦ ground (arith, h)
      ]
    ]
  ]
]

-- On any bytes: qx_tok_utf8_next finds a code point and a width exactly when the text starts with
-- the standard encoding, so wide, of that code point, which is a Unicode scalar value.
pub utf8_next_iff : (s : List ℕ) (cp w : ℕ) → (utf8_next s ≡ some (cp, w)) ↔ Decodes s cp w
utf8_next_iff s cp w = (
  utf8_next_sound s cp w,
  λ (scalar, width, whole).
      subst (λ (t : List ℕ). utf8_next t ≡ some (cp, w)) whole
        (utf8_next-encode cp (drop w s) scalar ∙ ap (λ (n : ℕ). some (cp, n)) (sym width)),
)

pub length-encode_pos : (cp : ℕ) → 0 < length (encode cp)
length-encode_pos cp = ground arith

pub utf8_next_width :
    (s : List ℕ) (cp w : ℕ) → utf8_next s ≡ some (cp, w) → (0 < w) × (w ≤ length s)
utf8_next_width s cp w h =
    let (scalar, width, whole) = utf8_next_sound s cp w h in
    let size = length-append (encode cp) (drop w s) in
    let same : length (encode cp ++ drop w s) ≡ length s = ap length whole in
    (omega (arith, width, length-encode_pos cp), omega (arith, width, size, same))
