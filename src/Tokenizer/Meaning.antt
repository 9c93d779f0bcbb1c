-- ===== src/Tokenizer/Meaning.antt =====
-- src/qx_tokenizer.c: the bytes that a list of token ids decodes to.
use mathlib.Core.Bool.{true≢false}
use mathlib.Core.List.{append_assoc, append-nil}
use qx_mini_c.Prelude.Bytes.{IsByte}
use qx_mini_c.Prelude.{
  ℕ, ◌+◌, ◌-◌, ◌≤◌, ◌≡◌, refl, sym, ap, ◌∙◌, true, false, List, [], ◌∷◌, ◌++◌, some, ltb, arith,
  length, length-append, All, get_elem?, get_or, Option-cases, Bool-cases, ◌⊎◌, inl, inr,
}
use qx_mini_c.Prelude.Results.{ok, Result-cases}
use qx_mini_c.Tokenizer.{Token, Tokenizer}
use qx_mini_c.Tokenizer.Bytes.{byte_text}
use qx_mini_c.Tokenizer.Bytes.Table.{write_visible}
use qx_mini_c.Tokenizer.Decode.{is_special, decode_piece, decode_token, decode_ids}
use qx_mini_c.Tokenizer.Decode.Bytes.{decode_piece-byte_text}

-- The visible bytes of ASCII, which the byte table leaves as they are.
abbrev pub IsVisible : ℕ → Type 0
IsVisible b = (33 ≤ b) × (b ≤ 126)

-- A special token's text is visible ASCII.
abbrev pub IsPlainSpecial : Token → Type 0
IsPlainSpecial t = (is_special t ≡ false) ⊎ All IsVisible t.text

head_visible : (s : List ℕ) → All IsVisible s → get_or s 0 0 ≤ 126
head_visible [] h = omega arith
head_visible (a ∷ s) h = h.0.1

visible_byte_text : (p : List ℕ) → All IsByte p → All IsVisible (byte_text p) → byte_text p ≡ p
visible_byte_text [] byte seen = refl
visible_byte_text (b ∷ p) byte seen =
    let first = write_visible b (byte_text p) byte.0 (head_visible _ seen) in
    let seen' : All IsVisible (b ∷ byte_text p) = rw first at seen in
    rw first (ap (◌∷◌ b) (visible_byte_text p byte.1 seen'.1))

module _ (tok : Tokenizer) where
  -- The ids decode to the bytes, wherever they stand in the output, if it has room.
  abbrev pub Means : List ℕ → List ℕ → Type 0
  Means ids bytes =
      (capacity : ℕ) (out : List ℕ)
      → length out + length bytes ≤ capacity
      → decode_ids tok ids true capacity out ≡ ok (out ++ bytes)

  pub nil-Means : Means [] []
  unfolding decode_ids
  nil-Means capacity out room = ap ok (sym (append-nil out))

  decode_ids-append :
      (xs ys : List ℕ) (capacity : ℕ) (out out' : List ℕ)
      → decode_ids tok xs true capacity out ≡ ok out'
      → decode_ids tok (xs ++ ys) true capacity out ≡ decode_ids tok ys true capacity out'
  unfolding decode_ids
  decode_ids-append [] ys capacity out out' h =
      ap (decode_ids tok ys true capacity) (ground (arith, h))
  decode_ids-append (x ∷ xs) ys capacity out out' h = elim (Option-cases (get_elem? tok.tokens x)) [
    | inl missing ↦ ground (arith, h, missing)
    | inr (t, there) ↦ elim (Result-cases (decode_token t true capacity out)) [
      | inl (e, bad) ↦ ground (arith, h, there, bad)
      | inr (mid, good) ↦ ground (arith, h, there, good, decode_ids-append xs ys capacity mid out')
    ]
  ]

  pub Means-append : (xs ys a b : List ℕ) → Means xs a → Means ys b → Means (xs ++ ys) (a ++ b)
  Means-append xs ys a b m n capacity out room =
      let size = length-append a b in
      let size' = length-append out a in
      decode_ids-append xs ys capacity out (out ++ a) (m capacity out (omega (arith, room, size)))
      ∙ n capacity (out ++ a) (omega (arith, room, size, size'))
      ∙ ap ok (append_assoc out a b)

  decode_ids-one :
      (id : ℕ) (t : Token) (capacity : ℕ) (out out' : List ℕ)
      → get_elem? tok.tokens id ≡ some t
      → decode_token t true capacity out ≡ ok out'
      → decode_ids tok (id ∷ []) true capacity out ≡ ok out'
  unfolding decode_ids
  decode_ids-one id t capacity out out' there good = rw (there, good, decode_ids) refl

  decode_special :
      (t : Token) (capacity : ℕ) (out : List ℕ)
      → is_special t ≡ true
      → length out + length t.text ≤ capacity
      → decode_token t true capacity out ≡ ok (out ++ t.text)
  unfolding decode_token
  decode_special t capacity out special room =
      let fits : ltb (capacity - length out) (length t.text) ≡ false = ground (arith, room) in
      rw (special, fits) refl

  decode_plain :
      (t : Token) (capacity : ℕ) (out : List ℕ)
      → is_special t ≡ false
      → decode_token t true capacity out ≡ decode_piece (length t.text) t.text capacity out
  unfolding decode_token
  decode_plain t capacity out plain = rw plain refl

  -- A special token stands for its text.
  pub special-Means :
      (id : ℕ) (t : Token)
      → get_elem? tok.tokens id ≡ some t
      → is_special t ≡ true
      → Means (id ∷ []) t.text
  special-Means id t there special capacity out room =
      decode_ids-one id t capacity out (out ++ t.text) there
        (decode_special t capacity out special room)

  -- A token whose text the byte table writes for some bytes stands for these bytes.
  pub piece-Means :
      (id : ℕ) (t : Token) (p : List ℕ)
      → get_elem? tok.tokens id ≡ some t
      → IsPlainSpecial t
      → t.text ≡ byte_text p
      → All IsByte p
      → Means (id ∷ []) p
  piece-Means id t p there plain same byte = elim (Bool-cases (is_special t)) [
    | inl special ↦
        let visible : All IsVisible t.text = elim plain [
          | inl no_special ↦ absurd (true≢false (sym special ∙ no_special))
          | inr v ↦ v
        ] in
        let seen : All IsVisible (byte_text p) = rw same at visible in
        let whole : t.text ≡ p = same ∙ visible_byte_text p byte seen in
        rw whole at (special-Means id t there special)
    | inr normal ↦ λ capacity out room. decode_ids-one id t capacity out (out ++ p) there (
        decode_plain t capacity out normal
        ∙ ap (λ (x : List ℕ). decode_piece (length x) x capacity out) same
        ∙ decode_piece-byte_text (length (byte_text p)) p capacity out byte (omega arith) room)
  ]
