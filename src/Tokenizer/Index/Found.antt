-- ===== src/Tokenizer/Index/Found.antt =====
-- src/qx_tokenizer.c: the text of what qx_tok_find_token finds.
use qx_mini_c.Prelude.Bytes.{same_text, same_text_sound}
use qx_mini_c.Prelude.{
  ℕ, zero, suc, ◌+◌, ◌%◌, ◌≡◌, Bool, true, List, some, arith, get_elem?, Option-cases, inl, inr,
}
use qx_mini_c.Prelude.Results.{ok}
use qx_mini_c.Tokenizer.{Token}
use qx_mini_c.Tokenizer.Index.{
  Index, Probe, hit, vacant, endless, probe, is_token, found, find_token, home, fnv1a64,
}

pub probe-hit :
    (same : ℕ → Bool) (slots : List ℕ) (mask fuel slot id : ℕ)
    → probe same slots mask fuel slot ≡ hit id
    → same id ≡ true
unfolding probe
probe-hit same slots mask zero slot id h = ground (arith, h)
probe-hit same slots mask (suc fuel) slot id h =
    ground (arith, h, probe-hit same slots mask fuel ((slot + 1) % (mask + 1)) id)

found-hit : (p : Probe) (id : ℕ) → found p ≡ ok (some id) → p ≡ hit id
found-hit (hit i) id h = ground (arith, h)
found-hit (vacant s) id h = ground (arith, h)
found-hit endless id h = ground (arith, h)

pub is_token_sound :
    (tokens : List Token) (text : List ℕ) (id : ℕ)
    → is_token tokens text id ≡ true
    → (t : Token) × (get_elem? tokens id ≡ some t) × (t.text ≡ text)
is_token_sound tokens text id h = elim (Option-cases (get_elem? tokens id)) [
  | inl missing ↦ ground (arith, h, missing)
  | inr (t, there) ↦
      let same : same_text t.text text ≡ true = ground (arith, h, there) in
      (t, there, same_text_sound t.text text same)
]

pub find_token_sound :
    (tokens : List Token) (index : Index) (text : List ℕ) (id : ℕ)
    → find_token tokens index text ≡ ok (some id)
    → (t : Token) × (get_elem? tokens id ≡ some t) × (t.text ≡ text)
unfolding find_token
find_token_sound tokens index text id h = is_token_sound tokens text id (
    probe-hit (is_token tokens text) index.slots index.mask (index.mask + 1)
      (home (fnv1a64 text) index.mask) id (found-hit _ id h))
