-- ===== src/Snapshot/Header.antt =====
-- src/qx_format.c: the header of a snapshot, as its reader tests it.
use qx_mini_c.Prelude.Bytes.{
  IsByte, same_text, same_text_sound, same_text_refl, le32, u32_at, u32_at-le32, le32-u32_at,
  drop-drop,
}
use qx_mini_c.Prelude.{
  ℕ, ◌+◌, ◌≤◌, ◌<◌, ◌≡◌, refl, sym, ap, ◌∙◌, Bool, true, false, ◌&&◌, not, List, [], ◌∷◌, ◌++◌,
  length, All, IsU32, ltb, ◌==◌, arith, drop, take,
}
use mathlib.Core.Path.{ap₂}
use qx_mini_c.Prelude.{take-append-drop, length-drop, All-drop}
use qx_mini_c.Snapshot.{Config, format_id, magic, header_bytes, good_header}
use qx_mini_c.Snapshot.Print.{IsConfig}

-- What the fields of a header are to be.
pub record IsHeader (cfg : Config) (s : List ℕ) (count next_token : ℕ) : Type 0 where
  pub start : take 8 s ≡ magic
  pub version : u32_at (drop 8 s) ≡ 2
  pub layers : u32_at (drop 12 s) ≡ cfg.layers
  pub positions : u32_at (drop 16 s) ≡ count
  pub some_positions : 0 < count
  pub fits : count ≤ cfg.ctx_tokens
  pub ctx_tokens : u32_at (drop 20 s) ≡ cfg.ctx_tokens
  pub kv_heads : u32_at (drop 24 s) ≡ cfg.kv_heads
  pub head_dim : u32_at (drop 28 s) ≡ cfg.head_dim
  pub format : u32_at (drop 32 s) ≡ format_id cfg.kv_format
  pub bytes : u32_at (drop 36 s) ≡ cfg.bytes_per_k_or_v
  pub next : u32_at (drop 40 s) ≡ next_token
  pub seed : u32_at (drop 44 s) ≡ cfg.seed

both : (a b : Bool) → (a && b) ≡ true → (a ≡ true) × (b ≡ true)
both true b h = (refl, h)
both false b h = absurd (ground (arith, h))

-- The conditions of a conjunction.
conditions :
    (b0 b1 b2 b3 b4 b5 b6 b7 b8 b9 b10 : Bool)
    → (b0 && b1 && b2 && b3 && b4 && b5 && b6 && b7 && b8 && b9 && b10) ≡ true
    → (b0 ≡ true)
      × (b1 ≡ true)
      × (b2 ≡ true)
      × (b3 ≡ true)
      × (b4 ≡ true)
      × (b5 ≡ true)
      × (b6 ≡ true)
      × (b7 ≡ true)
      × (b8 ≡ true)
      × (b9 ≡ true)
      × (b10 ≡ true)
conditions b0 b1 b2 b3 b4 b5 b6 b7 b8 b9 b10 h =
    let (h9, c10) = both (b0 && b1 && b2 && b3 && b4 && b5 && b6 && b7 && b8 && b9) b10 h in
    let (h8, c9) = both (b0 && b1 && b2 && b3 && b4 && b5 && b6 && b7 && b8) b9 h9 in
    let (h7, c8) = both (b0 && b1 && b2 && b3 && b4 && b5 && b6 && b7) b8 h8 in
    let (h6, c7) = both (b0 && b1 && b2 && b3 && b4 && b5 && b6) b7 h7 in
    let (h5, c6) = both (b0 && b1 && b2 && b3 && b4 && b5) b6 h6 in
    let (h4, c5) = both (b0 && b1 && b2 && b3 && b4) b5 h5 in
    let (h3, c4) = both (b0 && b1 && b2 && b3) b4 h4 in
    let (h2, c3) = both (b0 && b1 && b2) b3 h3 in
    let (h1, c2) = both (b0 && b1) b2 h2 in
    let (c0, c1) = both (b0) b1 h1 in (c0, c1, c2, c3, c4, c5, c6, c7, c8, c9, c10)

not_zero : (p : ℕ) → not (p == 0) ≡ true → 0 < p
not_zero p h = ground (arith, h)

not_over : (limit p : ℕ) → not (ltb limit p) ≡ true → p ≤ limit
not_over limit p h = ground (arith, h)

test_sound : (a b : ℕ) → (a == b) ≡ true → a ≡ b
test_sound a b h = ground (arith, h)

test_refl : (a b : ℕ) → a ≡ b → (a == b) ≡ true
test_refl a b h = ground (arith, h)

pub good_header_complete :
    (cfg : Config) (s : List ℕ) (positions next_token : ℕ)
    → IsHeader cfg s positions next_token
    → good_header cfg s ≡ true
unfolding good_header
good_header_complete cfg s positions next_token h =
    let e0 : same_text (take 8 s) magic ≡ true =
      ap (λ t. same_text t magic) h.start ∙ same_text_refl magic in
    let some_pos = h.some_positions in
    let fits = h.fits in
    let at = h.positions in
    let e3 : not (u32_at (drop 16 s) == 0) ≡ true =
      ap (λ p. not (p == 0)) at ∙ ground (arith, some_pos) in
    let e4 : not (ltb cfg.ctx_tokens (u32_at (drop 16 s))) ≡ true =
      ap (λ p. not (ltb cfg.ctx_tokens p)) at ∙ ground (arith, fits) in
    rw
      (
        e0,
        test_refl (u32_at (drop 8 s)) 2 h.version,
        test_refl (u32_at (drop 12 s)) cfg.layers h.layers,
        e3,
        e4,
        test_refl (u32_at (drop 20 s)) cfg.ctx_tokens h.ctx_tokens,
        test_refl (u32_at (drop 24 s)) cfg.kv_heads h.kv_heads,
        test_refl (u32_at (drop 28 s)) cfg.head_dim h.head_dim,
        test_refl (u32_at (drop 32 s)) (format_id cfg.kv_format) h.format,
        test_refl (u32_at (drop 36 s)) cfg.bytes_per_k_or_v h.bytes,
        test_refl (u32_at (drop 44 s)) cfg.seed h.seed,
        good_header,
      )
      refl

pub good_header_sound :
    (cfg : Config) (s : List ℕ)
    → good_header cfg s ≡ true
    → IsHeader cfg s (u32_at (drop 16 s)) (u32_at (drop 40 s))
unfolding good_header
good_header_sound cfg s h =
    let p = u32_at (drop 16 s) in
    let tests =
      conditions (same_text (take 8 s) magic) (u32_at (drop 8 s) == 2)
        (u32_at (drop 12 s) == cfg.layers) (not (p == 0)) (not (ltb cfg.ctx_tokens p))
        (u32_at (drop 20 s) == cfg.ctx_tokens) (u32_at (drop 24 s) == cfg.kv_heads)
        (u32_at (drop 28 s) == cfg.head_dim) (u32_at (drop 32 s) == format_id cfg.kv_format)
        (u32_at (drop 36 s) == cfg.bytes_per_k_or_v) (u32_at (drop 44 s) == cfg.seed) h in
    let (c0, c1, c2, c3, c4, c5, c6, c7, c8, c9, c10) = tests in
    record {
      start = same_text_sound (take 8 s) magic c0;
      version = test_sound (u32_at (drop 8 s)) 2 c1;
      layers = test_sound (u32_at (drop 12 s)) cfg.layers c2;
      positions = refl;
      some_positions = not_zero p c3;
      fits = not_over cfg.ctx_tokens p c4;
      ctx_tokens = test_sound (u32_at (drop 20 s)) cfg.ctx_tokens c5;
      kv_heads = test_sound (u32_at (drop 24 s)) cfg.kv_heads c6;
      head_dim = test_sound (u32_at (drop 28 s)) cfg.head_dim c7;
      format = test_sound (u32_at (drop 32 s)) (format_id cfg.kv_format) c8;
      bytes = test_sound (u32_at (drop 36 s)) cfg.bytes_per_k_or_v c9;
      next = refl;
      seed = test_sound (u32_at (drop 44 s)) cfg.seed c10;
    }

format_id-IsU32 : (name : List ℕ) → IsU32 (format_id name)
unfolding format_id
format_id-IsU32 name = ground arith

pub header_bytes-IsHeader :
    (cfg : Config) (positions next_token : ℕ)
    → IsConfig cfg
    → 0 < positions
    → positions ≤ cfg.ctx_tokens
    → IsU32 next_token
    → IsHeader cfg (header_bytes cfg positions next_token) positions next_token
header_bytes-IsHeader cfg positions next_token h pos fits next32 =
    let s = header_bytes cfg positions next_token in
    let format32 : IsU32 (format_id cfg.kv_format) = format_id-IsU32 cfg.kv_format in
    record {
      start = refl;
      version = refl;
      layers = u32_at-le32 cfg.layers (drop 16 s) h.layers;
      positions = u32_at-le32 positions (drop 20 s) (omega (arith, fits, h.ctx_tokens));
      some_positions = pos;
      fits = fits;
      ctx_tokens = u32_at-le32 cfg.ctx_tokens (drop 24 s) h.ctx_tokens;
      kv_heads = u32_at-le32 cfg.kv_heads (drop 28 s) h.kv_heads;
      head_dim = u32_at-le32 cfg.head_dim (drop 32 s) h.head_dim;
      format = u32_at-le32 (format_id cfg.kv_format) (drop 36 s) format32;
      bytes = u32_at-le32 cfg.bytes_per_k_or_v (drop 40 s) h.bytes;
      next = u32_at-le32 next_token (drop 44 s) next32;
      seed = u32_at-le32 cfg.seed [] h.seed;
    }

-- The field at a place, and the bytes after it.
field :
    (place n : ℕ) (s : List ℕ)
    → All IsByte s
    → place + 4 ≤ length s
    → u32_at (drop place s) ≡ n
    → drop place s ≡ le32 n ++ drop (place + 4) s
field place n s all size e =
    let fits : 4 ≤ length (drop place s) = omega (arith, length-drop place s, size) in
    le32-u32_at (drop place s) (All-drop IsByte place s all) fits
    ∙ ap₂ (λ m t. le32 m ++ t) e (drop-drop place 4 s)

nothing_left : (s : List ℕ) → length s ≡ 0 → s ≡ []
nothing_left [] h = refl
nothing_left (b ∷ s) h = absurd (omega (arith, h))

-- Bytes with these fields are the header that is written.
pub IsHeader-header_bytes :
    (cfg : Config) (s : List ℕ) (positions next_token : ℕ)
    → IsHeader cfg s positions next_token
    → All IsByte s
    → length s ≡ 48
    → s ≡ header_bytes cfg positions next_token
IsHeader-header_bytes cfg s positions next_token h all size =
    let step = λ (place n : ℕ) (fits : place + 4 ≤ 48) (e : u32_at (drop place s) ≡ n).
      field place n s all (omega (arith, size, fits)) e in
    let rest : drop 48 s ≡ [] = nothing_left (drop 48 s) (omega (arith, length-drop 48 s, size)) in
    let e44 = step 44 cfg.seed (omega arith) h.seed ∙ ap (λ t. le32 cfg.seed ++ t) rest in
    let e40 = step 40 next_token (omega arith) h.next ∙ ap (λ t. le32 next_token ++ t) e44 in
    let e36 =
      step 36 cfg.bytes_per_k_or_v (omega arith) h.bytes
      ∙ ap (λ t. le32 cfg.bytes_per_k_or_v ++ t) e40 in
    let e32 =
      step 32 (format_id cfg.kv_format) (omega arith) h.format
      ∙ ap (λ t. le32 (format_id cfg.kv_format) ++ t) e36 in
    let e28 =
      step 28 cfg.head_dim (omega arith) h.head_dim ∙ ap (λ t. le32 cfg.head_dim ++ t) e32 in
    let e24 =
      step 24 cfg.kv_heads (omega arith) h.kv_heads ∙ ap (λ t. le32 cfg.kv_heads ++ t) e28 in
    let e20 =
      step 20 cfg.ctx_tokens (omega arith) h.ctx_tokens ∙ ap (λ t. le32 cfg.ctx_tokens ++ t) e24 in
    let e16 = step 16 positions (omega arith) h.positions ∙ ap (λ t. le32 positions ++ t) e20 in
    let e12 = step 12 cfg.layers (omega arith) h.layers ∙ ap (λ t. le32 cfg.layers ++ t) e16 in
    let e8 = step 8 2 (omega arith) h.version ∙ ap (λ t. le32 2 ++ t) e12 in
    sym (take-append-drop 8 s) ∙ ap₂ ◌++◌ h.start e8
