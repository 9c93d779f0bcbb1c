-- ===== src/Snapshot.antt =====
-- src/qx_format.c: the snapshot of the KV cache (qx_write_accumulated_kv_snapshot and
-- qx_read_accumulated_kv_snapshot), on the bytes of the file. The four arrays kcache, vcache, kscales and
-- vscales are one list of slots, a slot its `bytes_per_k_or_v` bytes of each cache and the bits of its
-- two scales. Null arguments, an empty path, and the failures to open, write and close a file are not
-- modelled, nor what the arrays hold after a read that fails.
pub mod Sha256
pub mod Print
pub mod Written
pub mod Slots
pub mod Header
pub mod Read
pub mod Order
pub mod RoundTrip
pub mod Cut
mod Tests
use qx_mini_c.Prelude.Bytes.{same_text, u32_at, le32, take_bytes}
use qx_mini_c.Prelude.{
  ℕ, zero, suc, ◌+◌, ◌*◌, ◌/◌, ◌%◌, ◌^◌, Bool, true, false, not, ◌&&◌, ◌||◌, List, [], ◌∷◌, ◌++◌,
  map, Option, none, some, ltb, ◌==◌, if◌then◌else◌, length, get_or, set, drop, take, flatten,
  u32_max,
}
use qx_mini_c.Prelude.Results.{Result, ok, err}
use qx_mini_c.Snapshot.Sha256.{Sha, sha_init, update, final}

-- What both functions are told of the cache; `kv_format` is a C string.
pub record Config : Type 0 where
  pub layers : ℕ
  pub ctx_tokens : ℕ
  pub kv_heads : ℕ
  pub head_dim : ℕ
  pub kv_format : List ℕ
  pub bytes_per_k_or_v : ℕ
  pub seed : ℕ

pub record Slot : Type 0 where
  pub k : List ℕ
  pub v : List ℕ
  pub k_scale : ℕ
  pub v_scale : ℕ

pub data Error : Type 0 where
  invalid_output unsupported_format header_mismatch payload_mismatch : Error

-- "int8", "f16", "fp16" and "f32".
unfoldable pub format_id : List ℕ → ℕ
unfolding same_text
format_id kv_format =
    if same_text kv_format (b'i' ∷ b'n' ∷ b't' ∷ b'8' ∷ [])
    then 1
    else if same_text kv_format (b'f' ∷ b'1' ∷ b'6' ∷ [])
        || same_text kv_format (b'f' ∷ b'p' ∷ b'1' ∷ b'6' ∷ [])
    then 2
    else if same_text kv_format (b'f' ∷ b'3' ∷ b'2' ∷ [])
    then 3
    else 0

-- The numbers from `from` on, and the slots that the loops over layers and positions go through;
-- 32-bit counts do not overflow 64 bits.
abbrev pub range : ℕ → ℕ → List ℕ
range from zero = []
range from (suc n) = from ∷ range (suc from) n

abbrev pub slot_order : Config → ℕ → List ℕ
slot_order cfg positions = flatten (
    map (λ layer. map (λ position. layer * cfg.ctx_tokens + position) (range 0 positions))
      (range 0 cfg.layers))

abbrev pub blank : Slot
blank = record { k = []; v = []; k_scale = 0; v_scale = 0 }

-- "QXKVSNP1".
abbrev pub magic : List ℕ
magic = b'Q' ∷ b'X' ∷ b'K' ∷ b'V' ∷ b'S' ∷ b'N' ∷ b'P' ∷ b'1' ∷ []

abbrev pub header_bytes : Config → ℕ → ℕ → List ℕ
header_bytes cfg positions next_token =
    magic
    ++ (le32 2
        ++ (le32 cfg.layers
            ++ (le32 positions
                ++ (le32 cfg.ctx_tokens
                    ++ (le32 cfg.kv_heads
                        ++ (le32 cfg.head_dim
                            ++ (le32 (format_id cfg.kv_format)
                                ++ (le32 cfg.bytes_per_k_or_v
                                    ++ (le32 next_token ++ le32 cfg.seed)))))))))

-- The bytes written so far, and the hash that has taken them in.
pub record Writer : Type 0 where
  pub file : List ℕ
  pub hash : Sha

abbrev pub emit : List ℕ → Writer → Writer
emit bytes w = record { file = w.file ++ bytes; hash = update w.hash bytes }

abbrev pub write_slot : Slot → Writer → Writer
write_slot s w = emit (le32 s.v_scale) (emit (le32 s.k_scale) (emit s.v (emit s.k w)))

unfoldable pub write_slots : List Slot → List ℕ → Writer → Writer
write_slots cache [] w = w
write_slots cache (slot ∷ slots) w =
    write_slots cache slots (write_slot (get_or cache slot blank) w)

unfoldable pub write_snapshot : Config → ℕ → ℕ → List Slot → Result Error (List ℕ)
unfolding write_slots format_id
write_snapshot cfg positions next_token cache =
    if positions == 0 || ltb cfg.ctx_tokens positions || ltb u32_max cfg.bytes_per_k_or_v
    then err invalid_output
    else if format_id cfg.kv_format == 0
    then err unsupported_format
    else let started =
        emit (header_bytes cfg positions next_token) (record { file = []; hash = sha_init }) in
      let w = write_slots cache (slot_order cfg positions) started in ok (w.file ++ final w.hash)

-- A read under way: the cache, the hash, and the rest of the file.
pub record Reader : Type 0 where
  pub cache : List Slot
  pub hash : Sha
  pub rest : List ℕ

-- `isfinite`, on the bits of a float, and the bits of 1.0f.
abbrev pub is_finite : ℕ → Bool
is_finite bits = not (bits / 2 ^ 23 % 256 == 255)

abbrev pub one_bits : ℕ
one_bits = 0x3f800000

abbrev pub good_scales : ℕ → ℕ → ℕ → Bool
good_scales format k_scale v_scale =
    is_finite k_scale
    && is_finite v_scale
    && (format == 1 || (k_scale == one_bits && v_scale == one_bits))

unfoldable pub read_slot : Config → ℕ → Reader → Option Reader
read_slot cfg slot r = elim (take_bytes cfg.bytes_per_k_or_v r.rest) [
  | none ↦ none
  | some (k, r1) ↦ elim (take_bytes cfg.bytes_per_k_or_v r1) [
    | none ↦ none
    | some (v, r2) ↦ elim (take_bytes 4 r2) [
      | none ↦ none
      | some (ks, r3) ↦ elim (take_bytes 4 r3) [
        | none ↦ none
        | some (vs, r4) ↦
            if good_scales (format_id cfg.kv_format) (u32_at ks) (u32_at vs)
            then some (record {
              cache =
                  set r.cache slot
                    (record { k = k; v = v; k_scale = u32_at ks; v_scale = u32_at vs });
              hash = update (update (update (update r.hash k) v) ks) vs;
              rest = r4;
            })
            else none
      ]
    ]
  ]
]

unfoldable pub read_slots : Config → List ℕ → Reader → Option Reader
unfolding read_slot
read_slots cfg [] r = some r
read_slots cfg (slot ∷ slots) r = elim (read_slot cfg slot r) [
  | none ↦ none
  | some r' ↦ read_slots cfg slots r'
]

pub record Restored : Type 0 where
  pub cache : List Slot
  pub positions : ℕ
  pub next_token : ℕ

-- The test of the header, whose bytes these are.
unfoldable pub good_header : Config → List ℕ → Bool
unfolding same_text format_id
good_header cfg s =
    let positions = u32_at (drop 16 s) in
    same_text (take 8 s) magic
    && (u32_at (drop 8 s) == 2)
    && (u32_at (drop 12 s) == cfg.layers)
    && not (positions == 0)
    && not (ltb cfg.ctx_tokens positions)
    && (u32_at (drop 20 s) == cfg.ctx_tokens)
    && (u32_at (drop 24 s) == cfg.kv_heads)
    && (u32_at (drop 28 s) == cfg.head_dim)
    && (u32_at (drop 32 s) == format_id cfg.kv_format)
    && (u32_at (drop 36 s) == cfg.bytes_per_k_or_v)
    && (u32_at (drop 44 s) == cfg.seed)

unfoldable pub read_snapshot : Config → List Slot → List ℕ → Result Error Restored
unfolding good_header read_slots
read_snapshot cfg cache file = elim (take_bytes 48 file) [
  | none ↦ err header_mismatch
  | some (header, rest) ↦
      let positions = u32_at (drop 16 header) in
      let started : Reader = record { cache = cache; hash = update sha_init header; rest = rest } in
      if not (good_header cfg header)
      then err header_mismatch
      else elim (read_slots cfg (slot_order cfg positions) started) [
        | none ↦ err payload_mismatch
        | some r ↦ elim (take_bytes 32 r.rest) [
          | none ↦ err payload_mismatch
          | some (expected, over) ↦
              if not (same_text expected (final r.hash)) || not (length over == 0)
              then err payload_mismatch
              else ok (record {
                cache = r.cache;
                positions = positions;
                next_token = u32_at (drop 40 header);
              })
        ]
      ]
]
