-- ===== src/Snapshot/Print.antt =====
-- src/qx_format.c: the file that a snapshot of some slots is, and what its readers ask of a slot.
use qx_mini_c.Prelude.Bytes.{le32}
use qx_mini_c.Prelude.{ℕ, ◌≡◌, true, List, [], ◌∷◌, ◌++◌, length, set, IsU32}
use qx_mini_c.Snapshot.{Config, Slot, format_id, header_bytes, good_scales}
use qx_mini_c.Snapshot.Sha256.Fips.{sha256}

abbrev pub slot_bytes : Slot → List ℕ
slot_bytes s = s.k ++ (s.v ++ (le32 s.k_scale ++ le32 s.v_scale))

abbrev pub slots_bytes : List Slot → List ℕ
slots_bytes [] = []
slots_bytes (s ∷ ss) = slot_bytes s ++ slots_bytes ss

-- The header and the slots, and the SHA-256 digest of both.
abbrev pub body : Config → ℕ → ℕ → List Slot → List ℕ
body cfg positions next_token ss = header_bytes cfg positions next_token ++ slots_bytes ss

abbrev pub print_snapshot : Config → ℕ → ℕ → List Slot → List ℕ
print_snapshot cfg positions next_token ss =
    body cfg positions next_token ss ++ sha256 (body cfg positions next_token ss)

-- The numbers of a configuration have 32 bits.
pub record IsConfig (cfg : Config) : Type 0 where
  pub layers : IsU32 cfg.layers
  pub ctx_tokens : IsU32 cfg.ctx_tokens
  pub kv_heads : IsU32 cfg.kv_heads
  pub head_dim : IsU32 cfg.head_dim
  pub bytes : IsU32 cfg.bytes_per_k_or_v
  pub seed : IsU32 cfg.seed

pub record IsStored (cfg : Config) (s : Slot) : Type 0 where
  pub k_size : length s.k ≡ cfg.bytes_per_k_or_v
  pub v_size : length s.v ≡ cfg.bytes_per_k_or_v
  pub k_word : IsU32 s.k_scale
  pub v_word : IsU32 s.v_scale
  pub scales : good_scales (format_id cfg.kv_format) s.k_scale s.v_scale ≡ true

-- A cache with the slots put in their places, one after the other.
abbrev pub store : List ℕ → List Slot → List Slot → List Slot
store [] ss cache = cache
store (slot ∷ slots) [] cache = cache
store (slot ∷ slots) (s ∷ ss) cache = store slots ss (set cache slot s)
