-- ===== src/Gguf/Keys.antt =====
-- src/qx_gguf.c: the keys of the metadata that are read.
use qx_mini_c.Prelude.{ℕ, List, [], ◌∷◌}

abbrev pub general_alignment : List ℕ
general_alignment =
    b'g' ∷ b'e' ∷ b'n' ∷ b'e' ∷ b'r' ∷ b'a' ∷ b'l' ∷ b'.' ∷ b'a' ∷ b'l' ∷ b'i' ∷ b'g' ∷ b'n' ∷ b'm'
    ∷ b'e' ∷ b'n' ∷ b't' ∷ []

abbrev pub general_architecture : List ℕ
general_architecture =
    b'g' ∷ b'e' ∷ b'n' ∷ b'e' ∷ b'r' ∷ b'a' ∷ b'l' ∷ b'.' ∷ b'a' ∷ b'r' ∷ b'c' ∷ b'h' ∷ b'i' ∷ b't'
    ∷ b'e' ∷ b'c' ∷ b't' ∷ b'u' ∷ b'r' ∷ b'e' ∷ []

abbrev pub general_name : List ℕ
general_name =
    b'g' ∷ b'e' ∷ b'n' ∷ b'e' ∷ b'r' ∷ b'a' ∷ b'l' ∷ b'.' ∷ b'n' ∷ b'a' ∷ b'm' ∷ b'e' ∷ []

abbrev pub qwen3_prefix : List ℕ
qwen3_prefix = b'q' ∷ b'w' ∷ b'e' ∷ b'n' ∷ b'3' ∷ b'.' ∷ []

abbrev pub qwen3moe_prefix : List ℕ
qwen3moe_prefix = b'q' ∷ b'w' ∷ b'e' ∷ b'n' ∷ b'3' ∷ b'm' ∷ b'o' ∷ b'e' ∷ b'.' ∷ []

abbrev pub block_count_key : List ℕ
block_count_key = b'b' ∷ b'l' ∷ b'o' ∷ b'c' ∷ b'k' ∷ b'_' ∷ b'c' ∷ b'o' ∷ b'u' ∷ b'n' ∷ b't' ∷ []

abbrev pub expert_count_key : List ℕ
expert_count_key =
    b'e' ∷ b'x' ∷ b'p' ∷ b'e' ∷ b'r' ∷ b't' ∷ b'_' ∷ b'c' ∷ b'o' ∷ b'u' ∷ b'n' ∷ b't' ∷ []

abbrev pub expert_used_count_key : List ℕ
expert_used_count_key =
    b'e' ∷ b'x' ∷ b'p' ∷ b'e' ∷ b'r' ∷ b't' ∷ b'_' ∷ b'u' ∷ b's' ∷ b'e' ∷ b'd' ∷ b'_' ∷ b'c' ∷ b'o'
    ∷ b'u' ∷ b'n' ∷ b't' ∷ []

abbrev pub embedding_length_key : List ℕ
embedding_length_key =
    b'e' ∷ b'm' ∷ b'b' ∷ b'e' ∷ b'd' ∷ b'd' ∷ b'i' ∷ b'n' ∷ b'g' ∷ b'_' ∷ b'l' ∷ b'e' ∷ b'n' ∷ b'g'
    ∷ b't' ∷ b'h' ∷ []

abbrev pub feed_forward_length_key : List ℕ
feed_forward_length_key =
    b'f' ∷ b'e' ∷ b'e' ∷ b'd' ∷ b'_' ∷ b'f' ∷ b'o' ∷ b'r' ∷ b'w' ∷ b'a' ∷ b'r' ∷ b'd' ∷ b'_' ∷ b'l'
    ∷ b'e' ∷ b'n' ∷ b'g' ∷ b't' ∷ b'h' ∷ []

abbrev pub head_count_key : List ℕ
head_count_key =
    b'a' ∷ b't' ∷ b't' ∷ b'e' ∷ b'n' ∷ b't' ∷ b'i' ∷ b'o' ∷ b'n' ∷ b'.' ∷ b'h' ∷ b'e' ∷ b'a' ∷ b'd'
    ∷ b'_' ∷ b'c' ∷ b'o' ∷ b'u' ∷ b'n' ∷ b't' ∷ []

abbrev pub head_count_kv_key : List ℕ
head_count_kv_key =
    b'a' ∷ b't' ∷ b't' ∷ b'e' ∷ b'n' ∷ b't' ∷ b'i' ∷ b'o' ∷ b'n' ∷ b'.' ∷ b'h' ∷ b'e' ∷ b'a' ∷ b'd'
    ∷ b'_' ∷ b'c' ∷ b'o' ∷ b'u' ∷ b'n' ∷ b't' ∷ b'_' ∷ b'k' ∷ b'v' ∷ []

abbrev pub tokens_key : List ℕ
tokens_key =
    b't' ∷ b'o' ∷ b'k' ∷ b'e' ∷ b'n' ∷ b'i' ∷ b'z' ∷ b'e' ∷ b'r' ∷ b'.' ∷ b'g' ∷ b'g' ∷ b'm' ∷ b'l'
    ∷ b'.' ∷ b't' ∷ b'o' ∷ b'k' ∷ b'e' ∷ b'n' ∷ b's' ∷ []
