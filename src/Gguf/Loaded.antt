-- ===== src/Gguf/Loaded.antt =====
-- src/qx_gguf.c: the steps of a table's load.
use mathlib.Core.Path.{subst}
use qx_mini_c.Gguf.{Info, Summary, Error, data_past_eof, not_monotonic, inspect}
use qx_mini_c.Gguf.Table.{Place, Table, places, give_sizes, load_tensors, load_tensor_table}
use qx_mini_c.Prelude.{
  ℕ, ◌-◌, ◌≤◌, ◌≡◌, refl, sym, ap, ◌∙◌, Bool, true, false, List, some, ltb, length, arith,
  Bool-cases, Option-cases, inl, inr,
}
use qx_mini_c.Prelude.Results.{Result, ok, err, Result-cases}

-- What an accepted file went through.
pub record IsLoaded (sort : List Place → List Place) (bytes : List ℕ) (s : Summary) (table : Table)
    (ts us : List Info) : Type 0 where
  pub inspected : inspect bytes ≡ ok s
  pub fits : s.data_offset ≤ length bytes
  pub read :
      load_tensors s.data_offset
        (length bytes)
        s.tensor_count
        (record { bytes = bytes; pos = s.tensor_info_offset })
      ≡ ok ts
  pub given : give_sizes (length bytes - s.data_offset) ts (sort (places 0 ts)) ≡ some us
  pub made : record { data_offset = s.data_offset; file_size = length bytes; tensors = us } ≡ table

loaded_or : Summary × Table → Result Error (Summary × Table) → Summary × Table
loaded_or d (ok r) = r
loaded_or d (err x) = d

was_ok : Result Error (Summary × Table) → Bool
was_ok (ok r) = true
was_ok (err x) = false

no_result : (x : Error) (r : Summary × Table) → err x ≡ ok r → ⊥
unfolding was_ok
no_result x r e = ground (arith, ap was_ok e)

pub load_tensor_table-IsLoaded :
    (sort : List Place → List Place) (bytes : List ℕ) (s : Summary) (table : Table)
    → load_tensor_table sort bytes ≡ ok (s, table)
    → (ts : List Info) × (us : List Info) × IsLoaded sort bytes s table ts us
unfolding load_tensor_table loaded_or
load_tensor_table-IsLoaded sort bytes s table e = elim (Result-cases (inspect bytes)) [
  | inl (x, bad) ↦ absurd (no_result x (s, table) (sym (rw (bad, load_tensor_table) refl) ∙ e))
  | inr (s', e1) ↦ elim (Bool-cases (ltb (length bytes) s'.data_offset)) [
    | inl bad ↦
        absurd (no_result data_past_eof (s, table) (sym (rw (e1, bad, load_tensor_table) refl) ∙ e))
    | inr good ↦
        elim (Result-cases (
          load_tensors s'.data_offset (length bytes) s'.tensor_count
            (record { bytes = bytes; pos = s'.tensor_info_offset }))) [
              | inl (x, bad) ↦
                  absurd
                    (no_result x (s, table) (sym (rw (e1, good, bad, load_tensor_table) refl) ∙ e))
              | inr (ts, e2) ↦
                  elim (Option-cases
                    (give_sizes (length bytes - s'.data_offset) ts (sort (places 0 ts)))) [
                      | inl bad ↦ absurd (
                          no_result not_monotonic (s, table)
                            (sym (rw (e1, good, e2, bad, load_tensor_table) refl) ∙ e))
                      | inr (us, e3) ↦
                          let found : Summary × Table = (
                            s',
                            record {
                              data_offset = s'.data_offset;
                              file_size = length bytes;
                              tensors = us;
                            },
                          ) in
                          let whole : load_tensor_table sort bytes ≡ ok found =
                            rw (e1, good, e2, e3, load_tensor_table) refl in
                          let same : found ≡ (s, table) = ap (loaded_or found) (sym whole ∙ e) in
                          let fits : s'.data_offset ≤ length bytes = ground (arith, good) in
                          (
                            ts,
                            us,
                            subst (λ (x : Summary × Table). IsLoaded sort bytes x.0 x.1 ts us) same
                                (record {
                                  inspected = e1;
                                  fits = fits;
                                  read = e2;
                                  given = e3;
                                  made = refl;
                                }),
                          )
                    ]
            ]
  ]
]
