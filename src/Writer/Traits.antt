-- ===== src/Writer/Traits.antt =====
-- src/qx_format.c: the traits of qx_dtype_from_ggml_type, against those that a reader asks for.
use qx_mini_c.Container.{Tensor, block_geometry, validate_traits}
use qx_mini_c.Gguf.{Info}
use qx_mini_c.Prelude.{ℕ, zero, suc, ◌≡◌, refl, true, none, arith, ◌⊎◌, inl, inr}
use qx_mini_c.Writer.{entry_at}

-- A type whose blocks the reader knows has the traits that it asks for.
abbrev pub HasTraits : Tensor → Type 0
HasTraits t = (block_geometry t.flags ≡ none) ⊎ (validate_traits t ≡ true)

unknown :
    (n : ℕ)
    → block_geometry (
        suc (
          suc (
            suc (
              suc (
                suc (
                  suc (
                    suc (
                      suc (
                        suc (
                          suc (
                            suc (
                              suc (
                                suc (
                                  suc (
                                    suc (
                                      suc (
                                        suc (
                                          suc
                                            (suc (suc (suc (suc (suc (suc n))))))))))))))))))))))))
      ≡ none
unfolding block_geometry
unknown n = ground arith

pub traits_of :
    (quant cursor : ℕ) (gt : Info) (n : ℕ)
    → HasTraits (entry_at quant cursor (record gt { ggml_type = n }))
unfolding block_geometry validate_traits
traits_of quant cursor gt zero = inr refl
traits_of quant cursor gt (suc zero) = inr refl
traits_of quant cursor gt (suc (suc zero)) = inl refl
traits_of quant cursor gt (suc (suc (suc zero))) = inl refl
traits_of quant cursor gt (suc (suc (suc (suc zero)))) = inl refl
traits_of quant cursor gt (suc (suc (suc (suc (suc zero))))) = inl refl
traits_of quant cursor gt (suc (suc (suc (suc (suc (suc zero)))))) = inl refl
traits_of quant cursor gt (suc (suc (suc (suc (suc (suc (suc zero))))))) = inl refl
traits_of quant cursor gt (suc (suc (suc (suc (suc (suc (suc (suc zero)))))))) = inr refl
traits_of quant cursor gt (suc (suc (suc (suc (suc (suc (suc (suc (suc zero))))))))) = inl refl
traits_of quant cursor gt (suc (suc (suc (suc (suc (suc (suc (suc (suc (suc zero)))))))))) =
    inr refl
traits_of quant cursor gt (suc (suc (suc (suc (suc (suc (suc (suc (suc (suc (suc zero))))))))))) =
    inr refl
traits_of quant cursor gt
      (suc (suc (suc (suc (suc (suc (suc (suc (suc (suc (suc (suc zero)))))))))))) =
    inr refl
traits_of quant cursor gt
      (suc (suc (suc (suc (suc (suc (suc (suc (suc (suc (suc (suc (suc zero))))))))))))) =
    inr refl
traits_of quant cursor gt
      (suc (suc (suc (suc (suc (suc (suc (suc (suc (suc (suc (suc (suc (suc zero)))))))))))))) =
    inr refl
traits_of quant cursor gt
      (suc
        (suc (suc (suc (suc (suc (suc (suc (suc (suc (suc (suc (suc (suc (suc zero))))))))))))))) =
    inl refl
traits_of quant cursor gt
      (suc (
        suc (
          suc
            (suc (suc (suc (suc (suc (suc (suc (suc (suc (suc (suc (suc (suc zero)))))))))))))))) =
    inl refl
traits_of quant cursor gt
      (suc (
        suc (
          suc (
            suc (
              suc
                (suc (suc (suc (suc (suc (suc (suc (suc (suc (suc (suc (suc zero))))))))))))))))) =
    inr refl
traits_of quant cursor gt
      (suc (
        suc (
          suc (
            suc (
              suc (
                suc (
                  suc
                    (suc (suc (suc (suc (suc (suc (suc (suc (suc (suc (suc zero)))))))))))))))))) =
    inr refl
traits_of quant cursor gt
      (suc (
        suc (
          suc (
            suc (
              suc (
                suc (
                  suc (
                    suc (
                      suc
                        (suc (suc (suc (suc (suc (suc (suc (suc (suc (suc zero))))))))))))))))))) =
    inl refl
traits_of quant cursor gt
      (suc (
        suc (
          suc (
            suc (
              suc (
                suc (
                  suc (
                    suc (
                      suc (
                        suc (
                          suc
                            (suc (suc (suc (suc (suc (suc (suc (suc (suc zero)))))))))))))))))))) =
    inl refl
traits_of quant cursor gt
      (suc (
        suc (
          suc (
            suc (
              suc (
                suc (
                  suc (
                    suc (
                      suc (
                        suc (
                          suc (
                            suc (
                              suc
                                (suc (suc (suc (suc (suc (suc (suc (suc zero))))))))))))))))))))) =
    inr refl
traits_of quant cursor gt
      (suc (
        suc (
          suc (
            suc (
              suc (
                suc (
                  suc (
                    suc (
                      suc (
                        suc (
                          suc (
                            suc (
                              suc (
                                suc (
                                  suc
                                    (suc (suc (suc (suc (suc (suc (suc zero)))))))))))))))))))))) =
    inr refl
traits_of quant cursor gt
      (suc (
        suc (
          suc (
            suc (
              suc (
                suc (
                  suc (
                    suc (
                      suc (
                        suc (
                          suc (
                            suc (
                              suc (
                                suc (
                                  suc (
                                    suc (
                                      suc
                                        (suc (suc (suc (suc (suc (suc zero))))))))))))))))))))))) =
    inr refl
traits_of quant cursor gt
      (suc (
        suc (
          suc (
            suc (
              suc (
                suc (
                  suc (
                    suc (
                      suc (
                        suc (
                          suc (
                            suc (
                              suc (
                                suc (
                                  suc (
                                    suc (
                                      suc (
                                        suc
                                          (suc (suc (suc (suc (suc (suc n)))))))))))))))))))))))) =
    inl (unknown n)
