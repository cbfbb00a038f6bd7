-- ===== src/Ecc/Inverse.antt =====
-- `gfinv3`, `gfinv2` and `gfmat_mul` of ftape/lowlevel/ftape-ecc.c. A `Matrix` holds the rows and
-- columns that are in use; `none` is the result 0 of a failed inversion.
use ftape.Prelude.{ℕ, ◌+◌, ◌-◌, ◌==◌, if◌then◌else◌, List, [], ◌∷◌, Option, none, some}
use ftape.Prelude.Int.{pos}
use ftape.Ecc.Tables.{gfpow, gflog}
use ftape.Ecc.Field.{gfadd, gfmul, gfmul_exp}

abbrev pub Matrix : Type 0
Matrix = List (List ℕ)

unfoldable pub gfinv3 : ℕ → ℕ → ℕ → Option Matrix
gfinv3 l0 l1 l2 =
    let t20 = gfpow (l2 - l0) in
    let t10 = gfpow (l1 - l0) in
    let t21 = gfpow (l2 - l1) in
    let t12 = gfpow (l1 + 255 - l2) in
    let t01 = gfpow (l0 + 255 - l1) in
    let t02 = gfpow (l0 + 255 - l2) in
    let det = gfadd t20 (gfadd t10 (gfadd t21 (gfadd t12 (gfadd t01 t02)))) in
    let log_det = pos (255 - gflog det) in
    if det == 0
    then none
    else some (
        (gfmul_exp (gfadd (gfpow l1) (gfpow l2)) log_det
          ∷ gfmul_exp (gfadd t21 t12) log_det
          ∷ gfmul_exp (gfadd (gfpow (255 - l1)) (gfpow (255 - l2))) log_det
          ∷ [])
        ∷ (gfmul_exp (gfadd (gfpow l0) (gfpow l2)) log_det
            ∷ gfmul_exp (gfadd t20 t02) log_det
            ∷ gfmul_exp (gfadd (gfpow (255 - l0)) (gfpow (255 - l2))) log_det
            ∷ [])
        ∷ (gfmul_exp (gfadd (gfpow l0) (gfpow l1)) log_det
            ∷ gfmul_exp (gfadd t10 t01) log_det
            ∷ gfmul_exp (gfadd (gfpow (255 - l0)) (gfpow (255 - l1))) log_det
            ∷ [])
        ∷ [])

unfoldable pub gfinv2 : ℕ → ℕ → Option Matrix
gfinv2 l0 l1 =
    let t1 = gfpow (255 - l0) in
    let t2 = gfpow (255 - l1) in
    let det = gfadd t1 t2 in
    let log_det = 255 - gflog det in
    if det == 0
    then none
    else some (
        (gfpow log_det ∷ gfmul_exp t2 (pos log_det) ∷ [])
        ∷ (gfpow log_det ∷ gfmul_exp t1 (pos log_det) ∷ [])
        ∷ [])

-- The inner loop of `gfmat_mul` over one row, from the partial sum `dot_prod`.
unfoldable pub dot : ℕ → List ℕ → List ℕ → ℕ
dot dot_prod [] s = dot_prod
dot dot_prod (a ∷ row) [] = dot_prod
dot dot_prod (a ∷ row) (x ∷ s) = dot (gfadd dot_prod (gfmul a x)) row s

unfoldable pub gfmat_mul : Matrix → List ℕ → List ℕ
unfolding dot
gfmat_mul [] s = []
gfmat_mul (row ∷ a) s = dot 0 row s ∷ gfmat_mul a s
