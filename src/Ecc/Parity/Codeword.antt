-- ===== src/Ecc/Parity/Codeword.antt =====
-- A segment whose parity was just set has no parity error, in any column.
use ftape.Prelude.{ℕ, zero, suc, ◌+◌, ◌-◌, ◌*◌, ◌<◌, ◌≡◌, ◌≢◌, refl, ◌∙◌, arith}
use native.Mathlib.Decide.{dec_lt}
use ftape.Prelude.Bits.{xor_self, zero-xor}
use ftape.Ecc.Field.{gfadd_long}
use ftape.Ecc.Field.Lanes.{mul_c0_long-zero}
use ftape.Ecc.Memory.{Memory, load, store}
use ftape.Ecc.Memory.Laws.{IsBytes, store_other, load_ext, load-store}
use ftape.Ecc.Parity.{
  Parity, no_parity, parity_step, parity_loop, set_parity, store_parity, sector_size,
  parity_columns, columns,
}
use ftape.Ecc.Parity.Bounds.{IsLongs, set_parity-IsLongs, store_parity-IsBytes}

parity_loop-add :
    (m : Memory) (a n k : ℕ) (p : Parity)
    → parity_loop m a (n + k) p ≡ parity_loop m (a + n * sector_size) k (parity_loop m a n p)
unfolding parity_loop
parity_loop-add m a zero k p =
    let e : 0 + k ≡ k = omega arith in let f : a + 0 * sector_size ≡ a = omega arith in rw (e, f)
parity_loop-add m a (suc n) k p =
    let e : suc n + k ≡ suc (n + k) = omega arith in
    let f : a + suc n * sector_size ≡ a + sector_size + n * sector_size = omega arith in
    rw (e, f) (parity_loop-add m (a + sector_size) n k (parity_step p (load m a 8)))

-- The loop reads one word of each row.
parity_loop_ext :
    (m m' : Memory) (a n : ℕ) (p : Parity)
    → ((k d : ℕ) → k < n → d < 8 → m (a + k * sector_size + d) ≡ m' (a + k * sector_size + d))
    → parity_loop m a n p ≡ parity_loop m' a n p
unfolding parity_loop
parity_loop_ext m m' a zero p h = refl
parity_loop_ext m m' a (suc n) p h =
    rw
      (load_ext m m' a 8 (λ d lt.
        let e : a + 0 * sector_size + d ≡ a + d = omega arith in rw e at (h 0 d (omega arith) lt)))
      (parity_loop_ext m m' (a + sector_size) n (parity_step p (load m' a 8)) (λ k d lt ld.
        let e : a + sector_size + k * sector_size + d ≡ a + suc k * sector_size + d = omega arith in
        rw e (h (suc k) d (omega arith) ld)))

-- Fed with its own words the register runs empty.
parity_step_own : (p : Parity) → parity_step p p.p0 ≡ record { p0 = p.p1; p1 = p.p2; p2 = 0 }
unfolding parity_step gfadd_long
parity_step_own p = rw (xor_self p.p0, mul_c0_long-zero, zero-xor p.p1, zero-xor p.p2)

parity_three :
    (m : Memory) (a : ℕ) (p : Parity)
    → load m a 8 ≡ p.p0
    → load m (a + sector_size) 8 ≡ p.p1
    → load m (a + sector_size + sector_size) 8 ≡ p.p2
    → parity_loop m a 3 p ≡ no_parity
unfolding parity_loop
parity_three m a p h0 h1 h2 = rw (
  h0,
  parity_step_own p,
  h1,
  parity_step_own (record { p0 = p.p1; p1 = p.p2; p2 = 0 }),
  h2,
  parity_step_own (record { p0 = p.p2; p1 = 0; p2 = 0 }),
)

-- Three words at the same column of three rows do not overlap.
load_parity :
    (m : Memory) (a : ℕ) (p : Parity)
    → IsLongs p
    → (load (store_parity m a p) a 8 ≡ p.p0)
      × (load (store_parity m a p) (a + sector_size) 8 ≡ p.p1)
      × (load (store_parity m a p) (a + sector_size + sector_size) 8 ≡ p.p2)
unfolding store_parity
load_parity m a p h =
    let m0 = store m a 8 p.p0 in
    let m1 = store m0 (a + sector_size) 8 p.p1 in
    let m2 = store m1 (a + sector_size + sector_size) 8 p.p2 in
    (
      load_ext m2 m1 a 8 (λ d lt.
            store_other m1 (a + sector_size + sector_size) 8 p.p2 (a + d) (λ e le. omega arith))
          ∙ load_ext m1 m0 a 8
              (λ d lt. store_other m0 (a + sector_size) 8 p.p1 (a + d) (λ e le. omega arith))
          ∙ load-store m a 8 p.p0 h.0,
      load_ext m2 m1 (a + sector_size) 8 (λ d lt.
            store_other m1 (a + sector_size + sector_size) 8 p.p2 (a + sector_size + d)
              (λ e le. omega arith))
          ∙ load-store m0 (a + sector_size) 8 p.p1 h.1,
      load-store m1 (a + sector_size + sector_size) 8 p.p2 h.2,
    )

store_parity_other :
    (m : Memory) (a x : ℕ) (p : Parity)
    → ((c e : ℕ) → c < 3 → e < 8 → x ≢ a + c * sector_size + e)
    → store_parity m a p x ≡ m x
unfolding store_parity
store_parity_other m a x p h =
    store_other _ (a + sector_size + sector_size) 8 p.p2 x
      (λ e le q. h 2 e (omega arith) le (omega arith))
    ∙ store_other _ (a + sector_size) 8 p.p1 x (λ e le q. h 1 e (omega arith) le (omega arith))
    ∙ store_other m a 8 p.p0 x (λ e le q. h 0 e (omega arith) le (omega arith))

-- The column that was just given its parity.
set_parity-store_parity :
    (m : Memory) (col n : ℕ)
    → IsBytes m
    → col < 1024
    → let m' = store_parity m (n * sector_size + col) (set_parity m col n) in
      set_parity m' col (n + 3) ≡ no_parity
set_parity-store_parity m col n b lt =
    let p = set_parity m col n in
    let a = n * sector_size + col in
    let m' = store_parity m a p in
    let at : col + n * sector_size ≡ a = omega arith in
    let got = load_parity m a p (set_parity-IsLongs m col n b) in
    let same : parity_loop m' col n no_parity ≡ parity_loop m col n no_parity =
      parity_loop_ext m' m col n no_parity (λ k d lk ld.
        store_parity_other m a (col + k * sector_size + d) p (λ c e lc le. omega arith)) in
    let p-eq : parity_loop m col n no_parity ≡ p = unfold set_parity in refl in
    unfold set_parity in
    parity_loop-add m' col n 3 no_parity
    ∙ rw (at, same, p-eq) (parity_three m' a p got.0 got.1 got.2)

-- Another column.
set_parity_other :
    (m : Memory) (i j n k : ℕ) (p : Parity)
    → i ≢ j
    → i < 128
    → j < 128
    → set_parity (store_parity m (n * sector_size + 8 * i) p) (8 * j) k ≡ set_parity m (8 * j) k
unfolding set_parity
set_parity_other m i j n k p ne li lj =
    parity_loop_ext (store_parity m (n * sector_size + 8 * i) p) m (8 * j) k no_parity (λ q d lq ld.
      store_parity_other m (n * sector_size + 8 * i) (8 * j + q * sector_size + d) p
        (λ c e lc le. omega arith))

abbrev AreClean : Memory → ℕ → ℕ → Type 0
AreClean m n i = (j : ℕ) → j < i → set_parity m (8 * j) (n + 3) ≡ no_parity

parity_columns-AreClean :
    (left i n : ℕ) (m : Memory)
    → IsBytes m
    → i + left ≡ columns
    → AreClean m n i
    → AreClean (parity_columns left (8 * i) (n + 3) m) n columns
unfolding parity_columns
parity_columns-AreClean zero i n m b e clean = λ j lt. clean j (omega arith)
parity_columns-AreClean (suc left) i n m b e clean =
    let f : 8 * i + 8 ≡ 8 * suc i = omega arith in
    let g : n + 3 - 3 ≡ n = omega arith in
    let p = set_parity m (8 * i) n in
    let m' = store_parity m (n * sector_size + 8 * i) p in
    rw (f, g)
      (parity_columns-AreClean left (suc i) n m'
        (store_parity-IsBytes m (n * sector_size + 8 * i) p b) (omega arith)
        (λ j lt. elim (dec_lt j i) [
          | yes below ↦
              set_parity_other m i j n (n + 3) p (omega arith) (omega arith) (omega arith)
              ∙ clean j below
          | no above ↦
              let same : j ≡ i = omega arith in
              rw same (set_parity-store_parity m (8 * i) n b (omega arith))
        ]))

-- After `ftape_ecc_set_segment_parity` every column of longs has zero parity words.
pub set_segment_parity-IsClean :
    (m : Memory) (n : ℕ)
    → IsBytes m
    → (j : ℕ) → j < columns
    → set_parity (parity_columns columns 0 (n + 3) m) (8 * j) (n + 3) ≡ no_parity
set_segment_parity-IsClean m n b =
    parity_columns-AreClean columns 0 n m b (omega arith) (λ j lt. absurd (omega arith))
