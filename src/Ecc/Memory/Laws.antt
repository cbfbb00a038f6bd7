-- ===== src/Ecc/Memory/Laws.antt =====
-- Reading back what was written into a buffer, and what a write leaves alone.
use ftape.Prelude.{ℕ, zero, suc, ◌+◌, ◌*◌, ◌/◌, ◌%◌, ◌^◌, ◌<◌, ◌≡◌, refl, ap₂, ◌≢◌, arith}
use native.Mathlib.Nat.{pow-suc}
use ftape.Ecc.Memory.{Memory, put_byte, load, store}

-- Every cell of the buffer is a byte.
abbrev pub IsBytes : Memory → Type 0
IsBytes m = (x : ℕ) → m x < 256

pub store_other : (m : Memory) (a n w x : ℕ) → ((d : ℕ) → d < n → x ≢ a + d) → store m a n w x ≡ m x
unfolding store
store_other m a zero w x h = refl
store_other m a (suc n) w x h = ground (
  arith,
  h 0 (omega arith),
  store_other m (a + 1) n (w / 256) x (λ d lt e. h (suc d) (omega arith) (omega arith)),
)

pub load_ext :
    (m m' : Memory) (a n : ℕ)
    → ((d : ℕ) → d < n → m (a + d) ≡ m' (a + d))
    → load m a n ≡ load m' a n
unfolding load
load_ext m m' a zero h = refl
load_ext m m' a (suc n) h =
    ap₂ {C = ℕ} (λ x y. x + 256 * y)
      (let e : a + 0 ≡ a = omega arith in rw e at (h 0 (omega arith)))
      (load_ext m m' (a + 1) n
        (λ d lt. let e : a + 1 + d ≡ a + suc d = omega arith in rw e (h (suc d) (omega arith))))

pub load-lt : (m : Memory) (a n : ℕ) → IsBytes m → load m a n < 256 ^ n
unfolding load
load-lt m a zero h = omega arith
load-lt m a (suc n) h = omega (arith, h a, load-lt m (a + 1) n h, pow-suc 256 n)

pub store-IsBytes : (m : Memory) (a n w : ℕ) → IsBytes m → IsBytes (store m a n w)
unfolding store
store-IsBytes m a zero w h x = h x
store-IsBytes m a (suc n) w h x = ground (arith, store-IsBytes m (a + 1) n (w / 256) h x)

pub load-store : (m : Memory) (a n w : ℕ) → w < 256 ^ n → load (store m a n w) a n ≡ w
unfolding load store
load-store m a zero w h = omega arith
load-store m a (suc n) w h =
    let m' = store m (a + 1) n (w / 256) in
    let above : load (put_byte m' a (w % 256)) (a + 1) n ≡ load m' (a + 1) n =
      load_ext (put_byte m' a (w % 256)) m' (a + 1) n (λ d lt. ground arith) in
    ground (arith, above, load-store m (a + 1) n (w / 256) (omega (arith, pow-suc 256 n)))
