-- ===== src/Rw/Cluster/Good.antt =====
-- The good sectors of a map, counted along the clusters of `ftape_calc_next_cluster`
-- (ftape/lowlevel/ftape-rw.c).
use ftape.Prelude.{
  ℕ, zero, suc, ◌+◌, ◌-◌, ◌/◌, ◌%◌, ◌^◌, ◌≤◌, ◌==◌, if◌then◌else◌, ◌≡◌, refl, sym, ap, ◌∙◌, true,
  false, arith,
}
use native.Mathlib.Nat.{pow-suc, div-div-eq-div-mul}
use ftape.Rw.Cluster.{Buffer, calc_next_cluster}
use ftape.Rw.Cluster.Laws.{Run, shift, IsNextCluster, calc_next_cluster_lem}

-- The good ones of the next `n` sectors.
unfoldable pub good_sectors : (map n : ℕ) → ℕ
good_sectors map zero = 0
good_sectors map (suc n) =
    let rest = good_sectors (map / 2) n in if map % 2 == 0 then suc rest else rest

bad_first : (map n : ℕ) → map % 2 ≡ 1 → good_sectors map (suc n) ≡ good_sectors (map / 2) n
unfolding good_sectors
bad_first map n odd = let e : (map % 2 == 0) ≡ false = ground (arith, odd) in rw e refl

good_first : (map n : ℕ) → map % 2 ≡ 0 → good_sectors map (suc n) ≡ suc (good_sectors (map / 2) n)
unfolding good_sectors
good_first map n even = let e : (map % 2 == 0) ≡ true = ground (arith, even) in rw e refl

-- Bad sectors in front do not count, good ones do.
good-bad : (map n s : ℕ) → Run 1 map s → good_sectors map (n + s) ≡ good_sectors (shift map s) n
unfolding Run shift
good-bad map n zero r = ap (good_sectors map) (omega arith)
good-bad map n (suc s) r =
    let more : n + suc s ≡ suc (n + s) = omega arith in
    ap (good_sectors map) more ∙ bad_first map (n + s) r.0 ∙ good-bad (map / 2) n s r.1

good-run : (map n s : ℕ) → Run 0 map s → good_sectors map (n + s) ≡ s + good_sectors (shift map s) n
unfolding Run shift
good-run map n zero r =
    let none : n + 0 ≡ n = omega arith in ap (good_sectors map) none ∙ omega arith
good-run map n (suc s) r =
    let more : n + suc s ≡ suc (n + s) = omega arith in
    ap (good_sectors map) more
    ∙ good_first map (n + s) r.0
    ∙ ap suc (good-run (map / 2) n s r.1)
    ∙ omega arith

pub shift-pow : (map n : ℕ) → shift map n ≡ map / 2 ^ n
unfolding shift
shift-pow map zero = omega arith
shift-pow map (suc n) =
    shift-pow (map / 2) n
    ∙ div-div-eq-div-mul map 2 (2 ^ n)
    ∙ ap (λ (d : ℕ). map / d) (omega (arith, pow-suc 2 n))

-- The search for the next cluster leaves the number of good sectors.
pub next_cluster-good :
    (b : Buffer)
    → good_sectors (calc_next_cluster b).bad_sector_map (calc_next_cluster b).remaining
      ≡ good_sectors b.bad_sector_map b.remaining
next_cluster-good b =
    let h : IsNextCluster b (calc_next_cluster b) = calc_next_cluster_lem b in
    let c : Buffer = calc_next_cluster b in
    ap (λ (m : ℕ). good_sectors m c.remaining) h.map
    ∙ sym (good-bad b.bad_sector_map c.remaining h.skipped h.bad)
    ∙ ap (good_sectors b.bad_sector_map) h.rest

-- The sectors of a run of good ones are counted off.
pub good-advance :
    (map n c : ℕ)
    → Run 0 map c
    → c ≤ n
    → good_sectors map n ≡ c + good_sectors (map / 2 ^ c) (n - c)
good-advance map n c r small =
    let split : n ≡ n - c + c = omega (arith, small) in
    ap (good_sectors map) split
    ∙ good-run map (n - c) c r
    ∙ ap (λ (m : ℕ). c + good_sectors m (n - c)) (shift-pow map c)
