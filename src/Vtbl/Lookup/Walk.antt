-- ===== src/Vtbl/Lookup/Walk.antt =====
-- The loops of `zft_volume_by_segpos` (ftape/zftape/zftape-vtbl.c).
use ftape.Prelude.{
  ℕ, zero, suc, ◌+◌, ◌≤◌, ◌<◌, ◌≡◌, refl, ap, ◌∙◌, ltb, if◌then◌else◌, Bool-cases, inl, inr, false,
  List, [], ◌∷◌, length, get_elem?, some, arith,
}
use ftape.Vtbl.Table.{Volume}
use ftape.Vtbl.Lookup.{forward, backward}
use ftape.Vtbl.Lookup.Tiled.{IsTiled}

-- Node `i` of the list.
abbrev pub At : List Volume → ℕ → Volume → Type 0
At vs i v = get_elem? vs i ≡ some v

module _ (seg : ℕ) where
  pub forward_lem :
      (vs : List Volume) (lo hi i : ℕ)
      → IsTiled lo vs hi
      → 0 < length vs
      → seg < hi
      → (k : ℕ) × (v : Volume) × (forward seg i vs ≡ some (i + k)) × At vs k v × (seg ≤ v.end_seg)
  unfolding forward
  forward_lem [] lo hi i t more below = absurd (omega (arith, more))
  forward_lem (v ∷ []) lo hi i t more below =
      let stop : ltb v.end_seg seg ≡ false = ground arith in
      let e : i + 0 ≡ i = omega arith in (0, v, rw (stop, e) refl, refl, omega (arith, t, below))
  forward_lem (v ∷ w ∷ vs) lo hi i t more below = elim (Bool-cases (ltb v.end_seg seg)) [
    | inl on ↦
        let (k, u, found, at, le) =
          forward_lem (w ∷ vs) (v.end_seg + 1) hi (i + 1) t.2 (omega arith) below in
        let e : i + 1 + k ≡ i + suc k = omega arith in (suc k, u, rw on (found ∙ ap some e), at, le)
    | inr stop ↦ let e : i + 0 ≡ i = omega arith in (0, v, rw (stop, e) refl, refl, ground arith)
  ]

  -- The node in front of a node of volumes without a gap.
  before :
      (vs : List Volume) (lo hi i : ℕ) (v : Volume)
      → IsTiled lo vs hi
      → At vs (suc i) v
      → (u : Volume) × At vs i u × (u.end_seg + 1 ≡ v.start_seg)
  before [] lo hi i v t at = absurd (ground (arith, at))
  before (u ∷ []) lo hi i v t at = absurd (ground (arith, at))
  before (u ∷ w ∷ vs) lo hi zero v t at = (u, refl, ground (arith, at, t))
  before (u ∷ w ∷ vs) lo hi (suc i) v t at = before (w ∷ vs) (u.end_seg + 1) hi i v t.2 at

  backward_step :
      (vs : List Volume) (i : ℕ) (v : Volume)
      → At vs (suc i) v
      → backward seg vs (suc i) ≡ (if ltb seg v.start_seg then backward seg vs i else some (suc i))
  unfolding backward
  backward_step vs i v at = rw (at, backward)

  pub backward_lem :
      (head : Volume) (vs : List Volume) (lo hi i : ℕ) (v : Volume)
      → IsTiled lo vs hi
      → lo ≤ seg
      → At vs i v
      → seg ≤ v.end_seg
      → (k : ℕ) × (u : Volume) × (backward seg (head ∷ vs) (suc i) ≡ some (suc k))
        × At vs k u
        × (u.start_seg ≤ seg)
        × (seg ≤ u.end_seg)
  unfolding backward
  backward_lem head [] lo hi i v t le at below = absurd (ground (arith, at))
  backward_lem head (w ∷ vs) lo hi zero v t le at below =
      let e : w ≡ v = ground (arith, at) in
      let start : w.start_seg ≤ seg = omega (arith, t.0, le) in
      let stop : ltb seg w.start_seg ≡ false = ground arith in
      (0, w, rw stop refl, refl, start, rw e below)
  backward_lem head (w ∷ vs) lo hi (suc i) v t le at below =
      elim (Bool-cases (ltb seg v.start_seg)) [
        | inl on ↦
            let (u, at', touch) = before (w ∷ vs) lo hi i v t at in
            let ends : seg ≤ u.end_seg = ground (arith, on, touch) in
            let (k, x, found, atk, starts, le') =
              backward_lem head (w ∷ vs) lo hi i u t le at' ends in
            let step : backward seg (head ∷ w ∷ vs) (suc (suc i))
                ≡ backward seg (head ∷ w ∷ vs) (suc i) =
              backward_step (head ∷ w ∷ vs) (suc i) v at ∙ (rw on) in
            (k, x, step ∙ found, atk, starts, le')
        | inr stop ↦
            let step : backward seg (head ∷ w ∷ vs) (suc (suc i)) ≡ some (suc (suc i)) =
              backward_step (head ∷ w ∷ vs) (suc i) v at ∙ (rw stop) in
            (suc i, v, step, at, ground (arith, stop), below)
      ]
