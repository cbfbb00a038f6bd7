-- ===== src/Vtbl/Lookup/Tiled.antt =====
-- Volumes that tile the tape: what the lookups of ftape/zftape/zftape-vtbl.c rely on.
use ftape.Prelude.{ℕ, ◌+◌, ◌≤◌, ◌≡◌, List, [], ◌∷◌, ◌++◌, sym, arith}
use ftape.Vtbl.Table.{Volume}

-- The volumes take the segments from `lo` up to `hi`, `hi` not included, without a gap.
abbrev pub IsTiled : (lo : ℕ) → List Volume → (hi : ℕ) → Type 0
IsTiled lo [] hi = lo ≡ hi
IsTiled lo (v ∷ vs) hi = (v.start_seg ≡ lo) × (lo ≤ v.end_seg) × IsTiled (v.end_seg + 1) vs hi

pub IsTiled-snoc :
    (vs : List Volume) (lo : ℕ) (v : Volume) (hi : ℕ)
    → IsTiled lo vs v.start_seg
    → v.start_seg ≤ v.end_seg
    → v.end_seg + 1 ≡ hi
    → IsTiled lo (vs ++ v ∷ []) hi
IsTiled-snoc [] lo v hi t le e = (sym t, omega (arith, t, le), e)
IsTiled-snoc (w ∷ vs) lo v hi t le e = (t.0, t.1, IsTiled-snoc vs (w.end_seg + 1) v hi t.2 le e)
