-- ===== src/Vtbl/Write/Invariant.antt =====
-- Writing keeps the volumes in a row without a gap (ftape/zftape/zftape-vtbl.c).
use ftape.Prelude.{
  ℕ, ◌+◌, ◌^◌, ◌≤◌, ◌<◌, ◌≡◌, ◌≢◌, ◌⊎◌, refl, sym, subst, ◌∙◌, ◌==◌, leb, Bool-cases, inl, inr,
  List, [], ◌∷◌, ◌++◌, length, length-append, Option, none, some, arith,
}
use ftape.Prelude.Words.{add_word}
use ftape.Zft.Position.{segment_size}
use ftape.Vtbl.Table.{Volume, Zft, Position, Status, ok, blank, last_vtbl, last_or, new_vtbl_entry}
use ftape.Vtbl.Lookup.Tiled.{IsTiled, IsTiled-snoc}
use ftape.Vtbl.Write.{open_entry, append_open, next_offset, max_volumes}

-- The number of the node that the pointer is at.
abbrev pub node_of : Option ℕ → List Volume → ℕ
node_of cur vs = elim cur [ none ↦ length vs + 1 | some i ↦ i ]

-- The volumes and `eom` take all segments from the second data segment up to the one behind the
-- last without a gap, and the pointer is at one of them.
pub record IsRow (first last head_end : ℕ) (vs : List Volume) (start end : ℕ) (cur : Option ℕ)
    : Type 0 where
  pub tiled : IsTiled (first + 1) vs start
  pub head : head_end ≡ first
  pub eom : end ≡ last + 1
  pub inside : start ≤ last + 1
  pub small : last + 1 < 2 ^ 32
  pub pointer : (0 < node_of cur vs) × (node_of cur vs ≤ length vs + 1)

-- A volume table in memory that is complete.
abbrev pub IsWritable : Zft → Type 0
IsWritable z =
    IsRow z.tape.first_data_segment z.tape.last_data_segment z.head.end_seg z.volumes
      z.eom.start_seg z.eom.end_seg z.cur

-- The last volume, or `head`, ends in front of `eom`.
pub last-end :
    (vs : List Volume) (d : Volume) (lo hi : ℕ)
    → d.end_seg + 1 ≡ lo
    → IsTiled lo vs hi
    → (last_or d vs).end_seg + 1 ≡ hi
last-end [] d lo hi e t = e ∙ t
last-end (v ∷ vs) d lo hi e t = last-end vs v (v.end_seg + 1) hi refl t.2

last-snoc : (vs : List Volume) (d v : Volume) → last_or d (vs ++ v ∷ []) ≡ v
last-snoc [] d v = refl
last-snoc (w ∷ vs) d v = last-snoc vs w v

-- A pointer at a node stays at that node when an entry comes in front of `eom`.
node_of-snoc :
    (cur : Option ℕ) (vs : List Volume) (v : Volume)
    → (0 < node_of cur vs) × (node_of cur vs ≤ length vs + 1)
    → (0 < node_of cur (vs ++ v ∷ [])) × (node_of cur (vs ++ v ∷ []) ≤ length (vs ++ v ∷ []) + 1)
node_of-snoc none vs v h = omega arith
node_of-snoc (some i) vs v h = omega (arith, h, length-append vs (v ∷ []))

-- An entry behind the last one, with `eom` behind it.
pub IsRow-snoc :
    (first last head : ℕ) (vs : List Volume) (start end : ℕ) (cur : Option ℕ) (v : Volume)
    → IsRow first last head vs start end cur
    → v.start_seg ≡ start
    → v.start_seg ≤ v.end_seg
    → v.end_seg ≤ last
    → IsRow first last head (vs ++ v ∷ []) (v.end_seg + 1) end cur
IsRow-snoc first last head vs start end cur v w from le upto = record {
  tiled =
      IsTiled-snoc vs (first + 1) v (v.end_seg + 1)
        (subst (IsTiled (first + 1) vs) (sym from) w.tiled) le refl;
  head = w.head;
  eom = w.eom;
  inside = omega (arith, upto);
  small = w.small;
  pointer = node_of-snoc cur vs v w.pointer;
}

-- The segment behind the last volume, which a new volume has to start at.
pub IsWritable-end : (z : Zft) → IsWritable z → add_word (last_vtbl z).end_seg 1 ≡ z.eom.start_seg
unfolding last_vtbl
IsWritable-end z w =
    let e =
      last-end z.volumes z.head (z.tape.first_data_segment + 1) z.eom.start_seg
        (omega (arith, w.head)) w.tiled in
    omega (arith, e, w.inside, w.small)

-- The new volume of `append_open`.
abbrev pub opened : Zft → Position → ℕ → Volume
opened z p blk_sz = open_entry z p blk_sz (record blank { count = z.eom.count })

-- An open that goes well appends one volume, and one that fails leaves all as it is.
abbrev pub Opens : Zft → Position → ℕ → Status × Zft × Position → Type 0
Opens z p blk_sz (status, z', p') =
    IsWritable z'
    × (((status ≡ ok)
          × (z'.volumes ≡ z.volumes ++ opened z p blk_sz ∷ [])
          × (p.seg_pos ≡ z.eom.start_seg))
        ⊎ ((status ≢ ok) × (z' ≡ z) × (p' ≡ p)))

pub append_open-Opens :
    (z : Zft) (p : Position) (blk_sz : ℕ)
    → IsWritable z
    → p.seg_pos ≤ z.tape.last_data_segment
    → Opens z p blk_sz (append_open z p blk_sz)
unfolding append_open open_entry new_vtbl_entry
append_open-Opens z p blk_sz w upto =
    elim (Bool-cases (p.seg_pos == add_word (last_vtbl z).end_seg 1)) [
      | inr away ↦ rw away (w, inr ((λ e. cc e), refl, refl))
      | inl here ↦
          let from : p.seg_pos ≡ z.eom.start_seg = ground (arith, here, IsWritable-end z w) in
          elim (Bool-cases (leb (max_volumes z) z.eom.count)) [
            | inl full ↦ rw (here, full) (w, inr ((λ e. cc e), refl, refl))
            | inr free ↦ elim (Bool-cases (leb segment_size (next_offset z))) [
              | inl behind ↦ rw (here, free, behind) (w, inr ((λ e. cc e), refl, refl))
              | inr fits ↦
                  rw (here, free, fits)
                    (
                      IsRow-snoc z.tape.first_data_segment z.tape.last_data_segment z.head.end_seg
                          z.volumes z.eom.start_seg z.eom.end_seg z.cur (opened z p blk_sz) w from
                          upto (omega arith),
                      inl (refl, refl, from),
                    )
            ]
          ]
    ]
