-- ===== src/Vtbl/Write/Append.antt =====
-- The marks that `zft_weof` appends (ftape/zftape/zftape-vtbl.c).
use ftape.Prelude.{
  ℕ, zero, suc, ◌+◌, ◌≤◌, ◌<◌, ◌≡◌, ◌⊎◌, refl, leb, ltb, Bool-cases, inl, inr, Bool, false, ◌&&◌,
  [], ◌∷◌, ◌++◌, length, length-append, arith,
}
use ftape.Zft.Position.{segment_size, get_seg_sz}
use ftape.Vtbl.Table.{Volume, Zft, Position, blank, new_vtbl_entry}
use ftape.Vtbl.Write.{mark_entry, next_offset, max_volumes, append_marks}
use ftape.Vtbl.Write.Invariant.{IsWritable, IsRow-snoc}

module _ (bad : ℕ → ℕ) where
  -- The state and the position behind the marks, and the marks that are left.
  pub record Marks (z : Zft) (count : ℕ) (r : ℕ × Bool × Zft × Position) : Type 0 where
    pub complete : IsWritable r.2
    pub behind : r.3.seg_pos ≡ r.2.eom.start_seg
    pub total : length r.2.volumes + r.0 ≡ length z.volumes + count
    pub room : (r.1 ≡ false) ⊎ (0 < r.0)

  pub append_marks-Marks :
      (count : ℕ) (z : Zft) (p : Position)
      → IsWritable z
      → p.seg_pos ≡ z.eom.start_seg
      → Marks z count (append_marks bad count z p)
  unfolding append_marks new_vtbl_entry mark_entry
  append_marks-Marks zero z p w at = record {
    complete = w;
    behind = at;
    total = refl;
    room = inl refl;
  }
  append_marks-Marks (suc n) z p w at =
      elim (Bool-cases
        (leb p.seg_pos z.tape.last_data_segment && ltb z.eom.count (max_volumes z))) [
          | inr full ↦ rw full (record { complete = w; behind = at; total = refl; room = inl refl })
          | inl free ↦ elim (Bool-cases (leb segment_size (next_offset z))) [
            | inl behind ↦
                rw (free, behind)
                  (record { complete = w; behind = at; total = refl; room = inr (omega arith) })
            | inr fits ↦
                let v : Volume = mark_entry z p (record blank { count = z.eom.count }) in
                let z' : Zft = record z {
                  volumes = z.volumes ++ v ∷ [];
                  eom = record z.eom { count = z.eom.count + 1; start_seg = p.seg_pos + 1 };
                } in
                let p' : Position = record p {
                  tape_pos = p.tape_pos + get_seg_sz bad z.tape p.seg_pos;
                  seg_pos = p.seg_pos + 1;
                } in
                let upto : p.seg_pos ≤ z.tape.last_data_segment = ground (arith, free) in
                let w' : IsWritable z' =
                  IsRow-snoc z.tape.first_data_segment z.tape.last_data_segment z.head.end_seg
                    z.volumes z.eom.start_seg z.eom.end_seg z.cur v w at (omega arith) upto in
                let rest : Marks z' n (append_marks bad n z' p') =
                  append_marks-Marks n z' p' w' refl in
                rw (free, fits)
                  (record {
                    complete = rest.complete;
                    behind = rest.behind;
                    total = omega (arith, rest.total, length-append z.volumes (v ∷ []));
                    room = rest.room;
                  })
          ]
        ]
