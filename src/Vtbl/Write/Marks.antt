-- ===== src/Vtbl/Write/Marks.antt =====
-- Writing file marks, `zft_weof` of ftape/zftape/zftape-vtbl.c.
use ftape.Prelude.{
  ℕ, zero, suc, ◌+◌, ◌-◌, ◌≤◌, ◌<◌, ◌≡◌, ◌≢◌, ◌⊎◌, refl, sym, ap, subst, ◌∙◌, ◌==◌, if◌then◌else◌,
  if-cases, inl, inr, Bool, true, false, not, ◌||◌, length, arith,
}
use ftape.Vtbl.Table.{
  Zft, Position, Status, ok, eio, enospc, einval, last_vtbl, init_vtbl, tape_at_lbot,
}
use ftape.Vtbl.Write.{
  max_volumes, end_volume, before_mark, close_volume, move_past_eof, append_marks, report_marks,
  close_and_mark, write_marks, forget_old_ftape, weof,
}
use ftape.Vtbl.Write.Invariant.{IsWritable}
use ftape.Vtbl.Write.Close.{ended, end_volume-IsWritable, before_mark-inside}
use ftape.Vtbl.Write.Append.{Marks, append_marks-Marks}

not_ok : (b : Bool) → (if b then einval else enospc) ≢ ok
not_ok true e = cc e
not_ok false e = cc e

module _ (bad : ℕ → ℕ) where
  -- What a table is given marks from: as it is, or with its open volume closed, which is a mark.
  abbrev pub volumes_after : Zft → ℕ → ℕ
  volumes_after z count =
      if (last_vtbl z).is_open then length z.volumes + (count - 1) else length z.volumes + count

  volumes_open :
      (z : Zft) (n : ℕ)
      → (last_vtbl z).is_open ≡ true
      → volumes_after z (suc n) ≡ length z.volumes + n
  volumes_open z n is_open = rw is_open (omega arith)

  -- The marks that are not written, and what is said of them.
  pub record Weof (sum : ℕ) (r : Status × Zft × Position) : Type 0 where
    pub left : ℕ
    pub complete : IsWritable r.1
    pub behind : r.2.seg_pos ≡ r.1.eom.start_seg
    pub total : length r.1.volumes + left ≡ sum
    pub status : ((r.0 ≡ ok) × (left ≡ 0)) ⊎ ((r.0 ≢ ok) × (0 < left))

  report-Weof :
      (sum : ℕ) (m : ℕ × Bool × Zft × Position) (y : Zft) (n : ℕ)
      → Marks bad y n m
      → length y.volumes + n ≡ sum
      → Weof sum (report_marks m)
  unfolding report_marks
  report-Weof sum m y n marks same =
      if-cases (Weof sum) m.1 (eio, m.2, m.3) _
        (λ e. record {
          left = m.0;
          complete = marks.complete;
          behind = marks.behind;
          total = marks.total ∙ same;
          status = inr ((λ q. cc q), ground (arith, e, marks.room));
        })
        (λ e.
          if-cases (Weof sum) (m.0 == 0) (ok, m.2, m.3) _
            (λ g. record {
              left = m.0;
              complete = marks.complete;
              behind = marks.behind;
              total = marks.total ∙ same;
              status = inl (refl, ground (arith, g));
            })
            (λ g. record {
              left = m.0;
              complete = marks.complete;
              behind = marks.behind;
              total = marks.total ∙ same;
              status = inr (not_ok (m.2.eom.count == max_volumes m.2), ground (arith, g));
            }))

  abbrev changed : Zft → Zft
  changed z = record z { volume_table_changed = true }

  weof_away :
      (z : Zft) (n : ℕ) (p : Position)
      → tape_at_lbot z p ≡ false
      → weof bad z (suc n) p ≡ write_marks bad (changed z) (suc n) p
  unfolding weof
  weof_away z n p away =
      let e : (suc n == 0) ≡ false = ground arith in
      ap
        (λ (b : Bool).
          if b
          then (ok, z, p)
          else write_marks bad
              (if tape_at_lbot z p then forget_old_ftape (init_vtbl (changed z)) else changed z)
              (suc n) p)
        e
      ∙ ap
          (λ (b : Bool).
            write_marks bad (if b then forget_old_ftape (init_vtbl (changed z)) else changed z)
              (suc n) p)
          away

  -- Where the marks may be written: behind the last volume, or in it while it is open.
  abbrev pub CanMark : Zft → Position → Type 0
  CanMark z p =
      (((last_vtbl z).is_open ≡ false) × (p.seg_pos ≡ z.eom.start_seg))
      ⊎ (((last_vtbl z).is_open ≡ true)
          × (0 < length z.volumes)
          × ((last_vtbl z).start_seg ≤ p.seg_pos)
          × (p.seg_pos ≤ z.tape.last_data_segment))

  close_open :
      (z : Zft) (p : Position)
      → (last_vtbl z).is_open ≡ true
      → 0 < length z.volumes
      → close_volume bad z p ≡ (ok, end_volume bad z (before_mark bad z p), before_mark bad z p)
  unfolding close_volume
  close_open z p is_open more =
      let e : (length z.volumes == 0) ≡ false = ground (arith, more) in
      ap
        (λ (b : Bool).
          if b || not (last_vtbl z).is_open
          then (eio, z, p)
          else (ok, end_volume bad z (before_mark bad z p), before_mark bad z p))
        e
      ∙ ap
          (λ (b : Bool).
            if not b
            then (eio, z, p)
            else (ok, end_volume bad z (before_mark bad z p), before_mark bad z p))
          is_open

  -- The marks behind a volume that was closed.
  abbrev mark_behind : ℕ → Status × Zft × Position → Status × Zft × Position
  mark_behind n r =
      report_marks (append_marks bad n (move_past_eof bad r.1 r.2).0 (move_past_eof bad r.1 r.2).1)

  close_and_mark-eq :
      (z : Zft) (n : ℕ) (p : Position) (r : Status × Zft × Position)
      → close_volume bad z p ≡ r
      → close_and_mark bad z (suc n) p ≡ mark_behind n r
  unfolding close_and_mark
  close_and_mark-eq z n p r done =
      let e : suc n - 1 ≡ n = omega arith in
      ap (λ (k : ℕ). mark_behind k (close_volume bad z p)) e ∙ ap (mark_behind n) done

  close_and_mark-Weof :
      (z : Zft) (n : ℕ) (p : Position)
      → IsWritable z
      → (last_vtbl z).is_open ≡ true
      → 0 < length z.volumes
      → (last_vtbl z).start_seg ≤ p.seg_pos
      → p.seg_pos ≤ z.tape.last_data_segment
      → Weof (volumes_after z (suc n)) (close_and_mark bad z (suc n) p)
  unfolding move_past_eof
  close_and_mark-Weof z n p w is_open more from upto =
      let p' : Position = before_mark bad z p in
      let at = before_mark-inside bad z p from in
      let y : Zft = end_volume bad z p' in
      let wy : IsWritable y =
        end_volume-IsWritable bad z p' w more at.0 (omega (arith, at.1, upto)) in
      let z2 : Zft = (move_past_eof bad y p').0 in
      let p2 : Position = (move_past_eof bad y p').1 in
      let marks : Marks bad z2 n (append_marks bad n z2 p2) =
        append_marks-Marks bad n z2 p2 wy (sym (ended bad z p' more).4) in
      let total : length z2.volumes + n ≡ volumes_after z (suc n) =
        omega (arith, (ended bad z p' more).0, volumes_open z n is_open) in
      subst (Weof (volumes_after z (suc n)))
        (sym (close_and_mark-eq z n p (ok, y, p') (close_open z p is_open more)))
        (report-Weof (volumes_after z (suc n)) (append_marks bad n z2 p2) z2 n marks total)

  write_marks-Weof :
      (z : Zft) (n : ℕ) (p : Position)
      → IsWritable z
      → CanMark z p
      → Weof (volumes_after z (suc n)) (write_marks bad z (suc n) p)
  unfolding write_marks
  write_marks-Weof z n p w (inl (closed, at)) =
      let total : length z.volumes + suc n ≡ volumes_after z (suc n) = rw closed in
      subst
        (λ (b : Bool). Weof (volumes_after z (suc n)) (
          if b
          then close_and_mark bad z (suc n) p
          else report_marks (append_marks bad (suc n) z p)))
        (sym closed)
        (report-Weof (volumes_after z (suc n)) (append_marks bad (suc n) z p) z (suc n)
          (append_marks-Marks bad (suc n) z p w at) total)
  write_marks-Weof z n p w (inr (is_open, more, from, upto)) =
      subst
        (λ (b : Bool). Weof (volumes_after z (suc n)) (
          if b
          then close_and_mark bad z (suc n) p
          else report_marks (append_marks bad (suc n) z p)))
        (sym is_open) (close_and_mark-Weof z n p w is_open more from upto)

  -- With a complete volume table, away from the beginning of the tape, and a position behind the
  -- last volume or in the open last volume, not behind the last data segment, zft_weof keeps the
  -- table complete and ends behind the last volume. Of `count` marks, not 0, the first closes an
  -- open volume and each other one that is written is one more volume; it is ok if all are written,
  -- and an error if some are left.
  pub weof-Weof :
      (z : Zft) (count : ℕ) (p : Position)
      → IsWritable z
      → tape_at_lbot z p ≡ false
      → 0 < count
      → CanMark z p
      → Weof (volumes_after z count) (weof bad z count p)
  unfolding last_vtbl
  weof-Weof z zero p w away some_marks at = absurd (omega (arith, some_marks))
  weof-Weof z (suc n) p w away some_marks at =
      subst (Weof (volumes_after z (suc n))) (sym (weof_away z n p away))
        (write_marks-Weof (changed z) n p w at)
