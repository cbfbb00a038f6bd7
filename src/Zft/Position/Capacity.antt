-- ===== src/Zft/Position/Capacity.antt =====
-- The capacity of a tape (ftape/zftape/zftape-rw.c).
use ftape.Prelude.{ℕ, zero, suc, ◌+◌, ◌-◌, ◌≤◌, ◌≡◌, refl, sym, ap, subst, ◌∙◌, arith}
use ftape.Zft.Position.{Tape, get_seg_sz, first_segment, move_up, get_capacity}
use ftape.Zft.Position.Laws.{start_of, IsValid, move_up-IsValid}

module _ (bad : ℕ → ℕ) where
  move_up-capacity :
      (n : ℕ) (t : Tape) (c : ℕ)
      → move_up bad n (record t { capacity = c }) ≡ record (move_up bad n t) { capacity = c }
  unfolding move_up get_seg_sz
  move_up-capacity zero t c = refl
  move_up-capacity (suc n) t c =
      move_up-capacity n
        (record t { seg_pos = t.seg_pos + 1; tape_pos = t.tape_pos + get_seg_sz bad t t.seg_pos }) c

  -- The position that `zft_get_capacity` returns is the number of bytes on the tape; stored as the
  -- capacity it leaves a valid cached position, at the end of the tape.
  pub get_capacity-IsValid :
      (t : Tape)
      → first_segment t ≤ t.last_data_segment + 1
      → let t' = get_capacity bad t in
        (t'.tape_pos ≡ start_of bad t (t.last_data_segment + 1))
        × IsValid bad (record t' { capacity = t'.tape_pos })
  unfolding get_capacity get_seg_sz first_segment
  get_capacity-IsValid t h =
      let f = first_segment t in
      let n = t.last_data_segment + 1 - f in
      let c = start_of bad t (t.last_data_segment + 1) in
      let t0 = record t { seg_pos = f; tape_pos = 0 } in
      let none : f - f ≡ 0 = omega arith in
      let v0 : IsValid bad (record t0 { capacity = c }) = record {
        in_range = omega arith;
        not_past = h;
        data_fits = h;
        cached = rw none;
        full = refl;
      } in
      let m = move_up-IsValid bad n (record t0 { capacity = c }) v0 (omega arith) in
      let end : f + n ≡ t.last_data_segment + 1 = omega arith in
      let same = move_up-capacity n t0 c in
      let total : (move_up bad n t0).tape_pos ≡ c =
        sym (ap (λ (x : Tape). x.tape_pos) same) ∙ m.2 ∙ ap (start_of bad t) end in
      (
        total,
        subst (λ x. IsValid bad (record (move_up bad n t0) { capacity = x })) (sym total)
            (subst (IsValid bad) same m.0),
      )
