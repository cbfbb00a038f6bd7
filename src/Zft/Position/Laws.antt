-- ===== src/Zft/Position/Laws.antt =====
-- The cached position is always the number of bytes in front of its segment.
use ftape.Prelude.{
  ℕ, zero, suc, ◌+◌, ◌-◌, ◌≤◌, min, ltb, if◌then◌else◌, ◌≡◌, refl, sym, ap, ◌∙◌, Bool, true, false,
  ◌&&◌, Bool-cases, inl, inr, arith,
}
use ftape.Prelude.Int.{pos, ◌-ℤ◌, ltb_ℤ}
use ftape.Zft.Position.{
  Tape, get_seg_sz, first_segment, move_up, move_down, restart_low, restart_high, calc_tape_pos,
}

-- The sum of `n` sizes from `a` on.
abbrev pub sum_from : (ℕ → ℕ) → ℕ → ℕ → ℕ
sum_from f a zero = 0
sum_from f a (suc n) = sum_from f a n + f (a + n)

choose {ℓ κ} :
    {A : Type ℓ} (b : Bool) (P : A → Type κ) (x y : A) → P x → P y → P (if b then x else y)
choose true P x y p q = p
choose false P x y p q = q

module _ (bad : ℕ → ℕ) where
  -- The bytes in front of a segment, as the user counts them.
  abbrev pub start_of : Tape → ℕ → ℕ
  start_of t segment = sum_from (get_seg_sz bad t) (first_segment t) (segment - first_segment t)

  pub record IsValid (t : Tape) : Type 0 where
    pub in_range : first_segment t ≤ t.seg_pos
    pub not_past : t.seg_pos ≤ t.last_data_segment + 1
    pub data_fits : first_segment t ≤ t.last_data_segment + 1
    pub cached : t.tape_pos ≡ start_of t t.seg_pos
    pub full : t.capacity ≡ start_of t (t.last_data_segment + 1)

  start_of_next :
      (t : Tape) (s : ℕ)
      → first_segment t ≤ s
      → start_of t (s + 1) ≡ start_of t s + get_seg_sz bad t s
  start_of_next t s h =
      let f = first_segment t in
      let e : s + 1 - f ≡ suc (s - f) = omega arith in
      let g : f + (s - f) ≡ s = omega arith in rw (e, g)

  pub move_up-IsValid :
      (n : ℕ) (t : Tape)
      → IsValid t
      → t.seg_pos + n ≤ t.last_data_segment + 1
      → let t' = move_up bad n t in
        IsValid t'
        × (t'.seg_pos ≡ t.seg_pos + n)
        × (t'.tape_pos ≡ start_of t (t.seg_pos + n))
        × (t'.last_data_segment ≡ t.last_data_segment)
  unfolding move_up get_seg_sz first_segment
  move_up-IsValid zero t v h =
      let e : t.seg_pos + 0 ≡ t.seg_pos = omega arith in (v, sym e, rw e v.cached, refl)
  move_up-IsValid (suc n) t v h =
      let t1 = record t {
        seg_pos = t.seg_pos + 1;
        tape_pos = t.tape_pos + get_seg_sz bad t t.seg_pos;
      } in
      let v1 : IsValid t1 = record {
        in_range = omega (arith, v.in_range);
        not_past = omega arith;
        data_fits = v.data_fits;
        cached =
            ap (λ p. p + get_seg_sz bad t t.seg_pos) v.cached
            ∙ sym (start_of_next t t.seg_pos v.in_range);
        full = v.full;
      } in
      let e : t.seg_pos + 1 + n ≡ t.seg_pos + suc n = omega arith in
      rw e at (move_up-IsValid n t1 v1 (omega arith))

  move_down-IsValid :
      (n : ℕ) (t : Tape)
      → IsValid t
      → first_segment t + n ≤ t.seg_pos
      → let t' = move_down bad n t in
        IsValid t'
        × (t'.seg_pos ≡ t.seg_pos - n)
        × (t'.tape_pos ≡ start_of t (t.seg_pos - n))
        × (t'.last_data_segment ≡ t.last_data_segment)
  unfolding move_down get_seg_sz first_segment
  move_down-IsValid zero t v h =
      let e : t.seg_pos - 0 ≡ t.seg_pos = omega arith in (v, sym e, rw e v.cached, refl)
  move_down-IsValid (suc n) t v h =
      let p = t.seg_pos - 1 in
      let t1 = record t { seg_pos = p; tape_pos = t.tape_pos - get_seg_sz bad t p } in
      let back : p + 1 ≡ t.seg_pos = omega arith in
      let step : start_of t t.seg_pos ≡ start_of t p + get_seg_sz bad t p =
        ap (start_of t) (sym back) ∙ start_of_next t p (omega arith) in
      let v1 : IsValid t1 = record {
        in_range = omega arith;
        not_past = omega (arith, v.not_past);
        data_fits = v.data_fits;
        cached = omega (arith, v.cached, step);
        full = v.full;
      } in
      let e : t.seg_pos - 1 - n ≡ t.seg_pos - suc n = omega arith in
      rw e at (move_down-IsValid n t1 v1 (omega arith))

  restart_low-IsValid : (t : Tape) (segment : ℕ) → IsValid t → IsValid (restart_low t segment)
  unfolding restart_low get_seg_sz first_segment
  restart_low-IsValid t segment v =
      let f = first_segment t in
      let at_start : sum_from (get_seg_sz bad t) f (f - f) ≡ 0 =
        let e : f - f ≡ 0 = omega arith in rw e in
      let start : IsValid (record t { tape_pos = 0; seg_pos = f }) = record {
        in_range = omega arith;
        not_past = v.data_fits;
        data_fits = v.data_fits;
        cached = sym at_start;
        full = v.full;
      } in
      choose
        (ltb_ℤ (pos 10) (pos t.seg_pos -ℤ pos segment)
          && ltb_ℤ (pos segment -ℤ pos f) (pos t.seg_pos -ℤ pos segment))
        IsValid (record t { tape_pos = 0; seg_pos = f }) t start v

  restart_high-IsValid : (t : Tape) (segment : ℕ) → IsValid t → IsValid (restart_high t segment)
  unfolding restart_high get_seg_sz first_segment
  restart_high-IsValid t segment v =
      let end = record t { tape_pos = t.capacity; seg_pos = t.last_data_segment + 1 } in
      choose
        (ltb_ℤ (pos 10) (pos segment -ℤ pos t.seg_pos)
          && ltb_ℤ (pos t.last_data_segment -ℤ pos segment) (pos segment -ℤ pos t.seg_pos))
        IsValid end t
        (record {
          in_range = v.data_fits;
          not_past = omega arith;
          data_fits = v.data_fits;
          cached = v.full;
          full = v.full;
        })
        v

  -- The fields that the restarts keep.
  restart-keeps :
      (t : Tape) (segment : ℕ)
      → let t' = restart_high (restart_low t segment) segment in
        (t'.last_data_segment ≡ t.last_data_segment)
        × (first_segment t' ≡ first_segment t)
        × (start_of t' segment ≡ start_of t segment)
  unfolding restart_high restart_low get_seg_sz first_segment
  restart-keeps t segment = (ground arith, ground arith, ground arith)

  restarted-IsValid :
      (t : Tape) (segment : ℕ) → IsValid t → IsValid (restart_high (restart_low t segment) segment)
  restarted-IsValid t segment v =
      restart_high-IsValid (restart_low t segment) segment (restart_low-IsValid t segment v)

  moved : Tape → ℕ → Tape
  moved t segment =
      if ltb t.seg_pos segment
      then move_up bad (segment - t.seg_pos) t
      else move_down bad (t.seg_pos - segment) t

  moved_lem :
      (t : Tape) (segment : ℕ)
      → IsValid t
      → first_segment t ≤ segment
      → segment ≤ t.last_data_segment
      → IsValid (moved t segment) × ((moved t segment).tape_pos ≡ start_of t segment)
  unfolding moved
  moved_lem t segment v h g = elim (Bool-cases (ltb t.seg_pos segment)) [
    | inl up ↦
        let e : t.seg_pos + (segment - t.seg_pos) ≡ segment = ground arith in
        let m = move_up-IsValid (segment - t.seg_pos) t v (omega arith) in
        rw up (m.0, m.2 ∙ ap (start_of t) e)
    | inr down ↦
        let le : segment ≤ t.seg_pos = ground arith in
        let e : t.seg_pos - (t.seg_pos - segment) ≡ segment = omega arith in
        let m = move_down-IsValid (t.seg_pos - segment) t v (omega arith) in
        rw down (m.0, m.2 ∙ ap (start_of t) e)
  ]

  -- From a valid cached position `zft_calc_tape_pos` returns the number of bytes in front of the
  -- segment, or the capacity for a segment past the end, and leaves a valid cached position.
  pub calc_tape_pos_lem :
      (t : Tape) (segment : ℕ)
      → IsValid t
      → let (t', p) = calc_tape_pos bad t segment in
        IsValid t' × (p ≡ start_of t (min segment (t.last_data_segment + 1)))
  unfolding calc_tape_pos moved
  calc_tape_pos_lem t segment v =
      let r = restart_high (restart_low t segment) segment in
      let keeps = restart-keeps t segment in
      elim (Bool-cases (ltb t.last_data_segment segment)) [
        | inl past ↦
            let e : min segment (t.last_data_segment + 1) ≡ t.last_data_segment + 1 =
              ground arith in
            rw (past, e) (v, v.full)
        | inr inside ↦ elim (Bool-cases (ltb segment (first_segment t))) [
          | inl before ↦
              let e : min segment (t.last_data_segment + 1) - first_segment t ≡ 0 = ground arith in
              rw (inside, before, e) (v, refl)
          | inr at ↦
              let e : min segment (t.last_data_segment + 1) ≡ segment = ground arith in
              let m =
                moved_lem r segment (restarted-IsValid t segment v) (ground arith) (ground arith) in
              rw (inside, at, e) (m.0, m.1 ∙ keeps.2)
        ]
      ]
