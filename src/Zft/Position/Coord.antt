-- ===== src/Zft/Position/Coord.antt =====
-- `zft_calc_seg_byte_coord` is the inverse of `zft_calc_tape_pos`.
use ftape.Prelude.{
  ℕ, zero, suc, ◌+◌, ◌-◌, ◌≤◌, ◌<◌, ltb, ◌==◌, if◌then◌else◌, ◌≡◌, ◌⊎◌, refl, sym, ap, ◌∙◌, true,
  Bool-cases, inl, inr, arith,
}
use ftape.Prelude.Int.{ℤ, pos, negsuc, ◌+ℤ◌, ◌-ℤ◌, ltb_ℤ, pos_part}
use ftape.Zft.Position.{Tape, get_seg_sz, first_segment, coord_loop, calc_seg_byte_coord}
use ftape.Zft.Position.Laws.{sum_from, start_of}

module _ (bad : ℕ → ℕ) (t : Tape) where
  abbrev size : ℕ → ℕ
  size = get_seg_sz bad t

  -- The search without the overshoot below zero: the segment, and the offset in it.
  find : ℕ → ℕ → ℕ → ℕ × ℕ
  find zero s p = (s, 0)
  find (suc n) s p =
      let rest = find n (suc s) (p - size s) in
      if p == 0 then (s, 0) else if ltb p (size s) then (s, p) else rest

  abbrev finish : ℕ × ℤ × ℕ → ℕ × ℕ
  finish (segment, left, seg_sz) =
      if ltb_ℤ left (pos 0) then (segment - 1, pos_part (left +ℤ pos seg_sz)) else (segment, 0)

  loop_below : (n s k z : ℕ) → coord_loop bad t n s (negsuc k) z ≡ (s, negsuc k, z)
  unfolding coord_loop
  loop_below zero s k z = refl
  loop_below (suc n) s k z = ground arith

  loop-find : (n s p z : ℕ) → finish (coord_loop bad t n s (pos p) z) ≡ find n s p
  unfolding coord_loop find
  loop-find zero s p z = ground arith
  loop-find (suc n) s p z = elim (Bool-cases (p == 0)) [
    | inl none ↦ let e : p ≡ 0 = ground arith in rw e
    | inr some ↦ elim (Bool-cases (ltb p (size s))) [
      | inl here ↦
          let e : pos p -ℤ pos (size s) ≡ negsuc (size s - p - 1) = ground arith in
          let yes_some : ltb_ℤ (pos 0) (pos p) ≡ true = ground arith in
          let f : suc s - 1 ≡ s = omega arith in
          let g : pos_part (negsuc (size s - p - 1) +ℤ pos (size s)) ≡ p = ground arith in
          rw (some, here, yes_some, e, loop_below n (suc s) (size s - p - 1) (size s), f, g)
            (ground arith)
      | inr later ↦
          let e : pos p -ℤ pos (size s) ≡ pos (p - size s) = ground arith in
          let yes_some : ltb_ℤ (pos 0) (pos p) ≡ true = ground arith in
          rw (some, later, yes_some, e) (loop-find n (suc s) (p - size s) (size s))
    ]
  ]

  find_zero : (n s : ℕ) → find n s 0 ≡ (s, 0)
  unfolding find
  find_zero zero s = refl
  find_zero (suc n) s = refl

  calc-find :
      (p : ℕ)
      → calc_seg_byte_coord bad t p
        ≡ find (t.last_data_segment + 1 - first_segment t) (first_segment t) p
  unfolding calc_seg_byte_coord
  calc-find p =
      let first = first_segment t in
      let n = t.last_data_segment + 1 - first in
      elim (Bool-cases (p == 0)) [
        | inl none ↦ let e : p ≡ 0 = ground arith in rw e (sym (find_zero n first))
        | inr some ↦ rw some (loop-find n first p 0)
      ]

  sum-front : (a k : ℕ) → sum_from size a (suc k) ≡ size a + sum_from size (suc a) k
  sum-front a zero = let e : a + 0 ≡ a = omega arith in rw e (omega arith)
  sum-front a (suc k) =
      let e : a + suc k ≡ suc a + k = omega arith in omega (arith, sum-front a k, ap size e)

  find_at :
      (k n a off : ℕ)
      → k < n
      → 0 < off
      → off < size (a + k)
      → find n a (sum_from size a k + off) ≡ (a + k, off)
  unfolding find
  find_at k zero a off h p q = absurd (omega arith)
  find_at zero (suc n) a off h p q =
      let e : a + 0 ≡ a = omega arith in let fits : off < size a = rw (← e) q in ground arith
  find_at (suc k) (suc n) a off h p q =
      let e : suc a + k ≡ a + suc k = omega arith in
      let front = sum-front a k in
      let rest = find_at k n (suc a) off (omega arith) p (rw e q) in
      let left : sum_from size a (suc k) + off - size a ≡ sum_from size (suc a) k + off =
        omega arith in
      ground (arith, rest, ap (find n (suc a)) left)

  -- An offset inside a segment of the tape is found again from its position on the tape.
  pub calc_seg_byte_coord-start_of :
      (s off : ℕ)
      → first_segment t ≤ s
      → s ≤ t.last_data_segment
      → 0 < off
      → off < get_seg_sz bad t s
      → calc_seg_byte_coord bad t (start_of bad t s + off) ≡ (s, off)
  calc_seg_byte_coord-start_of s off h g p q =
      let first = first_segment t in
      let e : first + (s - first) ≡ s = omega arith in
      calc-find (start_of bad t s + off)
      ∙ find_at (s - first) (t.last_data_segment + 1 - first) first off (omega arith) p (rw e q)
      ∙ ap (λ x. (x, off)) e

  front_of :
      (s e : ℕ) → suc s ≤ e → sum_from size s (e - s) ≡ size s + sum_from size (suc s) (e - suc s)
  front_of s e h = let k : e - s ≡ suc (e - suc s) = omega arith in rw k (sum-front s (e - suc s))

  -- The search from `s` over `n` segments ends in this segment, at this offset.
  record IsAt (n s p : ℕ) (out : ℕ × ℕ) : Type 0 where
    ahead : s ≤ out.0
    inside : out.0 ≤ s + n
    sums : sum_from size s (out.0 - s) + out.1 ≤ p
    exact : p ≤ sum_from size s n → sum_from size s (out.0 - s) + out.1 ≡ p
    fits : (out.1 ≡ 0) ⊎ (out.1 < size out.0)

  find-IsAt : (n s p : ℕ) → IsAt n s p (find n s p)
  unfolding find
  find-IsAt zero s p =
      let e : s - s ≡ 0 = omega arith in
      record {
        ahead = omega arith;
        inside = omega arith;
        sums = rw e (omega arith);
        exact = λ h. rw e (omega arith);
        fits = inl refl;
      }
  find-IsAt (suc n) s p =
      let e : s - s ≡ 0 = omega arith in
      elim (Bool-cases (p == 0)) [
        | inl none ↦
            let z : p ≡ 0 = ground arith in
            rw none (record {
              ahead = omega arith;
              inside = omega arith;
              sums = rw e (omega arith);
              exact = λ h. rw e (omega arith);
              fits = inl refl;
            })
        | inr some ↦ elim (Bool-cases (ltb p (size s))) [
          | inl here ↦
              rw (some, here)
                (record {
                  ahead = omega arith;
                  inside = omega arith;
                  sums = rw e (omega arith);
                  exact = λ h. rw e (omega arith);
                  fits = inr (ground arith);
                })
          | inr later ↦
              let r = find-IsAt n (suc s) (p - size s) in
              let enough : size s ≤ p = ground arith in
              let out = find n (suc s) (p - size s) in
              let front : sum_from size s (out.0 - s)
                  ≡ size s + sum_from size (suc s) (out.0 - suc s) =
                front_of s out.0 r.ahead in
              rw (some, later)
                (record {
                  ahead = omega (arith, r.ahead);
                  inside = omega (arith, r.inside);
                  sums = omega (arith, front, r.sums);
                  exact = λ h.
                      let all = sum-front s n in omega (arith, front, r.exact (omega (arith, all)));
                  fits = r.fits;
                })
        ]
      ]

  -- For a position up to the end of the tape, the segment and offset found stand for that very
  -- position, and the offset is 0 or inside the segment.
  pub start_of-calc_seg_byte_coord :
      (p : ℕ)
      → first_segment t ≤ t.last_data_segment + 1
      → p ≤ start_of bad t (t.last_data_segment + 1)
      → let (s, off) = calc_seg_byte_coord bad t p in
        (start_of bad t s + off ≡ p)
        × (first_segment t ≤ s)
        × (s ≤ t.last_data_segment + 1)
        × ((off ≡ 0) ⊎ (off < get_seg_sz bad t s))
  start_of-calc_seg_byte_coord p h g =
      let first = first_segment t in
      let r = find-IsAt (t.last_data_segment + 1 - first) first p in
      rw (calc-find p) (r.exact g, r.ahead, omega (arith, r.inside), r.fits)
