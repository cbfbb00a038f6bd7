-- ===== src/Zft/Position/Kept.antt =====
-- The fields that `zft_calc_tape_pos` (ftape/zftape/zftape-rw.c) leaves alone.
use ftape.Prelude.{
  ℕ, zero, suc, ◌+◌, ◌-◌, ◌≡◌, refl, ◌∙◌, ltb, Bool-cases, inl, inr, if◌then◌else◌, Bool, true,
  false, arith,
}
use ftape.Zft.Position.{
  Tape, get_seg_sz, move_up, move_down, restart_low, restart_high, first_segment, calc_tape_pos,
}

-- Both tapes have the same segments and the same size.
pub record SameTape (t u : Tape) : Type 0 where
  pub raw : t.raw_image ≡ u.raw_image
  pub first : t.first_data_segment ≡ u.first_data_segment
  pub last : t.last_data_segment ≡ u.last_data_segment
  pub size : t.capacity ≡ u.capacity

SameTape-refl : (t : Tape) → SameTape t t
SameTape-refl t = record { raw = refl; first = refl; last = refl; size = refl }

pub SameTape-trans : (t u v : Tape) → SameTape t u → SameTape u v → SameTape t v
SameTape-trans t u v a b = record {
  raw = a.raw ∙ b.raw;
  first = a.first ∙ b.first;
  last = a.last ∙ b.last;
  size = a.size ∙ b.size;
}

either : (b : Bool) (t u v : Tape) → SameTape t v → SameTape u v → SameTape (if b then t else u) v
either true t u v p q = p
either false t u v p q = q

module _ (bad : ℕ → ℕ) where
  move_up-SameTape : (n : ℕ) (t : Tape) → SameTape (move_up bad n t) t
  unfolding move_up
  move_up-SameTape zero t = SameTape-refl t
  move_up-SameTape (suc n) t =
      let u : Tape = record t {
        seg_pos = t.seg_pos + 1;
        tape_pos = t.tape_pos + get_seg_sz bad t t.seg_pos;
      } in
      SameTape-trans (move_up bad n u) u t (move_up-SameTape n u)
        (record { raw = refl; first = refl; last = refl; size = refl })

  move_down-SameTape : (n : ℕ) (t : Tape) → SameTape (move_down bad n t) t
  unfolding move_down
  move_down-SameTape zero t = SameTape-refl t
  move_down-SameTape (suc n) t =
      let u : Tape = record t {
        seg_pos = t.seg_pos - 1;
        tape_pos = t.tape_pos - get_seg_sz bad t (t.seg_pos - 1);
      } in
      SameTape-trans (move_down bad n u) u t (move_down-SameTape n u)
        (record { raw = refl; first = refl; last = refl; size = refl })

  restart-SameTape :
      (t : Tape) (segment : ℕ) → SameTape (restart_high (restart_low t segment) segment) t
  unfolding restart_high restart_low
  restart-SameTape t segment = ground arith

  pub calc_tape_pos-SameTape : (t : Tape) (segment : ℕ) → SameTape (calc_tape_pos bad t segment).0 t
  unfolding calc_tape_pos
  calc_tape_pos-SameTape t segment =
      let r : Tape = restart_high (restart_low t segment) segment in
      elim (Bool-cases (ltb t.last_data_segment segment)) [
        | inl past ↦ rw past (SameTape-refl t)
        | inr inside ↦ elim (Bool-cases (ltb segment (first_segment t))) [
          | inl before ↦ rw (inside, before) (SameTape-refl t)
          | inr at ↦
              rw (inside, at)
                (SameTape-trans _ r t
                  (either (ltb r.seg_pos segment) _ _ r (move_up-SameTape (segment - r.seg_pos) r)
                    (move_down-SameTape (r.seg_pos - segment) r))
                  (restart-SameTape t segment))
        ]
      ]
