-- ===== src/Rw/Setup/Retry.antt =====
-- A second setup of the same segment is a retry (ftape/lowlevel/ftape-rw.c).
use ftape.Prelude.{
  ℕ, ◌+◌, ◌-◌, ◌≤◌, ◌==◌, ltb, if◌then◌else◌, ==_iff, Bool, true, false, Bool-cases, inl, inr, ◌&&◌,
  Option, none, some, ◌≡◌, refl, ap, sym, ◌∙◌, arith,
}
use ftape.Prelude.Int.{pos, ◌+ℤ◌}
use ftape.Rw.Location.{Geometry}
use ftape.Rw.Setup.{
  Buffer, Driver, same_segment, follow_state, force_skip, setup_segment, setup_new_segment, sectors,
}

follow-same : (d : Driver) → d.old_state ≡ d.state → follow_state d ≡ d
unfolding follow_state
follow-same d p = let e : (d.state == d.old_state) ≡ true = (==_iff _ _).1 (sym p) in rw e refl

same-some : (id : ℕ) → same_segment (some id) id ≡ true
unfolding same_segment
same-some id = (==_iff id id).1 refl

-- What a setup leaves for the next one: the segment is remembered under the driver's state, and
-- the buffer covers its sectors from the offset to the last.
pub record Leaves (d : Driver) (segment_id : ℕ) (r : Driver × Buffer) : Type 0 where
  pub state : r.0.state ≡ d.state
  pub old_state : r.0.old_state ≡ d.state
  pub remembered : r.0.old_segment_id ≡ some segment_id
  pub segment : r.1.segment_id ≡ segment_id
  pub whole : r.1.sector_offset + r.1.remaining ≡ sectors

follow-state :
    (d : Driver) → ((follow_state d).state ≡ d.state) × ((follow_state d).old_state ≡ d.state)
unfolding follow_state
follow-state d = elim (Bool-cases (d.state == d.old_state)) [
  | inl e ↦ rw e (refl, sym ((==_iff _ _).0 e))
  | inr e ↦ rw e (refl, refl)
]

same-old : (o : Option ℕ) (id : ℕ) → same_segment o id ≡ true → o ≡ some id
unfolding same_segment
same-old none id e = absurd (ground (arith, e))
same-old (some old) id e = ap some ((==_iff _ _).0 e)

offset_of :
    (skips forced : Bool) (skip : ℕ)
    → skip ≤ sectors
    → (if skips then (if forced then sectors - 1 else skip) else 0) ≤ sectors
offset_of false forced skip h = omega arith
offset_of true false skip h = h
offset_of true true skip h = omega arith

module _ (bad : ℕ → ℕ) (g : Geometry) (ignore_ecc_err : Bool) where
  setup_new_segment_lem :
      (d : Driver) (b : Buffer) (segment_id : ℕ) (skip : Bool)
      → b.skip ≤ sectors
      → Leaves d segment_id (setup_new_segment bad g ignore_ecc_err d b segment_id skip)
  unfolding setup_new_segment setup_segment
  setup_new_segment_lem d b segment_id skip h =
      elim (Bool-cases (same_segment (follow_state d).old_segment_id segment_id)) [
        | inl e ↦ rw e (record {
          state = (follow-state d).0;
          old_state = (follow-state d).1;
          remembered = same-old _ segment_id e;
          segment = refl;
          whole = omega (
            arith,
            offset_of (skip && ltb 0 b.skip)
                ((skip && ltb 0 b.skip)
                  && force_skip ignore_ecc_err (follow_state d) segment_id b.skip)
                b.skip h,
          );
        })
        | inr e ↦ rw e (record {
          state = (follow-state d).0;
          old_state = (follow-state d).1;
          remembered = refl;
          segment = refl;
          whole = refl;
        })
      ]

  again :
      (d : Driver) (b : Buffer) (segment_id : ℕ) (skip : Bool)
      → d.old_state ≡ d.state
      → d.old_segment_id ≡ some segment_id
      → ((setup_new_segment bad g ignore_ecc_err d b segment_id skip).1.retry ≡ b.retry +ℤ pos 1)
        × ((setup_new_segment bad g ignore_ecc_err d b segment_id skip).0.retries ≡ d.retries + 1)
  unfolding setup_new_segment setup_segment
  again d b segment_id skip p q =
      let same : follow_state d ≡ d = follow-same d p in
      let old : same_segment (follow_state d).old_segment_id segment_id ≡ true =
        ap (λ (t : Driver). same_segment t.old_segment_id segment_id) same
        ∙ ap (λ (o : Option ℕ). same_segment o segment_id) q
        ∙ same-some segment_id in
      rw old (refl, ap (λ (t : Driver). t.retries + 1) same)

  -- After a setup of a segment with at most 32 sectors to skip, another setup of that segment
  -- counts one more retry in the buffer and in the history, whatever each of them may skip; the
  -- buffer of the first covers the sectors of the segment from its offset to the last.
  pub setup_new_segment_twice :
      (d : Driver) (b : Buffer) (segment_id : ℕ) (skip skip' : Bool)
      → b.skip ≤ sectors
      → let first = setup_new_segment bad g ignore_ecc_err d b segment_id skip in
        let second = setup_new_segment bad g ignore_ecc_err first.0 first.1 segment_id skip' in
        (second.1.retry ≡ first.1.retry +ℤ pos 1)
        × (second.0.retries ≡ first.0.retries + 1)
        × (first.1.sector_offset + first.1.remaining ≡ sectors)
  setup_new_segment_twice d b segment_id skip skip' h =
      let left : Leaves d segment_id (setup_new_segment bad g ignore_ecc_err d b segment_id skip) =
        setup_new_segment_lem d b segment_id skip h in
      let more =
        again (setup_new_segment bad g ignore_ecc_err d b segment_id skip).0
          (setup_new_segment bad g ignore_ecc_err d b segment_id skip).1 segment_id skip'
          (left.old_state ∙ sym left.state) left.remembered in
      (more.0, more.1, left.whole)
