-- ===== src/Fdc/Wait/Laws.antt =====
-- What `fdc_wait` (ftape/lowlevel/fdc-io.c) returns, and when.
use ftape.Prelude.{
  ℕ, zero, suc, ◌+◌, ◌-◌, ◌<◌, ◌≤◌, bit_and, ◌==◌, Bool, true, false, Bool-cases, ◌≡◌, refl, ap,
  sym, ◌∙◌, inl, inr, ◌⊎◌, arith,
}
use ftape.Prelude.Int.{ℤ, pos, negsuc}
use ftape.Fdc.Wait.{Ports, Chip, Model, etime, wait_loop, wait_count, fdc_wait, poll}

-- Whether the status has the value at a poll.
abbrev pub matches : Ports → (mask state n : ℕ) → Bool
matches p mask state n = bit_and (p.msr n) mask == state

-- Whether none of the first `count` polls from `first` on has the value.
abbrev pub Misses : Ports → (mask state first count : ℕ) → Type 0
Misses p mask state first count = (i : ℕ) → i < count → matches p mask state (first + i) ≡ false

-- What a wait does that may poll `left + 1` times.
pub record Waits (p : Ports) (mask state left first : ℕ) (r : ℤ × Chip) : Type 0 where
  pub missed : ℕ
  pub in_time : missed ≤ left
  pub misses : Misses p mask state first missed
  pub polled : r.1.polls ≡ first + missed + 1
  pub last_status : r.1.status ≡ p.msr (first + missed)
  pub outcome :
      ((matches p mask state (first + missed) ≡ true)
        × (missed < left)
        × (r.0 ≡ pos (left - 1 - missed)))
      ⊎ ((matches p mask state (first + missed) ≡ true) × (missed ≡ left) × (r.0 ≡ negsuc 0))
      ⊎ ((matches p mask state (first + missed) ≡ false) × (missed ≡ left) × (r.0 ≡ etime))

plus_zero : (n : ℕ) → n + 0 ≡ n
plus_zero n = omega arith

-- A miss in front of a wait.
after_miss :
    (p : Ports) (mask state left : ℕ) (c : Chip) (r : ℤ × Chip)
    → matches p mask state c.polls ≡ false
    → Waits p mask state left (c.polls + 1) r
    → Waits p mask state (suc left) c.polls r
after_miss p mask state left c r e w =
    let shifted : c.polls + 1 + w.missed ≡ c.polls + suc w.missed = omega arith in
    let less : left - 1 - w.missed ≡ suc left - 1 - suc w.missed = omega arith in
    record {
      missed = suc w.missed;
      in_time = omega (arith, w.in_time);
      misses = earlier;
      polled = omega (arith, w.polled);
      last_status = w.last_status ∙ ap p.msr shifted;
      outcome = elim w.outcome [
        | inl (hit, before, value) ↦ inl (
          sym (ap (matches p mask state) shifted) ∙ hit,
          omega (arith, before),
          value ∙ ap pos less,
        )
        | inr (inl (hit, last, value)) ↦
            inr (inl (sym (ap (matches p mask state) shifted) ∙ hit, ap suc last, value))
        | inr (inr (miss, last, value)) ↦
            inr (inr (sym (ap (matches p mask state) shifted) ∙ miss, ap suc last, value))
      ];
    }
  where
    earlier : Misses p mask state c.polls (suc w.missed)
    earlier zero below = ap (matches p mask state) (plus_zero c.polls) ∙ e
    earlier (suc i) below =
        let at : c.polls + suc i ≡ c.polls + 1 + i = omega arith in
        ap (matches p mask state) at ∙ w.misses i (omega (arith, below))

wait_loop_lem :
    (p : Ports) (mask state left : ℕ) (c : Chip)
    → Waits p mask state left c.polls (wait_loop p mask state left c)
unfolding wait_loop poll
wait_loop_lem p mask state zero c = elim (Bool-cases (matches p mask state c.polls)) [
  | inl e ↦
      rw (e, wait_loop)
        (record {
          missed = 0;
          in_time = omega arith;
          misses = λ i below. absurd (omega (arith, below));
          polled = omega arith;
          last_status = sym (ap p.msr (plus_zero c.polls));
          outcome = inr (inl (ap (matches p mask state) (plus_zero c.polls) ∙ e, refl, refl));
        })
  | inr e ↦
      rw (e, wait_loop)
        (record {
          missed = 0;
          in_time = omega arith;
          misses = λ i below. absurd (omega (arith, below));
          polled = omega arith;
          last_status = sym (ap p.msr (plus_zero c.polls));
          outcome = inr (inr (ap (matches p mask state) (plus_zero c.polls) ∙ e, refl, refl));
        })
]
wait_loop_lem p mask state (suc left) c = elim (Bool-cases (matches p mask state c.polls)) [
  | inl e ↦
      let value : left ≡ suc left - 1 - 0 = omega arith in
      rw (e, wait_loop)
        (record {
          missed = 0;
          in_time = omega arith;
          misses = λ i below. absurd (omega (arith, below));
          polled = omega arith;
          last_status = sym (ap p.msr (plus_zero c.polls));
          outcome =
              inl (ap (matches p mask state) (plus_zero c.polls) ∙ e, omega arith, ap pos value);
        })
  | inr e ↦
      rw (e, wait_loop)
        (after_miss p mask state left c _ e (wait_loop_lem p mask state left (poll p c)))
]

-- fdc_wait polls until the status matches, at most its count and two more times. It returns what is
-- left of the count if it matches before the last poll, -1 if it matches at the last one, and
-- -ETIME if it never does; the status kept is the one polled last.
pub fdc_wait_lem :
    (m : Model) (p : Ports) (usecs mask state : ℕ) (c : Chip)
    → Waits p mask state (wait_count m p usecs + 1) c.polls (fdc_wait m p usecs mask state c)
unfolding fdc_wait
fdc_wait_lem m p usecs mask state c = wait_loop_lem p mask state (wait_count m p usecs + 1) c
