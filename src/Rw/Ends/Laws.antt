-- ===== src/Rw/Ends/Laws.antt =====
-- Which end of a track the tape is at (ftape/lowlevel/ftape-rw.c).
use ftape.Prelude.{
  ℕ, ◌+◌, ◌*◌, ◌%◌, bit_and, ◌==◌, ==_iff, if◌then◌else◌, Bool, Bool-cases, true, false, some, ◌≡◌,
  ◌≢◌, ◌⊎◌, inl, inr, refl, ap, ◌∙◌, not, arith,
}
use ftape.Prelude.Int.{pos, negsuc, ◌+ℤ◌}
use ftape.Rw.Cluster.Laws.{low_bit}
use ftape.Rw.Ends.{Location, is_even, at_bot, at_eot, segment_before, check_bot_eot}

-- A location whose next segment is the given one.
pub record IsInFrontOf (segment : ℕ) (bot : Bool) (r : Location) : Type 0 where
  pub known : r.known ≡ true
  pub sector : r.sector ≡ negsuc 0
  pub bot_is : r.bot ≡ bot
  pub eot_is : r.eot ≡ not bot
  pub next : r.segment +ℤ pos 1 ≡ pos segment

-- Track `t` of `n` segments starts at BOT if it is even and at EOT if it is odd.
pub data Ends (n t status : ℕ) (l r : Location) : Type 0 where
  at_start :
      (((t % 2 ≡ 0) × (bit_and status at_bot ≢ 0)) ⊎ ((t % 2 ≡ 1) × (bit_and status at_eot ≢ 0)))
      → IsInFrontOf (t * n) true r
      → Ends n t status l r
  at_end :
      (((t % 2 ≡ 0) × (bit_and status at_bot ≡ 0)) ⊎ ((t % 2 ≡ 1) × (bit_and status at_eot ≡ 0)))
      → bit_and status (at_bot + at_eot) ≢ 0
      → IsInFrontOf ((t + 1) * n) false r
      → Ends n t status l r
  between :
      bit_and status (at_bot + at_eot) ≡ 0 → r ≡ record l { known = false } → Ends n t status l r

in_front :
    (n t : ℕ) (bot : Bool)
    → segment_before (some t) bot n +ℤ pos 1 ≡ pos ((t + (if bot then 0 else 1)) * n)
unfolding segment_before
in_front n t true = ground arith
in_front n t false = ground arith

even-0 : (t : ℕ) → t % 2 ≡ 0 → is_even (some t) ≡ true
unfolding is_even
even-0 t h = (==_iff (bit_and t 1) 0).1 (low_bit t ∙ h)

even-1 : (t : ℕ) → t % 2 ≡ 1 → is_even (some t) ≡ false
unfolding is_even
even-1 t h = let e : bit_and t 1 ≡ 1 = low_bit t ∙ h in rw e refl

-- What check_bot_eot sets at an end, for the bit that marks the start of the track.
at_an_end :
    (n t status : ℕ) (l : Location) (bit : ℕ)
    → l.track ≡ some t
    → (if is_even (some t) then at_bot else at_eot) ≡ bit
    → bit_and status (at_bot + at_eot) ≢ 0
    → check_bot_eot n l status ≡ record l {
      segment = segment_before (some t) (not (bit_and status bit == 0)) n;
      sector = negsuc 0;
      bot = not (bit_and status bit == 0);
      eot = not (not (bit_and status bit == 0));
      known = true;
    }
unfolding check_bot_eot
at_an_end n t status l bit track marks ends =
    let e : (bit_and status (at_bot + at_eot) == 0) ≡ false = ground (arith, ends) in
    rw (track, e, marks) refl

-- The two cases of that bit: the tape is at the start of the track, or at its end.
start_or_end :
    (n t status : ℕ) (l : Location) (bit : ℕ)
    → l.track ≡ some t
    → (if is_even (some t) then at_bot else at_eot) ≡ bit
    → bit_and status (at_bot + at_eot) ≢ 0
    → ((bit_and status bit ≢ 0) × IsInFrontOf (t * n) true (check_bot_eot n l status))
      ⊎ ((bit_and status bit ≡ 0) × IsInFrontOf ((t + 1) * n) false (check_bot_eot n l status))
start_or_end n t status l bit track marks ends =
    let is = at_an_end n t status l bit track marks ends in
    elim (Bool-cases (bit_and status bit == 0)) [
      | inl e ↦ inr (
        (==_iff _ 0).0 e,
        rw (is, e)
            (record {
              known = refl;
              sector = refl;
              bot_is = refl;
              eot_is = refl;
              next = in_front n t false;
            }),
      )
      | inr e ↦ inl (
        (λ z. ground (arith, z, e)),
        rw (is, e)
            (record {
              known = refl;
              sector = refl;
              bot_is = refl;
              eot_is = refl;
              next = in_front n t true ∙ ap (λ m. pos (m * n)) (omega arith);
            }),
      )
    ]

-- On a known track, check_bot_eot does not know the location of a tape that is at neither end of
-- it. Otherwise the tape is at the start of an even track at BOT and of an odd one at EOT, and the
-- next segment is the first of the track; at the other end the next segment is the one behind the
-- track.
pub check_bot_eot-Ends :
    (n t status : ℕ) (l : Location)
    → l.track ≡ some t
    → Ends n t status l (check_bot_eot n l status)
unfolding check_bot_eot
check_bot_eot-Ends n t status l track = elim (Bool-cases (bit_and status (at_bot + at_eot) == 0)) [
  | inl e ↦ between ((==_iff _ 0).0 e) (rw e refl)
  | inr e ↦
      let ends : bit_and status (at_bot + at_eot) ≢ 0 = λ z. ground (arith, z, e) in
      elim (Bool-cases (t % 2 == 0)) [
        | inl p ↦
            let even : t % 2 ≡ 0 = (==_iff _ 0).0 p in
            elim (start_or_end n t status l at_bot track (rw (even-0 t even) refl) ends) [
              | inl h ↦ at_start (inl (even, h.0)) h.1
              | inr h ↦ at_end (inl (even, h.0)) ends h.1
            ]
        | inr p ↦
            let odd : t % 2 ≡ 1 = ground (arith, p) in
            elim (start_or_end n t status l at_eot track (rw (even-1 t odd) refl) ends) [
              | inl h ↦ at_start (inr (odd, h.0)) h.1
              | inr h ↦ at_end (inr (odd, h.0)) ends h.1
            ]
      ]
]
