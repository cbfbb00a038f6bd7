-- ===== src/Zft/Recover/Loop.antt =====
-- The loop of `zftape_write_segment` (ftape/zftape/zftape-write.c) ends when the hard errors do.
use ftape.Prelude.{
  ℕ, zero, suc, ◌+◌, ◌<◌, ◌==◌, true, false, List, [], ◌∷◌, ◌++◌, length, some, ◌≡◌, refl, sym, ap,
  ◌∙◌, arith,
}
use ftape.Prelude.Int.{ℤ, pos, negsuc}
use mathlib.Core.List.{append-nil, append_assoc}
use ftape.Zft.Overshoot.Laws.{AreSectors}
use ftape.Zft.Recover.{Writer, is_hard_error, after_recovery, after_write, zftape_write_segment}
use ftape.Zft.Recover.Laws.{IsReady, Displaces, pushed, pushed-Displaces, recover_once-pushed}

-- From its n-th attempt on, the driver reports that many hard errors, each for a writer that is
-- ready, and then has written the segment. It leaves the sectors that wait alone.
pub data HardErrors (driver : ℕ → Writer → ℤ × Writer) (seg_sz : ℕ)
    : (count n : ℕ) → Writer → (last : ℕ) → Writer → Type 0 where
  written :
      {n : ℕ} {w : Writer} (last : ℕ) (w' : Writer)
      → driver n w ≡ (pos last, w')
      → w'.hard_errors ≡ w.hard_errors
      → w'.hard_error_cnt ≡ w.hard_error_cnt
      → HardErrors driver seg_sz 0 n w last w'
  again :
      {count n : ℕ} {w : Writer} {last : ℕ} {w' : Writer} (v : Writer)
      → driver n w ≡ (negsuc 4, v)
      → IsReady seg_sz v
      → v.hard_errors ≡ w.hard_errors
      → v.hard_error_cnt ≡ w.hard_error_cnt
      → HardErrors driver seg_sz count (n + 1) (pushed seg_sz v) last w'
      → HardErrors driver seg_sz (suc count) n w last w'

-- As many sectors wait behind the others.
pub record Queued (count : ℕ) (w w' : Writer) : Type 0 where
  pub sectors : List (List ℕ)
  pub number : length sectors ≡ count
  pub whole : AreSectors sectors
  pub list : w'.hard_errors ≡ w.hard_errors ++ sectors
  pub counted : w'.hard_error_cnt ≡ w.hard_error_cnt + count

is_hard_error-IsReady : (seg_sz : ℕ) (w : Writer) → IsReady seg_sz w → is_hard_error 4 w.ring ≡ true
unfolding is_hard_error
is_hard_error-IsReady seg_sz w h =
    let e : (w.ring.hard_error_map == 0) ≡ false = ground (arith, h.marked) in rw (e, h.failed) refl

Queued-again :
    (seg_sz count : ℕ) (w v w' : Writer)
    → Displaces seg_sz v (pushed seg_sz v)
    → v.hard_errors ≡ w.hard_errors
    → v.hard_error_cnt ≡ w.hard_error_cnt
    → Queued count (pushed seg_sz v) w'
    → Queued (suc count) w w'
Queued-again seg_sz count w v w' one list cnt rest = record {
  sectors = one.last ∷ rest.sectors;
  number = ap (λ n. suc n) rest.number;
  whole = (one.sector, rest.whole);
  list =
      rest.list
      ∙ ap (λ c. c ++ rest.sectors) (one.waits ∙ ap (λ c. c ++ (one.last ∷ [])) list)
      ∙ append_assoc w.hard_errors (one.last ∷ []) rest.sectors;
  counted = omega (arith, rest.counted, one.count, cnt);
}

-- With memory for the backup and more rounds than the driver reports hard errors that it can recover from, zftape_write_segment ends with what the driver reports at last and counts the segment as written; as many whole sectors wait behind the others, and are counted, as there were errors.
pub zftape_write_segment-HardErrors :
    (driver : ℕ → Writer → ℤ × Writer) (seg_sz count rounds n : ℕ) (w : Writer) (last : ℕ)
    (w' : Writer)
    → count < rounds
    → HardErrors driver seg_sz count n w last w'
    → (zftape_write_segment true true driver seg_sz rounds n w
        ≡ (some (pos last), record w' { written_segments = w'.written_segments + 1 }))
      × Queued count w w'
unfolding zftape_write_segment after_write after_recovery
zftape_write_segment-HardErrors driver seg_sz count zero n w last w' enough errors =
    absurd (omega (arith, enough))
zftape_write_segment-HardErrors driver seg_sz zero (suc rounds) n w last w' enough
      (written _ _ e list cnt) =
    (
      ap
          (after_write true true seg_sz
            (zftape_write_segment true true driver seg_sz rounds (n + 1)))
          e,
      record {
        sectors = [];
        number = refl;
        whole = tt;
        list = list ∙ sym (append-nil w.hard_errors);
        counted = omega (arith, cnt);
      },
    )
zftape_write_segment-HardErrors driver seg_sz (suc count) (suc rounds) n w last w' enough
      (again v e ready list cnt more) =
    let rest =
      zftape_write_segment-HardErrors driver seg_sz count rounds (n + 1) (pushed seg_sz v) last w'
        (omega (arith, enough)) more in
    let hard : is_hard_error 4 v.ring ≡ true = is_hard_error-IsReady seg_sz v ready in
    (
      ap
            (after_write true true seg_sz
              (zftape_write_segment true true driver seg_sz rounds (n + 1)))
            e
          ∙ rw (hard, recover_once-pushed seg_sz v ready) rest.0,
      Queued-again seg_sz count w v w' (pushed-Displaces seg_sz v ready) list cnt rest.1,
    )
