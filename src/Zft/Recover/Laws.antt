-- ===== src/Zft/Recover/Laws.antt =====
-- Where the sectors go that hard write errors push out (ftape/zftape/zftape-write.c).
use ftape.Prelude.{
  ℕ, ◌+◌, ◌-◌, ◌≤◌, ◌==◌, true, false, List, [], ◌∷◌, ◌++◌, take, drop, length, length-append,
  length-take, some, ◌≡◌, refl, sym, ap, ◌∙◌, arith,
}
use mathlib.Core.List.{append_assoc}
use ftape.Rw.Recover.{Ring, sector_size}
use ftape.Rw.Recover.Laws.{
  IsRecoverable, Recovers, stream, take_all, last_sector, recovered, recovered-Recovers,
  recovery-some,
}
use ftape.Zft.Recover.{Writer, push_sector, recovered_by, recover_once}

-- The data that are not on tape, but for the sectors that wait.
abbrev pub contents : Writer → List ℕ
contents w = stream w.ring ++ w.deblock

-- A writer whose driver reports one hard error that it can recover from, with a whole segment.
pub record IsReady (seg_sz : ℕ) (w : Writer) : Type 0 where
  pub ring : IsRecoverable w.ring
  pub failed : w.ring.failed ≡ true
  pub marked : ¬ (w.ring.hard_error_map ≡ 0)
  pub sector : sector_size ≤ seg_sz
  pub whole : length w.deblock ≡ seg_sz

-- The last sector is pushed out and waits behind all the others.
pub record Displaces (seg_sz : ℕ) (w w' : Writer) : Type 0 where
  pub last : List ℕ
  pub sector : length last ≡ sector_size
  pub order : contents w' ++ last ≡ contents w
  pub waits : w'.hard_errors ≡ w.hard_errors ++ (last ∷ [])
  pub whole : length w'.deblock ≡ seg_sz
  pub count : w'.hard_error_cnt ≡ w.hard_error_cnt + 1

push_sector-Displaces :
    (seg_sz : ℕ) (w : Writer) (r : Ring × List ℕ)
    → IsReady seg_sz w
    → Recovers w.ring r
    → Displaces seg_sz w (push_sector seg_sz w r)
unfolding push_sector
push_sector-Displaces seg_sz w (ring, scratch) ready h =
    let e : (seg_sz == 0) ≡ false = ground (arith, ready.sector) in
    let front : ℕ = seg_sz - sector_size in
    let all : take seg_sz w.deblock ≡ w.deblock =
      take_all seg_sz w.deblock (omega (arith, ready.whole)) in
    let cut = last_sector front w.deblock (omega (arith, ready.whole, ready.sector)) in
    rw (e, all)
      (record {
        last = take sector_size (drop front w.deblock);
        sector = cut.1;
        order =
            append_assoc (stream ring) _ _
            ∙ ap (λ c. stream ring ++ c) (append_assoc scratch _ _)
            ∙ sym (append_assoc (stream ring) scratch _)
            ∙ ap (λ c. c ++ (take front w.deblock ++ take sector_size (drop front w.deblock)))
                h.order
            ∙ ap (λ c. stream w.ring ++ c) cut.0;
        waits = refl;
        whole =
            length-append scratch (take front w.deblock)
            ∙ omega (arith, h.sector, length-take front w.deblock, ready.whole, ready.sector);
        count = refl;
      })

-- What the recovery makes of a writer.
abbrev pub pushed : (seg_sz : ℕ) → Writer → Writer
pushed seg_sz w = push_sector seg_sz w (recovered w.ring)

pub pushed-Displaces :
    (seg_sz : ℕ) (w : Writer) → IsReady seg_sz w → Displaces seg_sz w (pushed seg_sz w)
pushed-Displaces seg_sz w ready =
    push_sector-Displaces seg_sz w (recovered w.ring) ready (recovered-Recovers w.ring ready.ring)

pub recover_once-pushed :
    (seg_sz : ℕ) (w : Writer)
    → IsReady seg_sz w
    → recover_once true seg_sz w ≡ some (pushed seg_sz w)
unfolding recover_once recovered_by
recover_once-pushed seg_sz w ready =
    ap (recovered_by (push_sector seg_sz w)) (recovery-some w.ring ready.ring)

-- Two sectors are pushed out, and the one that was pushed out first, which is the last of the data,
-- waits in front of the other.
pub record Swaps (w w' : Writer) : Type 0 where
  pub first : List ℕ
  pub second : List ℕ
  pub order : contents w' ++ (second ++ first) ≡ contents w
  pub waits : w'.hard_errors ≡ w.hard_errors ++ (first ∷ second ∷ [])

-- For two recoveries in a row in zftape_write_segment, with a whole segment and nothing written in between, both succeed, and the sector that is pushed out first, which is the last of the data, waits in front of the one pushed out second, which precedes it in the data.
pub recover_once-Swaps :
    (seg_sz : ℕ) (w v : Writer)
    → IsReady seg_sz w
    → IsReady seg_sz v
    → contents v ≡ contents (pushed seg_sz w)
    → v.hard_errors ≡ (pushed seg_sz w).hard_errors
    → (recover_once true seg_sz w ≡ some (pushed seg_sz w))
      × (recover_once true seg_sz v ≡ some (pushed seg_sz v))
      × Swaps w (pushed seg_sz v)
recover_once-Swaps seg_sz w v hw hv same keeps =
    let one = pushed-Displaces seg_sz w hw in
    let two = pushed-Displaces seg_sz v hv in
    (
      recover_once-pushed seg_sz w hw,
      recover_once-pushed seg_sz v hv,
      record {
        first = one.last;
        second = two.last;
        order =
            sym (append_assoc (contents (pushed seg_sz v)) two.last one.last)
            ∙ ap (λ c. c ++ one.last) (two.order ∙ same)
            ∙ one.order;
        waits =
            two.waits
            ∙ ap (λ c. c ++ (two.last ∷ [])) (keeps ∙ one.waits)
            ∙ append_assoc w.hard_errors (one.last ∷ []) (two.last ∷ []);
      },
    )
