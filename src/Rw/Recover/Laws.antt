-- ===== src/Rw/Recover/Laws.antt =====
-- The recovery from a hard write error (ftape/lowlevel/ftape-write.c) keeps the data in order.
use ftape.Prelude.{
  ℕ, zero, suc, ◌+◌, ◌-◌, ◌≤◌, bit_or, ◌==◌, ==_iff, if-cases, true, false, List, [], ◌∷◌, ◌++◌,
  take, drop, length, length-append, length-take, length-drop, some, ◌≡◌, refl, sym, ap, ◌∙◌, arith,
}
use mathlib.Core.List.{append-nil, append_assoc}
use ftape.Prelude.Int.{negsuc}
use ftape.Bsm.Entry.{count_ones}
use ftape.Rw.Recover.{
  SegmentBuffer, Ring, sector_size, size_of, put_bad, shift_data, hard_error_recovery,
}

-- The data of the buffers, one after the other.
unfoldable pub data_of : List SegmentBuffer → List ℕ
data_of [] = []
data_of (p ∷ ps) = p.contents ++ data_of ps

-- The buffers hold as much as their segments take.
unfoldable pub AreFull : (ℕ → ℕ) → List SegmentBuffer → Type 0
AreFull bad [] = Unit {0}
AreFull bad (p ∷ ps) = (length p.contents ≡ size_of (bad p.segment_id)) × AreFull bad ps

pub take-drop : {A : Type 0} (n : ℕ) (xs : List A) → take n xs ++ drop n xs ≡ xs
take-drop zero xs = refl
take-drop (suc n) [] = refl
take-drop (suc n) (x ∷ xs) = ap (λ ys. x ∷ ys) (take-drop n xs)

pub take_all : {A : Type 0} (n : ℕ) (xs : List A) → length xs ≤ n → take n xs ≡ xs
take_all zero [] h = refl
take_all zero (x ∷ xs) h = absurd (omega (arith, h))
take_all (suc n) [] h = refl
take_all (suc n) (x ∷ xs) h = ap (λ ys. x ∷ ys) (take_all n xs (omega (arith, h)))

-- The bytes behind an offset, where no more than a sector is there.
pub last_sector :
    (n : ℕ) (xs : List ℕ)
    → length xs ≡ n + sector_size
    → (take n xs ++ take sector_size (drop n xs) ≡ xs)
      × (length (take sector_size (drop n xs)) ≡ sector_size)
last_sector n xs h =
    let all : take sector_size (drop n xs) ≡ drop n xs =
      take_all sector_size (drop n xs) (omega (arith, length-drop n xs, h)) in
    (
      ap (λ ys. take n xs ++ ys) all ∙ take-drop n xs,
      ap length all ∙ omega (arith, length-drop n xs, h),
    )

no_bytes : (xs : List ℕ) → length xs ≡ 0 → xs ≡ []
no_bytes [] h = refl
no_bytes (x ∷ xs) h = absurd (omega (arith, h))

-- What a shift by `scratch` does: the buffers hold it in front of their data, and are as full.
pub record Shifted (bad : ℕ → ℕ) (ps : List SegmentBuffer) (scratch : List ℕ)
    (r : List SegmentBuffer × List ℕ) : Type 0 where
  pub order : data_of r.0 ++ r.1 ≡ scratch ++ data_of ps
  pub sector : length r.1 ≡ sector_size
  pub full : AreFull bad r.0

shift_data-Shifted :
    (bad : ℕ → ℕ) (ps : List SegmentBuffer) (scratch : List ℕ)
    → length scratch ≡ sector_size
    → AreFull bad ps
    → Shifted bad ps scratch (shift_data bad ps scratch)
unfolding shift_data data_of AreFull
shift_data-Shifted bad [] scratch s full = record {
  order = sym (append-nil scratch);
  sector = s;
  full = tt;
}
shift_data-Shifted bad (p ∷ ps) scratch s full =
    let size : ℕ = size_of (bad p.segment_id) in
    let moved : List ℕ = scratch ++ take size p.contents in
    let whole : take size p.contents ≡ p.contents =
      take_all size p.contents (omega (arith, full.0)) in
    let last =
      last_sector size moved (
        length-append scratch (take size p.contents) ∙ omega (arith, s, ap length whole, full.0)) in
    let more : Shifted bad ps (take sector_size (drop size moved))
        (shift_data bad ps (take sector_size (drop size moved))) =
      shift_data-Shifted bad ps (take sector_size (drop size moved)) last.1 full.1 in
    let kept : Shifted bad ps scratch (shift_data bad ps scratch) =
      shift_data-Shifted bad ps scratch s full.1 in
    if-cases (Shifted bad (p ∷ ps) scratch) (size == 0) _ _
      (λ none. record {
        order =
            let empty : p.contents ≡ [] = no_bytes p.contents (full.0 ∙ (==_iff size 0).0 none) in
            ap (λ c. (c ++ data_of (shift_data bad ps scratch).0) ++ (shift_data bad ps scratch).1)
              empty
            ∙ kept.order
            ∙ ap (λ c. scratch ++ (c ++ data_of ps)) (sym empty);
        sector = kept.sector;
        full = (full.0, kept.full);
      })
      (λ _. record {
        order =
            append_assoc (take size moved) _ _
            ∙ ap (λ c. take size moved ++ c) more.order
            ∙ sym (append_assoc (take size moved) _ (data_of ps))
            ∙ ap (λ c. c ++ data_of ps) (last.0 ∙ ap (λ c. scratch ++ c) whole)
            ∙ append_assoc scratch p.contents (data_of ps);
        sector = more.sector;
        full = (
          length-take size moved
              ∙ omega
                  (arith, s, length-append scratch (take size p.contents), ap length whole, full.0),
          more.full,
        );
      })

-- The data of the whole ring, and the buffers as full as the map that the recovery will use says.
abbrev pub stream : Ring → List ℕ
stream r = r.head.contents ++ data_of r.waiting

abbrev pub map_after : Ring → ℕ
map_after r = bit_or (r.bad r.head.segment_id) r.hard_error_map

pub record IsRecoverable (r : Ring) : Type 0 where
  pub one : count_ones r.hard_error_map ≡ 1
  pub room : size_of (map_after r) + sector_size ≡ size_of (r.bad r.head.segment_id)
  pub head : length r.head.contents ≡ size_of (r.bad r.head.segment_id)
  pub full : AreFull (put_bad r.bad r.head.segment_id (map_after r)) r.waiting

-- The ring is one sector shorter, and that sector is the one left over.
pub record Recovers (r : Ring) (t : Ring × List ℕ) : Type 0 where
  pub order : stream t.0 ++ t.1 ≡ stream r
  pub sector : length t.1 ≡ sector_size
  pub head : length t.0.head.contents ≡ size_of (t.0.bad r.head.segment_id)
  pub full : AreFull t.0.bad t.0.waiting

put_bad-same : (bad : ℕ → ℕ) (i map : ℕ) → put_bad bad i map i ≡ map
unfolding put_bad
put_bad-same bad i map = let e : (i == i) ≡ true = (==_iff i i).1 refl in rw e refl

-- What the recovery gives for a ring that it can handle.
unfoldable pub recovered : Ring → Ring × List ℕ
unfolding hard_error_recovery
recovered r =
    let bad = put_bad r.bad r.head.segment_id (map_after r) in
    let scratch =
      take sector_size (drop (size_of (r.bad r.head.segment_id) - sector_size) r.head.contents) in
    let shifted = shift_data bad r.waiting scratch in
    (
      record r {
        head = record r.head { contents = take (size_of (map_after r)) r.head.contents };
        waiting = shifted.0;
        bad = bad;
        failed = false;
        defects = r.defects + 1;
        old_segment_id = negsuc 0;
      },
      shifted.1,
    )

pub recovered-Recovers : (r : Ring) → IsRecoverable r → Recovers r (recovered r)
unfolding recovered
recovered-Recovers r h =
    let bad : ℕ → ℕ = put_bad r.bad r.head.segment_id (map_after r) in
    let size : ℕ = size_of (map_after r) in
    let old : size_of (r.bad r.head.segment_id) - sector_size ≡ size = omega (arith, h.room) in
    let last = last_sector size r.head.contents (h.head ∙ sym h.room) in
    let scratch : List ℕ =
      take sector_size (drop (size_of (r.bad r.head.segment_id) - sector_size) r.head.contents) in
    let is : scratch ≡ take sector_size (drop size r.head.contents) =
      ap (λ n. take sector_size (drop n r.head.contents)) old in
    let more : Shifted bad r.waiting scratch (shift_data bad r.waiting scratch) =
      shift_data-Shifted bad r.waiting scratch (ap length is ∙ last.1) h.full in
    record {
      order =
          append_assoc (take size r.head.contents) _ _
          ∙ ap (λ c. take size r.head.contents ++ c) more.order
          ∙ ap (λ c. take size r.head.contents ++ (c ++ data_of r.waiting)) is
          ∙ sym (append_assoc (take size r.head.contents) _ _)
          ∙ ap (λ c. c ++ data_of r.waiting) last.0;
      sector = more.sector;
      head =
          length-take size r.head.contents
          ∙ omega (arith, h.head, h.room)
          ∙ ap size_of (sym (put_bad-same r.bad r.head.segment_id (map_after r)));
      full = more.full;
    }

-- The recovery of a ring that it can handle succeeds.
pub recovery-some : (r : Ring) → IsRecoverable r → hard_error_recovery true r ≡ some (recovered r)
unfolding hard_error_recovery recovered
recovery-some r h =
    let e : (count_ones r.hard_error_map == 1) ≡ true = (==_iff _ 1).1 h.one in rw e refl

-- With a controller that can read its buffers, and one error at the head that takes a sector of its segment, and full buffers, ftape_hard_error_recovery succeeds: the data of the buffers, followed by the sector left over, are those from before, in order, and the buffers are full for the new map.
pub hard_error_recovery-Recovers :
    (r : Ring)
    → IsRecoverable r
    → (t : Ring × List ℕ) × (hard_error_recovery true r ≡ some t) × Recovers r t
hard_error_recovery-Recovers r h = (recovered r, recovery-some r h, recovered-Recovers r h)
