-- ===== src/Bsm/Seek/Backward.antt =====
-- `backwards_seek_entry` finds the map of the segment, and leaves its pointer at the segment.
use ftape.Prelude.{
  ℕ, ◌+◌, ◌*◌, ◌≤◌, bit_or, ◌==◌, ltb, ◌≡◌, ◌⊎◌, refl, sym, ◌∙◌, inl, inr, true, Bool-cases, List,
  [], ◌∷◌, arith,
}
use ftape.Prelude.Bits.Or.{or-zero, or_comm}
use ftape.Bsm.Entry.{Format, SectorCount, get_sector, cvt2map, empty_segment}
use ftape.Bsm.Seek.{Cursor, unwind, gather_back, seek_back, skip_back, backwards_seek_entry}
use ftape.Bsm.Seek.Order.{
  segment, marks, map_of, first, last, IsFrom, IsUpTo, IsFrom-mono, IsUpTo-mono, map_of-unwind,
  map_of_above,
}
use ftape.Bsm.Seek.Forward.{whole, Finds}

gather_back_lem :
    (fmt : Format) (id : ℕ) (before after : List SectorCount) (map count : ℕ)
    → IsUpTo fmt (2 * id + 1) before
    → IsFrom fmt (2 * id + 1) after
    → map ≡ map_of fmt id after
    → Finds fmt id (unwind before after) (gather_back id before after map count)
unfolding gather_back unwind map_of
gather_back_lem fmt id [] after map count u f e = record {
  cut = record { below = tt; above = IsFrom-mono fmt (2 * id + 1) (2 * id) after (omega arith) f };
  same = refl;
  right = e;
}
gather_back_lem fmt id (d ∷ before) after map count u f e = elim (Bool-cases (segment d == id)) [
  | inl same ↦
      let rest =
        gather_back_lem fmt id before (d ∷ after) (bit_or map (cvt2map (get_sector d))) (count + 1)
          (IsUpTo-mono fmt (first fmt d) (2 * id + 1) before (ground arith) u.2)
          (inr
            (u.0, ground arith, IsFrom-mono fmt (2 * id + 1) (last fmt d) after (ground arith) f))
          (ground (arith, or_comm map (cvt2map (get_sector d)))) in
      rw same rest
  | inr other ↦
      let below : ltb (segment d) id ≡ true = ground arith in
      let before_id : IsUpTo fmt (2 * id) (d ∷ before) = (u.0, ground arith, u.2) in
      rw other (
        rw below (record {
          cut = record {
            below = before_id;
            above = IsFrom-mono fmt (2 * id + 1) (2 * id) after (omega arith) f;
          };
          same = refl;
          right = e ∙ sym (map_of-unwind fmt id (d ∷ before) after before_id);
        }))
]

-- At the entry where the first loop stops: it is not past the segment, or is the first of the list.
seek_back_lem :
    (fmt : Format) (id k : ℕ) (e : SectorCount) (before after : List SectorCount)
    → 2 * id + 2 ≤ k
    → IsUpTo fmt k (e ∷ before)
    → IsFrom fmt k after
    → (segment e ≤ id) ⊎ (before ≡ [])
    → Finds fmt id (unwind before (e ∷ after)) (seek_back fmt id e before after)
unfolding seek_back unwind map_of
seek_back_lem fmt id k e before after h u f at = elim (Bool-cases (ltb id (segment e))) [
  | inl past ↦
      let none_before : before ≡ [] = ground arith in
      let from : IsFrom fmt (2 * id) (e ∷ after) =
        inr (u.0, ground arith, IsFrom-mono fmt k (last fmt e) after u.1 f) in
      rw past (record {
        cut = record { below = rw none_before tt; above = from };
        same = refl;
        right = sym (
            rw none_before (
              map_of_above fmt id (2 * id + 2) (e ∷ after) (omega arith)
                (inr (u.0, ground arith, IsFrom-mono fmt k (last fmt e) after u.1 f))));
      })
  | inr not_past ↦ rw not_past (elim (Bool-cases (ltb (segment e) id)) [
    | inl before_it ↦
        let below : IsUpTo fmt (2 * id) (e ∷ before) = (u.0, ground arith, u.2) in
        rw before_it (record {
          cut = record { below = below; above = IsFrom-mono fmt k (2 * id) after (omega arith) f };
          same = refl;
          right =
              sym (map_of-unwind fmt id (e ∷ before) after below ∙ map_of_above fmt id k after h f);
        })
    | inr at_it ↦ rw at_it (elim (Bool-cases (marks fmt e)) [
      | inl mark ↦
          let below : IsUpTo fmt (2 * id) before =
            IsUpTo-mono fmt (first fmt e) (2 * id) before (ground arith) u.2 in
          rw mark (record {
            cut = record {
              below = below;
              above = inr (u.0, ground arith, IsFrom-mono fmt k (last fmt e) after u.1 f);
            };
            same = refl;
            right = sym (
                map_of-unwind fmt id before (e ∷ after) below
                ∙ ground (arith, map_of_above fmt id k after h f, or-zero empty_segment));
          })
      | inr plain ↦ rw plain (
          gather_back_lem fmt id before (e ∷ after) (cvt2map (get_sector e)) 1
            (IsUpTo-mono fmt (first fmt e) (2 * id + 1) before (ground arith) u.2)
            (inr (u.0, ground arith, IsFrom-mono fmt k (last fmt e) after u.1 f))
            (ground (arith, map_of_above fmt id k after h f, or-zero (cvt2map (get_sector e)))))
    ])
  ])
]

skip_back_lem :
    (fmt : Format) (id k : ℕ) (before after : List SectorCount)
    → 2 * id + 2 ≤ k
    → IsUpTo fmt k before
    → IsFrom fmt k after
    → Finds fmt id (unwind before after) (skip_back fmt id before after)
unfolding skip_back unwind
skip_back_lem fmt id k [] after h u f = record {
  cut = record { below = tt; above = IsFrom-mono fmt k (2 * id) after (omega arith) f };
  same = refl;
  right = sym (map_of_above fmt id k after h f);
}
skip_back_lem fmt id k (e ∷ []) after h u f = seek_back_lem fmt id k e [] after h u f (inr refl)
skip_back_lem fmt id k (e ∷ d ∷ before) after h u f = elim (Bool-cases (ltb id (segment e))) [
  | inl past ↦ rw past (
      skip_back_lem fmt id (first fmt e) (d ∷ before) (e ∷ after) (ground arith) u.2
        (inr (u.0, omega arith, IsFrom-mono fmt k (last fmt e) after u.1 f)))
  | inr not_past ↦
      rw not_past (seek_back_lem fmt id k e (d ∷ before) after h u f (inl (ground arith)))
]

-- From a pointer past the segment, the seek ends at the segment.
pub backwards_seek_entry-Finds :
    (fmt : Format) (id k : ℕ) (c : Cursor)
    → 2 * id + 2 ≤ k
    → IsUpTo fmt k c.before
    → IsFrom fmt k c.after
    → Finds fmt id (whole c) (backwards_seek_entry fmt id c)
unfolding backwards_seek_entry
backwards_seek_entry-Finds fmt id k c h u f = skip_back_lem fmt id k c.before c.after h u f
