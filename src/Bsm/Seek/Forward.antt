-- ===== src/Bsm/Seek/Forward.antt =====
-- `forward_seek_entry` finds the map of the segment, and leaves its pointer at the segment.
use ftape.Prelude.{
  ℕ, ◌+◌, ◌*◌, ◌≤◌, bit_or, ◌==◌, ltb, ◌≡◌, refl, sym, ap, ◌∙◌, inl, inr, Bool-cases, List, [], ◌∷◌,
  some, arith,
}
use ftape.Prelude.Bits.Or.{or-zero, or_assoc}
use ftape.Bsm.Entry.{Format, SectorCount, get_sector, cvt2map, empty_segment}
use ftape.Bsm.Seek.{Cursor, Found, unwind, skip, gather, take_entry, at_cursor, forward_seek_entry}
use ftape.Bsm.Seek.Order.{
  segment, marks, map_of, first, last, IsFrom, IsUpTo, IsUpTo-mono, map_of-unwind, map_of_above,
}

-- The list is cut where the segment begins.
pub record IsCut (fmt : Format) (id : ℕ) (c : Cursor) : Type 0 where
  pub below : IsUpTo fmt (2 * id) c.before
  pub above : IsFrom fmt (2 * id) c.after

abbrev pub whole : Cursor → List SectorCount
whole c = unwind c.before c.after

record Skipped (fmt : Format) (id : ℕ) (before after : List SectorCount) : Type 0 where
  to : Cursor
  runs : skip id before after ≡ some to
  cut : IsCut fmt id to
  same : whole to ≡ unwind before after

skip_lem :
    (fmt : Format) (id k : ℕ) (before after : List SectorCount)
    → k ≤ 2 * id
    → IsUpTo fmt k before
    → IsFrom fmt k after
    → Skipped fmt id before after
unfolding skip unwind
skip_lem fmt id k before [] h u f = elim f [ ]
skip_lem fmt id k before (e ∷ l) h u (inl z) = record {
  to = record { before = before; after = e ∷ l };
  runs = ground arith;
  cut = record { below = IsUpTo-mono fmt k (2 * id) before h u; above = inl z };
  same = refl;
}
skip_lem fmt id k before (e ∷ l) h u (inr (n, p, r)) = elim (Bool-cases (ltb (segment e) id)) [
  | inl lt ↦
      let rest =
        skip_lem fmt id (last fmt e) (e ∷ before) l (ground arith)
          (n, omega arith, IsUpTo-mono fmt k (first fmt e) before p u) r in
      record { to = rest.to; runs = ground (arith, rest.runs); cut = rest.cut; same = rest.same }
  | inr ge ↦ record {
    to = record { before = before; after = e ∷ l };
    runs = ground arith;
    cut = record {
      below = IsUpTo-mono fmt k (2 * id) before h u;
      above = inr (n, ground arith, r);
    };
    same = refl;
  }
]

gather_lem :
    (fmt : Format) (id k : ℕ) (l : List SectorCount) (map count : ℕ)
    → 2 * id + 1 ≤ k
    → IsFrom fmt k l
    → (c : ℕ) × (gather id l map count ≡ some (bit_or map (map_of fmt id l), c))
unfolding gather map_of
gather_lem fmt id k [] map count h f = elim f [ ]
gather_lem fmt id k (e ∷ l) map count h (inl z) = (count, ground (arith, or-zero map))
gather_lem fmt id k (e ∷ l) map count h (inr (n, p, r)) = elim (Bool-cases (segment e == id)) [
  | inl same ↦
      let rest =
        gather_lem fmt id (last fmt e) l (bit_or map (cvt2map (get_sector e))) (count + 1)
          (ground arith) r in
      (rest.0, ground (arith, rest.1, or_assoc map (cvt2map (get_sector e)) (map_of fmt id l)))
  | inr other ↦ (count, ground (arith, or-zero map, map_of_above fmt id (last fmt e) l))
]

-- What a seek promises: the pointer at the segment in the same list, and the segment's map.
pub record Finds (fmt : Format) (id : ℕ) (list : List SectorCount) (f : Found) : Type 0 where
  pub cut : IsCut fmt id f.cursor
  pub same : whole f.cursor ≡ list
  pub right : f.map ≡ map_of fmt id list

take_entry_lem :
    (fmt : Format) (id : ℕ) (c : Cursor) (e : SectorCount) (l : List SectorCount)
    → IsFrom fmt (2 * id) (e ∷ l)
    → (f : Found) × (take_entry fmt id c e l ≡ some f)
      × (f.cursor ≡ c)
      × (f.map ≡ map_of fmt id (e ∷ l))
unfolding take_entry map_of
take_entry_lem fmt id c e l (inl z) =
    (record { cursor = c; map = 0; count = 0 }, ground arith, refl, ground arith)
take_entry_lem fmt id c e l (inr (n, p, r)) = elim (Bool-cases (segment e == id)) [
  | inr other ↦ (
    record { cursor = c; map = 0; count = 0 },
    ground arith,
    refl,
    ground (arith, map_of_above fmt id (last fmt e) l),
  )
  | inl same ↦ elim (Bool-cases (marks fmt e)) [
    | inl mark ↦ (
      record { cursor = c; map = empty_segment; count = 32 },
      ground arith,
      refl,
      ground (arith, map_of_above fmt id (last fmt e) l, or-zero empty_segment),
    )
    | inr plain ↦
        let got = gather_lem fmt id (last fmt e) l (cvt2map (get_sector e)) 1 (ground arith) r in
        (
          record {
            cursor = c;
            map = bit_or (cvt2map (get_sector e)) (map_of fmt id l);
            count = got.0;
          },
          ground (arith, got.1),
          refl,
          ground arith,
        )
  ]
]

at_cursor_lem :
    (fmt : Format) (id : ℕ) (before after : List SectorCount)
    → IsFrom fmt (2 * id) after
    → (f : Found) × (at_cursor fmt id before after ≡ some f)
      × (f.cursor ≡ record { before = before; after = after })
      × (f.map ≡ map_of fmt id after)
unfolding at_cursor
at_cursor_lem fmt id before [] h = elim h [ ]
at_cursor_lem fmt id before (e ∷ l) h =
    take_entry_lem fmt id (record { before = before; after = e ∷ l }) e l h

-- From a pointer at or before the segment, the seek ends in the buffer, at the segment.
pub forward_seek_entry-Finds :
    (fmt : Format) (id k : ℕ) (c : Cursor)
    → k ≤ 2 * id
    → IsUpTo fmt k c.before
    → IsFrom fmt k c.after
    → (f : Found) × (forward_seek_entry fmt id c ≡ some f) × Finds fmt id (whole c) f
unfolding forward_seek_entry
forward_seek_entry-Finds fmt id k c h u f =
    let s = skip_lem fmt id k c.before c.after h u f in
    let t = at_cursor_lem fmt id s.to.before s.to.after s.cut.above in
    (
      t.0,
      rw (s.runs, forward_seek_entry) t.1,
      record {
        cut = rw t.2 s.cut;
        same = rw t.2 s.same;
        right =
            t.3
            ∙ sym (map_of-unwind fmt id s.to.before s.to.after s.cut.below)
            ∙ ap (map_of fmt id) s.same;
      },
    )
