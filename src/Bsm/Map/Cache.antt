-- ===== src/Bsm/Map/Cache.antt =====
-- The cached position of the bad sector list never changes what a lookup returns.
use ftape.Prelude.{
  ℕ, ◌*◌, ltb, if◌then◌else◌, ◌≡◌, refl, sym, ap, subst, ◌∙◌, inl, inr, true, Bool-cases, List, [],
  ◌∷◌, map, drop, Option, none, some, arith,
}
use ftape.Prelude.Int.{ℤ, pos, negsuc}
use ftape.Bsm.Entry.{Format, has_list, has_marks, SectorCount}
use ftape.Bsm.Seek.{Cursor, Found, unwind, backwards_seek_entry}
use ftape.Bsm.Seek.Order.{map_of, IsFrom, IsUpTo}
use ftape.Bsm.Seek.Forward.{IsCut, whole, Finds, forward_seek_entry-Finds}
use ftape.Bsm.Seek.Backward.{backwards_seek_entry-Finds}
use ftape.Bsm.Map.{
  BadSectors, listed, Bsm, init_bsm, extract_bad_sector_map, sector_counts, seek, lookup,
  get_bad_sector_entry, header_end, fsl_end,
}

-- The pointer is cut at the segment of the last lookup, whose map is kept; before the first
-- lookup it is at the start of the list.
abbrev pub IsCached : Format → ℤ → ℕ → Cursor → Type 0
IsCached fmt (pos r) m c = IsCut fmt r c × (m ≡ map_of fmt r (whole c))
IsCached fmt (negsuc r) m c = IsUpTo fmt 0 c.before × IsFrom fmt 0 c.after

-- The state holds this list, in order and terminated, with a right cache.
pub record IsListed (fmt : Format) (list : List SectorCount) (b : Bsm) : Type 0 where
  pub cursor : Cursor
  pub is_listed : b.bad ≡ listed cursor
  pub known : b.header_known ≡ true
  pub same_format : b.format ≡ fmt
  pub same : whole cursor ≡ list
  pub cached : IsCached fmt b.last_reference b.map cursor

seek_lem :
    (b : Bsm) (c : Cursor) (id : ℕ) (ref : ℤ)
    → b.last_reference ≡ ref
    → IsCached b.format ref b.map c
    → (f : Found) × (seek b c id ≡ some f) × Finds b.format id (whole c) f
unfolding seek
seek_lem b c id (negsuc r) e h =
    let got = forward_seek_entry-Finds b.format id 0 c (omega arith) h.0 h.1 in
    (got.0, rw e (ground (arith, got.1)), got.2)
seek_lem b c id (pos r) e h = elim (Bool-cases (ltb r id)) [
  | inl later ↦
      let got = forward_seek_entry-Finds b.format id (2 * r) c (ground arith) h.0.below h.0.above in
      (got.0, rw e (ground (arith, got.1)), got.2)
  | inr not_later ↦ elim (Bool-cases (ltb id r)) [
    | inl earlier ↦ (
      backwards_seek_entry b.format id c,
      rw e (ground arith),
      backwards_seek_entry-Finds b.format id (2 * r) c (ground arith) h.0.below h.0.above,
    )
    | inr same ↦
        let at : r ≡ id = ground arith in
        (
          record { cursor = c; map = b.map; count = 0 },
          rw e (ground arith),
          record { cut = rw at at h.0; same = refl; right = rw at at h.1 },
        )
  ]
]

after_seek : Bsm → ℕ → Found → Bsm
after_seek b id f = record b { bad = listed f.cursor; last_reference = pos id; map = f.map }

lookup-listed :
    (b : Bsm) (bad : BadSectors) (c : Cursor) (id : ℕ) (f : Found)
    → bad ≡ listed c
    → seek b c id ≡ some f
    → lookup b bad id ≡ some (after_seek b id f, f.map)
unfolding lookup after_seek
lookup-listed b bad c id f e s = rw (e, s, lookup)

-- A lookup stays in the buffer, returns the union of the segment's entries and keeps the list.
get_bad_sector_entry-IsListed :
    (fmt : Format) (list : List SectorCount) (b : Bsm) (id : ℕ)
    → IsListed fmt list b
    → (b' : Bsm) × (get_bad_sector_entry b id ≡ some (b', map_of fmt id list))
      × IsListed fmt list b'
unfolding get_bad_sector_entry after_seek
get_bad_sector_entry-IsListed fmt list b id v =
    let cached : IsCached b.format b.last_reference b.map v.cursor =
      subst (λ x. IsCached x b.last_reference b.map v.cursor) (sym v.same_format) v.cached in
    let got = seek_lem b v.cursor id b.last_reference refl cached in
    let f = got.0 in
    let finds = got.2 in
    let right : f.map ≡ map_of fmt id list =
      finds.right ∙ ap (map_of b.format id) v.same ∙ ap (λ x. map_of x id list) v.same_format in
    (
      after_seek b id f,
      ground (arith, v.known, right, lookup-listed b b.bad v.cursor id f v.is_listed got.1),
      record {
        cursor = f.cursor;
        is_listed = refl;
        known = v.known;
        same_format = v.same_format;
        same = finds.same ∙ v.same;
        cached = (
          subst (λ x. IsCut x id f.cursor) v.same_format finds.cut,
          right ∙ ap (map_of fmt id) (sym (finds.same ∙ v.same)),
        );
      },
    )

-- A sequence of lookups, with what each returns.
unfoldable pub lookups : Bsm → List ℕ → Option (Bsm × List ℕ)
lookups b [] = some (b, [])
lookups b (id ∷ ids) = elim (get_bad_sector_entry b id) [
  | none ↦ none
  | some (b', m) ↦ elim (lookups b' ids) [ none ↦ none | some (b'', ms) ↦ some (b'', m ∷ ms) ]
]

-- For a list that is in order and terminated, any sequence of calls of ftape_get_bad_sector_entry
-- reads only inside the list and returns, for each segment asked for, the union of its entries,
-- whatever was asked before; the list is left as it is.
pub lookups-map_of :
    (fmt : Format) (list : List SectorCount) (ids : List ℕ) (b : Bsm)
    → IsListed fmt list b
    → (b' : Bsm) × (lookups b ids ≡ some (b', map (λ id. map_of fmt id list) ids))
      × IsListed fmt list b'
unfolding lookups
lookups-map_of fmt list [] b v = (b, refl, v)
lookups-map_of fmt list (id ∷ ids) b v =
    let one = get_bad_sector_entry-IsListed fmt list b id v in
    let rest = lookups-map_of fmt list ids one.0 one.2 in
    (rest.0, ground (arith, one.1, rest.1), rest.2)

-- After `ftape_init_bsm`, reading a map in order from a header segment gives such a state.
pub extract_bad_sector_map-IsListed :
    (b : Bsm) (buffer : List ℕ)
    → b.header_known ≡ true
    → has_list b.format ≡ true
    → let list =
        sector_counts
          (if has_marks b.format then drop header_end buffer else drop fsl_end buffer) in
      IsFrom b.format 0 list → IsListed b.format list (extract_bad_sector_map (init_bsm b) buffer)
unfolding extract_bad_sector_map init_bsm unwind
extract_bad_sector_map-IsListed b buffer known lists order =
    let list =
      sector_counts (if has_marks b.format then drop header_end buffer else drop fsl_end buffer) in
    record {
      cursor = record { before = []; after = list };
      is_listed = ground arith;
      known = known;
      same_format = refl;
      same = refl;
      cached = (tt, order);
    }
