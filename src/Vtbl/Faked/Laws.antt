-- ===== src/Vtbl/Faked/Laws.antt =====
-- The table that is made of file marks takes the tape without a gap
-- (ftape/zftape/zftape-vtbl.c).
use ftape.Prelude.{
  ℕ, ◌+◌, ◌≤◌, ◌<◌, not, if◌then◌else◌, Bool, true, false, Bool-cases, none, List, [], ◌∷◌, ◌++◌,
  length, length-append, map, ◌≡◌, refl, sym, ap, subst, ◌∙◌, arith, inl, inr,
}
use mathlib.Core.List.{append-nil, append_assoc}
use ftape.Vtbl.Table.{Volume, Zft, init_vtbl, new_vtbl_entry, tape_pos_of, space_between}
use ftape.Vtbl.Lookup.Tiled.{IsTiled, IsTiled-snoc}
use ftape.Vtbl.Lookup.Segpos.{IsTable}
use ftape.Vtbl.Faked.{
  Mark, have_eom, without_last, kept_marks, fake_volume, fake_volumes, fake_remainder,
  fake_volume_headers,
}

-- The marks go up from a segment, in front of the last data segment.
abbrev pub IsAscending : (lo last : ℕ) → List Mark → Type 0
IsAscending lo last [] = Unit
IsAscending lo last (m ∷ marks) =
    (lo ≤ m.segment) × (m.segment < last) × IsAscending (m.segment + 1) last marks

-- The table so far: the volumes end at the marks that were taken.
record Faked (lo last : ℕ) (ends : List ℕ) (z : Zft) : Type 0 where
  tiled : IsTiled lo z.volumes z.eom.start_seg
  near : z.eom.start_seg ≤ last
  eom_end : z.eom.end_seg ≡ last + 1
  counts : z.eom.count ≡ length z.volumes
  at_eom : z.cur ≡ none
  ends_at : map (λ (v : Volume). v.end_seg) z.volumes ≡ ends

map-snoc :
    (vs : List Volume) (v : Volume)
    → map (λ (v : Volume). v.end_seg) (vs ++ v ∷ [])
      ≡ map (λ (v : Volume). v.end_seg) vs ++ v.end_seg ∷ []
map-snoc [] v = refl
map-snoc (w ∷ vs) v = ap (λ l. w.end_seg ∷ l) (map-snoc vs v)

fake_volume-Faked :
    (bad : ℕ → ℕ) (lo last : ℕ) (ends : List ℕ) (mark : Mark) (z : Zft)
    → Faked lo last ends z
    → z.eom.start_seg ≤ mark.segment
    → mark.segment < last
    → Faked lo last (ends ++ mark.segment ∷ []) (fake_volume bad mark z)
unfolding fake_volume space_between tape_pos_of new_vtbl_entry
fake_volume-Faked bad lo last ends mark z f from upto = record {
  tiled = IsTiled-snoc z.volumes lo _ (mark.segment + 1) f.tiled from refl;
  near = omega (arith, upto);
  eom_end = f.eom_end;
  counts = omega (arith, f.counts, length-append z.volumes (_ ∷ []));
  at_eom = f.at_eom;
  ends_at = map-snoc z.volumes _ ∙ ap (λ l. l ++ mark.segment ∷ []) f.ends_at;
}

abbrev pub segments_of : List Mark → List ℕ
segments_of marks = map (λ (m : Mark). m.segment) marks

fake_volumes-Faked :
    (bad : ℕ → ℕ) (lo last : ℕ) (ends : List ℕ) (marks : List Mark) (z : Zft)
    → Faked lo last ends z
    → IsAscending z.eom.start_seg last marks
    → Faked lo last (ends ++ segments_of marks) (fake_volumes bad marks z)
unfolding fake_volumes
fake_volumes-Faked bad lo last ends [] z f up =
    subst (λ e. Faked lo last e z) (sym (append-nil ends)) f
fake_volumes-Faked bad lo last ends (m ∷ marks) z f up =
    subst (λ e. Faked lo last e (fake_volumes bad marks (fake_volume bad m z)))
      (append_assoc ends (m.segment ∷ []) (segments_of marks))
      (fake_volumes-Faked bad lo last (ends ++ m.segment ∷ []) marks (fake_volume bad m z)
        (fake_volume-Faked bad lo last ends m z f up.0 up.1) up.2)

without_last-IsAscending :
    (lo last : ℕ) (marks : List Mark)
    → IsAscending lo last marks
    → IsAscending lo last (without_last marks)
unfolding without_last
without_last-IsAscending lo last [] up = tt
without_last-IsAscending lo last (a ∷ []) up = tt
without_last-IsAscending lo last (a ∷ b ∷ marks) up =
    (up.0, up.1, without_last-IsAscending (a.segment + 1) last (b ∷ marks) up.2)

kept-IsAscending :
    (lo last : ℕ) (marks : List Mark)
    → IsAscending lo last marks
    → IsAscending lo last (kept_marks marks)
unfolding kept_marks
kept-IsAscending lo last marks up = elim (Bool-cases (have_eom marks)) [
  | inl e ↦ rw e (without_last-IsAscending lo last marks up)
  | inr e ↦ rw e up
]

-- A table without a gap from the first data segment on, with a volume for every segment of the list,
-- which ends there.
pub record IsFaked (lo : ℕ) (ends : List ℕ) (z : Zft) : Type 0 where
  pub table : IsTable lo z
  pub counts : z.eom.count ≡ length z.volumes
  pub ends_at : map (λ (v : Volume). v.end_seg) z.volumes ≡ ends

Faked-IsFaked : (lo last : ℕ) (ends : List ℕ) (z : Zft) → Faked lo last ends z → IsFaked lo ends z
Faked-IsFaked lo last ends z f = record {
  table = record {
    tiled = f.tiled;
    rest = omega (arith, f.near, f.eom_end);
    not_head = rw f.at_eom (omega arith);
    inside = rw f.at_eom (omega arith);
  };
  counts = f.counts;
  ends_at = f.ends_at;
}

start-Faked :
    (z : Zft)
    → z.tape.first_data_segment ≤ z.tape.last_data_segment
    → Faked z.tape.first_data_segment z.tape.last_data_segment [] (record (init_vtbl z) {
      eom = record (init_vtbl z).eom { start_seg = z.tape.first_data_segment };
    })
unfolding init_vtbl
start-Faked z order = record {
  tiled = refl;
  near = order;
  eom_end = refl;
  counts = refl;
  at_eom = refl;
  ends_at = refl;
}

remainder-IsFaked :
    (bad : ℕ → ℕ) (lo last capacity : ℕ) (ends : List ℕ) (z : Zft)
    → Faked lo last ends z
    → IsFaked lo (ends ++ last ∷ []) (fake_remainder bad last capacity z)
unfolding fake_remainder tape_pos_of new_vtbl_entry
remainder-IsFaked bad lo last capacity ends z f = record {
  table = record {
    tiled = IsTiled-snoc z.volumes lo _ (last + 1) f.tiled f.near refl;
    rest = omega (arith, f.eom_end);
    not_head = rw f.at_eom (omega arith);
    inside = rw f.at_eom (omega arith);
  };
  counts = omega (arith, f.counts, length-append z.volumes (_ ∷ []));
  ends_at = map-snoc z.volumes _ ∙ ap (λ l. l ++ last ∷ []) f.ends_at;
}

end-IsFaked :
    (bad : ℕ → ℕ) (lo last capacity : ℕ) (has_eom : Bool) (ends : List ℕ) (z : Zft)
    → Faked lo last ends z
    → IsFaked lo
        (ends ++ (if not has_eom then last ∷ [] else []))
        (if not has_eom then fake_remainder bad last capacity z else z)
end-IsFaked bad lo last capacity true ends z f =
    subst (λ l. IsFaked lo l z) (sym (append-nil ends)) (Faked-IsFaked lo last ends z f)
end-IsFaked bad lo last capacity false ends z f = remainder-IsFaked bad lo last capacity ends z f

-- The volumes up to the kept marks, and the remainder of the tape if there is no mark for its end.
abbrev pub faked_ends : (last : ℕ) → List Mark → List ℕ
faked_ends last marks =
    segments_of (kept_marks marks) ++ (if not (have_eom marks) then last ∷ [] else [])

-- From marks that go up from the first data segment on and lie in front of the last one,
-- zft_fake_volume_headers makes a table without a gap from the first data segment on, with a
-- volume that ends at each mark, but for a last mark that is the end of the data, and without such
-- a mark one more volume up to the last data segment.
pub fake_volume_headers-IsFaked :
    (bad : ℕ → ℕ) (z : Zft) (marks : List Mark)
    → z.tape.first_data_segment ≤ z.tape.last_data_segment
    → IsAscending z.tape.first_data_segment z.tape.last_data_segment marks
    → IsFaked z.tape.first_data_segment
        (faked_ends z.tape.last_data_segment marks)
        (fake_volume_headers bad z marks)
unfolding fake_volume_headers
fake_volume_headers-IsFaked bad z marks order up =
    let first = z.tape.first_data_segment in
    let last = z.tape.last_data_segment in
    let start : Zft = record (init_vtbl z) {
      eom = record (init_vtbl z).eom { start_seg = first };
    } in
    let f =
      fake_volumes-Faked bad first last [] (kept_marks marks) start (start-Faked z order)
        (kept-IsAscending first last marks up) in
    end-IsFaked bad first last z.tape.capacity (have_eom marks) (segments_of (kept_marks marks))
      (fake_volumes bad (kept_marks marks) start) f
