-- ===== src/Vtbl/Write/Close.antt =====
-- Closing a volume, `zft_close_volume` of ftape/zftape/zftape-vtbl.c.
use ftape.Prelude.{
  ℕ, suc, ◌+◌, ◌≤◌, ◌<◌, ◌≡◌, ◌⊎◌, refl, sym, ap, subst, ◌∙◌, ◌==◌, Bool-cases, if-cases, inl, inr,
  Bool, true, false, not, ◌&&◌, ◌||◌, List, [], ◌∷◌, length, Option, none, some, arith,
}
use ftape.Zft.Position.{Tape, calc_tape_pos}
use ftape.Zft.Position.Kept.{SameTape, SameTape-trans, calc_tape_pos-SameTape}
use ftape.Vtbl.Table.{
  Volume, Zft, Position, Status, ok, eio, last_or, last_vtbl, update_last, space_between,
  tape_pos_of,
}
use ftape.Vtbl.Lookup.Tiled.{IsTiled}
use ftape.Vtbl.Write.{close_entry, end_volume, before_mark, close_volume}
use ftape.Vtbl.Write.Invariant.{IsWritable, node_of}

module _ (f : Volume → Volume) (e : ℕ) (kept : (v : Volume) → (f v).start_seg ≡ v.start_seg)
    (moved : (v : Volume) → (f v).end_seg ≡ e) where
  update_last-IsTiled :
      (vs : List Volume) (d : Volume) (lo hi : ℕ)
      → IsTiled lo vs hi
      → 0 < length vs
      → (last_or d vs).start_seg ≤ e
      → IsTiled lo (update_last f vs) (e + 1)
  unfolding update_last
  update_last-IsTiled [] d lo hi t more le = absurd (omega (arith, more))
  update_last-IsTiled (v ∷ []) d lo hi t more le =
      (kept v ∙ t.0, omega (arith, moved v, t.0, le), ap (λ (n : ℕ). n + 1) (moved v))
  update_last-IsTiled (v ∷ w ∷ vs) d lo hi t more le =
      (t.0, t.1, update_last-IsTiled (w ∷ vs) v (v.end_seg + 1) hi t.2 (omega arith) le)

  length-update_last : (vs : List Volume) → length (update_last f vs) ≡ length vs
  unfolding update_last
  length-update_last [] = refl
  length-update_last (v ∷ []) = refl
  length-update_last (v ∷ w ∷ vs) = ap suc (length-update_last (w ∷ vs))

  last-update_last :
      (vs : List Volume) (d : Volume)
      → 0 < length vs
      → last_or d (update_last f vs) ≡ f (last_or d vs)
  unfolding update_last
  last-update_last [] d more = absurd (omega (arith, more))
  last-update_last (v ∷ []) d more = refl
  last-update_last (v ∷ w ∷ vs) d more = last-update_last (w ∷ vs) v (omega arith)

node_of-length :
    (cur : Option ℕ) (vs us : List Volume) → length us ≡ length vs → node_of cur us ≡ node_of cur vs
node_of-length none vs us e = ap (λ (n : ℕ). n + 1) e
node_of-length (some i) vs us e = refl

module _ (bad : ℕ → ℕ) where
  space_between-SameTape : (z : Zft) (a b : ℕ) → SameTape (space_between bad z a b).0.tape z.tape
  unfolding space_between tape_pos_of
  space_between-SameTape z a b =
      let t : Tape = (calc_tape_pos bad z.tape b).0 in
      SameTape-trans (calc_tape_pos bad t a).0 t z.tape (calc_tape_pos-SameTape bad t a)
        (calc_tape_pos-SameTape bad z.tape b)

  -- A close that goes well ends the last volume at the position, and one that fails leaves all.
  pub record Closes (z : Zft) (p : Position) (r : Status × Zft × Position) : Type 0 where
    pub complete : IsWritable r.1
    pub same_count : length r.1.volumes ≡ length z.volumes
    pub outcome :
        ((r.0 ≡ ok)
          × ((last_vtbl r.1).end_seg ≡ r.2.seg_pos)
          × ((last_vtbl r.1).size ≡ r.2.volume_pos)
          × ((last_vtbl r.1).is_open ≡ false)
          × (r.1.eom.start_seg ≡ r.2.seg_pos + 1))
        ⊎ ((r.0 ≡ eio)
            × (r.1 ≡ z)
            × (r.2 ≡ p)
            × ((length z.volumes ≡ 0) ⊎ ((last_vtbl z).is_open ≡ false)))

  pub end_volume-IsWritable :
      (z : Zft) (p : Position)
      → IsWritable z
      → 0 < length z.volumes
      → (last_vtbl z).start_seg ≤ p.seg_pos
      → p.seg_pos ≤ z.tape.last_data_segment
      → IsWritable (end_volume bad z p)
  unfolding end_volume last_vtbl close_entry
  end_volume-IsWritable z p w more from upto =
      let first = (last_vtbl z).start_seg in
      let same : SameTape (space_between bad z first (p.seg_pos + 1)).0.tape z.tape =
        space_between-SameTape z first (p.seg_pos + 1) in
      let space : ℕ = (space_between bad z first (p.seg_pos + 1)).1 in
      let vs : List Volume = update_last (close_entry p space) z.volumes in
      let len : length vs ≡ length z.volumes =
        length-update_last (close_entry p space) p.seg_pos (λ v. refl) (λ v. refl) z.volumes in
      let tiled : IsTiled (z.tape.first_data_segment + 1) vs (p.seg_pos + 1) =
        update_last-IsTiled (close_entry p space) p.seg_pos (λ v. refl) (λ v. refl) z.volumes z.head
          (z.tape.first_data_segment + 1) z.eom.start_seg w.tiled more from in
      let node = node_of-length z.cur z.volumes vs len in
      record {
        tiled = subst (λ (t : ℕ). IsTiled (t + 1) vs (p.seg_pos + 1)) (sym same.first) tiled;
        head = w.head ∙ sym same.first;
        eom = w.eom ∙ ap (λ (t : ℕ). t + 1) (sym same.last);
        inside = omega (arith, same.last, upto);
        small = omega (arith, same.last, w.small);
        pointer = omega (arith, node, len, w.pointer);
      }

  pub before_mark-inside :
      (z : Zft) (p : Position)
      → (last_vtbl z).start_seg ≤ p.seg_pos
      → ((last_vtbl z).start_seg ≤ (before_mark bad z p).seg_pos)
        × ((before_mark bad z p).seg_pos ≤ p.seg_pos)
  unfolding before_mark
  before_mark-inside z p h =
      elim (Bool-cases (p.seg_byte_pos == 0 && not (p.seg_pos == (last_vtbl z).start_seg))) [
        | inl e ↦ rw e (ground (arith, e, h))
        | inr e ↦ rw e (omega (arith, h))
      ]

  none_open : (n : ℕ) (b : Bool) → (n == 0 || not b) ≡ true → (n ≡ 0) ⊎ (b ≡ false)
  none_open n true e = ground arith
  none_open n false e = inr refl

  -- What the end of a volume writes into the last entry and `eom`.
  pub ended :
      (z : Zft) (p' : Position)
      → 0 < length z.volumes
      → let z' = end_volume bad z p' in
        (length z'.volumes ≡ length z.volumes)
        × ((last_vtbl z').end_seg ≡ p'.seg_pos)
        × ((last_vtbl z').size ≡ p'.volume_pos)
        × ((last_vtbl z').is_open ≡ false)
        × (z'.eom.start_seg ≡ p'.seg_pos + 1)
  unfolding end_volume last_vtbl close_entry
  ended z p' more =
      let f : Volume → Volume =
        close_entry p' (space_between bad z (last_vtbl z).start_seg (p'.seg_pos + 1)).1 in
      let l : last_or z.head (update_last f z.volumes) ≡ f (last_or z.head z.volumes) =
        last-update_last f p'.seg_pos (λ v. refl) (λ v. refl) z.volumes z.head more in
      (
        length-update_last f p'.seg_pos (λ v. refl) (λ v. refl) z.volumes,
        ap (λ (v : Volume). v.end_seg) l,
        ap (λ (v : Volume). v.size) l,
        ap (λ (v : Volume). v.is_open) l,
        refl,
      )

  -- For a complete volume table and a position in the last volume, not behind the last data
  -- segment, zft_close_volume keeps the table complete: it ends the last volume at the position
  -- in front of the file mark, with the bytes written as its size, or fails and changes nothing if
  -- there is no open volume.
  pub close_volume-Closes :
      (z : Zft) (p : Position)
      → IsWritable z
      → (last_vtbl z).start_seg ≤ p.seg_pos
      → p.seg_pos ≤ z.tape.last_data_segment
      → Closes z p (close_volume bad z p)
  unfolding close_volume
  close_volume-Closes z p w from upto =
      let p' : Position = before_mark bad z p in
      let at = before_mark-inside z p from in
      if-cases (Closes z p) (length z.volumes == 0 || not (last_vtbl z).is_open) (eio, z, p)
        (ok, end_volume bad z p', p')
        (λ e. record {
          complete = w;
          same_count = refl;
          outcome = inr (refl, refl, refl, none_open (length z.volumes) (last_vtbl z).is_open e);
        })
        (λ e.
          let more : 0 < length z.volumes = ground (arith, e) in
          let written = ended z p' more in
          record {
            complete = end_volume-IsWritable z p' w more at.0 (omega (arith, at.1, upto));
            same_count = written.0;
            outcome = inl (refl, written.1, written.2, written.3, written.4);
          })
