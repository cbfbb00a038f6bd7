-- ===== src/Vtbl/Write/Open.antt =====
-- Opening a volume at the beginning of the tape and behind the last volume
-- (`zft_open_volume` of ftape/zftape/zftape-vtbl.c).
use ftape.Prelude.{
  ℕ, ◌+◌, ◌^◌, ◌≤◌, ◌<◌, ◌≡◌, ◌⊎◌, refl, sym, ap, ◌∙◌, ltb, if◌then◌else◌, Bool-cases, inl, inr,
  Bool, true, false, not, ◌&&◌, ◌||◌, [], Option, some, arith,
}
use ftape.Prelude.Words.{minus_one}
use ftape.Zft.Position.{Tape, calc_tape_pos}
use ftape.Zft.Position.Kept.{SameTape, calc_tape_pos-SameTape}
use ftape.Vtbl.Table.{Zft, Position, Status, ok, init_vtbl, tape_pos_of, tape_at_lbot}
use ftape.Vtbl.Lookup.{find_segment, point_at, whole_tape, volume_by_segpos}
use ftape.Vtbl.Write.{forget_old_ftape, reset_position, go_to, open_first, append_open, open_volume}
use ftape.Vtbl.Write.Invariant.{IsWritable, Opens, append_open-Opens}

-- The table that is started at the beginning of the tape.
abbrev fresh : Zft → Zft
fresh z = forget_old_ftape (init_vtbl z)

fresh-IsWritable :
    (z : Zft)
    → z.tape.first_data_segment ≤ z.tape.last_data_segment
    → z.tape.last_data_segment + 1 < 2 ^ 32
    → IsWritable (fresh z)
unfolding forget_old_ftape init_vtbl
fresh-IsWritable z le small = record {
  tiled = refl;
  head = refl;
  eom = refl;
  inside = omega (arith, le);
  small = small;
  pointer = omega arith;
}

module _ (bad : ℕ → ℕ) where
  -- The state and the position after the reset of a fresh table.
  abbrev reset : Zft → Zft
  reset z = record (fresh z) {
    tape = (calc_tape_pos bad z.tape (z.tape.first_data_segment + 1)).0;
    just_before_eof = false;
  }

  abbrev at_start : Zft → Position
  at_start z = record {
    seg_pos = z.tape.first_data_segment + 1;
    seg_byte_pos = 0;
    tape_pos = (calc_tape_pos bad z.tape (z.tape.first_data_segment + 1)).1;
    volume_pos = 0;
  }

  find_first : (z : Zft) → find_segment (fresh z) 0 ≡ some 1
  unfolding find_segment init_vtbl forget_old_ftape
  find_first z = let e : ltb 0 (z.tape.first_data_segment + 1) ≡ true = ground arith in rw e refl

  find-fresh :
      (z : Zft) → z.qic_mode ≡ true → volume_by_segpos (fresh z) 0 ≡ some (fresh z, (fresh z).eom)
  unfolding volume_by_segpos point_at init_vtbl forget_old_ftape
  find-fresh z qic =
      ap
        (λ (b : Bool).
          if b
          then point_at (fresh z) (find_segment (fresh z) 0)
          else some (whole_tape (fresh z) 0))
        qic
      ∙ ap (point_at (fresh z)) (find_first z)

  reset-fresh :
      (z : Zft)
      → z.qic_mode ≡ true
      → z.vtbl_read ≡ true
      → reset_position bad (fresh z) ≡ some (reset z, at_start z)
  unfolding reset_position go_to tape_pos_of init_vtbl forget_old_ftape
  reset-fresh z qic read =
      ap
        (λ (b : Bool).
          if b || (z.header_read && not z.qic_mode)
          then go_to bad (volume_by_segpos (fresh z) 0)
          else some (
            record (fresh z) { just_before_eof = false },
            record { seg_pos = minus_one; seg_byte_pos = 0; tape_pos = 0; volume_pos = 0 },
          ))
        read
      ∙ ap (go_to bad) (find-fresh z qic)

  reset-IsWritable :
      (z : Zft)
      → z.tape.first_data_segment ≤ z.tape.last_data_segment
      → z.tape.last_data_segment + 1 < 2 ^ 32
      → IsWritable (reset z)
  unfolding init_vtbl forget_old_ftape
  reset-IsWritable z le small =
      let t : Tape = (calc_tape_pos bad z.tape (z.tape.first_data_segment + 1)).0 in
      let same : SameTape t z.tape =
        calc_tape_pos-SameTape bad z.tape (z.tape.first_data_segment + 1) in
      record {
        tiled = omega (arith, same.first);
        head = sym same.first;
        eom = omega (arith, same.last);
        inside = omega (arith, same.last, le);
        small = omega (arith, same.last, small);
        pointer = omega arith;
      }

  open_at :
      (z : Zft) (p : Position) (blk_sz : ℕ) (lbot : Bool)
      → z.qic_mode ≡ true
      → tape_at_lbot z p ≡ lbot
      → open_volume bad z p blk_sz ≡ (
          if lbot
          then open_first (reset_position bad (fresh z)) blk_sz
          else some (append_open z p blk_sz))
  unfolding open_volume
  open_at z p blk_sz lbot qic e =
      let first = open_first (reset_position bad (fresh z)) blk_sz in
      ap
        (λ (q : Bool).
          if not q
          then some (ok, z, p)
          else if tape_at_lbot z p
          then first
          else some (append_open z p blk_sz))
        qic
      ∙ ap (λ (c : Bool). if c then first else some (append_open z p blk_sz)) e

  open_lbot :
      (z : Zft) (p : Position) (blk_sz : ℕ)
      → z.qic_mode ≡ true
      → z.vtbl_read ≡ true
      → tape_at_lbot z p ≡ true
      → open_volume bad z p blk_sz ≡ some (append_open (reset z) (at_start z) blk_sz)
  unfolding open_first
  open_lbot z p blk_sz qic read lbot =
      open_at z p blk_sz true qic lbot
      ∙ ap (λ (o : Option (Zft × Position)). open_first o blk_sz) (reset-fresh z qic read)

  -- What a table is opened from: the table as it is, or an empty one at the beginning of the tape.
  pub record OpensVolume (z : Zft) (p : Position) (blk_sz : ℕ) : Type 0 where
    pub from : Zft
    pub at : Position
    pub result : Status × Zft × Position
    pub opens : open_volume bad z p blk_sz ≡ some result
    pub start :
        ((tape_at_lbot z p ≡ false) × (from ≡ z) × (at ≡ p))
        ⊎ ((tape_at_lbot z p ≡ true)
            × (from.volumes ≡ [])
            × (at.seg_pos ≡ z.tape.first_data_segment + 1))
    pub kept : Opens from at blk_sz result

  -- With a complete volume table, which has been read, and a position not behind the last data
  -- segment, and a tape with two data segments at least, zft_open_volume keeps the table complete:
  -- it appends one open volume at the position to the table, or to an empty one at the beginning
  -- of the tape, or fails and leaves that table as it is.
  pub open_volume-OpensVolume :
      (z : Zft) (p : Position) (blk_sz : ℕ)
      → IsWritable z
      → z.qic_mode ≡ true
      → z.vtbl_read ≡ true
      → z.tape.first_data_segment < z.tape.last_data_segment
      → p.seg_pos ≤ z.tape.last_data_segment
      → OpensVolume z p blk_sz
  unfolding forget_old_ftape init_vtbl
  open_volume-OpensVolume z p blk_sz w qic read le upto = elim (Bool-cases (tape_at_lbot z p)) [
    | inl lbot ↦
        let same : SameTape (reset z).tape z.tape =
          calc_tape_pos-SameTape bad z.tape (z.tape.first_data_segment + 1) in
        record {
          from = reset z;
          at = at_start z;
          result = append_open (reset z) (at_start z) blk_sz;
          opens = open_lbot z p blk_sz qic read lbot;
          start = inr (lbot, refl, refl);
          kept =
              append_open-Opens (reset z) (at_start z) blk_sz
                (reset-IsWritable z (omega (arith, le)) w.small) (omega (arith, le, same.last));
        }
    | inr on ↦ record {
      from = z;
      at = p;
      result = append_open z p blk_sz;
      opens = open_at z p blk_sz false qic on;
      start = inl (on, refl, refl);
      kept = append_open-Opens z p blk_sz w upto;
    }
  ]
