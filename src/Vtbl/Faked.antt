-- ===== src/Vtbl/Faked.antt =====
-- `zft_fake_volume_headers` of ftape/zftape/zftape-vtbl.c: the table that is made of the file marks
-- of the old ftape. The marks are a list of segments and sectors; the map of bad sectors is a
-- parameter.
pub mod Laws
pub mod Tests
use ftape.Prelude.{
  ℕ, ◌+◌, ◌-◌, ◌*◌, ◌%◌, ◌^◌, ◌==◌, if◌then◌else◌, Bool, true, false, not, ◌&&◌, List, [], ◌∷◌,
}
use ftape.Prelude.Words.{sub_word}
use ftape.Zft.Position.{sector_size}
use ftape.Vtbl.Table.{Volume, Zft, init_vtbl, new_vtbl_entry, tape_pos_of, space_between}

-- `ft_fsl_entry`, where the date is the sector of the mark.
pub record Mark : Type 0 where
  pub segment : ℕ
  pub date : ℕ

-- Whether the last mark is the end of the recorded data, right behind the one before.
unfoldable pub have_eom : List Mark → Bool
have_eom [] = false
have_eom (a ∷ []) = false
have_eom (a ∷ b ∷ []) = b.segment == a.segment + 1 && b.date == 1
have_eom (a ∷ b ∷ c ∷ marks) = have_eom (b ∷ c ∷ marks)

unfoldable pub without_last : List Mark → List Mark
without_last [] = []
without_last (a ∷ []) = []
without_last (a ∷ b ∷ marks) = a ∷ without_last (b ∷ marks)

-- The marks that the loop takes.
unfoldable pub kept_marks : List Mark → List Mark
unfolding have_eom without_last
kept_marks marks = if have_eom marks then without_last marks else marks

module _ (bad : ℕ → ℕ) where
  -- A volume up to a mark.
  unfoldable pub fake_volume : Mark → Zft → Zft
  unfolding space_between new_vtbl_entry
  fake_volume mark z =
      let start = z.eom.start_seg in
      let (z1, space) = space_between bad z start mark.segment in
      let (z2, rawsize) = space_between bad z1 start (mark.segment + 1) in
      let created =
        new_vtbl_entry
          (λ (v : Volume). record v {
            start_seg = start;
            end_seg = mark.segment;
            blk_sz = 1;
            size = space + (sub_word mark.date 1 * sector_size) % 2 ^ 32;
            rawsize = rawsize;
          })
          z2 in
      record created { eom = record created.eom { start_seg = mark.segment + 1 } }

  unfoldable pub fake_volumes : List Mark → Zft → Zft
  unfolding fake_volume
  fake_volumes [] z = z
  fake_volumes (mark ∷ marks) z = fake_volumes marks (fake_volume mark z)

  -- The remainder of the tape as a volume.
  unfoldable pub fake_remainder : (last capacity : ℕ) → Zft → Zft
  unfolding tape_pos_of new_vtbl_entry
  fake_remainder last capacity z =
      let start = z.eom.start_seg in
      let (z1, tape_pos) = tape_pos_of bad z start in
      let created =
        new_vtbl_entry
          (λ (v : Volume). record v {
            start_seg = start;
            end_seg = last;
            blk_sz = 1;
            size = capacity - tape_pos;
            rawsize = capacity - tape_pos;
          })
          z1 in
      record created { eom = record created.eom { start_seg = last + 1 } }

  unfoldable pub fake_volume_headers : Zft → List Mark → Zft
  unfolding init_vtbl kept_marks fake_volumes fake_remainder
  fake_volume_headers z marks =
      let fresh = init_vtbl z in
      let faked =
        fake_volumes (kept_marks marks)
          (record fresh { eom = record fresh.eom { start_seg = z.tape.first_data_segment } }) in
      if not (have_eom marks)
      then fake_remainder z.tape.last_data_segment z.tape.capacity faked
      else faked
