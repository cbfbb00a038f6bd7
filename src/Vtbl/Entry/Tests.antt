-- ===== src/Vtbl/Entry/Tests.antt =====
-- An entry of a volume (ftape/zftape/zftape-vtbl.c), and an instance of its law.
use ftape.Prelude.{ℕ, ◌*◌, true, false, List, [], ◌∷◌, ◌≡◌, refl, arith}
use ftape.Vtbl.Table.{Volume, blank}
use ftape.Vtbl.Entry.{create_zft_volume, same_bytes, bytes_at}
use ftape.Vtbl.Entry.Extract.{
  extract_volume, check_volume_label, after_blocksize, label_size, number_from,
}
use ftape.Vtbl.Entry.Laws.{Restores, create_zft_volume-Restores}

-- "zftape volume blocksize 20"
abbrev label : List ℕ
label =
    122 ∷ 102 ∷ 116 ∷ 97 ∷ 112 ∷ 101 ∷ 32 ∷ 118 ∷ 111 ∷ 108 ∷ 117 ∷ 109 ∷ 101 ∷ 32 ∷ 98 ∷ 108 ∷ 111
    ∷ 99 ∷ 107 ∷ 115 ∷ 105 ∷ 122 ∷ 101 ∷ 32 ∷ 50 ∷ 48 ∷ 0 ∷ []

label_test : check_volume_label label ≡ (true, 20)
unfolding check_volume_label same_bytes bytes_at after_blocksize label_size number_from
label_test = refl

abbrev tape_volume : Volume
tape_volume = record blank {
  count = 7;
  start_seg = 300;
  end_seg = 512;
  size = 70000;
  blk_sz = 10240;
  use_compression = true;
}

create_zft_volume-Restores_example : Restores tape_volume (
    extract_volume
      (λ s. s * 29696)
      false
      false
      300
      (create_zft_volume false false tape_volume)
      blank)
create_zft_volume-Restores_example =
    create_zft_volume-Restores false false (λ s. s * 29696) 300 tape_volume blank
      (omega arith, omega arith, omega arith, omega arith)
