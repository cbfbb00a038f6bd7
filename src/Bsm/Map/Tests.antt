-- ===== src/Bsm/Map/Tests.antt =====
-- Runs of ftape/lowlevel/ftape-bsm.c on a short list, and the theorems at concrete inputs.
use ftape.Prelude.{ℕ, ◌≡◌, refl, true, List, [], ◌∷◌, map, some, arith}
use ftape.Prelude.Int.{negsuc}
use ftape.Bsm.Entry.{fmt_var, SectorCount, get_sector, cvt2map, cvt2segment, is_mark}
use ftape.Bsm.Seek.{unwind}
use ftape.Bsm.Seek.Order.{map_of}
use ftape.Bsm.Map.{Bsm, listed}
use ftape.Bsm.Map.Cache.{IsListed, lookups, lookups-map_of}

-- Sectors 0 and 3 of segment 1, all of segment 2, sector 1 of segment 4, the end, a stale entry.
abbrev entries : List SectorCount
entries =
    record { byte0 = 33; byte1 = 0; byte2 = 0 }
    ∷ record { byte0 = 36; byte1 = 0; byte2 = 0 }
    ∷ record { byte0 = 65; byte1 = 0; byte2 = 0x80 }
    ∷ record { byte0 = 130; byte1 = 0; byte2 = 0 }
    ∷ record { byte0 = 0; byte1 = 0; byte2 = 0 }
    ∷ record { byte0 = 9; byte1 = 9; byte2 = 9 }
    ∷ []

abbrev tape : Bsm
tape = record {
  format = fmt_var;
  header_known = true;
  bad = listed (record { before = []; after = entries });
  last_reference = negsuc 0;
  map = 0;
}

tape-IsListed : IsListed fmt_var entries tape
unfolding unwind get_sector cvt2segment is_mark
tape-IsListed = record {
  cursor = record { before = []; after = entries };
  is_listed = refl;
  known = refl;
  same_format = refl;
  same = refl;
  cached = (tt, grind arith);
}

abbrev asked : List ℕ
asked = 4 ∷ 1 ∷ 1 ∷ 2 ∷ 9 ∷ 0 ∷ []

-- The maps that the sequence returns.
answers : map (λ id. map_of fmt_var id entries) asked ≡ 2 ∷ 9 ∷ 9 ∷ 0xffff_ffff ∷ 0 ∷ 0 ∷ []
unfolding map_of get_sector cvt2segment cvt2map is_mark
answers = refl

lookups-map_of_example :
    (b' : Bsm) × (lookups tape asked ≡ some (b', map (λ id. map_of fmt_var id entries) asked))
    × IsListed fmt_var entries b'
lookups-map_of_example = lookups-map_of fmt_var entries asked tape tape-IsListed
