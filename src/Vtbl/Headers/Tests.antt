-- ===== src/Vtbl/Headers/Tests.antt =====
-- Segments of volume tables (ftape/zftape/zftape-vtbl.c), and instances of the laws.
use ftape.Prelude.{ℕ, ◌≡◌, refl, List, ◌++◌, take, replicate, false}
use ftape.Vtbl.Table.{Zft, vtbl_entry_size, init_vtbl}
use ftape.Vtbl.Entry.{bytes_at, same_bytes, vtbl_id}
use ftape.Vtbl.Headers.{utid_id, is_cmap, create_volume_headers, extract_volume_headers}
use ftape.Vtbl.Headers.Clear.{
  create_volume_headers-init_vtbl, create_volume_headers-extract_volume_headers,
}
use ftape.Vtbl.Tests.{one}

-- An entry with its signature alone.
abbrev entry : List ℕ → List ℕ
entry sig = sig ++ replicate 124 0

abbrev with_volume : List ℕ
with_volume = entry vtbl_id ++ replicate 256 0

abbrev with_utid : List ℕ
with_utid = entry utid_id ++ entry vtbl_id ++ replicate 256 0

create_volume_headers-init_vtbl_example :
    (take vtbl_entry_size (create_volume_headers false (init_vtbl one) with_volume).buffer
      ≡ take vtbl_entry_size with_volume)
    × ((create_volume_headers false (init_vtbl one) with_volume).past_end ≡ vtbl_entry_size)
unfolding is_cmap bytes_at same_bytes
create_volume_headers-init_vtbl_example = create_volume_headers-init_vtbl false one with_volume refl

abbrev utid_table : Zft
utid_table = extract_volume_headers false (λ s. s) one with_utid

create_volume_headers-extract_volume_headers_example :
    (create_volume_headers false utid_table with_utid).past_end ≡ vtbl_entry_size
unfolding is_cmap bytes_at same_bytes
create_volume_headers-extract_volume_headers_example =
    create_volume_headers-extract_volume_headers false (λ s. s) one with_utid with_utid refl refl
      refl refl
