-- ===== src/Vtbl/Headers/Clear.antt =====
-- What is cleared behind the last entry of the volume table (ftape/zftape/zftape-vtbl.c).
use ftape.Prelude.{
  ℕ, zero, suc, ◌≤◌, Bool, true, false, List, [], ◌∷◌, take, drop, replicate, ◌≡◌, refl, ap, ◌∙◌,
  arith,
}
use ftape.Zft.Position.{segment_size}
use ftape.Vtbl.Table.{Zft, vtbl_entry_size, init_vtbl, new_vtbl_entry}
use ftape.Vtbl.Entry.{put, bytes_at, same_bytes, vtbl_id}
use ftape.Vtbl.Headers.{
  put_entries, last_entry, fit_offset, delete_cmap, is_cmap, create_volume_headers, add_volume,
  extract_from, extract_after, extract_volume_headers, utid_id,
}

-- A write behind the first bytes leaves them.
take-put : (n o : ℕ) (bs xs : List ℕ) → n ≤ o → take n (put o bs xs) ≡ take n xs
unfolding put
take-put zero o bs xs h = refl
take-put (suc n) zero bs xs h = absurd (omega (arith, h))
take-put (suc n) (suc o) bs [] h = refl
take-put (suc n) (suc o) bs (x ∷ xs) h = ap (λ l. x ∷ l) (take-put n o bs xs (omega (arith, h)))

-- After zft_init_vtbl, as zft_erase calls it, zft_create_volume_headers leaves the first entry of a
-- buffer without a compression map as it was, and clears to a whole entry past the end.
pub create_volume_headers-init_vtbl :
    (is_big : Bool) (z : Zft) (buffer : List ℕ)
    → is_cmap 10 buffer ≡ false
    → (take vtbl_entry_size (create_volume_headers is_big (init_vtbl z) buffer).buffer
        ≡ take vtbl_entry_size buffer)
      × ((create_volume_headers is_big (init_vtbl z) buffer).past_end ≡ vtbl_entry_size)
unfolding create_volume_headers init_vtbl put_entries last_entry delete_cmap
create_volume_headers-init_vtbl is_big z buffer no_cmap =
    rw no_cmap (
      take-put vtbl_entry_size vtbl_entry_size (replicate segment_size 0) buffer (omega arith),
      refl,
    )

-- One volume behind an entry that is skipped.
extract_from-utid :
    (is_big : Bool) (pos : ℕ → ℕ) (rounds prev : ℕ) (buffer : List ℕ) (z : Zft)
    → bytes_at 0 4 buffer ≡ utid_id
    → bytes_at 0 4 (drop vtbl_entry_size buffer) ≡ vtbl_id
    → bytes_at 0 4 (drop vtbl_entry_size (drop vtbl_entry_size buffer)) ≡ replicate 4 0
    → extract_from is_big pos (suc (suc (suc rounds))) prev 0 buffer z
      ≡ add_volume is_big pos prev vtbl_entry_size (drop vtbl_entry_size buffer) z
unfolding extract_from same_bytes
extract_from-utid is_big pos rounds prev buffer z h1 h2 h3 = rw (h1, h2, h3) refl

extract_after-utid :
    (is_big : Bool) (pos : ℕ → ℕ) (has_cmap : Bool) (rounds : ℕ) (buffer : List ℕ) (z : Zft)
    → has_cmap ≡ false
    → bytes_at 0 4 buffer ≡ utid_id
    → bytes_at 0 4 (drop vtbl_entry_size buffer) ≡ vtbl_id
    → bytes_at 0 4 (drop vtbl_entry_size (drop vtbl_entry_size buffer)) ≡ replicate 4 0
    → extract_after is_big pos has_cmap (suc (suc (suc rounds))) z buffer
      ≡ add_volume is_big pos z.head.end_seg vtbl_entry_size (drop vtbl_entry_size buffer) z
unfolding extract_after
extract_after-utid is_big pos true rounds buffer z e h1 h2 h3 = absurd (ground (arith, e))
extract_after-utid is_big pos false rounds buffer z e h1 h2 h3 =
    extract_from-utid is_big pos rounds z.head.end_seg buffer z h1 h2 h3

-- A volume that is added to an empty table has the offset of its entry.
create-add_volume :
    (is_big : Bool) (pos : ℕ → ℕ) (prev : ℕ) (entry buffer : List ℕ) (z : Zft)
    → (create_volume_headers is_big
        (add_volume is_big pos prev vtbl_entry_size entry (init_vtbl z))
        buffer).past_end
      ≡ vtbl_entry_size
unfolding create_volume_headers add_volume last_entry fit_offset new_vtbl_entry init_vtbl
create-add_volume is_big pos prev entry buffer z = refl

-- Of a buffer whose first entry is an "UTID" and, by the first nine bytes of the signature, no
-- compression map, whose second entry is a volume and whose third starts with four zero bytes,
-- zft_extract_volume_headers makes a table from which zft_create_volume_headers clears to a
-- whole entry past the end of any buffer.
pub create_volume_headers-extract_volume_headers :
    (is_big : Bool) (calc_tape_pos : ℕ → ℕ) (z : Zft) (buffer other : List ℕ)
    → is_cmap 9 buffer ≡ false
    → bytes_at 0 4 buffer ≡ utid_id
    → bytes_at 0 4 (drop vtbl_entry_size buffer) ≡ vtbl_id
    → bytes_at 0 4 (drop vtbl_entry_size (drop vtbl_entry_size buffer)) ≡ replicate 4 0
    → (create_volume_headers is_big
        (extract_volume_headers is_big calc_tape_pos z buffer)
        other).past_end
      ≡ vtbl_entry_size
unfolding extract_volume_headers
create_volume_headers-extract_volume_headers is_big pos z buffer other no_cmap h1 h2 h3 =
    ap (λ t. (create_volume_headers is_big t other).past_end)
      (extract_after-utid is_big pos (is_cmap 9 buffer) 229 buffer (init_vtbl z) no_cmap h1 h2 h3)
    ∙ create-add_volume is_big pos (init_vtbl z).head.end_seg (drop vtbl_entry_size buffer) other z
