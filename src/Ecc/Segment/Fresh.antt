-- ===== src/Ecc/Segment/Fresh.antt =====
-- A segment whose parity was just set passes the check.
use ftape.Prelude.{ℕ, zero, suc, ◌+◌, ◌-◌, ◌*◌, ◌≤◌, ◌<◌, ◌≡◌, refl, none, arith}
use ftape.Ecc.Memory.{Memory}
use ftape.Ecc.Memory.Laws.{IsBytes}
use ftape.Ecc.Parity.{Segment, set_parity, no_parity, set_segment_parity, parity_columns, columns}
use ftape.Ecc.Parity.Codeword.{set_segment_parity-IsClean}
use ftape.Ecc.Syndromes.{compute_syndromes}
use ftape.Ecc.Segment.{find_column, correct_data, ecc_ok}

compute_syndromes_clean :
    (m : Memory) (a k : ℕ) → set_parity m a k ≡ no_parity → compute_syndromes m a k ≡ none
unfolding compute_syndromes
compute_syndromes_clean m a k h = rw h

find_column_clean :
    (left i : ℕ) (m : Memory) (k : ℕ)
    → i + left ≡ columns
    → ((j : ℕ) → j < columns → set_parity m (8 * j) k ≡ no_parity)
    → find_column left (8 * i) m k ≡ none
unfolding find_column
find_column_clean zero i m k e clean = refl
find_column_clean (suc left) i m k e clean =
    let f : 8 * i + 8 ≡ 8 * suc i = omega arith in
    rw (compute_syndromes_clean m (8 * i) k (clean i (omega arith)), find_column, f)
      (find_column_clean left (suc i) m k (omega arith) clean)

-- Checking a segment of at least three blocks right after `ftape_ecc_set_segment_parity` returns
-- ECC_OK, whatever read errors are noted, changes no byte and reports no correction.
pub correct_data-set_segment_parity :
    (s : Segment)
    → IsBytes s.bytes
    → 3 ≤ s.blocks
    → correct_data (set_segment_parity s)
      ≡ (record (set_segment_parity s) { corrected = 0 }, ecc_ok)
unfolding correct_data set_segment_parity
correct_data-set_segment_parity s b h =
    let n = s.blocks - 3 in
    let e : s.blocks ≡ n + 3 = omega arith in
    rw (
      find_column_clean columns 0 (parity_columns columns 0 s.blocks s.bytes) s.blocks refl
          (λ j lt. rw e (set_segment_parity-IsClean s.bytes n b j lt)),
      correct_data,
    )
