-- ===== src/Zft/Verify/Tests.antt =====
-- A driver with a tape in memory, and the laws of `zft_verify_write_segments`
-- (ftape/zftape/zftape-rw.c) for it.
use ftape.Prelude.{
  ℕ, ◌==◌, if◌then◌else◌, true, false, some, List, [], ◌∷◌, length, ◌≡◌, refl, ap, arith, inr,
}
use ftape.Prelude.Int.{pos}
use ftape.Zft.Verify.{Driver, Zftape, eio, memcmp, verify_write_segments}
use ftape.Zft.Verify.Laws.{IsLawful}
use ftape.Zft.Verify.Whole.{Returns, verify_write_segments-Returns, verify_write_segments-eio}

abbrev Tape : Type 0
Tape = ℕ → List ℕ

abbrev sizes : ℕ → ℕ
sizes s = if s == 7 then 2 else 3

abbrev even_sizes : ℕ → ℕ
even_sizes s = 3

-- A segment of a tape.
abbrev contents : Tape → ℕ → List ℕ
contents d s = d s

module _ (sizes : ℕ → ℕ) where
  abbrev memory_driver : Driver Tape
  memory_driver = record {
    has_deblock_buffer = λ d. true;
    write_segment = λ d s b m. (pos (length b), λ t. if t == s then b else d t);
    is_writing = λ d. true;
    loop_until_writes_done = λ d. (pos 0, d);
    abort_operation = λ d. (pos 0, d);
    read_segment = λ d s m. (pos (sizes s), some (d s), d);
  }

  memory_driver-IsLawful : IsLawful memory_driver sizes contents
  memory_driver-IsLawful = record {
    has_buffer = λ d. refl;
    writes = λ d s b m h. ap pos h;
    keeps = λ d s b m. keeps_lem d s b;
    leaves = λ d s b m t ne. leaves_lem d s b t ne;
    ends_writes = λ d. refl;
    writes_end_same = λ d t. refl;
    aborts = λ d. refl;
    abort_same = λ d t. refl;
    reads = λ d s m. refl;
    reads_back = λ d s m. refl;
    read_same = λ d s m t. refl;
  }
    where
      keeps_lem : (d : Tape) (s : ℕ) (b : List ℕ) → (if s == s then b else d s) ≡ b
      keeps_lem d s b = let e : (s == s) ≡ true = ground arith in rw e refl

      leaves_lem :
          (d : Tape) (s : ℕ) (b : List ℕ) (t : ℕ) → ¬ t ≡ s → (if t == s then b else d t) ≡ d t
      leaves_lem d s b t ne = let e : (t == s) ≡ false = ground (arith, ne) in rw e refl

abbrev fresh_tape : Zftape Tape
fresh_tape = record {
  drive = λ s. [];
  deblock_segment = pos 9;
  written_segments = 0;
  need_flush = true;
}

abbrev five_bytes : List ℕ
five_bytes = 11 ∷ 12 ∷ 13 ∷ 14 ∷ 15 ∷ []

verify_write_segments-Returns_example :
    Returns even_sizes contents 5 five_bytes 5
      (pos 5)
      (verify_write_segments (memory_driver even_sizes) even_sizes 2 5 five_bytes 5 fresh_tape)
verify_write_segments-Returns_example =
    verify_write_segments-Returns (memory_driver even_sizes) even_sizes contents
      (memory_driver-IsLawful even_sizes) 2 5 five_bytes 5 fresh_tape (omega arith) (omega arith)
      (omega arith) (inr (λ i h. refl))

-- Segments of 3, 3 and 2 bytes: the second one is compared from the third byte on.
verify_write_segments-eio_example :
    Returns sizes contents 5 five_bytes 5 eio
      (verify_write_segments (memory_driver sizes) sizes 2 5 five_bytes 5 fresh_tape)
unfolding memcmp
verify_write_segments-eio_example =
    verify_write_segments-eio (memory_driver sizes) sizes contents (memory_driver-IsLawful sizes) 0
      5 five_bytes 5 fresh_tape (omega arith) (omega arith) (omega arith) refl
