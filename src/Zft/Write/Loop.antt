-- ===== src/Zft/Write/Loop.antt =====
-- What `_zft_write` writes ends up on the tape and in the buffer (ftape/zftape/zftape-write.c).
use ftape.Prelude.{
  ℕ, zero, suc, ◌+◌, ◌-◌, ◌≤◌, ◌<◌, ◌==◌, true, false, not, ◌||◌, List, [], ◌∷◌, ◌++◌, take, drop,
  length, length-take, length-drop, Option, some, ◌≡◌, refl, sym, ap, subst, ◌∙◌, arith, inl, inr,
}
use ftape.Prelude.Int.{ℤ, pos}
use mathlib.Core.List.{append-nil, append_assoc}
use ftape.Rw.Recover.Laws.{take-drop}
use ftape.Zft.Write.{
  Session, Device, after_segment, after_fill, write_done, at_data_segment, zft_write_loop,
  with_access, zft_write,
}
use ftape.Zft.Write.Laws.{
  Works, IsOpen, data_of, fits, Takes, fill_deblock_buf-filled, write_full-Takes,
}

module _ {D : Type 0} (device : Device D) (tape : D → List ℕ) (works : Works device tape) where
  -- The sizes of the segments from one on.
  abbrev pub room_in : (seg_pos segments : ℕ) → ℕ
  room_in k zero = 0
  room_in k (suc n) = device.get_seg_sz k + room_in (k + 1) n

  -- The loop ends with all of the bytes behind those on the tape and in the buffer.
  pub record Writes (buff : List ℕ) (written : ℕ) (s : Session D) (r : Option ℤ × Session D)
      : Type 0 where
    pub result : r.0 ≡ some (pos (written + length buff))
    pub kept : data_of device tape works r.1 ≡ data_of device tape works s ++ buff
    pub tape_pos : r.1.pending.tape_pos ≡ s.pending.tape_pos + length buff
    pub resid : r.1.resid ≡ s.resid - (written + length buff)
    pub succeeds : r.1.last_write_failed ≡ false
    pub need_flush : r.1.need_flush ≡ (s.need_flush || not (written + length buff == 0))

  module _ (copy_from_user : List ℕ → ℕ → Option (List ℕ))
      (reads : (xs : List ℕ) (n : ℕ) → copy_from_user xs n ≡ some (take n xs)) where
    Writes-Takes :
        (cnt : ℕ) (buff : List ℕ) (written : ℕ) (s t : Session D) (r : Option ℤ × Session D)
        → Takes device tape works (length buff) cnt (take cnt buff) s t
        → cnt ≤ length buff
        → Writes (drop cnt buff) (written + cnt) t r
        → Writes buff written s r
    Writes-Takes cnt buff written s t r one enough rest =
        let all : written + cnt + length (drop cnt buff) ≡ written + length buff =
          omega (arith, enough, length-drop cnt buff) in
        record {
          result = rest.result ∙ ap (λ n. some (pos n)) all;
          kept =
              rest.kept
              ∙ ap (λ l. l ++ drop cnt buff) one.kept
              ∙ append_assoc (data_of device tape works s) (take cnt buff) (drop cnt buff)
              ∙ ap (λ l. data_of device tape works s ++ l) (take-drop cnt buff);
          tape_pos = omega (arith, rest.tape_pos, one.tape_pos, enough, length-drop cnt buff);
          resid = omega (arith, rest.resid, one.resid, all);
          succeeds = rest.succeeds;
          need_flush =
              rest.need_flush
              ∙ ap (λ b. b || not (written + cnt + length (drop cnt buff) == 0)) one.need_flush
              ∙ ap (λ n. s.need_flush || not (n == 0)) all;
        }

    Takes-at :
        (cnt : ℕ) (buff : List ℕ) (s t : Session D)
        → Takes device tape works
            (length buff)
            cnt
            (take cnt buff)
            (at_data_segment device copy_from_user s)
            t
        → Takes device tape works (length buff) cnt (take cnt buff) s t
    unfolding at_data_segment
    Takes-at cnt buff s t h = record {
      opens = h.opens;
      kept = h.kept;
      tape_pos = h.tape_pos;
      resid = h.resid;
      need_flush = h.need_flush;
      moves = h.moves;
    }

    zft_write_loop-none :
        (rounds : ℕ) (buff : List ℕ) (written : ℕ) (s : Session D)
        → length buff ≡ 0
        → s.pending.hard_errors ≡ []
        → Writes buff written s (zft_write_loop device copy_from_user (suc rounds) buff written s)
    unfolding zft_write_loop write_done
    zft_write_loop-none rounds [] written s none no_errors =
        let e : (0 + length s.pending.hard_errors == 0) ≡ true =
          ap (λ l. 0 + length l == 0) no_errors in
        rw e (record {
          result = ap (λ n. some (pos n)) (omega arith);
          kept = sym (append-nil (data_of device tape works s));
          tape_pos = omega arith;
          resid = omega arith;
          succeeds = refl;
          need_flush = ap (λ n. s.need_flush || not (n == 0)) (omega arith);
        })
    zft_write_loop-none rounds (x ∷ xs) written s none no_errors = absurd (omega (arith, none))

    -- A round of the loop, for bytes.
    round_of :
        (buff : List ℕ) (s : Session D)
        → 0 < length buff
        → IsOpen device tape works (length buff) s
        → let cnt = fits device tape works buff s in
          (t : Session D) × ((rounds written : ℕ)
            → zft_write_loop device copy_from_user (suc rounds) buff written s
              ≡ zft_write_loop device copy_from_user rounds (drop cnt buff) (written + cnt) t)
          × Takes device tape works (length buff) cnt (take cnt buff) s t
    unfolding zft_write_loop after_fill after_segment at_data_segment
    round_of buff s some_bytes h =
        let at : Session D = at_data_segment device copy_from_user s in
        let opens : IsOpen device tape works (length buff) at = record {
          inside = h.inside;
          long = h.long;
          none_waits = h.none_waits;
          space = h.space;
        } in
        let cnt : ℕ = fits device tape works buff at in
        let round =
          write_full-Takes device tape works copy_from_user reads (length buff) cnt (take cnt buff)
            at opens (length-take cnt buff ∙ omega arith) (omega (arith, h.inside)) (omega arith) in
        let t : Session D = round.0 in
        let busy : (length buff + length s.pending.hard_errors == 0) ≡ false =
          ground (arith, some_bytes) in
        (
          t,
          λ rounds written.
              rw (busy, works.has_buffer s)
                (ap
                    (after_fill device copy_from_user (zft_write_loop device copy_from_user rounds)
                      (device.get_seg_sz s.seg_pos) buff written)
                    (fill_deblock_buf-filled device tape works copy_from_user reads (length buff)
                      buff at opens)
                  ∙ ap
                      (after_segment device copy_from_user
                        (zft_write_loop device copy_from_user rounds) buff written cnt)
                      round.2),
          Takes-at cnt buff s t round.3,
        )

    zft_write_loop-Writes :
        (rounds : ℕ) (buff : List ℕ) (written : ℕ) (s : Session D)
        → s.pending.seg_byte_pos + length buff < room_in s.seg_pos rounds
        → IsOpen device tape works (length buff) s
        → Writes buff written s (zft_write_loop device copy_from_user (suc rounds) buff written s)
    zft_write_loop-Writes zero buff written s enough h = absurd (omega (arith, enough))
    zft_write_loop-Writes (suc rounds) [] written s enough h =
        zft_write_loop-none (suc rounds) [] written s refl h.none_waits
    zft_write_loop-Writes (suc rounds) (x ∷ xs) written s enough h =
        let buff : List ℕ = x ∷ xs in
        let (t, goes, takes) = round_of buff s (omega arith) h in
        let cnt : ℕ = fits device tape works buff s in
        let left : length (drop cnt buff) ≡ length buff - cnt = length-drop cnt buff in
        let opens : IsOpen device tape works (length (drop cnt buff)) t =
          subst (λ n. IsOpen device tape works n t) (sym left) takes.opens in
        let rest : Writes (drop cnt buff) (written + cnt) t
            (zft_write_loop device copy_from_user (suc rounds) (drop cnt buff) (written + cnt) t) =
          elim takes.moves [
            | inl (next, start, full) ↦
                zft_write_loop-Writes rounds (drop cnt buff) (written + cnt) t
                  (subst (λ k. t.pending.seg_byte_pos + length (drop cnt buff) < room_in k rounds)
                    (sym next) (omega (arith, enough, start, full, left)))
                  opens
            | inr not_full ↦
                zft_write_loop-none rounds (drop cnt buff) (written + cnt) t
                  (left ∙ ground (arith, not_full, h.inside)) opens.none_waits
          ] in
        subst (Writes buff written s) (sym (goes (suc rounds) written))
          (Writes-Takes cnt buff written s t _ takes (omega arith) rest)

    -- If the access is granted, the driver writes what it is given and gives a buffer for any
    -- segment, the user's memory can be read, no sector waits, the bytes fit into the
    -- capacity with a block to spare and into the segments of the rounds but the last, behind
    -- the position, with a byte to spare, then _zft_write returns the count of the bytes and
    -- leaves nothing over; the bytes on tape and in the buffer are those from before,
    -- followed by the user's, and the position is counted on by them.
    pub zft_write-Writes :
        (rounds : ℕ) (buff : List ℕ) (s : Session D) (n : ℕ) (t : Session D)
        → device.check_write_access
            (length buff)
            (record s { resid = length buff; last_write_failed = true })
          ≡ (pos n, t)
        → t.resid ≡ length buff
        → t.pending.seg_byte_pos + length buff < room_in t.seg_pos rounds
        → IsOpen device tape works (length buff) t
        → Writes buff 0 t (zft_write device copy_from_user (suc rounds) buff s)
          × ((zft_write device copy_from_user (suc rounds) buff s).1.resid ≡ 0)
    unfolding zft_write with_access
    zft_write-Writes rounds buff s n t e resid enough h =
        let done = zft_write_loop-Writes rounds buff 0 t enough h in
        rw e (done, omega (arith, done.resid, resid))
