-- ===== src/Zft/Write/Laws.antt =====
-- A round of `_zft_write` takes bytes to the buffer and to the tape (ftape/zftape/zftape-write.c).
use ftape.Prelude.{
  ℕ, zero, suc, ◌+◌, ◌-◌, ◌≤◌, min, ltb, ◌==◌, ==_iff, Bool-cases, true, false, List, [], ◌∷◌, ◌++◌,
  take, length, Option, some, ◌≡◌, refl, sym, ap, ◌∙◌, ◌⊎◌, inl, inr, arith,
}
use ftape.Prelude.Int.{pos}
use mathlib.Core.List.{append-nil, append_assoc}
use ftape.Zft.Overshoot.{copy_to, empty_from, empty_hard_error_list}
use ftape.Zft.Overshoot.Laws.{length-copy_to, take-copy_to}
use ftape.Zft.Write.{
  Session, Device, copied, regular_data, fill_deblock_buf, to_next_segment, write_full,
}

-- A device without errors: what is written of the buffer goes to the tape, behind what is there, and
-- the count that it returns is not negative.
pub record Works {D : Type 0} (device : Device D) (tape : D → List ℕ) : Type 0 where
  pub has_buffer : (s : Session D) → device.has_buffer s ≡ true
  pub buffer : (k : ℕ) (s : Session D) → D × List ℕ
  pub count : (k : ℕ) (s : Session D) → ℕ
  pub write_segment :
      (k : ℕ) (s : Session D)
      → device.write_segment k (device.get_seg_sz k) s ≡ (
        pos (count k s),
        record s { drive = (buffer k s).0; pending = record s.pending { buffer = (buffer k s).1 } },
      )
  pub appends :
      (k : ℕ) (s : Session D)
      → tape (buffer k s).0 ≡ tape s.drive ++ take (device.get_seg_sz k) s.pending.buffer
  pub long : (k l : ℕ) (s : Session D) → device.get_seg_sz l ≤ length (buffer k s).1

copy_to-nothing : (o : ℕ) (buf : List ℕ) → copy_to o [] buf ≡ buf
unfolding copy_to
copy_to-nothing zero buf = refl
copy_to-nothing (suc o) [] = refl
copy_to-nothing (suc o) (x ∷ buf) = ap (λ l. x ∷ l) (copy_to-nothing o buf)

module _ {D : Type 0} (device : Device D) (tape : D → List ℕ) (works : Works device tape) where
  -- The position is in a segment, the buffer holds every segment, and no sector waits.
  pub record IsOpen (room : ℕ) (s : Session D) : Type 0 where
    pub inside : s.pending.seg_byte_pos ≤ device.get_seg_sz s.seg_pos
    pub long : (k : ℕ) → device.get_seg_sz k ≤ length s.pending.buffer
    pub none_waits : s.pending.hard_errors ≡ []
    pub space : s.pending.tape_pos + room + device.blk_sz ≤ s.pending.capacity

  -- The bytes on tape and in the buffer.
  abbrev pub data_of : Session D → List ℕ
  data_of s = tape s.drive ++ take s.pending.seg_byte_pos s.pending.buffer

  -- The session after bytes that fit into the segment.
  pub filled : (cnt : ℕ) → (bytes : List ℕ) → Session D → Session D
  unfolding copy_to
  filled cnt bytes s = record s {
    pending = record s.pending {
      buffer = copy_to s.pending.seg_byte_pos bytes s.pending.buffer;
      seg_byte_pos = s.pending.seg_byte_pos + cnt;
      tape_pos = s.pending.tape_pos + cnt;
    };
    volume_pos = s.volume_pos + cnt;
  }

  -- The count of the bytes that go to the segment.
  abbrev pub fits : List ℕ → Session D → ℕ
  fits buff s = min (length buff) (device.get_seg_sz s.seg_pos - s.pending.seg_byte_pos)

  -- A round of the loop takes so many of the bytes.
  pub record Takes (room cnt : ℕ) (bytes : List ℕ) (s t : Session D) : Type 0 where
    pub opens : IsOpen (room - cnt) t
    pub kept : data_of t ≡ data_of s ++ bytes
    pub tape_pos : t.pending.tape_pos ≡ s.pending.tape_pos + cnt
    pub resid : t.resid ≡ s.resid
    pub need_flush : t.need_flush ≡ s.need_flush
    pub moves :
        ((t.seg_pos ≡ s.seg_pos + 1)
          × (t.pending.seg_byte_pos ≡ 0)
          × (s.pending.seg_byte_pos + cnt ≡ device.get_seg_sz s.seg_pos))
        ⊎ ((s.pending.seg_byte_pos + cnt == device.get_seg_sz s.seg_pos) ≡ false)

  -- No bytes change nothing.
  filled-0 : (s : Session D) → filled 0 [] s ≡ s
  unfolding filled
  filled-0 s =
      let buffer : copy_to s.pending.seg_byte_pos [] s.pending.buffer ≡ s.pending.buffer =
        copy_to-nothing s.pending.seg_byte_pos s.pending.buffer in
      let seg_byte_pos : s.pending.seg_byte_pos + 0 ≡ s.pending.seg_byte_pos = omega arith in
      let tape_pos : s.pending.tape_pos + 0 ≡ s.pending.tape_pos = omega arith in
      let volume_pos : s.volume_pos + 0 ≡ s.volume_pos = omega arith in
      cc (buffer, seg_byte_pos, tape_pos, volume_pos)

  module _ (copy_from_user : List ℕ → ℕ → Option (List ℕ))
      (reads : (xs : List ℕ) (n : ℕ) → copy_from_user xs n ≡ some (take n xs)) where
    pub fill_deblock_buf-filled :
        (room : ℕ) (buff : List ℕ) (s : Session D)
        → IsOpen room s
        → fill_deblock_buf device copy_from_user (device.get_seg_sz s.seg_pos) buff s
          ≡ (pos (fits buff s), filled (fits buff s) (take (fits buff s) buff) s)
    unfolding fill_deblock_buf regular_data copied filled empty_hard_error_list empty_from
    fill_deblock_buf-filled room buff s h =
        let space : ltb s.pending.capacity (s.pending.tape_pos + device.blk_sz) ≡ false =
          ground (arith, h.space) in
        elim (Bool-cases (device.get_seg_sz s.seg_pos == 0)) [
          | inl e ↦
              let size : device.get_seg_sz s.seg_pos ≡ 0 = (==_iff _ 0).0 e in
              let none : fits buff s ≡ 0 = omega (arith, size) in
              rw e (
                ap (λ t. (pos 0, t)) (sym (filled-0 s))
                ∙ ap (λ n. (pos n, filled n (take n buff) s)) (sym none))
          | inr size ↦ rw size (
              ap
                (λ l.
                  regular_data device copy_from_user (device.get_seg_sz s.seg_pos) buff s
                    (empty_from (device.get_seg_sz s.seg_pos) l s.pending))
                h.none_waits
              ∙ rw (space, reads buff (fits buff s)) refl)
        ]

    pub write_full-Takes :
        (room cnt : ℕ) (bytes : List ℕ) (s : Session D)
        → IsOpen room s
        → length bytes ≡ cnt
        → s.pending.seg_byte_pos + cnt ≤ device.get_seg_sz s.seg_pos
        → cnt ≤ room
        → (t : Session D) × (n : ℕ) × (write_full device copy_from_user
              (device.get_seg_sz s.seg_pos)
              (filled cnt bytes s)
            ≡ (pos n, t))
          × Takes room cnt bytes s t
    unfolding write_full to_next_segment filled
    write_full-Takes room cnt bytes s h len inside enough =
        let size : ℕ = device.get_seg_sz s.seg_pos in
        let t : Session D = filled cnt bytes s in
        let is : take (s.pending.seg_byte_pos + cnt) t.pending.buffer
            ≡ take s.pending.seg_byte_pos s.pending.buffer ++ bytes =
          take-copy_to s.pending.seg_byte_pos (s.pending.seg_byte_pos + cnt) bytes s.pending.buffer
            (omega (arith, len)) (omega (arith, inside, h.long s.seg_pos)) in
        let kept : tape s.drive ++ take (s.pending.seg_byte_pos + cnt) t.pending.buffer
            ≡ data_of s ++ bytes =
          ap (λ l. tape s.drive ++ l) is ∙ sym (append_assoc (tape s.drive) _ bytes) in
        let long : (k : ℕ) → device.get_seg_sz k ≤ length t.pending.buffer = λ k.
          omega (arith, h.long k, length-copy_to s.pending.seg_byte_pos bytes s.pending.buffer) in
        elim (Bool-cases (s.pending.seg_byte_pos + cnt == size)) [
          | inl e ↦
              let full : s.pending.seg_byte_pos + cnt ≡ size = (==_iff _ size).0 e in
              let new = works.buffer s.seg_pos t in
              (
                record t {
                  drive = new.0;
                  pending = record t.pending { buffer = new.1; seg_byte_pos = 0 };
                  seg_pos = s.seg_pos + 1;
                },
                works.count s.seg_pos t,
                rw (e, works.write_segment s.seg_pos t) refl,
                record {
                  opens = record {
                    inside = omega arith;
                    long = λ k. works.long s.seg_pos k t;
                    none_waits = h.none_waits;
                    space = omega (arith, h.space, enough);
                  };
                  kept =
                      append-nil (tape new.0)
                      ∙ works.appends s.seg_pos t
                      ∙ ap (λ n. tape s.drive ++ take n t.pending.buffer) (sym full)
                      ∙ kept;
                  tape_pos = refl;
                  resid = refl;
                  need_flush = refl;
                  moves = inl (refl, refl, full);
                },
              )
          | inr e ↦ (
            t,
            0,
            rw e refl,
            record {
              opens = record {
                inside = ground (arith, e, inside);
                long = long;
                none_waits = h.none_waits;
                space = omega (arith, h.space, enough);
              };
              kept = kept;
              tape_pos = refl;
              resid = refl;
              need_flush = refl;
              moves = inr e;
            },
          )
        ]
