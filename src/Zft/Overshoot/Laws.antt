-- ===== src/Zft/Overshoot/Laws.antt =====
-- The moved sectors go to the next segment in their order (ftape/zftape/zftape-write.c).
use ftape.Prelude.{
  ℕ, zero, suc, ◌+◌, ◌-◌, ◌*◌, ◌/◌, ◌%◌, ◌≤◌, min, ltb, ◌==◌, true, false, Bool-cases, List, [],
  ◌∷◌, ◌++◌, take, drop, length, ◌≡◌, refl, sym, ap, ◌∙◌, arith, inl, inr,
}
use mathlib.Core.List.{append-nil, append_assoc}
use ftape.Zft.Overshoot.{
  Pending, sector_size, Outcome, ok, copy_to, place, empty_from, empty_hard_error_list,
}

-- The bytes of sectors, one behind the other.
abbrev pub bytes_of : List (List ℕ) → List ℕ
bytes_of [] = []
bytes_of (s ∷ sectors) = s ++ bytes_of sectors

abbrev pub AreSectors : List (List ℕ) → Type 0
AreSectors [] = Unit
AreSectors (s ∷ sectors) = (length s ≡ sector_size) × AreSectors sectors

pub length-copy_to : (o : ℕ) (bs buf : List ℕ) → length (copy_to o bs buf) ≡ length buf
unfolding copy_to
length-copy_to zero [] buf = refl
length-copy_to zero (b ∷ bs) [] = refl
length-copy_to zero (b ∷ bs) (x ∷ buf) = ap suc (length-copy_to zero bs buf)
length-copy_to (suc o) bs [] = refl
length-copy_to (suc o) bs (x ∷ buf) = ap suc (length-copy_to o bs buf)

-- Up to the end of what was copied, the buffer is as before, and then the copy.
pub take-copy_to :
    (o m : ℕ) (bs buf : List ℕ)
    → m ≡ o + length bs
    → m ≤ length buf
    → take m (copy_to o bs buf) ≡ take o buf ++ bs
unfolding copy_to
take-copy_to zero zero [] buf e h = refl
take-copy_to zero (suc m) [] buf e h = absurd (omega (arith, e))
take-copy_to zero zero (b ∷ bs) buf e h = absurd (omega (arith, e))
take-copy_to zero (suc m) (b ∷ bs) [] e h = absurd (omega (arith, h))
take-copy_to zero (suc m) (b ∷ bs) (x ∷ buf) e h =
    ap (λ l. b ∷ l) (take-copy_to zero m bs buf (omega (arith, e)) (omega (arith, h)))
take-copy_to (suc o) zero bs buf e h = absurd (omega (arith, e))
take-copy_to (suc o) (suc m) bs [] e h = absurd (omega (arith, h))
take-copy_to (suc o) (suc m) bs (x ∷ buf) e h =
    ap (λ l. x ∷ l) (take-copy_to o m bs buf (omega (arith, e)) (omega (arith, h)))

-- What the loop makes of the sectors that wait: as many as there is room for are behind the old
-- contents of the buffer, in their order, and the others still wait.
pub record Emptied (seg_sz : ℕ) (sectors : List (List ℕ)) (p : Pending) (r : Outcome × Pending)
    : Type 0 where
  pub moved : ℕ
  pub room : moved ≡ min (length sectors) ((seg_sz - p.seg_byte_pos) / sector_size)
  pub is_ok : r.0 ≡ ok
  pub waiting : r.1.hard_errors ≡ drop moved sectors
  pub counts : r.1.hard_error_cnt ≡ length sectors - moved
  pub position : r.1.seg_byte_pos ≡ p.seg_byte_pos + moved * sector_size
  pub contents :
      take r.1.seg_byte_pos r.1.buffer
      ≡ take p.seg_byte_pos p.buffer ++ bytes_of (take moved sectors)

empty_from-Emptied :
    (seg_sz : ℕ) (sectors : List (List ℕ)) (p : Pending)
    → p.hard_errors ≡ sectors
    → p.hard_error_cnt ≡ length sectors
    → AreSectors sectors
    → seg_sz % sector_size ≡ p.seg_byte_pos % sector_size
    → p.seg_byte_pos ≤ seg_sz
    → seg_sz ≤ length p.buffer
    → p.tape_pos + sector_size ≤ p.capacity
    → Emptied seg_sz sectors p (empty_from seg_sz sectors p)
unfolding empty_from place
empty_from-Emptied seg_sz [] p here counts are even inside long space = record {
  moved = 0;
  room = omega arith;
  is_ok = refl;
  waiting = here;
  counts = omega (arith, counts);
  position = omega arith;
  contents = sym (append-nil (take p.seg_byte_pos p.buffer));
}
empty_from-Emptied seg_sz (s ∷ sectors) p here counts are even inside long space =
    let aligned : (seg_sz % sector_size == p.seg_byte_pos % sector_size) ≡ true =
      ground (arith, even) in
    let fits : ltb p.capacity (p.tape_pos + sector_size) ≡ false = ground (arith, space) in
    elim (Bool-cases (ltb seg_sz (p.seg_byte_pos + sector_size))) [
      | inl e ↦
          rw (aligned, e)
            (record {
              moved = 0;
              room = ground (arith, e, inside);
              is_ok = refl;
              waiting = here;
              counts = omega (arith, counts);
              position = omega arith;
              contents = sym (append-nil (take p.seg_byte_pos p.buffer));
            })
      | inr e ↦
          let rest =
            empty_from-Emptied seg_sz sectors (place s sectors p) refl (omega (arith, counts)) are.1
              (omega (arith, even)) (ground (arith, e))
              (omega (arith, long, length-copy_to p.seg_byte_pos s p.buffer)) space in
          rw (aligned, e, fits)
            (record {
              moved = suc rest.moved;
              room = ground (arith, rest.room, e);
              is_ok = rest.is_ok;
              waiting = rest.waiting;
              counts = omega (arith, rest.counts);
              position = omega (arith, rest.position);
              contents =
                  rest.contents
                  ∙ ap (λ l. l ++ bytes_of (take rest.moved sectors))
                      (take-copy_to p.seg_byte_pos (p.seg_byte_pos + sector_size) s p.buffer
                        (omega (arith, are.0)) (ground (arith, e, long)))
                  ∙ append_assoc (take p.seg_byte_pos p.buffer) s
                      (bytes_of (take rest.moved sectors));
            })
    ]

-- With sectors that wait, all of 1 KiB and as many as are counted, a position inside the segment
-- at a whole sector from its end, a buffer for the segment and room for a sector in the capacity,
-- empty_hard_error_list moves as many of them as there is room for in the segment to the buffer,
-- the oldest ones, in their order and behind what the buffer holds up to the position, counts the
-- position up by them and keeps the others.
pub empty_hard_error_list-Emptied :
    (seg_sz : ℕ) (p : Pending)
    → p.hard_error_cnt ≡ length p.hard_errors
    → AreSectors p.hard_errors
    → seg_sz % sector_size ≡ p.seg_byte_pos % sector_size
    → p.seg_byte_pos ≤ seg_sz
    → seg_sz ≤ length p.buffer
    → p.tape_pos + sector_size ≤ p.capacity
    → Emptied seg_sz p.hard_errors p (empty_hard_error_list seg_sz p)
unfolding empty_hard_error_list
empty_hard_error_list-Emptied seg_sz p counts are even inside long space =
    empty_from-Emptied seg_sz p.hard_errors p refl counts are even inside long space
