-- ===== src/Zft/Verify/Laws.antt =====
-- What `zft_verify_write_segments` (ftape/zftape/zftape-rw.c) leaves on the tape.
use ftape.Prelude.{
  ℕ, zero, suc, ◌+◌, ◌-◌, ◌≤◌, ◌<◌, ltb, ◌==◌, min, Bool, true, Bool-cases, Option, some, List,
  ◌++◌, take, drop, replicate, length, length-append, length-take, length-replicate, length-drop,
  ◌≡◌, refl, sym, ap, subst, ◌∙◌, arith, inl, inr,
}
use mathlib.Core.List.{append-nil}
use ftape.Prelude.Int.{pos}
use ftape.Zft.Verify.{
  WriteMode, ReadMode, Driver, Zftape, chunk, is_size, Written, wrote, write_loop,
}

-- The driver keeps what is written to a segment, changes no other one and gives it back.
pub record IsLawful {D : Type 0} (driver : Driver D) (sizes : ℕ → ℕ) (contents : D → ℕ → List ℕ)
    : Type 0 where
  pub has_buffer : (d : D) → driver.has_deblock_buffer d ≡ true
  pub writes :
      (d : D) (s : ℕ) (b : List ℕ) (m : WriteMode)
      → length b ≡ sizes s
      → (driver.write_segment d s b m).0 ≡ pos (sizes s)
  pub keeps :
      (d : D) (s : ℕ) (b : List ℕ) (m : WriteMode) → contents (driver.write_segment d s b m).1 s ≡ b
  pub leaves :
      (d : D) (s : ℕ) (b : List ℕ) (m : WriteMode) (t : ℕ)
      → ¬ t ≡ s
      → contents (driver.write_segment d s b m).1 t ≡ contents d t
  pub ends_writes : (d : D) → (driver.loop_until_writes_done d).0 ≡ pos 0
  pub writes_end_same :
      (d : D) (t : ℕ) → contents (driver.loop_until_writes_done d).1 t ≡ contents d t
  pub aborts : (d : D) → (driver.abort_operation d).0 ≡ pos 0
  pub abort_same : (d : D) (t : ℕ) → contents (driver.abort_operation d).1 t ≡ contents d t
  pub reads : (d : D) (s : ℕ) (m : ReadMode) → (driver.read_segment d s m).0 ≡ pos (sizes s)
  pub reads_back :
      (d : D) (s : ℕ) (m : ReadMode) → (driver.read_segment d s m).1 ≡ some (contents d s)
  pub read_same :
      (d : D) (s : ℕ) (m : ReadMode) (t : ℕ)
      → contents (driver.read_segment d s m).2 t ≡ contents d t

-- The bytes of a segment that a piece of the data fills, or not to its end.
abbrev pub filled : (seg_sz : ℕ) → List ℕ → (remaining : ℕ) → List ℕ
filled seg_sz src remaining = take (min remaining seg_sz) src ++ replicate (seg_sz - remaining) 0

-- From a segment on the tape has the data, the last segment filled up with zeros.
pub data IsWritten (sizes : ℕ → ℕ) (contents : ℕ → List ℕ) : ℕ → List ℕ → ℕ → Type 0 where
  last :
      (segment : ℕ) (src : List ℕ) (remaining : ℕ)
      → remaining ≤ sizes segment
      → contents segment ≡ filled (sizes segment) src remaining
      → IsWritten sizes contents segment src remaining
  more :
      (segment : ℕ) (src : List ℕ) (remaining : ℕ)
      → sizes segment < remaining
      → contents segment ≡ filled (sizes segment) src remaining
      → IsWritten sizes contents
          (segment + 1)
          (drop (sizes segment) src)
          (remaining - sizes segment)
      → IsWritten sizes contents segment src remaining

-- The bytes that a number of segments hold.
abbrev pub total : (sizes : ℕ → ℕ) → (rounds segment : ℕ) → ℕ
total sizes zero segment = 0
total sizes (suc rounds) segment = sizes segment + total sizes rounds (segment + 1)

pub chunk-bytes :
    (single : Bool) (seg_sz : ℕ) (src : List ℕ) (remaining : ℕ)
    → ((chunk single seg_sz src remaining).bytes ≡ filled seg_sz src remaining)
      × ((chunk single seg_sz src remaining).left ≡ remaining - seg_sz)
unfolding chunk
chunk-bytes single s src r = elim (Bool-cases (r == s)) [
  | inl e ↦
      let full : min r s ≡ s = ground (arith, e) in
      let none_left : s - r ≡ 0 = ground (arith, e) in
      rw (e, full, none_left) (sym (append-nil (take s src)), ground (arith, e))
  | inr e ↦ elim (Bool-cases (ltb s r)) [
    | inl f ↦
        let full : min r s ≡ s = ground (arith, f) in
        let none_left : s - r ≡ 0 = ground (arith, f) in
        rw (e, f, full, none_left) (sym (append-nil (take s src)), refl)
    | inr f ↦
        let part : min r s ≡ r = ground (arith, f) in rw (e, f, part) (refl, ground (arith, f))
  ]
]

pub length-filled : (s : ℕ) (src : List ℕ) (r : ℕ) → r ≤ length src → length (filled s src r) ≡ s
length-filled s src r long = omega (
  arith,
  length-append (take (min r s) src) (replicate (s - r) 0),
  length-take (min r s) src,
  length-replicate {A = ℕ} (s - r) 0,
  long,
)

-- What the loop that writes gives when it does not fail.
pub record Writes {D : Type 0} (driver : Driver D) (sizes : ℕ → ℕ) (contents : D → ℕ → List ℕ)
    (rounds segment : ℕ) (src : List ℕ) (remaining : ℕ) (z : Zftape D)
    (o : Option (Written driver sizes)) : Type 0 where
  pub after : Zftape D
  pub segments : ℕ
  pub within : segments < rounds
  pub gives : o ≡ some (wrote (sizes (segment + segments + 1)) after)
  pub written : IsWritten sizes (contents after.drive) segment src remaining
  pub before : (t : ℕ) → t < segment → contents after.drive t ≡ contents z.drive t
  pub only_last : remaining ≤ sizes segment → segments ≡ 0
  pub two :
      sizes segment < remaining → remaining ≤ sizes segment + sizes (segment + 1) → segments ≡ 1

module _ {D : Type 0} (driver : Driver D) (sizes : ℕ → ℕ) (contents : D → ℕ → List ℕ)
    (lawful : IsLawful driver sizes contents) where
  pub write_loop-Writes :
      (single : Bool) (rounds segment : ℕ) (src : List ℕ) (remaining : ℕ) (z : Zftape D)
      → 0 < remaining
      → remaining ≤ total sizes rounds segment
      → remaining ≤ length src
      → Writes driver sizes contents rounds segment src remaining z
          (write_loop driver sizes single rounds segment (sizes segment) src remaining z)
  unfolding write_loop is_size
  write_loop-Writes single zero segment src remaining z any fits long =
      absurd (omega (arith, any, fits))
  write_loop-Writes single (suc rounds) segment src remaining z any fits long =
      let s = sizes segment in
      let c = chunk single s src remaining in
      let cb = chunk-bytes single s src remaining in
      let d = (driver.write_segment z.drive segment c.bytes c.mode).1 in
      let z' : Zftape D = record z { drive = d; written_segments = z.written_segments + 1 } in
      let full : length c.bytes ≡ s = ap length cb.0 ∙ length-filled s src remaining long in
      let sized : is_size (driver.write_segment z.drive segment c.bytes c.mode).0 s ≡ true =
        rw (lawful.writes z.drive segment c.bytes c.mode full) (ground arith) in
      let here : contents d segment ≡ filled s src remaining =
        lawful.keeps z.drive segment c.bytes c.mode ∙ cb.0 in
      elim (Bool-cases (ltb 0 c.left)) [
        | inr e ↦
            rw (lawful.has_buffer z.drive, sized, e)
              (record {
                after = z';
                segments = 0;
                within = omega arith;
                gives = ap (λ n. Option.some (wrote (sizes n) z')) (omega arith);
                written = last segment src remaining (ground (arith, e, cb.1)) here;
                before = λ t h. lawful.leaves z.drive segment c.bytes c.mode t (omega (arith, h));
                only_last = λ h. refl;
                two = λ h k. absurd (ground (arith, e, cb.1, h));
              })
        | inl e ↦
            let rest =
              write_loop-Writes single rounds (segment + 1) (drop s src) c.left z'
                (ground (arith, e)) (omega (arith, fits, cb.1))
                (omega (arith, length-drop s src, cb.1, long)) in
            rw (lawful.has_buffer z.drive, sized, e)
              (record {
                after = rest.after;
                segments = rest.segments + 1;
                within = omega (arith, rest.within);
                gives =
                    rest.gives ∙ ap (λ n. Option.some (wrote (sizes n) rest.after)) (omega arith);
                written =
                    more segment src remaining (ground (arith, e, cb.1))
                      (rest.before segment (omega arith) ∙ here)
                      (subst
                        (IsWritten sizes (contents rest.after.drive) (segment + 1) (drop s src))
                        cb.1 rest.written);
                before = λ t h.
                    rest.before t (omega (arith, h))
                    ∙ lawful.leaves z.drive segment c.bytes c.mode t (omega (arith, h));
                only_last = λ h. absurd (ground (arith, e, cb.1, h));
                two = λ h k. omega (arith, rest.only_last (omega (arith, cb.1, k)));
              })
      ]
