-- ===== src/Xfer/State/Local.antt =====
-- Changes that stay at the head of the ring, or go on to the buffer behind it
-- (ftape/lowlevel/fdc-isr.c).
use ftape.Prelude.{
  ℕ, ◌==◌, ==_iff, true, false, Bool-cases, ◌≡◌, ◌≢◌, refl, sym, ap, subst, ◌∙◌, ◌⊎◌, inl, inr,
  arith,
}
use ftape.Xfer.State.{Buffer, FdcInfo, head_of, set_head, step_head, write}

write-at : (buffers : ℕ → Buffer) (a : ℕ) (b : Buffer) → write buffers a b a ≡ b
unfolding write
write-at buffers a b = let e : (a == a) ≡ true = (==_iff a a).1 refl in rw e refl

pub write-other :
    (buffers : ℕ → Buffer) (a i : ℕ) (b : Buffer) → i ≢ a → write buffers a b i ≡ buffers i
unfolding write
write-other buffers a i b ne = elim (Bool-cases (i == a)) [
  | inl e ↦ absurd (ne ((==_iff i a).0 e))
  | inr e ↦ rw e refl
]

pub head-set : (fdc : FdcInfo) (b : Buffer) → head_of (set_head fdc b) ≡ b
head-set fdc b = write-at fdc.buffers fdc.head b

-- Only the buffer at the head changes; the ring stays, and so do the counters of the interrupt.
pub record Local (f g : FdcInfo) : Type 0 where
  pub head : g.head ≡ f.head
  pub others : (a : ℕ) → a ≢ f.head → g.buffers a ≡ f.buffers a
  pub ring : (a : ℕ) → (g.buffers a).next ≡ (f.buffers a).next
  pub active : g.isr_active ≡ f.isr_active
  pub seen : g.interrupt_seen ≡ f.interrupt_seen
  pub rewound : g.rewinds ≡ f.rewinds

-- Only the buffers at the head and behind it change, and the head goes on by one at most.
pub record Step (f g : FdcInfo) : Type 0 where
  pub head : (g.head ≡ f.head) ⊎ (g.head ≡ (head_of f).next)
  pub others : (a : ℕ) → a ≢ f.head → a ≢ (head_of f).next → g.buffers a ≡ f.buffers a
  pub ring : (a : ℕ) → (g.buffers a).next ≡ (f.buffers a).next
  pub active : g.isr_active ≡ f.isr_active
  pub seen : g.interrupt_seen ≡ f.interrupt_seen
  pub rewound : g.rewinds ≡ f.rewinds

-- The fields that `Local` and `Step` speak of are the same.
pub record Plain (f g : FdcInfo) : Type 0 where
  pub head : g.head ≡ f.head
  pub buffers : (a : ℕ) → g.buffers a ≡ f.buffers a
  pub active : g.isr_active ≡ f.isr_active
  pub seen : g.interrupt_seen ≡ f.interrupt_seen
  pub rewound : g.rewinds ≡ f.rewinds

pub Plain-Local : {f g : FdcInfo} → Plain f g → Local f g
Plain-Local p = record {
  head = p.head;
  others = λ a ne. p.buffers a;
  ring = λ a. ap (λ (b : Buffer). b.next) (p.buffers a);
  active = p.active;
  seen = p.seen;
  rewound = p.rewound;
}

pub Step-Plain : {f g k : FdcInfo} → Step f g → Plain g k → Step f k
Step-Plain p q = record {
  head = elim p.head [ inl same ↦ inl (q.head ∙ same) | inr on ↦ inr (q.head ∙ on) ];
  others = λ a ne ne'. q.buffers a ∙ p.others a ne ne';
  ring = λ a. ap (λ (b : Buffer). b.next) (q.buffers a) ∙ p.ring a;
  active = q.active ∙ p.active;
  seen = q.seen ∙ p.seen;
  rewound = q.rewound ∙ p.rewound;
}

-- For a change of other fields, by computation.
pub plain :
    {f g : FdcInfo}
    → g.head ≡ f.head
    → ((a : ℕ) → g.buffers a ≡ f.buffers a)
    → g.isr_active ≡ f.isr_active
    → g.interrupt_seen ≡ f.interrupt_seen
    → g.rewinds ≡ f.rewinds
    → Plain f g
plain head buffers active seen rewound = record {
  head = head;
  buffers = buffers;
  active = active;
  seen = seen;
  rewound = rewound;
}

pub Local-refl : (f : FdcInfo) → Local f f
Local-refl f = record {
  head = refl;
  others = λ a ne. refl;
  ring = λ a. refl;
  active = refl;
  seen = refl;
  rewound = refl;
}

pub Local-trans : {f g k : FdcInfo} → Local f g → Local g k → Local f k
Local-trans {f} {g} {k} p q = record {
  head = q.head ∙ p.head;
  others = λ a ne. q.others a (λ e. ne (e ∙ p.head)) ∙ p.others a ne;
  ring = λ a. q.ring a ∙ p.ring a;
  active = q.active ∙ p.active;
  seen = q.seen ∙ p.seen;
  rewound = q.rewound ∙ p.rewound;
}

differs : (a b : ℕ) → (a == b) ≡ false → a ≢ b
differs a b e at = absurd (ground (arith, (==_iff a b).1 at, e))

-- A buffer that stays in its place of the ring is written at the head.
pub set_head-Local :
    (fdc : FdcInfo) (b : Buffer) → b.next ≡ (head_of fdc).next → Local fdc (set_head fdc b)
set_head-Local fdc b p = record {
  head = refl;
  others = λ a ne. write-other fdc.buffers fdc.head a b ne;
  ring = same;
  active = refl;
  seen = refl;
  rewound = refl;
}
  where
    same : (a : ℕ) → (write fdc.buffers fdc.head b a).next ≡ (fdc.buffers a).next
    same a = elim (Bool-cases (a == fdc.head)) [
      | inl e ↦
          let at : a ≡ fdc.head = (==_iff a fdc.head).0 e in
          subst (λ t. (write fdc.buffers fdc.head b t).next ≡ (fdc.buffers t).next) (sym at)
            (ap (λ (t : Buffer). t.next) (write-at fdc.buffers fdc.head b) ∙ p)
      | inr e ↦
          ap (λ (t : Buffer). t.next) (write-other fdc.buffers fdc.head a b (differs a fdc.head e))
    ]

pub Local-Step : {f g : FdcInfo} → Local f g → Step f g
Local-Step p = record {
  head = inl p.head;
  others = λ a ne _. p.others a ne;
  ring = p.ring;
  active = p.active;
  seen = p.seen;
  rewound = p.rewound;
}

head-next : {f g : FdcInfo} → Local f g → (head_of g).next ≡ (head_of f).next
head-next {f} {g} p = ap (λ (a : ℕ). (g.buffers a).next) p.head ∙ p.ring f.head

-- The head changes, goes on, and the next one changes.
pub Step-Step : {f g k : FdcInfo} → Local f g → Local (step_head g) k → Step f k
Step-Step {f} {g} {k} p q = record {
  head = inr (q.head ∙ head-next p);
  others = λ a ne ne'. q.others a (λ e. ne' (e ∙ head-next p)) ∙ p.others a ne;
  ring = λ a. q.ring a ∙ p.ring a;
  active = q.active ∙ p.active;
  seen = q.seen ∙ p.seen;
  rewound = q.rewound ∙ p.rewound;
}

-- The head changes in front of a step.
pub then-Step : {f g k : FdcInfo} → Local f g → Step g k → Step f k
then-Step {f} {g} {k} p q = record {
  head = elim q.head [ inl same ↦ inl (same ∙ p.head) | inr on ↦ inr (on ∙ head-next p) ];
  others =
      λ a ne ne'. q.others a (λ e. ne (e ∙ p.head)) (λ e. ne' (e ∙ head-next p)) ∙ p.others a ne;
  ring = λ a. q.ring a ∙ p.ring a;
  active = q.active ∙ p.active;
  seen = q.seen ∙ p.seen;
  rewound = q.rewound ∙ p.rewound;
}
