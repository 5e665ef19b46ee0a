-- ===== src/CopyOnWrite/References.antt =====
-- How many handles point to a payload, and that the counts say so.
use modern_signal_slot.Base.{
  ℕ, zero, suc, ◌+◌, ◌≡◌, ◌≢◌, ◌≤◌, ◌<◌, refl, true, Option, none, some, arith, if◌then◌else◌, ◌==◌,
  Option-cases, inl, inr, Bool-cases,
}
use modern_signal_slot.CopyOnWrite.{
  Heap, put, make, copy_handle, move_handle, swap_handles, destroy,
}

abbrev pub points : Option ℕ → ℕ → ℕ
points none p = 0
points (some q) p = if q == p then 1 else 0

abbrev pub refs : ℕ → (ℕ → Option ℕ) → ℕ → ℕ
refs zero f p = 0
refs (suc n) f p = points (f n) p + refs n f p

refs-put_above :
    (n h p : ℕ) (f : ℕ → Option ℕ) (v : Option ℕ) → n ≤ h → refs n (put f h v) p ≡ refs n f p
refs-put_above zero h p f v le = refl
refs-put_above (suc n) h p f v le = ground (arith, refs-put_above n h p f v (omega arith))

pub refs-put :
    (n h p : ℕ) (f : ℕ → Option ℕ) (v : Option ℕ)
    → h < n
    → refs n (put f h v) p + points (f h) p ≡ refs n f p + points v p
refs-put zero h p f v lt = absurd (omega arith)
refs-put (suc n) h p f v lt = elim (Bool-cases (h == n)) [
  | inl e ↦ ground (arith, refs-put_above n h p f v)
  | inr e ↦ ground (arith, refs-put n h p f v)
]

refs-one : (n h p : ℕ) (f : ℕ → Option ℕ) → h < n → points (f h) p ≤ refs n f p
refs-one n h p f lt = omega (arith, refs-put n h p f none lt)

pub refs-two :
    (n h k p : ℕ) (f : ℕ → Option ℕ)
    → h < n
    → k < n
    → h ≢ k
    → points (f h) p + points (f k) p ≤ refs n f p
refs-two n h k p f lt lt' ne =
    ground (arith, refs-put n h p f none lt, refs-one n k p (put f h none) lt')

module _ {A : Type 0} where
  -- The counts are right, a payload that is not there yet or has been deleted has none.
  pub record IsValid (w : Heap A) : Type 0 where
    pub counted : (p : ℕ) → w.count p ≡ refs w.handles w.m_data p
    pub fresh : (p : ℕ) → w.payloads ≤ p → w.count p ≡ 0
    pub gone : (p : ℕ) → w.deleted p ≡ true → w.count p ≡ 0
    pub old : (p : ℕ) → w.deleted p ≡ true → p < w.payloads

  pub make-IsValid : (w : Heap A) (v : A) → IsValid w → IsValid (make w v)
  unfolding make
  make-IsValid w v ok = record {
    counted = λ p. ground (
      arith,
      ok.counted p,
      ok.fresh w.payloads,
      refs-put_above w.handles w.handles p w.m_data (some w.payloads),
    );
    fresh = λ p le. ground (arith, ok.fresh p);
    gone = λ p g. ground (arith, ok.gone p g, ok.old p g);
    old = λ p g. omega (arith, ok.old p g);
  }

  pub pointed :
      (w : Heap A) (x p : ℕ) → IsValid w → x < w.handles → w.m_data x ≡ some p → 0 < w.count p
  pointed w x p ok lt e = ground (arith, ok.counted p, refs-one w.handles x p w.m_data lt)

  pub move_handle-IsValid :
      (w : Heap A) (x : ℕ) → x < w.handles → IsValid w → IsValid (move_handle w x)
  unfolding move_handle
  move_handle-IsValid w x lt ok = record {
    counted = λ p. ground (
      arith,
      ok.counted p,
      refs-put w.handles x p (put w.m_data w.handles (w.m_data x)) none lt,
      refs-put_above w.handles w.handles p w.m_data (w.m_data x),
    );
    fresh = ok.fresh;
    gone = ok.gone;
    old = ok.old;
  }

  pub swap_handles-IsValid :
      (w : Heap A) (x y : ℕ)
      → x < w.handles
      → y < w.handles
      → IsValid w
      → IsValid (swap_handles w x y)
  unfolding swap_handles
  swap_handles-IsValid w x y lt lt' ok = record {
    counted = λ p. ground (
      arith,
      ok.counted p,
      refs-put w.handles x p w.m_data (w.m_data y) lt,
      refs-put w.handles y p (put w.m_data x (w.m_data y)) (w.m_data x) lt',
    );
    fresh = ok.fresh;
    gone = ok.gone;
    old = ok.old;
  }

  pub destroy-IsValid : (w : Heap A) (x : ℕ) → x < w.handles → IsValid w → IsValid (destroy w x)
  unfolding destroy
  destroy-IsValid w x lt ok = elim (Option-cases (w.m_data x)) [
    | inl e ↦ rw (destroy, e) ok
    | inr (q, e) ↦
        let some_left = pointed w x q ok lt e in
        rw (destroy, e)
          (record {
            counted = λ p. ground (arith, ok.counted p, refs-put w.handles x p w.m_data none lt, e);
            fresh = λ p le. ground (arith, ok.fresh p le);
            gone = λ p g. ground (arith, ok.gone p);
            old = λ p g. ground (arith, ok.old p, ok.fresh q);
          })
  ]

  -- A property of the heap behind an operation that a null pointer did not stop.
  abbrev pub AndThen : (Heap A → Type 0) → Option (Heap A) → Type 0
  AndThen P none = Unit {0}
  AndThen P (some w) = P w

  -- Copying a handle keeps the counts of the payloads right, and no payload that has been deleted
  -- has a handle.
  pub copy_handle-IsValid :
      (w : Heap A) (x : ℕ) → x < w.handles → IsValid w → AndThen IsValid (copy_handle w x)
  unfolding copy_handle
  copy_handle-IsValid w x lt ok = elim (Option-cases (w.m_data x)) [
    | inl e ↦ rw (copy_handle, e) tt
    | inr (q, e) ↦
        let some_left = pointed w x q ok lt e in
        rw (copy_handle, e)
          (record {
            counted = λ p.
                ground
                  (arith, ok.counted p, refs-put_above w.handles w.handles p w.m_data (some q));
            fresh = λ p le. ground (arith, ok.fresh p le);
            gone = λ p g. ground (arith, ok.gone p);
            old = ok.old;
          })
  ]
