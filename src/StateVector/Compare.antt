-- ===== src/StateVector/Compare.antt =====
-- `partial_cmp` against the order of the clocks of all clients.
use Prim.Native.Nat.{compare, Ordering}
use crdt_probe.Prelude.{
  ℕ, ◌≤◌, ◌<◌, ◌≡◌, refl, sym, ap, subst, fun_ext, true, Option, none, some, [], ◌∷◌, ◌==◌, arith,
  Bool-cases, Option-cases, inl, inr,
}
use crdt_probe.Prelude.Maps.{find, IsMap}
use crdt_probe.StateVector.{StateVector, get, step, scan_self, scan_other, partial_cmp}

-- No client has a greater clock in the first; some client has a smaller one.
abbrev pub IsBelow : StateVector → StateVector → Type 0
IsBelow a b = (k : ℕ) → get k a ≤ get k b

abbrev pub Below : StateVector → StateVector → Type 0
Below a b = (k : ℕ) × (get k a < get k b)

-- What a result of the comparison says about the two vectors.
abbrev pub Compares : StateVector → StateVector → Option Ordering → Type 0
Compares a b none = Below a b × Below b a
Compares a b (some Ordering.eq) = IsBelow a b × IsBelow b a
Compares a b (some Ordering.lt) = IsBelow a b × Below a b
Compares a b (some Ordering.gt) = IsBelow b a × Below b a

-- What a result so far stands for, and what it says of a client that has been looked at.
abbrev Seen : StateVector → StateVector → Ordering → Type 0
Seen a b Ordering.eq = Unit
Seen a b Ordering.lt = Below a b
Seen a b Ordering.gt = Below b a

abbrev Agrees : Ordering → ℕ → ℕ → Type 0
Agrees Ordering.eq x y = x ≡ y
Agrees Ordering.lt x y = x ≤ y
Agrees Ordering.gt x y = y ≤ x

abbrev Keeps : Ordering → Ordering → Type 0
Keeps r r' = (x y : ℕ) → Agrees r x y → Agrees r' x y

-- Both loops, as one over the clients of a list.
scan : StateVector → StateVector → StateVector → Ordering → Option Ordering
scan a b [] result = some result
scan a b (x ∷ m) result = elim (step (compare (get x.0 a) (get x.0 b)) result) [
  | none ↦ none
  | some result' ↦ scan a b m result'
]

abbrev Stepped : StateVector → StateVector → ℕ → Ordering → Option Ordering → Type 0
Stepped a b k r none = Below a b × Below b a
Stepped a b k r (some r') = Seen a b r' × Keeps r r' × Agrees r' (get k a) (get k b)

fst_ℕ : (a b : ℕ) → (a == b) ≡ true → a ≡ b
fst_ℕ a b h = ground arith

compare-lt : (x y : ℕ) → compare x y ≡ Ordering.lt → x < y
compare-lt x y h = ground arith

compare-gt : (x y : ℕ) → compare x y ≡ Ordering.gt → y < x
compare-gt x y h = ground arith

compare-eq : (x y : ℕ) → compare x y ≡ Ordering.eq → x ≡ y
compare-eq x y h = ground arith

step-Stepped :
    (a b : StateVector) (k : ℕ) (o r : Ordering)
    → compare (get k a) (get k b) ≡ o
    → Seen a b r
    → Stepped a b k r (step o r)
unfolding step
step-Stepped a b k Ordering.lt Ordering.lt h s =
    ((k, compare-lt _ _ h), λ x y l. l, omega (arith, compare-lt _ _ h))
step-Stepped a b k Ordering.lt Ordering.eq h s =
    ((k, compare-lt _ _ h), λ x y l. omega arith, omega (arith, compare-lt _ _ h))
step-Stepped a b k Ordering.lt Ordering.gt h s = ((k, compare-lt _ _ h), s)
step-Stepped a b k Ordering.gt Ordering.lt h s = (s, (k, compare-gt _ _ h))
step-Stepped a b k Ordering.gt Ordering.eq h s =
    ((k, compare-gt _ _ h), λ x y l. omega arith, omega (arith, compare-gt _ _ h))
step-Stepped a b k Ordering.gt Ordering.gt h s =
    ((k, compare-gt _ _ h), λ x y l. l, omega (arith, compare-gt _ _ h))
step-Stepped a b k Ordering.eq Ordering.eq h s = (s, λ x y l. l, compare-eq _ _ h)
step-Stepped a b k Ordering.eq Ordering.lt h s = (s, λ x y l. l, omega (arith, compare-eq _ _ h))
step-Stepped a b k Ordering.eq Ordering.gt h s = (s, λ x y l. l, omega (arith, compare-eq _ _ h))

abbrev Scanned : StateVector → StateVector → StateVector → Ordering → Option Ordering → Type 0
Scanned a b m r none = Below a b × Below b a
Scanned a b m r (some r') =
    Seen a b r'
    × Keeps r r'
    × ((k clock : ℕ) → find k m ≡ some clock → Agrees r' (get k a) (get k b))

Scanned-cons :
    (a b m : StateVector) (x : ℕ × ℕ) (r r' : Ordering) (q : Option Ordering)
    → Stepped a b x.0 r (some r')
    → Scanned a b m r' q
    → Scanned a b (x ∷ m) r q
unfolding find
Scanned-cons a b m x r r' none t s = s
Scanned-cons a b m x r r' (some q) t s = (
  s.0,
  λ u v h. s.1 u v (t.1 u v h),
  λ k clock h. elim (Bool-cases (x.0 == k)) [
    | inl same ↦ subst (λ (j : ℕ). Agrees q (get j a) (get j b)) (fst_ℕ x.0 k same) (s.1 _ _ t.2)
    | inr other ↦ s.2 k clock (rw other at h)
  ],
)

scan-Scanned : (a b m : StateVector) (r : Ordering) → Seen a b r → Scanned a b m r (scan a b m r)
unfolding scan find
scan-Scanned a b [] r s = (s, λ x y l. l, λ k clock h. cc)
scan-Scanned a b (x ∷ m) r s =
    after (step (compare (get x.0 a) (get x.0 b)) r)
      (step-Stepped a b x.0 (compare (get x.0 a) (get x.0 b)) r refl s)
      (λ r'. scan-Scanned a b m r')
  where
    after :
        (o : Option Ordering)
        → Stepped a b x.0 r o
        → ((r' : Ordering) → Seen a b r' → Scanned a b m r' (scan a b m r'))
        → Scanned a b (x ∷ m) r (elim o [ none ↦ none | some r' ↦ scan a b m r' ])
    after none t rest = t
    after (some r') t rest = Scanned-cons a b m x r r' (scan a b m r') t (rest r' t.0)

-- The entries of `m` are entries of `a`.
abbrev Within : StateVector → StateVector → Type 0
Within m a = (k clock : ℕ) → find k m ≡ some clock → get k a ≡ clock

Within-tail : (x : ℕ × ℕ) (m a : StateVector) → IsMap (x ∷ m) → Within (x ∷ m) a → Within m a
unfolding find
Within-tail x m a h w k clock e = elim (Bool-cases (x.0 == k)) [
  | inl same ↦ cc (rw (fst_ℕ x.0 k same) at h.0)
  | inr other ↦ w k clock (rw other e)
]

Within-head : (x : ℕ × ℕ) (m a : StateVector) → Within (x ∷ m) a → get x.0 a ≡ x.1
unfolding find
Within-head x m a w = w x.0 x.1 (ground arith)

scan_self-scan :
    (a b m : StateVector) (r : Ordering) → IsMap m → Within m a → scan_self m b r ≡ scan a b m r
unfolding scan_self scan
scan_self-scan a b [] r h w = refl
scan_self-scan a b (x ∷ m) r h w =
    rw (scan, Within-head x m a w)
      (ap
        (λ (f : Ordering → Option Ordering). elim (step (compare x.1 (get x.0 b)) r) [
          | none ↦ none
          | some r' ↦ f r'
        ])
        (fun_ext (λ r'. scan_self-scan a b m r' h.1 (Within-tail x m a h w))))

scan_other-scan :
    (a b m : StateVector) (r : Ordering) → IsMap m → Within m b → scan_other a m r ≡ scan a b m r
unfolding scan_other scan
scan_other-scan a b [] r h w = refl
scan_other-scan a b (x ∷ m) r h w =
    rw (scan, Within-head x m b w)
      (ap
        (λ (f : Ordering → Option Ordering). elim (step (compare (get x.0 a) x.1) r) [
          | none ↦ none
          | some r' ↦ f r'
        ])
        (fun_ext (λ r'. scan_other-scan a b m r' h.1 (Within-tail x m b h w))))

Within-self : (a : StateVector) → Within a a
unfolding get
Within-self a k clock e = rw e

Agrees-zero : (r : Ordering) → Agrees r 0 0
Agrees-zero Ordering.eq = refl
Agrees-zero Ordering.lt = omega arith
Agrees-zero Ordering.gt = omega arith

Compares-conclude :
    (a b : StateVector) (r : Ordering)
    → Seen a b r
    → ((k : ℕ) → Agrees r (get k a) (get k b))
    → Compares a b (some r)
Compares-conclude a b Ordering.eq s all = (λ k. omega (arith, all k), λ k. omega (arith, all k))
Compares-conclude a b Ordering.lt s all = (all, s)
Compares-conclude a b Ordering.gt s all = (all, s)

get-none : (k : ℕ) (a : StateVector) → find k a ≡ none → get k a ≡ 0
unfolding get
get-none k a h = rw h

Agrees-everywhere :
    (a b : StateVector) (r r' : Ordering)
    → Scanned a b a Ordering.eq (some r)
    → Scanned a b b r (some r')
    → (k : ℕ) → Agrees r' (get k a) (get k b)
Agrees-everywhere a b r r' s t k = elim (Option-cases (find k a)) [
  | inr (clock, e) ↦ t.1 (get k a) (get k b) (s.2 k clock e)
  | inl e ↦ elim (Option-cases (find k b)) [
    | inr (clock, e') ↦ t.2 k clock e'
    | inl e' ↦ rw (get-none k a e, get-none k b e') (Agrees-zero r')
  ]
]

-- The comparison of two state vectors is the one of their clocks at every client, where a missing
-- client counts as 0: equal, below everywhere and somewhere strictly, above so, or, where neither
-- is below the other, no result.
pub partial_cmp-Compares : (a b : StateVector) → IsMap a → IsMap b → Compares a b (partial_cmp a b)
unfolding partial_cmp
partial_cmp-Compares a b h k = first_loop (scan_self a b Ordering.eq) (
    subst (λ (q : Option Ordering). Scanned a b a Ordering.eq q)
      (sym (scan_self-scan a b a Ordering.eq h (Within-self a)))
      (scan-Scanned a b a Ordering.eq tt))
  where
    second_loop :
        (r : Ordering) (q : Option Ordering)
        → Scanned a b a Ordering.eq (some r)
        → Scanned a b b r q
        → Compares a b q
    second_loop r none s t = t
    second_loop r (some r') s t = Compares-conclude a b r' t.0 (Agrees-everywhere a b r r' s t)

    first_loop :
        (q : Option Ordering)
        → Scanned a b a Ordering.eq q
        → Compares a b (elim q [ none ↦ none | some r ↦ scan_other a b r ])
    first_loop none s = s
    first_loop (some r) s =
        subst (λ (q : Option Ordering). Compares a b q)
          (sym (scan_other-scan a b b r k (Within-self b)))
          (second_loop r (scan a b b r) s (scan-Scanned a b b r s.0))
