-- ===== src/Store/Search.antt =====
-- `ClientBlockList::find_index` of block_store.rs on lists without gaps.
use crdt_probe.Prelude.{
  ℕ, zero, suc, ◌+◌, ◌-◌, ◌*◌, ◌/◌, ◌%◌, ◌^◌, ◌≤◌, ◌<◌, ◌≡◌, refl, sym, ap, false, Option, none,
  some, List, [], ◌∷◌, length, get_elem?, arith, inl, inr, Bool-cases, ltb, leb, ltb→lt, ltb→le,
  leb→le, leb→lt, le→ltb, ◌==◌, subst, ==_iff,
}
use native.Mathlib.Nat.{div-eq_of_lt, div_self}
use crdt_probe.Encoding.Result.{Result, ok, err, fault, ◌>>=◌}
use crdt_probe.Store.{Block, clock_start, block_len, find_loop, find_index, find_from, get_block}
use crdt_probe.Store.Contiguous.{
  IsContiguous, block_inside, block_order, block_at, range_exact, last_in_list,
}

-- The answer is an index, and the block there holds the clock.
abbrev pub Holds : List Block → ℕ → Result (Option ℕ) → Type 0
Holds bs clock (ok (some i)) =
    (b : Block) × (get_elem? bs i ≡ some b)
    × (clock_start b ≤ clock)
    × (clock < clock_start b + block_len b)
Holds bs clock _ = ⊥

pub get_elem?-inside :
    {A : Type 0} (xs : List A) (i : ℕ) → i < length xs → (x : A) × (get_elem? xs i ≡ some x)
get_elem?-inside [] i h = absurd (omega arith)
get_elem?-inside (x ∷ xs) zero h = (x, refl)
get_elem?-inside (x ∷ xs) (suc i) h = get_elem?-inside xs i (omega arith)

pub get_elem?-bound :
    {A : Type 0} (xs : List A) (i : ℕ) (x : A) → get_elem? xs i ≡ some x → i < length xs
get_elem?-bound [] i x e = absurd (ground arith)
get_elem?-bound (y ∷ xs) zero x e = omega arith
get_elem?-bound (y ∷ xs) (suc i) x e = omega (arith, get_elem?-bound xs i x e)

same_block : (o : Option Block) (a b : Block) → o ≡ some a → o ≡ some b → a ≡ b
same_block o a b e f = ground (arith, e, f)

module _ (bs : List Block) (lo hi clock : ℕ) (c : IsContiguous lo bs hi) (small : hi < 2 ^ 32) where
  -- The block to be found is at `k`.
  module _ (k : ℕ) (t : Block) (at : get_elem? bs k ≡ some t) (from : clock_start t ≤ clock)
      (to : clock < clock_start t + block_len t) where
    module _ (mid : ℕ) (b : Block) (e : get_elem? bs mid ≡ some b) where
      pub ends_ahead : clock_start b + block_len b ≤ clock → mid < k
      ends_ahead h = elim (Bool-cases (ltb mid k)) [
        | inl ahead ↦ ltb→lt mid k ahead
        | inr not_ahead ↦ elim (Bool-cases (ltb k mid)) [
          | inl behind ↦ absurd (
              omega (
                arith,
                block_order bs lo hi k mid t b c at e (ltb→lt k mid behind),
                block_inside bs lo hi mid b c e,
              ))
          | inr not_behind ↦
              let same : k ≡ mid = omega (arith, ltb→le mid k not_ahead, ltb→le k mid not_behind) in
              let equal =
                same_block (get_elem? bs mid) t b
                  (subst (λ (n : ℕ). get_elem? bs n ≡ some t) same at) e in
              absurd
                (omega (arith, subst (λ (x : Block). clock < clock_start x + block_len x) equal to))
        ]
      ]

      pub starts_behind : clock < clock_start b → k < mid
      starts_behind h = elim (Bool-cases (ltb k mid)) [
        | inl behind ↦ ltb→lt k mid behind
        | inr not_behind ↦ elim (Bool-cases (ltb mid k)) [
          | inl ahead ↦
              absurd
                (omega (arith, block_order bs lo hi mid k b t c e at (ltb→lt mid k ahead), from))
          | inr not_ahead ↦
              let same : k ≡ mid = omega (arith, ltb→le mid k not_ahead, ltb→le k mid not_behind) in
              let equal =
                same_block (get_elem? bs mid) t b
                  (subst (λ (n : ℕ). get_elem? bs n ≡ some t) same at) e in
              absurd (omega (arith, subst (λ (x : Block). clock_start x ≤ clock) equal from))
        ]
      ]

      -- A round, at `mid`.
      round :
          (rounds left right : ℕ)
          → left ≤ right
          → (mid < k
              → Holds bs clock (find_loop rounds bs clock (mid + 1) ((mid + 1 + right) / 2) right))
          → (k < mid
              → Holds bs clock (find_loop rounds bs clock left ((left + (mid - 1)) / 2) (mid - 1)))
          → Holds bs clock (find_loop (suc rounds) bs clock left mid right)
      unfolding find_loop
      round rounds left right h past before =
          let (_, pos, bound) = block_inside bs lo hi mid b c e in
          let range = range_exact b pos (omega (arith, bound, small)) in
          rw (le→ltb right left h, e, range)
            (elim (Bool-cases (leb (clock_start b) clock)) [
              | inl starts ↦
                  rw starts (elim (Bool-cases (leb clock (clock_start b + block_len b - 1))) [
                    | inl inside ↦ rw inside (
                      b,
                      e,
                      leb→le (clock_start b) clock starts,
                      omega (arith, pos, leb→le clock _ inside),
                    )
                    | inr ends ↦
                        rw ends (past (ends_ahead (omega (arith, pos, leb→lt clock _ ends))))
                  ])
              | inr later ↦
                  let back = starts_behind (leb→lt (clock_start b) clock later) in
                  let some_left : (mid == 0) ≡ false = ground (arith, back) in
                  rw (later, some_left) (before back)
            ])

    found :
        (rounds left mid right : ℕ)
        → left ≤ k
        → k ≤ right
        → left ≤ mid
        → mid ≤ right
        → right < left + rounds
        → right < length bs
        → Holds bs clock (find_loop rounds bs clock left mid right)
    found zero left mid right low high m n fuel bound = absurd (omega arith)
    found (suc rounds) left mid right low high m n fuel bound =
        let (b, e) = get_elem?-inside bs mid (omega arith) in
        round mid b e rounds left right (omega arith)
          (λ past.
            found rounds (mid + 1) ((mid + 1 + right) / 2) right (omega arith) high (omega arith)
              (omega arith) (omega arith) bound)
          (λ before.
            found rounds left ((left + (mid - 1)) / 2) (mid - 1) low (omega arith) (omega arith)
              (omega arith) (omega arith) (omega arith))

-- The first index that is looked at is one of the list.
pivot_le : (clock end right : ℕ) → 0 < end → clock ≤ end → clock / end * right % 2 ^ 32 ≤ right
pivot_le clock end right pos le = elim (Bool-cases (ltb clock end)) [
  | inl below ↦
      let none_of_it : clock / end ≡ 0 = div-eq_of_lt (ltb→lt clock end below) in
      rw none_of_it (omega arith)
  | inr at_end ↦
      let same : clock ≡ end = omega (arith, ltb→le clock end at_end) in
      let once : clock / end ≡ 1 = subst (λ (n : ℕ). n / end ≡ 1) (sym same) (div_self pos) in
      rw once (omega arith)
]

-- The search, where the last block is `b`, at `i`, and the clock is in the block at `k`.
find_from-Holds :
    (bs : List Block) (lo hi clock i k : ℕ) (b t : Block)
    → IsContiguous lo bs hi
    → hi < 2 ^ 32
    → get_elem? bs i ≡ some b
    → length bs ≡ suc i
    → clock_start b + block_len b ≡ hi
    → get_elem? bs k ≡ some t
    → clock_start t ≤ clock
    → clock < clock_start t + block_len t
    → clock < hi
    → Holds bs clock (find_from bs clock i b)
unfolding find_from
find_from-Holds bs lo hi clock i k b t c small e n end at from to high =
    let (_, pos, _) = block_inside bs lo hi i b c e in
    let range = range_exact b pos (omega (arith, end)) in
    rw range (elim (Bool-cases (clock_start b == clock)) [
      | inl starts ↦
          let same = (==_iff (clock_start b) clock).0 starts in
          rw starts (b, e, omega (arith, same), omega (arith, same, pos))
      | inr other ↦
          let positive : 0 < clock_start b + block_len b - 1 =
            ground (arith, other, end, pos, high) in
          let some_end : (clock_start b + block_len b - 1 == 0) ≡ false =
            ground (arith, positive) in
          rw (other, some_end)
            (found bs lo hi clock c small k t at from to (suc (length bs)) 0
              (clock / (clock_start b + block_len b - 1) * i % 2 ^ 32) i (omega arith)
              (omega (arith, get_elem?-bound bs k t at, n)) (omega arith)
              (pivot_le clock (clock_start b + block_len b - 1) i positive
                (omega (arith, end, pos)))
              (omega (arith, n)) (omega (arith, n)))
    ])

-- In a list of blocks without gaps, `find_index` finds each clock between the first one and the end
-- of the last block: it does not panic, its loop comes to an end within a round for each block and
-- one more, and the index that it returns is that of a block that holds the clock.
pub find_index-Holds :
    (bs : List Block) (lo hi clock : ℕ)
    → IsContiguous lo bs hi
    → hi < 2 ^ 32
    → lo ≤ clock
    → clock < hi
    → Holds bs clock (find_index bs clock)
unfolding find_index
find_index-Holds bs lo hi clock c small low high =
    let (i, b, last, e, n, end) = last_in_list bs lo hi c (omega arith) in
    let (k, t, at, from, to) = block_at bs lo hi clock c low high in
    let right : length bs - 1 ≡ i = omega (arith, n) in
    rw (find_index, last, right)
      (find_from-Holds bs lo hi clock i k b t c small e n end at from to high)

-- In a list of blocks without gaps, `get_block` returns the block that holds the clock, for each
-- clock between the first one and the end of the last block.
pub get_block-found :
    (bs : List Block) (lo hi clock : ℕ)
    → IsContiguous lo bs hi
    → hi < 2 ^ 32
    → lo ≤ clock
    → clock < hi
    → (b : Block) × (get_block bs clock ≡ ok (some b))
      × (clock_start b ≤ clock)
      × (clock < clock_start b + block_len b)
unfolding get_block
get_block-found bs lo hi clock c small low high =
    by_index (find_index bs clock) (find_index-Holds bs lo hi clock c small low high)
  where
    by_index :
        (x : Result (Option ℕ))
        → Holds bs clock x
        → (b : Block) × ((do index ← x; ok (elim index [ none ↦ none | some i ↦ get_elem? bs i ]))
            ≡ ok (some b))
          × (clock_start b ≤ clock)
          × (clock < clock_start b + block_len b)
    by_index (ok (some i)) (b, e, from, to) = (b, ap (λ (o : Option Block). ok o) e, from, to)
    by_index (ok none) h = absurd h
    by_index (err x) h = absurd h
    by_index (fault x) h = absurd h
