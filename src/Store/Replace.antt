-- ===== src/Store/Replace.antt =====
-- A block in the place of a part of a skip, in `ClientBlockList` of block_store.rs.
use crdt_probe.Prelude.{
  ℕ, suc, ◌+◌, ◌-◌, ◌^◌, ◌≤◌, ◌<◌, ◌≡◌, refl, sym, ap, ap₂, ◌∙◌, some, List, [], ◌∷◌, ◌++◌, length,
  get_elem?, take, drop, arith, inl, inr, Bool-cases, ltb, ltb→lt, ltb→le, if◌then◌else◌, subst,
  append_assoc, length-append,
}
use crdt_probe.Blocks.Range.{add_u32, sub_u32, range_of, first_id}
use crdt_probe.Store.{Block, item, gc, skip, clock_start, block_len, next_clock, block_id}
use crdt_probe.Store.Clients.{insert_at, replace_at, put_behind, replace_skip}
use crdt_probe.Store.Contiguous.{IsContiguous, IsContiguous-le, next_exact}

-- A part of the list gives way to another one over the same clocks.
pub IsContiguous-swap :
    (front xs ys : List Block) (lo hi : ℕ)
    → ((m : ℕ) → IsContiguous m xs hi → IsContiguous m ys hi)
    → IsContiguous lo (front ++ xs) hi
    → IsContiguous lo (front ++ ys) hi
IsContiguous-swap [] xs ys lo hi h c = h lo c
IsContiguous-swap (b ∷ front) xs ys lo hi h c =
    (c.0, c.1, IsContiguous-swap front xs ys (lo + block_len b) hi h c.2)

pub IsContiguous-end :
    (bs : List Block) (b : Block) (lo hi : ℕ)
    → IsContiguous lo bs hi
    → clock_start b ≡ hi
    → 0 < block_len b
    → IsContiguous lo (bs ++ b ∷ []) (hi + block_len b)
IsContiguous-end [] b lo hi c e pos = (e ∙ sym c, pos, ap (λ (n : ℕ). n + block_len b) c)
IsContiguous-end (x ∷ bs) b lo hi c e pos =
    (c.0, c.1, IsContiguous-end bs b (lo + block_len x) hi c.2 e pos)

module _ {A : Type 0} where
  take-front : (xs ys : List A) → take (length xs) (xs ++ ys) ≡ xs
  take-front [] ys = refl
  take-front (x ∷ xs) ys = ap (λ t. x ∷ t) (take-front xs ys)

  drop-front : (xs ys : List A) → drop (length xs) (xs ++ ys) ≡ ys
  drop-front [] ys = refl
  drop-front (x ∷ xs) ys = drop-front xs ys

  drop-next : (xs ys : List A) (x : A) → drop (suc (length xs)) (xs ++ x ∷ ys) ≡ ys
  drop-next [] ys x = refl
  drop-next (y ∷ xs) ys x = drop-next xs ys x

  take-next : (xs ys : List A) (x : A) → take (suc (length xs)) (xs ++ x ∷ ys) ≡ xs ++ x ∷ []
  take-next [] ys x = refl
  take-next (y ∷ xs) ys x = ap (λ t. y ∷ t) (take-next xs ys x)

  pub get-front : (xs ys : List A) (x : A) → get_elem? (xs ++ x ∷ ys) (length xs) ≡ some x
  get-front [] ys x = refl
  get-front (y ∷ xs) ys x = get-front xs ys x

insert_at-front :
    (xs ys : List Block) (b : Block) → insert_at (length xs) b (xs ++ ys) ≡ xs ++ b ∷ ys
insert_at-front xs ys b = rw (take-front xs ys, drop-front xs ys) refl

replace_at-front :
    (xs ys : List Block) (b x : Block) → replace_at (length xs) b (xs ++ x ∷ ys) ≡ xs ++ b ∷ ys
replace_at-front xs ys b x = rw (take-front xs (x ∷ ys), drop-next xs ys x) refl

-- What is left of a skip in front of a block that takes the place of some of its clocks, and what is
-- left behind the block.
abbrev pub rest_before : Block → Block → List Block
rest_before block skipped =
    let diff = sub_u32 (clock_start block) (clock_start skipped) in
    if ltb 0 diff then skip (range_of (block_id skipped) diff) ∷ [] else []

abbrev pub rest_behind : Block → Block → List Block
rest_behind block skipped =
    let diff = sub_u32 (next_clock skipped) (next_clock block) in
    let id = block_id block in
    let behind = skip (range_of (record id { clock = add_u32 id.clock (block_len block) }) diff) in
    if ltb 0 diff then behind ∷ [] else []

put_behind-front :
    (front rest : List Block) (block skipped : Block)
    → put_behind block (length front) skipped (front ++ skipped ∷ rest)
      ≡ front ++ block ∷ (rest_behind block skipped ++ rest)
unfolding put_behind
put_behind-front front rest block skipped =
    elim (Bool-cases (ltb 0 (sub_u32 (next_clock skipped) (next_clock block)))) [
      | inl some_behind ↦
          let next : length front + 1 ≡ suc (length front) = omega arith in
          rw (some_behind, next, take-next front rest skipped, drop-next front rest skipped)
            (rw append_assoc (replace_at-front front _ block skipped))
      | inr none_behind ↦ rw none_behind (replace_at-front front rest block skipped)
    ]

pub replace_skip-front :
    (front rest : List Block) (block skipped : Block)
    → replace_skip block (length front) skipped (front ++ skipped ∷ rest)
      ≡ front ++ (rest_before block skipped ++ block ∷ (rest_behind block skipped ++ rest))
unfolding replace_skip
replace_skip-front front rest block skipped =
    let before =
      skip (range_of (block_id skipped) (sub_u32 (clock_start block) (clock_start skipped))) in
    elim (Bool-cases (ltb 0 (sub_u32 (clock_start block) (clock_start skipped)))) [
      | inl some_before ↦
          let more : length front + 1 ≡ length (front ++ before ∷ []) =
            sym (length-append front (before ∷ [])) in
          let flat : front ++ before ∷ skipped ∷ rest ≡ (front ++ before ∷ []) ++ skipped ∷ rest =
            sym (append_assoc front (before ∷ []) (skipped ∷ rest)) in
          rw (some_before, replace_skip, insert_at-front front (skipped ∷ rest) before, more, flat)
            (put_behind-front (front ++ before ∷ []) rest block skipped
              ∙ append_assoc front (before ∷ []) _)
      | inr none_before ↦ rw none_before (put_behind-front front rest block skipped)
    ]

id_clock : (b : Block) → (block_id b).clock ≡ clock_start b
unfolding block_id clock_start first_id
id_clock (item i) = refl
id_clock (gc r) = refl
id_clock (skip r) = refl

before-IsContiguous :
    (block skipped : Block) (tail : List Block) (hi : ℕ)
    → clock_start skipped ≤ clock_start block
    → clock_start block < 2 ^ 32
    → IsContiguous (clock_start block) tail hi
    → IsContiguous (clock_start skipped) (rest_before block skipped ++ tail) hi
unfolding range_of clock_start block_len
before-IsContiguous block skipped tail hi le small c =
    let diff : sub_u32 (clock_start block) (clock_start skipped)
        ≡ clock_start block - clock_start skipped =
      omega arith in
    elim (Bool-cases (ltb 0 (clock_start block - clock_start skipped))) [
      | inl some_before ↦
          rw (diff, some_before)
            (
              id_clock skipped,
              ltb→lt 0 _ some_before,
              subst (λ (n : ℕ). IsContiguous n tail hi) (omega (arith, le)) c,
            )
      | inr none_before ↦
          rw (diff, none_before)
            (subst (λ (n : ℕ). IsContiguous n tail hi) (omega (arith, le, ltb→le 0 _ none_before))
              c)
    ]

behind-IsContiguous :
    (block skipped : Block) (tail : List Block) (hi : ℕ)
    → clock_start block + block_len block ≤ clock_start skipped + block_len skipped
    → clock_start skipped + block_len skipped < 2 ^ 32
    → IsContiguous (clock_start skipped + block_len skipped) tail hi
    → IsContiguous (clock_start block + block_len block) (rest_behind block skipped ++ tail) hi
unfolding range_of clock_start block_len
behind-IsContiguous block skipped tail hi le small c =
    let end = clock_start block + block_len block in
    let far = clock_start skipped + block_len skipped in
    let diff : sub_u32 (next_clock skipped) (next_clock block) ≡ far - end =
      ap₂ sub_u32 (next_exact skipped small) (next_exact block (omega arith)) ∙ omega arith in
    elim (Bool-cases (ltb 0 (far - end))) [
      | inl some_behind ↦
          rw (diff, some_behind)
            (
              ap (λ (n : ℕ). add_u32 n (block_len block)) (id_clock block) ∙ omega arith,
              ltb→lt 0 _ some_behind,
              subst (λ (n : ℕ). IsContiguous n tail hi) (omega (arith, le)) c,
            )
      | inr none_behind ↦
          rw (diff, none_behind)
            (subst (λ (n : ℕ). IsContiguous n tail hi) (omega (arith, le, ltb→le 0 _ none_behind))
              c)
    ]

-- In place of the skip: what is left of it in front, the block, and what is left of it behind.
pub replaced-IsContiguous :
    (block skipped : Block) (rest : List Block) (m hi : ℕ)
    → hi < 2 ^ 32
    → 0 < block_len block
    → clock_start skipped ≤ clock_start block
    → clock_start block + block_len block ≤ clock_start skipped + block_len skipped
    → IsContiguous m (skipped ∷ rest) hi
    → IsContiguous m (rest_before block skipped ++ block ∷ (rest_behind block skipped ++ rest)) hi
replaced-IsContiguous block skipped rest m hi small pos from to c =
    let bound = IsContiguous-le rest (m + block_len skipped) hi c.2 in
    let far = subst (λ (n : ℕ). IsContiguous (n + block_len skipped) rest hi) (sym c.0) c.2 in
    subst
      (λ (n : ℕ).
        IsContiguous n (rest_before block skipped ++ block ∷ (rest_behind block skipped ++ rest))
          hi)
      c.0
      (before-IsContiguous block skipped (block ∷ (rest_behind block skipped ++ rest)) hi from
        (omega (arith, bound, c.0, to))
        (refl, pos, behind-IsContiguous block skipped rest hi to (omega (arith, bound, c.0)) far))
