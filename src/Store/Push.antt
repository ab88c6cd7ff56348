-- ===== src/Store/Push.antt =====
-- `BlockStore::push` of block_store.rs keeps the blocks of a client without gaps.
use crdt_probe.Prelude.{
  ℕ, ◌+◌, ◌^◌, ◌≤◌, ◌<◌, ◌≡◌, refl, ap, ◌∙◌, true, false, Option, none, some, List, [], ◌∷◌, ◌++◌,
  length, get_elem?, arith, inl, inr, Bool-cases, ltb, ltb→lt, ltb→le, ◌==◌,
}
use crdt_probe.Encoding.Result.{Result, ok, err, fault}
use crdt_probe.Store.{Block, clock_start, block_len, next_clock, find_index}
use crdt_probe.Store.Clients.{replace_skip, put_inside, push_list}
use crdt_probe.Store.Contiguous.{IsContiguous, next_exact, last_in_list, block_order, block_inside}
use crdt_probe.Store.Search.{Holds, find_index-Holds}
use crdt_probe.Store.Replace.{
  IsContiguous-swap, IsContiguous-end, get-front, rest_before, rest_behind, replace_skip-front,
  replaced-IsContiguous,
}

-- A clock is in one block only.
block_unique :
    (bs : List Block) (lo hi clock i k : ℕ) (b t : Block)
    → IsContiguous lo bs hi
    → hi < 2 ^ 32
    → get_elem? bs i ≡ some b
    → get_elem? bs k ≡ some t
    → clock_start b ≤ clock
    → clock < clock_start b + block_len b
    → clock_start t ≤ clock
    → clock < clock_start t + block_len t
    → i ≡ k
block_unique bs lo hi clock i k b t c small e f b_from b_to t_from t_to =
    elim (Bool-cases (ltb i k)) [
      | inl below ↦ absurd (omega (arith, block_order bs lo hi i k b t c e f (ltb→lt i k below)))
      | inr not_below ↦ elim (Bool-cases (ltb k i)) [
        | inl above ↦ absurd (omega (arith, block_order bs lo hi k i t b c f e (ltb→lt k i above)))
        | inr not_above ↦ omega (arith, ltb→le i k not_below, ltb→le k i not_above)
      ]
    ]

found_skip :
    (front rest : List Block) (block skipped : Block) (lo hi : ℕ) (x : Result (Option ℕ))
    → IsContiguous lo (front ++ skipped ∷ rest) hi
    → hi < 2 ^ 32
    → clock_start skipped ≤ clock_start block
    → clock_start block < clock_start skipped + block_len skipped
    → Holds (front ++ skipped ∷ rest) (clock_start block) x
    → x ≡ ok (some (length front))
found_skip front rest block skipped lo hi (ok (some i)) c small from to (b, e, b_from, b_to) =
    ap (λ (n : ℕ). ok (some n))
      (block_unique (front ++ skipped ∷ rest) lo hi (clock_start block) i (length front) b skipped c
        small e (get-front front rest skipped) b_from b_to from to)
found_skip front rest block skipped lo hi (ok none) c small from to h = absurd h
found_skip front rest block skipped lo hi (err x) c small from to h = absurd h
found_skip front rest block skipped lo hi (fault x) c small from to h = absurd h

-- A block that starts where the list ends is put behind it, and the list stays without gaps.
pub push_list-end :
    (bs : List Block) (block : Block) (lo hi : ℕ)
    → IsContiguous lo bs hi
    → lo < hi
    → hi < 2 ^ 32
    → clock_start block ≡ hi
    → 0 < block_len block
    → (push_list block bs ≡ ok (false, bs ++ block ∷ []))
      × IsContiguous lo (bs ++ block ∷ []) (hi + block_len block)
unfolding push_list
push_list-end bs block lo hi c some_clock small start pos =
    let (i, b, last, e, n, end) = last_in_list bs lo hi c some_clock in
    let next : next_clock b ≡ hi = next_exact b (omega (arith, end)) ∙ end in
    let meets : (next_clock b == clock_start block) ≡ true = ground (arith, next, start) in
    (rw (push_list, last, meets) refl, IsContiguous-end bs block lo hi c start pos)

put_inside-found :
    (block : Block) (bs : List Block) (i : ℕ) (skipped : Block)
    → get_elem? bs i ≡ some skipped
    → put_inside block bs (some i) ≡ ok (true, replace_skip block i skipped bs)
unfolding put_inside
put_inside-found block bs i skipped e = rw (put_inside, e) refl

-- A block whose clocks are all in one block of the list takes its place: `push` does not panic, what
-- is left of the old block is a skip in front and one behind, where it is not empty, the rest of the
-- list is as it was, and the list stays without gaps.
pub push_list-inside :
    (front rest : List Block) (block skipped : Block) (lo hi : ℕ)
    → IsContiguous lo (front ++ skipped ∷ rest) hi
    → hi < 2 ^ 32
    → 0 < block_len block
    → clock_start skipped ≤ clock_start block
    → clock_start block + block_len block ≤ clock_start skipped + block_len skipped
    → let list' =
        front ++ (rest_before block skipped ++ block ∷ (rest_behind block skipped ++ rest)) in
      (push_list block (front ++ skipped ∷ rest) ≡ ok (true, list')) × IsContiguous lo list' hi
unfolding push_list
push_list-inside front rest block skipped lo hi c small pos from to =
    let bs = front ++ skipped ∷ rest in
    let at : get_elem? bs (length front) ≡ some skipped = get-front front rest skipped in
    let (low, _, high) = block_inside bs lo hi (length front) skipped c at in
    let (i, b, last, e, n, end) = last_in_list bs lo hi c (omega arith) in
    let next : next_clock b ≡ hi = next_exact b (omega (arith, end)) ∙ end in
    let meets_not : (next_clock b == clock_start block) ≡ false =
      ground (arith, next, high, to, pos) in
    let index =
      found_skip front rest block skipped lo hi (find_index bs (clock_start block)) c small from
        (omega arith)
        (find_index-Holds bs lo hi (clock_start block) c small (omega (arith, low))
          (omega (arith, high))) in
    (
      rw (push_list, last, meets_not, index)
          (put_inside-found block bs (length front) skipped at
            ∙ ap (λ t. ok (true, t)) (replace_skip-front front rest block skipped)),
      IsContiguous-swap front (skipped ∷ rest) _ lo hi
          (λ m. replaced-IsContiguous block skipped rest m hi small pos from to) c,
    )
