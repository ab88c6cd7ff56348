-- ===== src/Store/Valid.antt =====
-- The invariant of a block store of block_store.rs, which `push` keeps.
use crdt_probe.Prelude.{
  ℕ, ◌+◌, ◌^◌, ◌≤◌, ◌<◌, ◌≡◌, refl, ap, ◌∙◌, Bool, true, false, ◌⊎◌, inl, inr, Bool-cases, Option,
  Option-cases, none, some, List, [], ◌∷◌, ◌++◌, ◌==◌, arith, All, subst,
}
use crdt_probe.Prelude.Maps.{Map, find, insert, upsert}
use crdt_probe.Encoding.Result.{ok}
use crdt_probe.Store.{Block, clock_start, block_len, block_id, list_clock}
use crdt_probe.Store.Clients.{BlockStore, with_list, push, push_list}
use crdt_probe.Store.Contiguous.{IsContiguous, last_in_list, next_exact}
use crdt_probe.Store.Push.{push_list-end, push_list-inside}

-- The blocks of a client cover all clocks from 0 on.
abbrev pub IsBlockList : List Block → Type 0
IsBlockList bs = (hi : ℕ) × IsContiguous 0 bs hi × (0 < hi) × (hi < 2 ^ 32)

abbrev pub IsStore : BlockStore → Type 0
IsStore store = All (λ x. IsBlockList x.1) store.clients

-- All clocks of the block are in one block of the list, or the block starts where the list ends.
abbrev pub Fits : Block → Option (List Block) → Type 0
Fits block none = clock_start block ≡ 0
Fits block (some bs) =
    (clock_start block ≡ list_clock bs)
    ⊎ ((front : List Block) × (rest : List Block) × (skipped : Block) × (bs
          ≡ front ++ skipped ∷ rest)
        × (clock_start skipped ≤ clock_start block)
        × (clock_start block + block_len block ≤ clock_start skipped + block_len skipped))

find-All :
    (m : Map (List Block)) (k : ℕ) (bs : List Block)
    → All (λ x. IsBlockList x.1) m
    → find k m ≡ some bs
    → IsBlockList bs
unfolding find
find-All [] k bs a e = absurd (ground arith)
find-All (x ∷ m) k bs a e = elim (Bool-cases (x.0 == k)) [
  | inl same ↦ subst IsBlockList (ground (arith, e, same)) a.0
  | inr other ↦ find-All m k bs a.1 (ground (arith, e, other))
]

insert-All :
    (m : Map (List Block)) (k : ℕ) (bs : List Block)
    → All (λ x. IsBlockList x.1) m
    → IsBlockList bs
    → All (λ x. IsBlockList x.1) (insert k bs m)
unfolding insert upsert
insert-All [] k bs a h = (h, tt)
insert-All (x ∷ m) k bs a h = elim (Bool-cases (x.0 == k)) [
  | inl same ↦ rw same (h, a.1)
  | inr other ↦ rw other (a.0, insert-All m k bs a.1 h)
]

list_clock-hi :
    (bs : List Block) (hi : ℕ) → IsContiguous 0 bs hi → 0 < hi → hi < 2 ^ 32 → list_clock bs ≡ hi
unfolding list_clock
list_clock-hi bs hi c pos small =
    let (i, b, last, e, n, end) = last_in_list bs 0 hi c pos in
    rw (list_clock, last) (next_exact b (omega (arith, end)) ∙ end)

push_list-IsBlockList :
    (block : Block) (bs : List Block)
    → IsBlockList bs
    → 0 < block_len block
    → clock_start block + block_len block < 2 ^ 32
    → Fits block (some bs)
    → (replaced : Bool) × (list : List Block) × (push_list block bs ≡ ok (replaced, list))
      × IsBlockList list
push_list-IsBlockList block bs (hi, c, pos, small) some_len fits_u32 (inl at_end) =
    let start = at_end ∙ list_clock-hi bs hi c pos small in
    let (e, c') = push_list-end bs block 0 hi c pos small start some_len in
    (false, bs ++ block ∷ [], e, (hi + block_len block, c', omega arith, omega (arith, start)))
push_list-IsBlockList block bs (hi, c, pos, small) some_len fits_u32
      (inr (front, rest, skipped, e, from, to)) =
    let c' = subst (λ (l : List Block). IsContiguous 0 l hi) e c in
    let (done, kept) = push_list-inside front rest block skipped 0 hi c' small some_len from to in
    (true, _, ap (push_list block) e ∙ done, (hi, kept, pos, small))

-- The push of a block that fits succeeds, and the blocks of each client still cover all its clocks,
-- from 0 on and without gaps. A block fits that is the first one of its client, that starts where
-- the client's blocks end, or all of whose clocks are in one of the client's blocks.
pub push-IsStore :
    (store : BlockStore) (block : Block)
    → IsStore store
    → 0 < block_len block
    → clock_start block + block_len block < 2 ^ 32
    → Fits block (find (block_id block).client store.clients)
    → (store' : BlockStore) × (push block store ≡ ok store') × IsStore store'
unfolding push with_list
push-IsStore store block valid pos small fits =
    elim (Option-cases (find (block_id block).client store.clients)) [
      | inl new ↦
          let start = subst (Fits block) new fits in
          let list : IsBlockList (block ∷ []) =
            (block_len block, (start, pos, omega arith), pos, omega (arith, small)) in
          (
            with_list block false (block ∷ []) store,
            rw (push, new) refl,
            insert-All store.clients (block_id block).client (block ∷ []) valid list,
          )
      | inr (bs, known) ↦
          let list = find-All store.clients (block_id block).client bs valid known in
          let (replaced, bs', done, kept) =
            push_list-IsBlockList block bs list pos small (subst (Fits block) known fits) in
          (
            with_list block replaced bs' store,
            rw (push, known, done) refl,
            insert-All store.clients (block_id block).client bs' valid kept,
          )
    ]
