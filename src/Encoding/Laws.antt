-- ===== src/Encoding/Laws.antt =====
-- What a writer and a reader of encoding/write.rs and encoding/read.rs owe their clients: the
-- methods on slices do what the methods on bytes do, in turn.
use crdt_probe.Prelude.{
  ℕ, zero, suc, ◌+◌, ◌≤◌, ◌<◌, ◌≡◌, refl, sym, ap, ◌∙◌, some, List, [], ◌∷◌, length, take,
  length-append, drop, get_elem?, arith, subst, le→ltb, Option-cases, inl, inr,
}
use crdt_probe.Encoding.Result.{ok}
use crdt_probe.Encoding.Io.{
  Write, Read, before, write_all, read_exact, read_u8, put_all, put_all-vec, Yields, vec_write,
  cursor_read, Cursor, cursor_read_u8, cursor_read_exact,
}

pub record LawfulWrite (W : Type 0) (w : Write W) : Type 0 where
  pub all_law : (bs : List ℕ) (out : W) → write_all ⦃w = w⦄ bs out ≡ put_all ⦃w = w⦄ bs out

-- `IsReader` holds of the readers whose position is inside their buffer.
pub record LawfulRead (R : Type 0) (i : Read R) : Type 1 where
  pub IsReader : R → Type 0
  pub next_law : (r m : R) (b : ℕ) → IsReader r → read_u8 ⦃r = i⦄ r ≡ ok (b, m) → IsReader m
  pub exact_law :
      (bs : List ℕ) (r r' : R)
      → IsReader r
      → Yields ⦃i = i⦄ r bs r'
      → read_exact ⦃r = i⦄ (length bs) r ≡ ok (bs, r')

-- The reader is good for more after what it has handed out.
pub Yields-IsReader :
    {R : Type 0} {i : Read R} (l : LawfulRead R i) (bs : List ℕ) (r r' : R)
    → l.IsReader r
    → Yields ⦃i = i⦄ r bs r'
    → l.IsReader r'
Yields-IsReader l [] r r' v y = subst l.IsReader y v
Yields-IsReader l (b ∷ bs) r r' v (m, e, y) = Yields-IsReader l bs m r' (l.next_law r m b v e) y

instance abbrev pub vec_laws : LawfulWrite (List ℕ) vec_write
vec_laws = record { all_law = λ bs out. sym (put_all-vec bs out) }

drop_next :
    (xs : List ℕ) (n b : ℕ)
    → get_elem? xs n ≡ some b
    → (drop n xs ≡ b ∷ drop (n + 1) xs) × (n < length xs)
drop_next [] n b e = absurd (ground arith)
drop_next (x ∷ xs) zero b e = ground arith
drop_next (x ∷ xs) (suc n) b e = ground (arith, drop_next xs n b e)

cursor_step :
    (c m : Cursor) (b : ℕ)
    → cursor_read_u8 c ≡ ok (b, m)
    → (get_elem? c.buf c.next ≡ some b) × (m ≡ record c { next = c.next + 1 })
unfolding cursor_read_u8
cursor_step c m b e = elim (Option-cases (get_elem? c.buf c.next)) [
  | inl out_of_range ↦ absurd (ground arith)
  | inr (x, at) ↦ ground (arith, at)
]

cursor_taken :
    (bs : List ℕ) (c r' : Cursor)
    → Yields c bs r'
    → c.next ≤ length c.buf
    → (take (length bs) (drop c.next c.buf) ≡ bs)
      × (r' ≡ record c { next = c.next + length bs })
      × (c.next + length bs ≤ length c.buf)
cursor_taken [] c r' y h =
    (refl, sym y ∙ ap (λ (n : ℕ). record c { next = n }) (omega arith), omega arith)
cursor_taken (b ∷ bs) c r' (m, e, y) h =
    let (at, same) = cursor_step c m b e in
    let (dropped, inside) = drop_next c.buf c.next b at in
    let (taken, last, bound) =
      cursor_taken bs (record c { next = c.next + 1 }) r' (rw same at y) (omega (arith, inside)) in
    (
      rw dropped (ap (λ t. b ∷ t) taken),
      last ∙ ap (λ (n : ℕ). record c { next = n }) (omega arith),
      omega (arith, bound),
    )

abbrev pub IsInside : Cursor → Type 0
IsInside c = c.next ≤ length c.buf

pub cursor_exact :
    (bs : List ℕ) (c r' : Cursor)
    → IsInside c
    → Yields c bs r'
    → cursor_read_exact (length bs) c ≡ ok (bs, r')
unfolding cursor_read_exact
cursor_exact bs c r' v y =
    let (taken, last, bound) = cursor_taken bs c r' y v in
    rw (le→ltb (length c.buf) (c.next + length bs) bound, taken, last)

pub cursor-IsInside :
    (r m : Cursor) (b : ℕ) → IsInside r → cursor_read_u8 r ≡ ok (b, m) → IsInside m
cursor-IsInside r m b v e =
    let (at, same) = cursor_step r m b e in rw same (omega (arith, (drop_next r.buf r.next b at).1))

instance abbrev pub cursor_laws : LawfulRead Cursor cursor_read
cursor_laws = record { IsReader = IsInside; next_law = cursor-IsInside; exact_law = cursor_exact }

-- A reader in front of what was written is good.
pub written-IsInside :
    (front bs rest out : List ℕ) → out ≡ put_all bs front → IsInside (before front out rest)
written-IsInside front bs rest out e =
    let e' = e ∙ put_all-vec bs front in
    omega (arith, length-append out rest, ap (λ (l : List ℕ). length l) e', length-append front bs)
