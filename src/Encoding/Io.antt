-- ===== src/Encoding/Io.antt =====
-- The traits `Write` and `Read` of encoding/write.rs and encoding/read.rs, `Vec<u8>` as a writer
-- and `Cursor` as a reader.
use crdt_probe.Prelude.{
  ℕ, ◌+◌, ◌≡◌, refl, Bool, not, none, some, List, [], ◌∷◌, ◌++◌, ltb, ◌==◌, arith, ap, subst, sym,
  ◌∙◌, append-nil, length, get_elem?, take, drop, if◌then◌else◌, append_assoc, length-append,
}
use crdt_probe.Encoding.Result.{Result, ok, err, end_of_buffer}

-- A byte is a number below 256; the required methods of the two traits.
pub record Write (W : Type 0) : Type 0 where
  pub write_u8 : ℕ → W → W
  pub write_all : List ℕ → W → W

pub record Read (R : Type 0) : Type 0 where
  pub read_u8 : R → Result (ℕ × R)
  pub read_exact : ℕ → R → Result (List ℕ × R)

abbrev pub write_u8 : {W : Type 0} ⦃w : Write W⦄ → ℕ → W → W
write_u8 ⦃w⦄ = w.write_u8

abbrev pub write_all : {W : Type 0} ⦃w : Write W⦄ → List ℕ → W → W
write_all ⦃w⦄ = w.write_all

abbrev pub read_u8 : {R : Type 0} ⦃r : Read R⦄ → R → Result (ℕ × R)
read_u8 ⦃r⦄ = r.read_u8

abbrev pub read_exact : {R : Type 0} ⦃r : Read R⦄ → ℕ → R → Result (List ℕ × R)
read_exact ⦃r⦄ = r.read_exact

-- `Vec<u8>`: `push` and `extend_from_slice`.
instance abbrev pub vec_write : Write (List ℕ)
vec_write = record {
  write_u8 = λ value buf. buf ++ value ∷ [];
  write_all = λ bytes buf. buf ++ bytes;
}

pub record Cursor : Type 0 where
  pub buf : List ℕ
  pub next : ℕ

unfoldable pub has_content : Cursor → Bool
has_content c = not (c.next == length c.buf)

unfoldable pub cursor_read_exact : ℕ → Cursor → Result (List ℕ × Cursor)
cursor_read_exact len c =
    if ltb (length c.buf) (c.next + len)
    then err (end_of_buffer len)
    else ok (take len (drop c.next c.buf), record c { next = c.next + len })

unfoldable pub cursor_read_u8 : Cursor → Result (ℕ × Cursor)
cursor_read_u8 c = elim (get_elem? c.buf c.next) [
  | some b ↦ ok (b, record c { next = c.next + 1 })
  | none ↦ err (end_of_buffer 1)
]

instance abbrev pub cursor_read : Read Cursor
cursor_read = record { read_u8 = cursor_read_u8; read_exact = cursor_read_exact }

-- Byte after byte, what a run of `write_u8` does.
abbrev pub put_all : {W : Type 0} ⦃w : Write W⦄ → List ℕ → W → W
put_all [] out = out
put_all (b ∷ bs) out = put_all bs (write_u8 b out)

-- The reader `r` hands out the bytes `bs` one by one, and is `r'` after them.
abbrev pub Yields : {R : Type 0} ⦃i : Read R⦄ → R → List ℕ → R → Type 0
Yields r [] r' = r ≡ r'
Yields {R} r (b ∷ bs) r' = (m : R) × (read_u8 r ≡ ok (b, m)) × Yields m bs r'

pub put_all-append :
    {W : Type 0} ⦃w : Write W⦄ (xs ys : List ℕ) (out : W)
    → put_all (xs ++ ys) out ≡ put_all ys (put_all xs out)
put_all-append [] ys out = refl
put_all-append (x ∷ xs) ys out = put_all-append xs ys (write_u8 x out)

pub put_all-vec : (bs out : List ℕ) → put_all bs out ≡ out ++ bs
put_all-vec [] out = sym (append-nil out)
put_all-vec (b ∷ bs) out = put_all-vec bs (out ++ b ∷ []) ∙ append_assoc out (b ∷ []) bs

-- The bytes `xs ++ ys` are handed out through a reader in between.
pub Yields-append :
    {R : Type 0} ⦃i : Read R⦄ (xs ys : List ℕ) (r r' : R)
    → Yields r (xs ++ ys) r'
    → (m : R) × Yields r xs m × Yields m ys r'
Yields-append [] ys r r' h = (r, refl, h)
Yields-append (x ∷ xs) ys r r' h =
    let (m, a, b) = Yields-append xs ys h.0 r' h.2 in (m, (h.0, h.1, a), b)

get_elem?-append_head :
    (front : List ℕ) (b : ℕ) (rest : List ℕ) → get_elem? (front ++ b ∷ rest) (length front) ≡ some b
get_elem?-append_head [] b rest = refl
get_elem?-append_head (x ∷ front) b rest = get_elem?-append_head front b rest

cursor_read_u8-append :
    (front : List ℕ) (b : ℕ) (rest : List ℕ) (c : Cursor)
    → c.buf ≡ front ++ b ∷ rest
    → c.next ≡ length front
    → cursor_read_u8 c ≡ ok (b, record c { next = c.next + 1 })
unfolding cursor_read_u8
cursor_read_u8-append front b rest c e p = rw (at_next, cursor_read_u8) refl
  where
    at_next : get_elem? c.buf c.next ≡ some b
    at_next = rw (e, p) (get_elem?-append_head front b rest)

-- A cursor in front of `bs` yields `bs`, and stands behind them after that.
pub cursor-Yields :
    (front bs rest : List ℕ) (buf : List ℕ) (next : ℕ)
    → buf ≡ front ++ (bs ++ rest)
    → next ≡ length front
    → Yields {R = Cursor}
        (record { buf = buf; next = next })
        bs
        (record { buf = buf; next = next + length bs })
unfolding cursor_read_u8
cursor-Yields front [] rest buf next e p =
    ap (λ (n : ℕ). record { buf = buf; next = n }) (omega arith)
cursor-Yields front (b ∷ bs) rest buf next e p = (
  record { buf = buf; next = next + 1 },
  cursor_read_u8-append front b (bs ++ rest) (record { buf = buf; next = next }) e p,
  subst
      (λ (n : ℕ).
        Yields {R = Cursor} (record { buf = buf; next = next + 1 }) bs
          (record { buf = buf; next = n }))
      (omega arith)
      (cursor-Yields (front ++ b ∷ []) bs rest buf (next + 1)
        (e ∙ sym (append_assoc front (b ∷ []) (bs ++ rest))) (rw (p, length-append) (omega arith))),
)

drop-length-append : (front rest : List ℕ) → drop (length front) (front ++ rest) ≡ rest
drop-length-append [] rest = refl
drop-length-append (x ∷ front) rest = drop-length-append front rest

take-length-append : (front rest : List ℕ) → take (length front) (front ++ rest) ≡ front
take-length-append [] rest = refl
take-length-append (x ∷ front) rest = ap (λ t. x ∷ t) (take-length-append front rest)

-- `read_exact` of as many bytes as `bs` has takes `bs` at once.
pub cursor_read_exact-append :
    (front bs rest : List ℕ) (c : Cursor)
    → c.buf ≡ front ++ (bs ++ rest)
    → c.next ≡ length front
    → cursor_read_exact (length bs) c ≡ ok (bs, record c { next = c.next + length bs })
unfolding cursor_read_exact
cursor_read_exact-append front bs rest c e p =
    rw (e, p, drop-length-append, take-length-append)
      (ground (arith, length-append front (bs ++ rest), length-append bs rest))

-- The cursor behind what was written after `front`, and the one in front of it.
abbrev pub before : List ℕ → List ℕ → List ℕ → Cursor
before front out rest = record { buf = out ++ rest; next = length front }

abbrev pub behind : List ℕ → List ℕ → Cursor
behind out rest = record { buf = out ++ rest; next = length out }

pub written-Yields :
    (front bs rest out : List ℕ)
    → out ≡ put_all bs front
    → Yields {R = Cursor} (before front out rest) bs (behind out rest)
written-Yields front bs rest out e =
    let e' = e ∙ put_all-vec bs front in
    subst
      (λ (n : ℕ).
        Yields {R = Cursor} (before front out rest) bs (record { buf = out ++ rest; next = n }))
      (sym (ap length e' ∙ length-append front bs))
      (cursor-Yields front bs rest (out ++ rest) (length front) (rw e' (append_assoc front bs rest))
        refl)
