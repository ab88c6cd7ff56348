-- ===== src/Links/Codec/RoundTrip.antt =====
-- The fields of a weak link (types/mod.rs), and what is read from them.
use crdt_probe.Prelude.{
  ℕ, ◌+◌, ◌*◌, ◌/◌, ◌%◌, ◌^◌, ◌≤◌, ◌<◌, ◌≡◌, refl, sym, ap, ap₂, ◌∙◌, Bool, true, false, not, ◌||◌,
  List, [], ◌∷◌, ◌++◌, arith, ◌==◌, if◌then◌else◌,
}
use crdt_probe.Encoding.Result.{ok}
use crdt_probe.StateVector.Codec.{client_id}
use crdt_probe.Blocks.{BlockId, id_eq}
use crdt_probe.Fields.{
  Encoder, Decoder, Field, type_ref, byte, client, number, text, put_fields, put_fields-append,
  Gives, Gives-append,
}
use crdt_probe.Links.{
  IndexScope, relative, nested, root, Assoc, after, before, LinkSource, is_root, is_relative,
  is_after, is_single, is_single_scope,
}
use crdt_probe.Links.Codec.{
  bit, has_bit, link_flags, write_start, write_end, encode_weak_link, assoc_of, read_id, read_scope,
  read_end, decode_weak_link,
}

abbrev id_fields : BlockId → List Field
id_fields id = client id.client ∷ number id.clock ∷ []

abbrev start_fields : IndexScope → List Field
start_fields (relative id) = id_fields id
start_fields (nested id) = id_fields id
start_fields (root name) = text name ∷ []

abbrev end_fields : Bool → IndexScope → List Field
end_fields single (relative id) = if single then [] else id_fields id
end_fields single (nested id) = id_fields id
end_fields single (root name) = text name ∷ []

abbrev pub link_fields : LinkSource → List Field
link_fields l =
    type_ref 7
    ∷ byte (link_flags l)
    ∷ (start_fields l.quote_start.scope ++ end_fields (is_single l) l.quote_end.scope)

module _ {W : Type 0} (e : Encoder W) where
  start-put : (s : IndexScope) (out : W) → write_start e s out ≡ put_fields e (start_fields s) out
  start-put (relative id) out = refl
  start-put (nested id) out = refl
  start-put (root name) out = refl

  end-put :
      (single : Bool) (s : IndexScope) (out : W)
      → write_end e single s out ≡ put_fields e (end_fields single s) out
  end-put true (relative id) out = refl
  end-put false (relative id) out = refl
  end-put single (nested id) out = refl
  end-put single (root name) out = refl

  pub encode_weak_link-put :
      (l : LinkSource) (out : W) → encode_weak_link e l out ≡ put_fields e (link_fields l) out
  unfolding encode_weak_link
  encode_weak_link-put l out =
      let out₁ = e.write_byte (link_flags l) (e.write_type_ref 7 out) in
      end-put (is_single l) l.quote_end.scope (write_start e l.quote_start.scope out₁)
      ∙ ap (put_fields e (end_fields (is_single l) l.quote_end.scope))
          (start-put l.quote_start.scope out₁)
      ∙ sym (put_fields-append e (start_fields l.quote_start.scope) _ out₁)

-- A client is a number of 53 bits.
abbrev IsScope : IndexScope → Type 0
IsScope (relative id) = id.client < 2 ^ 53
IsScope (nested id) = id.client < 2 ^ 53
IsScope (root name) = Unit

-- Only one of a root and a nested type can be told from the flags.
abbrev Fit : IndexScope → IndexScope → Type 0
Fit (root a) (nested b) = ⊥
Fit (nested a) (root b) = ⊥
Fit _ _ = Unit

abbrev pub IsLink : LinkSource → Type 0
IsLink l =
    IsScope l.quote_start.scope
    × IsScope l.quote_end.scope
    × Fit l.quote_start.scope l.quote_end.scope

abbrev one : Bool → ℕ
one true = 1
one false = 0

bit-one : (k : ℕ) (b : Bool) → bit k b ≡ k * one b
bit-one k true = omega arith
bit-one k false = omega arith

one_bound : (b : Bool) → one b ≤ 1
one_bound true = omega arith
one_bound false = omega arith

one_back : (b : Bool) → (one b == 1) ≡ b
one_back true = refl
one_back false = refl

flag_bits :
    (q r s t u v : Bool)
    → let n = bit 1 q + bit 32 r + bit 8 s + bit 16 t + bit 2 u + bit 4 v in
      (has_bit 1 n ≡ q)
      × (has_bit 32 n ≡ r)
      × (has_bit 8 n ≡ s)
      × (has_bit 16 n ≡ t)
      × (has_bit 2 n ≡ u)
      × (has_bit 4 n ≡ v)
flag_bits q r s t u v =
    let n = bit 1 q + bit 32 r + bit 8 s + bit 16 t + bit 2 u + bit 4 v in
    let m = one q + 32 * one r + 8 * one s + 16 * one t + 2 * one u + 4 * one v in
    let e : n ≡ m =
      omega
        (arith, bit-one 1 q, bit-one 32 r, bit-one 8 s, bit-one 16 t, bit-one 2 u, bit-one 4 v) in
    let f = one_bound q in
    let g = one_bound r in
    let h = one_bound s in
    let i = one_bound t in
    let j = one_bound u in
    let k = one_bound v in
    (
      is_one 1 n q (omega (arith, e, f, g, h, i, j, k)),
      is_one 32 n r (omega (arith, e, f, g, h, i, j, k)),
      is_one 8 n s (omega (arith, e, f, g, h, i, j, k)),
      is_one 16 n t (omega (arith, e, f, g, h, i, j, k)),
      is_one 2 n u (omega (arith, e, f, g, h, i, j, k)),
      is_one 4 n v (omega (arith, e, f, g, h, i, j, k)),
    )
  where
    is_one : (k n : ℕ) (b : Bool) → n / k % 2 ≡ one b → has_bit k n ≡ b
    is_one k n b e = ap (λ (x : ℕ). x == 1) e ∙ one_back b

assoc_back : (a : Assoc) → assoc_of (is_after a) ≡ a
assoc_back after = refl
assoc_back before = refl

-- The flag for a root tells which of the two scopes outside all elements it is.
abbrev Told : Bool → IndexScope → Type 0
Told parent_root (relative id) = Unit
Told parent_root (nested id) = parent_root ≡ false
Told parent_root (root name) = parent_root ≡ true

start-Told : (a b : IndexScope) → Fit a b → Told (is_root a || is_root b) a
start-Told (relative x) b h = tt
start-Told (nested x) (relative y) h = refl
start-Told (nested x) (nested y) h = refl
start-Told (nested x) (root y) h = absurd h
start-Told (root x) b h = refl

end-Told : (a b : IndexScope) → Fit a b → Told (is_root a || is_root b) b
end-Told a (relative y) h = tt
end-Told (relative x) (nested y) h = refl
end-Told (nested x) (nested y) h = refl
end-Told (root x) (nested y) h = absurd h
end-Told (relative x) (root y) h = refl
end-Told (nested x) (root y) h = absurd h
end-Told (root x) (root y) h = refl

id_eq-eq : (x y : BlockId) → id_eq x y ≡ true → x ≡ y
id_eq-eq x y h =
    let c : x.client ≡ y.client = ground (arith, h) in
    let k : x.clock ≡ y.clock = ground (arith, h) in
    ap₂ (λ (m n : ℕ). record { client = m; clock = n }) c k

single-same : (a b : IndexScope) → is_single_scope a b ≡ true → (a ≡ b) × (is_relative b ≡ true)
single-same (relative x) (relative y) h = (ap (λ i. relative i) (id_eq-eq x y h), refl)
single-same (relative x) (nested y) h = absurd (ground (arith, h))
single-same (relative x) (root y) h = absurd (ground (arith, h))
single-same (nested x) b h = absurd (ground (arith, h))
single-same (root x) b h = absurd (ground (arith, h))

module _ {R : Type 0} (d : Decoder R) where
  id-read :
      (id : BlockId) (r r' : R)
      → id.client < 2 ^ 53
      → Gives d r (id_fields id) r'
      → read_id d r ≡ ok (id, r')
  id-read id r r' short (m, e, (m', f, g)) =
      let exact : client_id id.client ≡ id.client = omega (arith, short) in rw (e, f, exact, g) refl

  start-read :
      (parent_root : Bool) (s : IndexScope) (r r' : R)
      → IsScope s
      → Told parent_root s
      → Gives d r (start_fields s) r'
      → read_scope d (not (is_relative s)) parent_root r ≡ ok (s, r')
  unfolding read_scope
  start-read parent_root (relative id) r r' h t g = rw (id-read id r r' h g) refl
  start-read parent_root (nested id) r r' h t g = rw (t, id-read id r r' h g) refl
  start-read parent_root (root name) r r' h t (m, e, g) = rw (t, e, g) refl

  end-read :
      (parent_root single : Bool) (a b : IndexScope) (r r' : R)
      → IsScope b
      → Told parent_root b
      → (single ≡ true → (a ≡ b) × (is_relative b ≡ true))
      → Gives d r (end_fields single b) r'
      → read_end d (not (is_relative b)) parent_root single a r ≡ ok (b, r')
  unfolding read_end
  end-read parent_root true a (relative id) r r' h t s g = rw ((s refl).0, g) refl
  end-read parent_root false a (relative id) r r' h t s g =
      start-read parent_root (relative id) r r' h t g
  end-read parent_root single a (nested id) r r' h t s g =
      start-read parent_root (nested id) r r' h t g
  end-read parent_root single a (root name) r r' h t s g =
      start-read parent_root (root name) r r' h t g

  -- What stands behind the number of the type.
  pub decode_weak_link-read :
      (l : LinkSource) (r r' : R)
      → IsLink l
      → Gives d r
          (byte (link_flags l)
            ∷ (start_fields l.quote_start.scope ++ end_fields (is_single l) l.quote_end.scope))
          r'
      → decode_weak_link d r ≡ ok (l, r')
  unfolding decode_weak_link link_flags
  decode_weak_link-read l r r' (h, k, fit) (m, e, g) =
      let a = l.quote_start.scope in
      let b = l.quote_end.scope in
      let parent_root = is_root a || is_root b in
      let (at_single, at_root, at_start, at_end, at_after, at_before) =
        flag_bits (not (is_single l)) parent_root (not (is_relative a)) (not (is_relative b))
          (is_after l.quote_start.assoc) (is_after l.quote_end.assoc) in
      let (m', g₁, g₂) = Gives-append d (start_fields a) (end_fields (is_single l) b) m r' g in
      let back : not (not (is_single l)) ≡ is_single l = not_not (is_single l) in
      rw
        (
          e,
          at_single,
          at_root,
          at_start,
          at_end,
          at_after,
          at_before,
          back,
          start-read parent_root a m m' h (start-Told a b fit) g₁,
          end-read parent_root (is_single l) a b m' r' k (end-Told a b fit) (single-same a b) g₂,
          assoc_back l.quote_start.assoc,
          assoc_back l.quote_end.assoc,
        )
        refl
    where
      not_not : (x : Bool) → not (not x) ≡ x
      not_not true = refl
      not_not false = refl
