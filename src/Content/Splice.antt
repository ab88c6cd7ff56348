-- ===== src/Content/Splice.antt =====
-- `ItemContent::splice` and `try_squash` of block.rs undo each other.
use crdt_probe.Prelude.{
  ℕ, ◌^◌, ◌<◌, ◌≡◌, refl, ap, inl, inr, Bool-cases, List, [], ◌∷◌, ◌++◌, zero, suc, Option, some,
  length, take, drop, arith, subst, ltb,
}
use crdt_probe.Encoding.Result.{Result, ok, err, fault, ◌>>=◌}
use crdt_probe.Texts.{OffsetKind, split_str}
use crdt_probe.Texts.Split.{split_str-append}
use crdt_probe.Content.{
  ItemContent, any, binary, deleted, doc, json, embed, format, string, type, splice, try_squash,
  split_list,
}

take-drop : {A : Type 0} (xs : List A) (n : ℕ) → take n xs ++ drop n xs ≡ xs
take-drop xs zero = refl
take-drop [] (suc n) = refl
take-drop (x ∷ xs) (suc n) = ap (λ t. x ∷ t) (take-drop xs n)

-- A length of deleted clocks is a u32.
abbrev pub IsContent : ItemContent → Type 0
IsContent (deleted len) = len < 2 ^ 32
IsContent _ = Unit

-- The parts of a split can be squashed, into what was split.
abbrev Undone : ItemContent → Result (Option (ItemContent × ItemContent)) → Type 0
Undone c (ok (some parts)) = try_squash parts.0 parts.1 ≡ some c
Undone c _ = Unit

list-Undone :
    {A : Type 0} (con : List A → ItemContent) (xs : List A) (offset : ℕ)
    → ((a b : List A) → try_squash (con a) (con b) ≡ some (con (a ++ b)))
    → Undone (con xs) (do parts ← split_list xs offset; ok (some (con parts.0, con parts.1)))
list-Undone con xs offset law = elim (Bool-cases (ltb (length xs) offset)) [
  | inl past ↦ rw past tt
  | inr fits ↦ rw fits (rw (law (take offset xs) (drop offset xs), take-drop xs offset) refl)
]

string-Undone :
    (s : List ℕ) (x : Result (List ℕ × List ℕ))
    → ((l r : List ℕ) → x ≡ ok (l, r) → l ++ r ≡ s)
    → Undone (string s) (do parts ← x; ok (some (string parts.0, string parts.1)))
unfolding try_squash
string-Undone s (ok parts) h = ap (λ t. some (string t)) (h parts.0 parts.1 refl)
string-Undone s (err e) h = tt
string-Undone s (fault x) h = tt

splice-Undone :
    (c : ItemContent) (offset : ℕ) (kind : OffsetKind)
    → IsContent c
    → Undone c (splice c offset kind)
unfolding splice
splice-Undone (any values) offset kind h =
    list-Undone any values offset (λ a b. unfold try_squash in refl)
splice-Undone (json strings) offset kind h =
    list-Undone json strings offset (λ a b. unfold try_squash in refl)
splice-Undone (string s) offset kind h =
    string-Undone s (split_str s offset kind) (λ l r. split_str-append s l r offset kind)
splice-Undone (deleted len) offset kind h =
    unfold try_squash in ap (λ (n : ℕ). some (deleted n)) (omega arith)
splice-Undone (binary buf) offset kind h = tt
splice-Undone (doc parent d) offset kind h = tt
splice-Undone (embed v) offset kind h = tt
splice-Undone (format k v) offset kind h = tt
splice-Undone (type branch) offset kind h = tt

-- In either encoding, at any offset and for any content, the two parts that `splice` makes of a
-- content are squashed by `try_squash`, into the content that was split.
pub splice-try_squash :
    (c left right : ItemContent) (offset : ℕ) (kind : OffsetKind)
    → IsContent c
    → splice c offset kind ≡ ok (some (left, right))
    → try_squash left right ≡ some c
splice-try_squash c left right offset kind h e = subst (Undone c) e (splice-Undone c offset kind h)
