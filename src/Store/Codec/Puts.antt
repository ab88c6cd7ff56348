-- ===== src/Store/Codec/Puts.antt =====
-- The fields that `Item::encode` of block.rs writes.
use crdt_probe.Prelude.{
  ℕ, ◌≡◌, refl, sym, ap, subst, ◌∙◌, Bool, true, false, Option, none, some, List, [], ◌∷◌, ◌++◌,
  arith,
}
use crdt_probe.Encoding.Result.{ok}
use crdt_probe.Fields.{
  Encoder, Field, info, left_id, right_id, parent_info, text, put_fields, put_fields-append,
}
use crdt_probe.Content.Codec.RoundTrip.{content_fields, encode_content-put}
use crdt_probe.Items.{Item, TypePtr, unknown, branch, named, parent_id}
use crdt_probe.Store.Codec.{
  item_info, has_no_origin, encode_named, encode_parent, write_opt, encode_place, encode_item,
}

-- A parent as it is sent: by its name or by the item that holds it.
abbrev pub wire_parent : (ℕ → Option TypePtr) → TypePtr → Option TypePtr
wire_parent branches (branch b) = branches b
wire_parent branches (named s) = some (named s)
wire_parent branches (parent_id id) = some (parent_id id)
wire_parent branches unknown = none

abbrev pub named_fields : TypePtr → List Field
named_fields (named name) = parent_info true ∷ text name ∷ []
named_fields (parent_id id) = parent_info false ∷ left_id id ∷ []
named_fields unknown = []
named_fields (branch b) = []

-- A parent with such fields.
abbrev pub IsNamed : TypePtr → Type 0
IsNamed (named name) = Unit
IsNamed (parent_id id) = Unit
IsNamed unknown = ⊥
IsNamed (branch b) = ⊥

abbrev pub opt_field : {A : Type 0} → (A → Field) → Option A → List Field
opt_field con none = []
opt_field con (some a) = con a ∷ []

abbrev pub place_fields : Bool → TypePtr → Item → List Field
place_fields false parent i = []
place_fields true parent i = named_fields parent ++ opt_field text i.parent_sub

-- The fields of an item whose parent is sent as `parent`.
abbrev pub item_fields : TypePtr → Item → List Field
item_fields parent i =
    info (item_info i)
    ∷ (opt_field left_id i.origin
        ++ (opt_field right_id i.right_origin
            ++ (place_fields (has_no_origin (item_info i)) parent i ++ content_fields i.content)))

module _ {W : Type 0} (e : Encoder W) (branches : ℕ → Option TypePtr) where
  abbrev Puts : W → W → Option TypePtr → Type 0
  Puts result out none = Unit {0}
  Puts result out (some parent) = ok result ≡ ok (put_fields e (named_fields parent) out)

  named-put :
      (parent : TypePtr) (out : W)
      → IsNamed parent
      → encode_named e branches parent out ≡ ok (put_fields e (named_fields parent) out)
  unfolding encode_named
  named-put (named name) out h = refl
  named-put (parent_id id) out h = refl
  named-put unknown out h = absurd h
  named-put (branch b) out h = absurd h

  parent-put :
      (p parent : TypePtr) (out : W)
      → wire_parent branches p ≡ some parent
      → IsNamed parent
      → encode_parent e branches p out ≡ ok (put_fields e (named_fields parent) out)
  unfolding encode_parent encode_named
  parent-put (branch b) parent out w h = rw (encode_parent, w) (named-put parent out h)
  parent-put (named s) parent out w h =
      subst (Puts (e.write_text s (e.write_parent_info true out)) out) w refl
  parent-put (parent_id id) parent out w h =
      subst (Puts (e.write_left_id id (e.write_parent_info false out)) out) w refl
  parent-put unknown parent out w h = absurd (ground (arith, w))

  opt-put :
      {A : Type 0} (write : A → W → W) (con : A → Field) (o : Option A) (out : W)
      → ((a : A) (x : W) → write a x ≡ put_fields e (con a ∷ []) x)
      → write_opt e branches write o out ≡ put_fields e (opt_field con o) out
  opt-put write con none out h = refl
  opt-put write con (some a) out h = h a out

  place-put :
      (b : Bool) (i : Item) (parent : TypePtr) (out : W)
      → wire_parent branches i.parent ≡ some parent
      → IsNamed parent
      → encode_place e branches b i out ≡ ok (put_fields e (place_fields b parent i) out)
  unfolding encode_place
  place-put false i parent out w h = refl
  place-put true i parent out w h =
      rw
        (
          parent-put i.parent parent out w h,
          opt-put e.write_text text i.parent_sub (put_fields e (named_fields parent) out)
              (λ a x. refl),
        )
        (ap (λ (x : W). ok x)
          (sym (put_fields-append e (named_fields parent) (opt_field text i.parent_sub) out)))

  -- An item is written as its fields.
  pub encode_item-put :
      (i : Item) (parent : TypePtr) (out : W)
      → wire_parent branches i.parent ≡ some parent
      → IsNamed parent
      → encode_item e branches i out ≡ ok (put_fields e (item_fields parent i) out)
  unfolding encode_item
  encode_item-put i parent out w h =
      let out₁ = e.write_info (item_info i) out in
      let origin = opt_field left_id i.origin in
      let right_origin = opt_field right_id i.right_origin in
      let place = place_fields (has_no_origin (item_info i)) parent i in
      let out₂ = put_fields e origin out₁ in
      let out₃ = put_fields e right_origin out₂ in
      let out₄ = put_fields e place out₃ in
      rw
        (
          encode_item,
          opt-put e.write_left_id left_id i.origin out₁ (λ a x. refl),
          opt-put e.write_right_id right_id i.right_origin out₂ (λ a x. refl),
          place-put (has_no_origin (item_info i)) i parent out₃ w h,
          encode_content-put e i.content out₄,
        )
        (ap (λ (x : W). ok x)
          (sym (
            put_fields-append e origin _ out₁
            ∙ put_fields-append e right_origin _ out₂
            ∙ put_fields-append e place (content_fields i.content) out₃)))
