-- ===== src/Links/Codec.antt =====
-- `encode_weak_link` and `decode_weak_link` of types/mod.rs.
pub mod RoundTrip
use crdt_probe.Prelude.{ℕ, ◌+◌, ◌/◌, ◌%◌, Bool, true, false, not, ◌||◌, ◌==◌, if◌then◌else◌}
use crdt_probe.Encoding.Result.{Result, ok, ◌>>=◌}
use crdt_probe.StateVector.Codec.{client_id}
use crdt_probe.Blocks.{BlockId}
use crdt_probe.Fields.{Encoder, Decoder}
use crdt_probe.Links.{
  IndexScope, relative, nested, root, Assoc, after, before, StickyIndex, LinkSource, is_root,
  is_relative, is_after, is_single,
}

-- A bit that is set, and whether it is.
abbrev pub bit : ℕ → Bool → ℕ
bit k true = k
bit k false = 0

abbrev pub has_bit : ℕ → ℕ → Bool
has_bit k flags = flags / k % 2 == 1

-- Every flag has a bit of its own.
unfoldable pub link_flags : LinkSource → ℕ
link_flags l =
    bit 1 (not (is_single l))
    + bit 32 (is_root l.quote_start.scope || is_root l.quote_end.scope)
    + bit 8 (not (is_relative l.quote_start.scope))
    + bit 16 (not (is_relative l.quote_end.scope))
    + bit 2 (is_after l.quote_start.assoc)
    + bit 4 (is_after l.quote_end.assoc)

module _ {W : Type 0} (e : Encoder W) where
  abbrev pub write_id : BlockId → W → W
  write_id id out = e.write_number id.clock (e.write_client id.client out)

  abbrev pub write_start : IndexScope → W → W
  write_start (relative id) out = write_id id out
  write_start (nested id) out = write_id id out
  write_start (root name) out = e.write_text name out

  -- The end of a single element is its start.
  abbrev pub write_end : Bool → IndexScope → W → W
  write_end single (relative id) out = if single then out else write_id id out
  write_end single (nested id) out = write_id id out
  write_end single (root name) out = e.write_text name out

  unfoldable pub encode_weak_link : LinkSource → W → W
  unfolding link_flags
  encode_weak_link l out =
      let out₁ = e.write_byte (link_flags l) (e.write_type_ref 7 out) in
      write_end (is_single l) l.quote_end.scope (write_start l.quote_start.scope out₁)

abbrev pub assoc_of : Bool → Assoc
assoc_of is_after = if is_after then after else before

module _ {R : Type 0} (d : Decoder R) where
  abbrev pub read_id : R → Result (BlockId × R)
  read_id reader = do
    (client, reader₁) ← d.read_client reader
    (clock, reader₂) ← d.read_number reader₁
    ok (record { client = client_id client; clock = clock }, reader₂)

  -- The scope of a boundary, outside all elements or at one.
  unfoldable pub read_scope : Bool → Bool → R → Result (IndexScope × R)
  read_scope true true reader = do (name, reader₁) ← d.read_text reader; ok (root name, reader₁)
  read_scope true false reader = do (id, reader₁) ← read_id reader; ok (nested id, reader₁)
  read_scope false parent_root reader = do (id, reader₁) ← read_id reader; ok (relative id, reader₁)

  unfoldable pub read_end : Bool → Bool → Bool → IndexScope → R → Result (IndexScope × R)
  unfolding read_scope
  read_end true parent_root single start reader = read_scope true parent_root reader
  read_end false parent_root true start reader = ok (start, reader)
  read_end false parent_root false start reader = read_scope false parent_root reader

  unfoldable pub decode_weak_link : R → Result (LinkSource × R)
  unfolding read_scope read_end
  decode_weak_link reader = do
    (flags, reader₁) ← d.read_byte reader
    let parent_root = has_bit 32 flags
    (start, reader₂) ← read_scope (has_bit 8 flags) parent_root reader₁
    (end, reader₃) ← read_end (has_bit 16 flags) parent_root (not (has_bit 1 flags)) start reader₂
    let quote_start : StickyIndex = record { scope = start; assoc = assoc_of (has_bit 2 flags) }
    let quote_end : StickyIndex = record { scope = end; assoc = assoc_of (has_bit 4 flags) }
    ok (record { quote_start = quote_start; quote_end = quote_end }, reader₃)
