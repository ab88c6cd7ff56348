-- ===== src/Sync/Protocol/Handle/Safety.antt =====
-- What any payload, well formed or not, can do to a peer of sync/protocol.rs.
use crdt_probe.Prelude.{
  ℕ, zero, suc, ◌≡◌, refl, Bool, true, false, none, some, List, [], ◌∷◌, ◌++◌, if◌then◌else◌, inl,
  inr, ◌⊎◌, length, subst, sym, ◌==◌,
}
use crdt_probe.Prelude.Maps.{IsMap, insert-IsMap}
use crdt_probe.Encoding.Result.{
  Result, ok, err, fault, Error, invalid_var_int, unexpected_value, not_enough_memory, invalid_json,
  end_of_buffer, type_mismatch, Fault, ◌>>=◌,
}
use crdt_probe.Encoding.Io.{Read, cursor_read, Cursor}
use crdt_probe.Encoding.VarInt.{read_var_narrow, read_var_u32, read_var_u64}
use crdt_probe.Encoding.Fixed.{read_buf, read_string}
use crdt_probe.Sync.Awareness.{AwarenessUpdate}
use crdt_probe.Sync.Awareness.Receive.{
  decode_clients, decode_update, apply_update, Tables, has_room,
}
use crdt_probe.Sync.Awareness.Receive.Local.{IsPresent, receive_update, Step-IsPresent}
use crdt_probe.Sync.Protocol.{
  Message, sync, sync_step1, sync_step2, sync_update, auth, awareness_query, awareness, custom,
  new_cursor, decode_v1, decode_sync, decode_auth, decode_message,
}
use crdt_probe.Sync.Protocol.Handle.{
  DocOps, Next, next, item, ended, refused, broken, classify, Peer, Handled, Answer, reply, refuse,
  crash, proceed, with_update, handle_message, handle_loop, handle,
}
use crdt_probe.Sync.Protocol.Handle.Batch.{loop_ended, loop_item, loop_refused, loop_broken}

-- A predicate of what is decoded, if anything is.
abbrev Decodes : {A : Type 0} → (A → Type 0) → Result A → Type 0
Decodes P (ok a) = P a
Decodes P (err e) = Unit
Decodes P (fault f) = Unit

Decodes-then :
    {A B : Type 0} (Q : A → Type 0) (P : B → Type 0) (m : Result A) (f : A → Result B)
    → Decodes Q m
    → ((a : A) → Q a → Decodes P (f a))
    → Decodes P (m >>= f)
Decodes-then Q P (ok a) f d h = h a d
Decodes-then Q P (err e) f d h = tt
Decodes-then Q P (fault e) f d h = tt

Decodes-bind :
    {A B : Type 0} (P : B → Type 0) (m : Result A) (f : A → Result B)
    → ((a : A) → Decodes P (f a))
    → Decodes P (m >>= f)
Decodes-bind P (ok a) f h = h a
Decodes-bind P (err e) f h = tt
Decodes-bind P (fault e) f h = tt

Decodes-if :
    {A : Type 0} (P : A → Type 0) (b : Bool) (m n : Result A)
    → Decodes P m
    → Decodes P n
    → Decodes P (if b then m else n)
Decodes-if P true m n h k = h
Decodes-if P false m n h k = k

-- The clients of an update that was received are all different.
abbrev IsReceived : Message → Type 0
IsReceived (awareness u) = IsMap u
IsReceived (sync msg) = Unit
IsReceived (auth reason) = Unit
IsReceived awareness_query = Unit
IsReceived (custom tag bytes) = Unit

module _ {R : Type 0} ⦃i : Read R⦄ where
  decode_clients-IsMap :
      (n : ℕ) (u : AwarenessUpdate) (r : R)
      → IsMap u
      → Decodes (λ x. IsMap x.0) (decode_clients n u r)
  unfolding decode_clients
  decode_clients-IsMap zero u r h = h
  decode_clients-IsMap (suc n) u r h = Decodes-bind _ (read_var_u64 r) _ (λ (c, r₁).
      Decodes-bind _ (read_var_u32 r₁) _ (λ (k, r₂).
        Decodes-bind _ (read_string r₂) _
          (λ (s, r₃). decode_clients-IsMap n _ r₃ (insert-IsMap u _ _ h))))

  decode_update-IsMap : ⦃t : Tables⦄ (r : R) → Decodes (λ x. IsMap x.0) (decode_update r)
  unfolding decode_update
  decode_update-IsMap r =
      Decodes-bind _ (read_var_u64 r) _
        (λ (n, r₁). Decodes-if _ (has_room n) _ _ (decode_clients-IsMap n [] r₁ tt) tt)

buffer-IsMap : ⦃t : Tables⦄ (buf : List ℕ) → Decodes IsMap (decode_v1 decode_update buf)
buffer-IsMap buf =
    Decodes-then (λ x. IsMap x.0) IsMap (decode_update (new_cursor buf)) _
      (decode_update-IsMap (new_cursor buf)) (λ x h. h)

module _ {R : Type 0} ⦃i : Read R⦄ where
  decode_message-IsReceived :
      ⦃t : Tables⦄ (r : R) → Decodes (λ x. IsReceived x.0) (decode_message r)
  unfolding decode_message
  decode_message-IsReceived r = Decodes-bind _ (read_var_narrow 8 r) _ (λ (tag, r₁).
      Decodes-if _ (tag == 0) _ _ (Decodes-bind _ (decode_sync r₁) _ (λ x. tt)) (
        Decodes-if _ (tag == 1) _ _
          (Decodes-bind _ (read_buf r₁) _ (λ (buf, r₂).
            Decodes-then IsMap _ (decode_v1 decode_update buf) _ (buffer-IsMap buf) (λ u h. h)))
          (Decodes-if _ (tag == 2) _ _ (Decodes-bind _ (decode_auth r₁) _ (λ x. tt))
            (Decodes-if _ (tag == 3) _ _ tt (Decodes-bind _ (read_buf r₁) _ (λ x. tt))))))

-- The ways that the iterator can go on.
abbrev Received : Next Cursor → Type 0
Received (item m c) = IsReceived m
Received ended = Unit
Received (refused e) = Unit
Received (broken f) = Unit

classify-Received :
    (x : Result (Message × Cursor)) → Decodes (λ y. IsReceived y.0) x → Received (classify x)
unfolding classify
classify-Received (ok (m, c)) h = h
classify-Received (err invalid_var_int) h = tt
classify-Received (err unexpected_value) h = tt
classify-Received (err not_enough_memory) h = tt
classify-Received (err invalid_json) h = tt
classify-Received (err (end_of_buffer n)) h = tt
classify-Received (err (type_mismatch s)) h = tt
classify-Received (err (Error.custom s)) h = tt
classify-Received (fault f) h = tt

next-Received : ⦃t : Tables⦄ (c : Cursor) → Received (next c)
unfolding next
next-Received c = classify-Received (decode_message c) (decode_message-IsReceived c)

Next-cases :
    (n : Next Cursor)
    → (n ≡ ended)
      ⊎ (((e : Error) × (n ≡ refused e))
          ⊎ (((f : Fault) × (n ≡ broken f)) ⊎ ((m : Message) × (c : Cursor) × (n ≡ item m c))))
Next-cases ended = inl refl
Next-cases (refused e) = inr (inl (e, refl))
Next-cases (broken f) = inr (inr (inl (f, refl)))
Next-cases (item m c) = inr (inr (inr (m, c, refl)))

module _ ⦃t : Tables⦄ {D U : Type 0} (ops : DocOps D U) (now : ℕ) where
  abbrev Keeps : {A : Type 0} → Peer D × A → Type 0
  Keeps x = IsPresent x.0.aware

  with_update-Keeps :
      (x : Result U) (handler : U → Peer D → Peer D × Answer) (p : Peer D)
      → ((u : U) → (handler u p).0.aware ≡ p.aware)
      → IsPresent p.aware
      → Keeps (with_update ops now x handler p)
  with_update-Keeps (ok u) handler p same h = subst IsPresent (sym (same u)) h
  with_update-Keeps (err e) handler p same h = h
  with_update-Keeps (fault f) handler p same h = h

  handle_message-Keeps :
      (m : Message) (p : Peer D)
      → IsReceived m
      → IsPresent p.aware
      → Keeps (handle_message ops now m p)
  unfolding handle_message apply_update
  handle_message-Keeps (sync (sync_step1 sv)) p r h = h
  handle_message-Keeps (sync (sync_step2 bytes)) p r h =
      with_update-Keeps (ops.decode_update_v1 bytes) _ p (λ u. refl) h
  handle_message-Keeps (sync (sync_update bytes)) p r h =
      with_update-Keeps (ops.decode_update_v1 bytes) _ p (λ u. refl) h
  handle_message-Keeps (auth none) p r h = h
  handle_message-Keeps (auth (some reason)) p r h = h
  handle_message-Keeps awareness_query p r h = h
  handle_message-Keeps (awareness u) p r h = Step-IsPresent (receive_update _ now u p.aware r) h
  handle_message-Keeps (custom tag bytes) p r h = h

  proceed-Keeps :
      (x : Peer D × Answer) (replies : List Message)
      (rest : Peer D → List Message → Peer D × Handled)
      → Keeps x
      → ((q : Peer D) (l : List Message) → IsPresent q.aware → Keeps (rest q l))
      → Keeps (proceed x replies rest)
  proceed-Keeps (p, reply none) replies rest h k = k p replies h
  proceed-Keeps (p, reply (some m)) replies rest h k = k p (replies ++ m ∷ []) h
  proceed-Keeps (p, refuse e) replies rest h k = h
  proceed-Keeps (p, crash f) replies rest h k = h

  loop-Keeps :
      (rounds : ℕ) (c : Cursor) (p : Peer D) (replies : List Message)
      → IsPresent p.aware
      → Keeps (handle_loop ops now rounds c p replies)
  unfolding handle_loop
  loop-Keeps zero c p replies h = h
  loop-Keeps (suc rounds) c p replies h = elim (Next-cases (next c)) [
    | inl e ↦ subst Keeps (sym (loop_ended ops now rounds c p replies e)) h
    | inr (inl (x, e)) ↦ subst Keeps (sym (loop_refused ops now rounds c x p replies e)) h
    | inr (inr (inl (x, e))) ↦ subst Keeps (sym (loop_broken ops now rounds c x p replies e)) h
    | inr (inr (inr (m, c', e))) ↦ subst Keeps (sym (loop_item ops now rounds c c' m p replies e)) (
        proceed-Keeps (handle_message ops now m p) replies _
          (handle_message-Keeps m p (subst Received e (next-Received c)) h)
          (λ q l k. loop-Keeps rounds c' q l k))
  ]

  -- Whatever bytes a remote side sends, well formed or not, a peer that has data in its own
  -- awareness state has data there afterwards, also where the payload is refused half-way; an
  -- entry for its own client may replace the data but not take it away.
  pub handle-IsPresent :
      (bytes : List ℕ) (p : Peer D) → IsPresent p.aware → IsPresent (handle ops now bytes p).0.aware
  unfolding handle
  handle-IsPresent bytes p h = loop-Keeps (suc (length bytes)) (new_cursor bytes) p [] h
