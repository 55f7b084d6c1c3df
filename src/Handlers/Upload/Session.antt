-- ===== src/Handlers/Upload/Session.antt =====
-- A transfer in app/src/utils/buffer_upload.rs: a first packet, further ones, and the last.
use ledger_avalanche.Prelude.{
  ℕ, ◌+◌, ◌≤◌, ◌≡◌, refl, sym, ap, subst, ◌∙◌, Option, some, none, List, [], ◌∷◌, ◌++◌, Bytes,
  length, length-append, take-append_length, drop-append_length, flatten, append_assoc, arith,
}
use ledger_avalanche.Errors.{ok, err}
use ledger_avalanche.Handlers.Lock.{Lock, LockError, acquire, acquire_held, release_held}
use ledger_avalanche.Handlers.Upload.{
  BufferAccessors, accessors, Storage, UploaderOutput, Shared, Action, continue, ◌>>=◌, upload_init,
  upload_next, upload_last, upload, packet_type_try_from, drop_output,
}
use ledger_avalanche.Handlers.Upload.Steps.{
  Packet, Holds, Does, Does-bind, Does-weaken, output, upload_init-Does, upload_next-Does,
  upload_last-Does,
}

-- The payloads of the packets between the first and the last.
abbrev pub AreNext : ℕ → List Bytes → List Bytes → Type 0
AreNext values [] [] = Unit
AreNext values (inner ∷ inners) (payload ∷ payloads) =
    ((p2 : ℕ) × Packet values inner 1 p2 payload) × AreNext values inners payloads
AreNext values _ _ = ⊥

regroup : (x y z w : Bytes) → (x ++ y) ++ (z ++ w) ≡ x ++ ((y ++ z) ++ w)
regroup x y z w = simp append_assoc

module _ {st : Storage} where
  pub drop_frees :
      (o : UploaderOutput) (s : Shared st)
      → s.buffer.lock ≡ some o.accessor
      → ((drop_output o s).buffer.lock ≡ none) × (st.read_exact (drop_output o s).buffer.item ≡ [])
  unfolding drop_output
  drop_frees o s h =
      rw
        (
          drop_output,
          acquire_held accessors s.buffer o.accessor h,
          release_held accessors (emptied s) o.accessor h,
        )
        (refl, st.reset_empties s.buffer.item)
    where
      emptied : Shared st → Lock st.Buffer BufferAccessors
      emptied s = record s.buffer { item = st.reset s.buffer.item }

  pub drop_refused :
      {e : LockError} (o : UploaderOutput) (s : Shared st)
      → acquire accessors s.buffer o.accessor ≡ err e
      → drop_output o s ≡ s
  unfolding drop_output
  drop_refused o s h = rw (drop_output, h)

module _ {st : Storage} (values : ℕ) (a : BufferAccessors) where
  -- The packets that the host sends behind the first, one after the other until one fails, and the
  -- answer to the last of these.
  abbrev pub upload_rest : List Bytes → Bytes → Action st (Option UploaderOutput)
  upload_rest [] final = upload values a final
  upload_rest (inner ∷ inners) final = upload values a inner >>= λ _. upload_rest inners final

  abbrev pub upload_session : Bytes → List Bytes → Bytes → Action st (Option UploaderOutput)
  upload_session inner inners final = upload values a inner >>= λ _. upload_rest inners final

  module _ {inner : Bytes} {p2 : ℕ} {payload : Bytes} (s : Shared st) where
    pub upload-init :
        Packet values inner 0 p2 payload → upload values a inner s ≡ upload_init values a inner s
    unfolding upload packet_type_try_from continue
    upload-init packet = rw packet.p1_is

    pub upload-next :
        Packet values inner 1 p2 payload → upload values a inner s ≡ upload_next values a inner s
    unfolding upload packet_type_try_from continue
    upload-next packet = rw packet.p1_is

    pub upload-last :
        Packet values inner 2 p2 payload → upload values a inner s ≡ upload_last values a inner s
    unfolding upload packet_type_try_from continue
    upload-last packet = rw packet.p1_is

  upload_rest-Does :
      {n p2 p : ℕ} {rest payload final : Bytes} (inners payloads : List Bytes) (s : Shared st)
      → AreNext values inners payloads
      → Packet values final 2 p payload
      → 1 + length rest + (length (flatten payloads) + length payload) ≤ st.capacity
      → n ≤ length rest
      → Holds a n (p2 ∷ rest) s
      → Does
          (some (output a n p2 (rest ++ (flatten payloads ++ payload))))
          (λ t. t.buffer.lock ≡ some a)
          (upload_rest inners final s)
  upload_rest-Does {n} {p2} {rest} {payload} [] [] s next packet room inside h =
      subst (Does (some (output a n p2 (rest ++ payload))) (λ t. t.buffer.lock ≡ some a))
        (sym (upload-last s packet))
        (Does-weaken (upload_last-Does values a s packet h (omega (arith, room)) inside)
          λ t k. k.held)
  upload_rest-Does {n} {p2} {rest} {payload} {final} (inner ∷ inners) (p₁ ∷ payloads) s
        ((_, first), next) packet room inside h =
      subst
        (λ bs.
          Does (some (output a n p2 bs)) (λ t. t.buffer.lock ≡ some a)
            (upload_rest (inner ∷ inners) final s))
        (regroup rest p₁ (flatten payloads) payload)
        (Does-bind (λ _. upload_rest inners final)
          (subst (Does none (Holds a n (p2 ∷ rest ++ p₁))) (sym (upload-next s first))
            (upload_next-Does values a s first h (omega (arith, room, lengths, lengths₂))))
          λ t k.
            upload_rest-Does inners payloads t next packet (omega (arith, room, lengths, lengths₂))
              (omega (arith, inside, lengths)) k)
    where
      lengths : length (rest ++ p₁) ≡ length rest + length p₁
      lengths = length-append rest p₁

      lengths₂ : length (p₁ ++ flatten payloads) ≡ length p₁ + length (flatten payloads)
      lengths₂ = length-append p₁ (flatten payloads)
  upload_rest-Does [] (_ ∷ _) s next packet room inside h = absurd next
  upload_rest-Does (_ ∷ _) [] s next packet room inside h = absurd next

  -- If the payloads with the parameter fit the buffer, then in whatever state it is found (even held by
  -- another accessor) the last packet is answered with the first packet's parameter, the first payload,
  -- and the other payloads put together; and once the answer is dropped the buffer is free and empty.
  pub upload_session_lem :
      {p2 p : ℕ} {inner₀ payload₀ final payload : Bytes} (inners payloads : List Bytes)
      (s : Shared st)
      → Packet values inner₀ 0 p2 payload₀
      → AreNext values inners payloads
      → Packet values final 2 p payload
      → 1 + length payload₀ + (length (flatten payloads) + length payload) ≤ st.capacity
      → (o : UploaderOutput) × (o ≡ record {
        p2 = p2;
        first = payload₀;
        data_bytes = flatten payloads ++ payload;
        accessor = a;
      })
        × ((upload_session inner₀ inners final s).1 ≡ ok (some o))
        × ((drop_output o (upload_session inner₀ inners final s).0).buffer.lock ≡ none)
        × (st.read_exact (drop_output o (upload_session inner₀ inners final s).0).buffer.item ≡ [])
  upload_session_lem {p2} {payload₀} {payload} inners payloads s packet₀ next packet room =
      let out : UploaderOutput = record {
        p2 = p2;
        first = payload₀;
        data_bytes = flatten payloads ++ payload;
        accessor = a;
      } in
      let whole =
        Does-bind _
          (subst (Does none (Holds a (length payload₀) (p2 ∷ payload₀)))
            (sym (upload-init s packet₀))
            (upload_init-Does values a s packet₀ (omega (arith, room))))
          λ t k. upload_rest-Does inners payloads t next packet room (omega arith) k in
      let (free, empty) = drop_frees out _ whole.after in
      (out, refl, whole.returned ∙ ap (λ o. ok (some o)) split, free, empty)
    where
      split : output a (length payload₀) p2 (payload₀ ++ (flatten payloads ++ payload)) ≡ record {
        p2 = p2;
        first = payload₀;
        data_bytes = flatten payloads ++ payload;
        accessor = a;
      }
      split = rw (take-append_length, drop-append_length)
