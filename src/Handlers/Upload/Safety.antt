-- ===== src/Handlers/Upload/Safety.antt =====
-- What keeps app/src/utils/buffer_upload.rs from slicing out of range, whoever uses the buffer.
use ledger_avalanche.Prelude.{
  ℕ, zero, suc, ◌+◌, ◌≤◌, ◌<◌, ◌≡◌, ◌≢◌, sym, ap, subst, true, false, Option, some, none, Bytes,
  IsBytes, length, inl, inr, get_elem?, arith,
}
use ledger_avalanche.Errors.{Result, err, panic}
use ledger_avalanche.Handlers.Lock.{acquire_cases}
use ledger_avalanche.Handlers.Upload.{
  BufferAccessors, accessors, Storage, UploaderError, UploaderOutput, Shared, continue, upload_init,
  upload_next, upload_last, upload, packet_type_try_from, packet_type_parse_error, write_buffer,
  drop_output,
}
use ledger_avalanche.Handlers.Upload.Steps.{Packet, upload_init-Does}
use ledger_avalanche.Handlers.Upload.Session.{
  upload-init, upload-next, upload-last, drop_frees, drop_refused,
}
use ledger_avalanche.Handlers.Upload.Guards.{
  Packet-of_reader, no_type, uploads, IsSafe, Kept, returned, failed, filled-IsSafe, Kept-bind,
  acquire-Kept, write-Kept, if_payload-Kept, read_output-Kept, Kept-IsSafe, Kept-panic,
}

module _ {st : Storage} (values : ℕ) (a : BufferAccessors) (u : uploads a ≡ true) where
  upload_next-Kept :
      {inner : Bytes} {p1 p2 : ℕ} {payload : Bytes} (s : Shared st)
      → Packet values inner p1 p2 payload
      → IsSafe s
      → Kept IsSafe (upload_next values a inner s).0 (upload_next values a inner s).1
  unfolding upload_next
  upload_next-Kept {payload} s packet safe = Kept-bind _ _ (acquire-Kept a s u safe) λ _ h.
      Kept-bind _ _ (if_payload-Kept write_buffer _ packet (write-Kept a payload _ h))
        λ _ k. returned (filled-IsSafe k)

  upload_last-Kept :
      {inner : Bytes} {p1 p2 : ℕ} {payload : Bytes} (s : Shared st)
      → Packet values inner p1 p2 payload
      → IsSafe s
      → Kept IsSafe (upload_last values a inner s).0 (upload_last values a inner s).1
  unfolding upload_last
  upload_last-Kept {payload} s packet safe = Kept-bind _ _ (acquire-Kept a s u safe) λ _ h.
      Kept-bind _ _ (if_payload-Kept write_buffer _ packet (write-Kept a payload _ h))
        λ _ k. read_output-Kept a _ k

  upload_init-Kept :
      {inner : Bytes} {p1 p2 : ℕ} {payload : Bytes} (s : Shared st)
      → Packet values inner p1 p2 payload
      → 1 + length payload ≤ st.capacity
      → Kept IsSafe (upload_init values a inner s).0 (upload_init values a inner s).1
  upload_init-Kept {inner} {payload} s packet room =
      let d = upload_init-Does values a s packet room in
      subst (Kept IsSafe (upload_init values a inner s).0) (sym d.returned)
        (returned λ b _ _. omega (arith, d.after.first_length, ap length d.after.contents))

  unknown_packet :
      (inner : Bytes) {p1 : ℕ} (s : Shared st)
      → get_elem? inner 2 ≡ some p1
      → packet_type_try_from p1 ≡ err tt
      → upload values a inner s ≡ (s, err packet_type_parse_error)
  unfolding upload continue
  unknown_packet inner s e unknown = rw (e, unknown)

  pub upload-Kept :
      (inner : Bytes) (s : Shared st)
      → 256 ≤ st.capacity
      → IsBytes inner
      → 260 ≤ length inner
      → length inner < values
      → IsSafe s
      → Kept IsSafe (upload values a inner s).0 (upload values a inner s).1
  upload-Kept inner s room bytes long wide safe =
      let (p1, p2, payload, packet, few) = Packet-of_reader values inner bytes long wide in
      dispatch p1 packet few
    where
      along :
          {r : Shared st × Result (UploaderError st.NvmError) (Option UploaderOutput)}
          → upload values a inner s ≡ r
          → Kept IsSafe r.0 r.1
          → Kept IsSafe (upload values a inner s).0 (upload values a inner s).1
      along e h = subst (λ r. Kept IsSafe r.0 r.1) (sym e) h

      dispatch :
          {p2 : ℕ} {payload : Bytes} (p1 : ℕ)
          → Packet values inner p1 p2 payload
          → length payload < 256
          → Kept IsSafe (upload values a inner s).0 (upload values a inner s).1
      dispatch zero packet few =
          along (upload-init values a s packet)
            (upload_init-Kept s packet (omega (arith, few, room)))
      dispatch (suc zero) packet few =
          along (upload-next values a s packet) (upload_next-Kept s packet safe)
      dispatch (suc (suc zero)) packet few =
          along (upload-last values a s packet) (upload_last-Kept s packet safe)
      dispatch (suc (suc (suc n))) packet few =
          along
            (unknown_packet inner s packet.p1_is
              (no_type _ (omega arith, omega arith, omega arith)))
            (failed safe)

-- What may happen to the buffer: a packet for an uploader, the end of its answer, and what the other
-- handlers do, which take the buffer, put anything in it, or leave it free.
pub data Step {st : Storage} (values : ℕ) (s : Shared st) : Shared st → Type 0 where
  uploaded :
      (a : BufferAccessors) (inner : Bytes)
      → uploads a ≡ true
      → IsBytes inner
      → 260 ≤ length inner
      → length inner < values
      → Step values s (upload values a inner s).0
  dropped : (o : UploaderOutput) → Step values s (drop_output o s)
  taken_elsewhere :
      (b : BufferAccessors) (item : st.Buffer)
      → uploads b ≡ false
      → Step values s (record s { buffer = record { item = item; lock = some b } })
  freed_elsewhere :
      (item : st.Buffer) → Step values s (record s { buffer = record { item = item; lock = none } })

-- From a free buffer, as `BUFFER` is initialised.
pub data Reach {st : Storage} (values : ℕ) : Shared st → Type 0 where
  start :
      (item : st.Buffer) (n : ℕ)
      → Reach values (record { buffer = record { item = item; lock = none }; init_len = n })
  next : {s t : Shared st} → Reach values s → Step values s t → Reach values t

module _ {st : Storage} (values : ℕ) (room : 256 ≤ st.capacity) where
  drop-IsSafe : (o : UploaderOutput) (s : Shared st) → IsSafe s → IsSafe (drop_output o s)
  drop-IsSafe o s safe = elim (acquire_cases accessors s.buffer o.accessor) [
    | inl (held, _) ↦ λ a e _. absurd (freed (drop_frees o s held).0 e)
    | inr (_, refused) ↦ subst IsSafe (sym (drop_refused o s refused)) safe
  ]
    where
      freed : {l : Option BufferAccessors} {a : BufferAccessors} → l ≡ none → l ≡ some a → ⊥
      freed h k = cc

  Step-IsSafe : {s t : Shared st} → Step values s t → IsSafe s → IsSafe t
  Step-IsSafe (uploaded a inner u bytes long wide) safe =
      Kept-IsSafe (upload-Kept values a u inner _ room bytes long wide safe)
  Step-IsSafe (dropped o) safe = drop-IsSafe o _ safe
  Step-IsSafe (taken_elsewhere b item other) safe = λ a e u. ground arith
  Step-IsSafe (freed_elsewhere item) safe = λ a e u. cc

  Reach-IsSafe : {s : Shared st} → Reach values s → IsSafe s
  Reach-IsSafe (start item n) = λ a e u. cc
  Reach-IsSafe (next r step) = Step-IsSafe step (Reach-IsSafe r)

  -- The buffer holds 256 bytes at least, was free at first, and has since seen packets for
  -- uploaders, each of bytes, of 260 of them at least and of fewer than `usize` has values, the
  -- ends of their answers, and other handlers, which take the buffer only by an accessor that is
  -- not an uploader's, or free it. Then a further such packet for an uploader does not panic.
  pub upload-ne-panic :
      {s : Shared st} (a : BufferAccessors) (inner : Bytes)
      → Reach values s
      → uploads a ≡ true
      → IsBytes inner
      → 260 ≤ length inner
      → length inner < values
      → (upload values a inner s).1 ≢ panic
  upload-ne-panic {s} a inner reach u bytes long wide =
      Kept-panic (upload-Kept values a u inner s room bytes long wide (Reach-IsSafe reach))
