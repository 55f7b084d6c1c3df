-- ===== src/Handlers/Upload/Guards.antt =====
-- The parts of app/src/utils/buffer_upload.rs, in a state where what it slices is in range.
use ledger_avalanche.Prelude.{
  ℕ, ◌+◌, ◌≤◌, ◌<◌, ◌≡◌, ◌≢◌, refl, sym, ap, subst, ◌∙◌, Bool, true, false, some, [], ◌∷◌, Bytes,
  IsBytes, length, length-append, length-take, take, inl, inr, Bool-cases, ltb, leb, arith,
}
use ledger_avalanche.Errors.{Result, ok, err, panic, map_err}
use ledger_avalanche.Handlers.Apdu.{reader_payload}
use ledger_avalanche.Handlers.Apdu.Buffer.{reader_payload-eq}
use ledger_avalanche.Handlers.Lock.{acquire_cases}
use ledger_avalanche.Handlers.Upload.{
  BufferAccessors, sign, eth_sign, sign_hash, sign_msg, eth_sign_msg, accessors, Storage,
  UploaderError, Shared, Action, continue, packet_type_try_from, acquire_buffer, write_buffer,
  if_payload, read_output, lock_result, nvm,
}
use ledger_avalanche.Handlers.Upload.Steps.{Packet}

-- A reader of the whole buffer of 260 bytes finds its payload there, of 255 bytes at most.
pub Packet-of_reader :
    (values : ℕ) (inner : Bytes)
    → IsBytes inner
    → 260 ≤ length inner
    → length inner < values
    → (p1 : ℕ) × (p2 : ℕ) × (payload : Bytes) × Packet values inner p1 p2 payload
      × (length payload < 256)
Packet-of_reader values (c ∷ i ∷ p1 ∷ p2 ∷ plen ∷ body) bytes long wide =
    let few : plen < 256 = bytes.1.1.1.1.0 in
    let room : plen ≤ length body = omega (arith, long, few) in
    (
      p1,
      p2,
      take plen body,
      record {
        p1_is = refl;
        p2_is = refl;
        payload_is =
            reader_payload-eq values c i p1 p2 plen body (omega (arith, wide)) ∙ rw (fits room);
      },
      omega (arith, length-take plen body room, few),
    )
  where
    fits : {n m : ℕ} → n ≤ m → leb n m ≡ true
    fits h = ground arith
Packet-of_reader values (_ ∷ _ ∷ _ ∷ _ ∷ []) bytes long wide = absurd (omega (arith, long))
Packet-of_reader values (_ ∷ _ ∷ _ ∷ []) bytes long wide = absurd (omega (arith, long))
Packet-of_reader values (_ ∷ _ ∷ []) bytes long wide = absurd (omega (arith, long))
Packet-of_reader values (_ ∷ []) bytes long wide = absurd (omega (arith, long))
Packet-of_reader values [] bytes long wide = absurd (omega (arith, long))

-- The accessors that use the uploader; the others write the buffer themselves.
abbrev pub uploads : BufferAccessors → Bool
uploads sign = true
uploads sign_hash = true
uploads sign_msg = true
uploads eth_sign = false
uploads eth_sign_msg = false

-- Where an uploader holds the buffer, the first payload and the parameter are in it.
abbrev pub IsSafe : {st : Storage} → Shared st → Type 0
IsSafe {st} s =
    (a : BufferAccessors)
    → s.buffer.lock ≡ some a
    → uploads a ≡ true
    → s.init_len < length (st.read_exact s.buffer.item)

within_range : (n m : ℕ) → n ≤ m → ltb m n ≡ false
within_range n m h = ground arith

pub no_type : (p1 : ℕ) → (p1 ≢ 0) × (p1 ≢ 1) × (p1 ≢ 2) → packet_type_try_from p1 ≡ err tt
unfolding packet_type_try_from
no_type p1 h = ground arith

module _ {st : Storage} where
  -- No panic; `Q` after a success, and a safe state after an error.
  pub data Kept {X : Type 0} (Q : Shared st → Type 0) (s : Shared st)
      : Result (UploaderError st.NvmError) X → Type 0 where
    returned : {x : X} → Q s → Kept Q s (ok x)
    failed : {e : UploaderError st.NvmError} → IsSafe s → Kept Q s (err e)

  pub Kept-bind :
      {X Y : Type 0} {Q P : Shared st → Type 0} (f : X → Action st Y) (s : Shared st)
      {r : Result (UploaderError st.NvmError) X}
      → Kept P s r
      → ((x : X) → P s → Kept Q (f x s).0 (f x s).1)
      → Kept Q (continue f s r).0 (continue f s r).1
  unfolding continue
  Kept-bind f s (returned {x} h) k = k x h
  Kept-bind f s (failed h) k = failed h

  pub Kept-IsSafe :
      {X : Type 0} {s : Shared st} {r : Result (UploaderError st.NvmError) X}
      → Kept IsSafe s r
      → IsSafe s
  Kept-IsSafe (returned h) = h
  Kept-IsSafe (failed h) = h

  pub Kept-panic :
      {X : Type 0} {P : Shared st → Type 0} {s : Shared st}
      {r : Result (UploaderError st.NvmError) X}
      → Kept P s r
      → r ≢ panic
  Kept-panic (returned h) = cc
  Kept-panic (failed h) = cc

  pub record IsFilled (a : BufferAccessors) (s : Shared st) : Type 0 where
    pub held : s.buffer.lock ≡ some a
    pub filled : s.init_len < length (st.read_exact s.buffer.item)

  pub filled-IsSafe : {a : BufferAccessors} {s : Shared st} → IsFilled a s → IsSafe s
  filled-IsSafe h b e u = h.filled

  pub acquire-Kept :
      (a : BufferAccessors) (s : Shared st)
      → uploads a ≡ true
      → IsSafe s
      → Kept (IsFilled a) (acquire_buffer a s).0 (acquire_buffer a s).1
  unfolding acquire_buffer
  acquire-Kept a s u safe = elim (acquire_cases accessors s.buffer a) [
    | inl (e, r) ↦
        subst (λ o. Kept (IsFilled a) s (lock_result o)) (sym r)
          (returned (record { held = e; filled = safe a e u }))
    | inr (e, r) ↦ subst (λ o. Kept (IsFilled a) s (lock_result o)) (sym r) (failed safe)
  ]

  pub write-Kept :
      (a : BufferAccessors) (bs : Bytes) (s : Shared st)
      → IsFilled a s
      → Kept (IsFilled a) (write_buffer bs s).0 (write_buffer bs s).1
  unfolding write_buffer
  write-Kept a bs s h =
      elim (Bool-cases (ltb st.capacity (length (st.read_exact s.buffer.item) + length bs))) [
        | inl full ↦
            let (same, (e, bad)) = st.write_full s.buffer.item bs (ground arith) in
            subst (λ r. Kept (IsFilled a) (write_buffer bs s).0 (map_err nvm r)) (sym bad)
              (failed λ b _ _. omega (arith, ap length same, h.filled))
        | inr fits ↦
            let (more, fine) = st.write_fits s.buffer.item bs (ground arith) in
            subst (λ r. Kept (IsFilled a) (write_buffer bs s).0 (map_err nvm r)) (sym fine)
              (returned (record {
                held = h.held;
                filled = omega (
                  arith,
                  ap length more,
                  length-append (st.read_exact s.buffer.item) bs,
                  h.filled,
                );
              }))
      ]

  pub if_payload-Kept :
      {P : Shared st → Type 0} {values : ℕ} {inner : Bytes} {p1 p2 : ℕ} {payload : Bytes}
      (k : Bytes → Action st (Unit {0})) (s : Shared st)
      → Packet values inner p1 p2 payload
      → Kept P (k payload s).0 (k payload s).1
      → Kept P
          (if_payload (reader_payload values inner) k s).0
          (if_payload (reader_payload values inner) k s).1
  unfolding if_payload
  if_payload-Kept {P} k s packet h =
      subst (λ r. Kept P (if_payload r k s).0 (if_payload r k s).1) (sym packet.payload_is) h

  pub read_output-Kept :
      (a : BufferAccessors) (s : Shared st)
      → IsFilled a s
      → Kept IsSafe (read_output a s).0 (read_output a s).1
  unfolding read_output
  read_output-Kept a s h = read (st.read_exact s.buffer.item) refl
    where
      read :
          (bs : Bytes)
          → st.read_exact s.buffer.item ≡ bs
          → Kept IsSafe (read_output a s).0 (read_output a s).1
      read [] e = absurd (omega (arith, ap length e, h.filled))
      read (p2 ∷ rest) e =
          rw
            (
              read_output,
              e,
              within_range s.init_len (length rest) (omega (arith, ap length e, h.filled)),
            )
            (returned (filled-IsSafe h))
