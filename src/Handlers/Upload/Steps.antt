-- ===== src/Handlers/Upload/Steps.antt =====
-- The parts of app/src/utils/buffer_upload.rs: what the accessor finds in the buffer behind each.
use ledger_avalanche.Prelude.{
  ℕ, ◌+◌, ◌≤◌, ◌≡◌, refl, sym, ap, subst, ◌∙◌, false, some, none, [], ◌∷◌, ◌++◌, Bytes, length,
  length-append, take, drop, get_elem?, ltb, arith,
}
use ledger_avalanche.Errors.{Result, ok, map_err, apdu_unwrap}
use ledger_avalanche.Handlers.Apdu.{reader_payload}
use ledger_avalanche.Handlers.Lock.{lock_lem, acquire_held}
use ledger_avalanche.Handlers.Upload.{
  BufferAccessors, accessors, Storage, UploaderError, UploaderOutput, Shared, Action, continue,
  lock_result, nvm, ◌>>◌, lock_buffer, acquire_buffer, reset_buffer, write_buffer, set_init_len,
  if_payload, read_output, upload_init, upload_next, upload_last,
}

-- What a reader gives: the two parameters, and the payload.
pub record Packet (values : ℕ) (inner : Bytes) (p1 p2 : ℕ) (payload : Bytes) : Type 0 where
  pub p1_is : get_elem? inner 2 ≡ some p1
  pub p2_is : get_elem? inner 3 ≡ some p2
  pub payload_is : reader_payload values inner ≡ ok payload

-- The accessor holds the buffer, in which these bytes are.
pub record Holds {st : Storage} (a : BufferAccessors) (n : ℕ) (bs : Bytes) (s : Shared st)
    : Type 0 where
  pub held : s.buffer.lock ≡ some a
  pub first_length : s.init_len ≡ n
  pub contents : st.read_exact s.buffer.item ≡ bs

-- The output for the bytes behind the parameter.
abbrev pub output : BufferAccessors → ℕ → ℕ → Bytes → UploaderOutput
output a n p2 rest = record { p2 = p2; first = take n rest; data_bytes = drop n rest; accessor = a }

module _ {st : Storage} where
  -- The action returns `x`, in a state with `P`.
  pub record Does {X : Type 0} (x : X) (P : Shared st → Type 0)
      (r : Shared st × Result (UploaderError st.NvmError) X) : Type 0 where
    pub returned : r.1 ≡ ok x
    pub after : P r.0

  pub Does-bind :
      {X Y : Type 0} {P Q : Shared st → Type 0} {x : X} {y : Y}
      {r : Shared st × Result (UploaderError st.NvmError) X} (f : X → Action st Y)
      → Does x P r
      → ((t : Shared st) → P t → Does y Q (f x t))
      → Does y Q (continue f r.0 r.1)
  unfolding continue
  Does-bind {Q} {y} {r} f h k =
      subst (λ o. Does y Q (continue f r.0 o)) (sym h.returned) (k r.0 h.after)

  pub Does-ok :
      {X : Type 0} {P : Shared st → Type 0} {x : X} {s : Shared st} → P s → Does x P (s, ok x)
  Does-ok h = record { returned = refl; after = h }

  pub Does-weaken :
      {X : Type 0} {P Q : Shared st → Type 0} {x : X}
      {r : Shared st × Result (UploaderError st.NvmError) X}
      → Does x P r
      → ((t : Shared st) → P t → Q t)
      → Does x Q r
  Does-weaken {r} h k = record { returned = h.returned; after = k r.0 h.after }

  lift-Does :
      {X : Type 0} {P : Shared st → Type 0} {x : X} {r : Result (UploaderError st.NvmError) X}
      (s : Shared st)
      → r ≡ ok x
      → P s
      → Does x P (s, r)
  lift-Does s e h = record { returned = e; after = h }

  pub lock-Does :
      (a : BufferAccessors) (s : Shared st)
      → Does tt (λ t. t.buffer.lock ≡ some a) (lock_buffer a s)
  unfolding lock_buffer
  lock-Does a s =
      subst
        (λ l. Does tt (λ t. t.buffer.lock ≡ some a) (record s { buffer = l.0 }, lock_result l.1))
        (sym (lock_lem accessors s.buffer a)) (Does-ok refl)

  pub acquire-Does :
      {a : BufferAccessors} {n : ℕ} {bs : Bytes} (s : Shared st)
      → Holds a n bs s
      → Does tt (Holds a n bs) (acquire_buffer a s)
  unfolding acquire_buffer
  acquire-Does {a} {n} {bs} s h =
      subst (λ r. Does tt (Holds a n bs) (s, lock_result r))
        (sym (acquire_held accessors s.buffer a h.held)) (Does-ok h)

  pub write-Does :
      {a : BufferAccessors} {n : ℕ} {bs : Bytes} (more : Bytes) (s : Shared st)
      → length bs + length more ≤ st.capacity
      → Holds a n bs s
      → Does tt (Holds a n (bs ++ more)) (write_buffer more s)
  unfolding write_buffer
  write-Does {bs} more s room h =
      let (written, fine) =
        st.write_fits s.buffer.item more (omega (arith, ap length h.contents, room)) in
      record {
        returned = ap (map_err nvm) fine;
        after = record {
          held = h.held;
          first_length = h.first_length;
          contents = written ∙ ap (λ b. b ++ more) h.contents;
        };
      }

  reset-Does :
      {a : BufferAccessors} (s : Shared st)
      → s.buffer.lock ≡ some a
      → Does tt (Holds a s.init_len []) (reset_buffer s)
  unfolding reset_buffer
  reset-Does s h =
      Does-ok (record { held = h; first_length = refl; contents = st.reset_empties s.buffer.item })

  set_init_len-Does :
      {a : BufferAccessors} {n : ℕ} {bs : Bytes} (m : ℕ) (s : Shared st)
      → Holds a n bs s
      → Does tt (Holds a m bs) (set_init_len m s)
  unfolding set_init_len
  set_init_len-Does m s h =
      Does-ok (record { held = h.held; first_length = refl; contents = h.contents })

  if_payload-Does :
      {Q : Shared st → Type 0} {values : ℕ} {inner : Bytes} {p1 p2 : ℕ} {payload : Bytes}
      (k : Bytes → Action st (Unit {0})) (s : Shared st)
      → Packet values inner p1 p2 payload
      → Does tt Q (k payload s)
      → Does tt Q (if_payload (reader_payload values inner) k s)
  unfolding if_payload
  if_payload-Does {Q} k s packet h =
      subst (λ r. Does tt Q (if_payload r k s)) (sym packet.payload_is) h

  abbrev first_payload : Bytes → Action st (Unit {0})
  first_payload payload = set_init_len (length payload) >> write_buffer payload

  module _ (values : ℕ) (a : BufferAccessors) where
    pub upload_init-Does :
        {inner : Bytes} {p1 p2 : ℕ} {payload : Bytes} (s : Shared st)
        → Packet values inner p1 p2 payload
        → 1 + length payload ≤ st.capacity
        → Does none (Holds a (length payload) (p2 ∷ payload)) (upload_init values a inner s)
    unfolding upload_init
    upload_init-Does {inner} {p2} {payload} s packet room = Does-bind _ (lock-Does a s) λ t held.
        Does-bind _ (reset-Does t held) λ u start.
          Does-bind _ (lift-Does {P = Holds a t.init_len []} u (ap apdu_unwrap packet.p2_is) start)
            λ v h₀. Does-bind _ (write-Does {bs = []} (p2 ∷ []) v (omega (arith, room)) h₀) λ w h.
              Does-bind _
                (if_payload-Does first_payload w packet (
                  Does-bind _ (set_init_len-Does (length payload) w h)
                    λ x h₁. write-Does payload x (omega (arith, room)) h₁))
                λ _ done. Does-ok done

    pub upload_next-Does :
        {inner : Bytes} {p1 p2 n : ℕ} {payload bs : Bytes} (s : Shared st)
        → Packet values inner p1 p2 payload
        → Holds a n bs s
        → length bs + length payload ≤ st.capacity
        → Does none (Holds a n (bs ++ payload)) (upload_next values a inner s)
    unfolding upload_next
    upload_next-Does {payload} s packet h room = Does-bind _ (acquire-Does s h) λ t held.
        Does-bind _ (if_payload-Does write_buffer t packet (write-Does payload t room held))
          λ u done. Does-ok done

    read_output-Does :
        {n p2 : ℕ} {rest : Bytes} (s : Shared st)
        → Holds a n (p2 ∷ rest) s
        → n ≤ length rest
        → Does (some (output a n p2 rest)) (Holds a n (p2 ∷ rest)) (read_output a s)
    unfolding read_output
    read_output-Does s h room = record {
      returned = rw (h.contents, h.first_length, in_range room);
      after = h;
    }
      where
        in_range : {n m : ℕ} → n ≤ m → ltb m n ≡ false
        in_range h = ground arith

    pub upload_last-Does :
        {inner : Bytes} {p1 p2 p n : ℕ} {payload rest : Bytes} (s : Shared st)
        → Packet values inner p1 p payload
        → Holds a n (p2 ∷ rest) s
        → 1 + length rest + length payload ≤ st.capacity
        → n ≤ length rest
        → Does
            (some (output a n p2 (rest ++ payload)))
            (Holds a n (p2 ∷ rest ++ payload))
            (upload_last values a inner s)
    unfolding upload_last
    upload_last-Does {payload} {rest} s packet h room inside =
        Does-bind _ (acquire-Does s h) λ t held.
          Does-bind _
            (if_payload-Does write_buffer t packet
              (write-Does payload t (omega (arith, room)) held))
            λ u done. read_output-Does u done (omega (arith, length-append rest payload, inside))
