-- ===== src/Handlers/Upload.antt =====
-- app/src/utils/buffer_upload.rs, with `ZPacketType` of app/src/handlers/utils.rs and the accessors of
-- app/src/handlers.rs: a payload that the host sends in several packets, gathered in a shared buffer.
pub mod Steps
pub mod Session
pub mod Guards
pub mod Safety
use ledger_avalanche.Prelude.{
  ℕ, ◌+◌, ◌-◌, ◌≤◌, ◌<◌, ◌≡◌, refl, Bool, true, false, ◌&&◌, not, Option, some, none, [], ◌∷◌, ◌++◌,
  Bytes, length, take, drop, get_elem?, ltb, ◌==◌, if◌then◌else◌, arith,
}
use ledger_avalanche.Errors.{Result, ok, err, panic, map_err, apdu_unwrap}
use ledger_avalanche.Handlers.Apdu.{
  ApduBufferReadError, ApduError, invalid_p1p2, data_invalid, execution_error, reader_payload,
}
use ledger_avalanche.Handlers.Apdu
use ledger_avalanche.Handlers.Lock.{
  EqTest, Lock, LockError, not_locked, busy, bad_id, lock, acquire, release,
}

pub data ZPacketType : Type 0 where
  init add last : ZPacketType

unfoldable pub packet_type_try_from : ℕ → Result (Unit {0}) ZPacketType
packet_type_try_from from =
    if from == 0
    then ok init
    else if from == 1
    then ok add
    else if from == 2
    then ok last
    else err tt

unfoldable pub is_init : ZPacketType → Bool
is_init init = true
is_init _ = false

unfoldable pub is_last : ZPacketType → Bool
is_last last = true
is_last _ = false

unfoldable pub is_next : ZPacketType → Bool
unfolding is_init is_last
is_next packet = not (is_init packet) && not (is_last packet)

-- Without the feature dev.
pub data BufferAccessors : Type 0 where
  sign eth_sign sign_hash sign_msg eth_sign_msg : BufferAccessors

-- The derived `PartialEq`.
unfoldable pub same_accessor : BufferAccessors → BufferAccessors → Bool
same_accessor sign sign = true
same_accessor eth_sign eth_sign = true
same_accessor sign_hash sign_hash = true
same_accessor sign_msg sign_msg = true
same_accessor eth_sign_msg eth_sign_msg = true
same_accessor _ _ = false

pub accessor_refl : (a : BufferAccessors) → same_accessor a a ≡ true
unfolding same_accessor
accessor_refl sign = refl
accessor_refl eth_sign = refl
accessor_refl sign_hash = refl
accessor_refl sign_msg = refl
accessor_refl eth_sign_msg = refl

pub accessor_eq : (a b : BufferAccessors) → same_accessor a b ≡ true → a ≡ b
unfolding same_accessor
accessor_eq a b h = ground arith

abbrev pub accessors : EqTest BufferAccessors
accessors = record { test = same_accessor; test_refl = accessor_refl; test_eq = accessor_eq }

-- bolos's `SwappingBuffer`: a store of bytes that are appended to, up to a capacity.
pub record Storage : Type 1 where
  pub Buffer : Type 0
  pub NvmError : Type 0
  pub capacity : ℕ
  pub reset : Buffer → Buffer
  pub write : Buffer → Bytes → Buffer × Result NvmError (Unit {0})
  pub read_exact : Buffer → Bytes
  pub reset_empties : (b : Buffer) → read_exact (reset b) ≡ []
  pub write_fits :
      (b : Buffer) (bs : Bytes)
      → length (read_exact b) + length bs ≤ capacity
      → (read_exact (write b bs).0 ≡ read_exact b ++ bs) × ((write b bs).1 ≡ ok tt)
  -- A write that does not fit is an error and leaves what was written.
  pub write_full :
      (b : Buffer) (bs : Bytes)
      → capacity < length (read_exact b) + length bs
      → (read_exact (write b bs).0 ≡ read_exact b) × ((e : NvmError) × ((write b bs).1 ≡ err e))

pub data UploaderError (Nvm : Type 0) : Type 0 where
  packet_type_parse_error packet_type_invalid : UploaderError Nvm
  locked : LockError → UploaderError Nvm
  nvm : Nvm → UploaderError Nvm

-- `From<LockError> for ApduError` and `From<UploaderError> for ApduError`.
unfoldable pub lock_to_apdu : LockError → ApduError
lock_to_apdu not_locked = execution_error
lock_to_apdu busy = ApduError.busy
lock_to_apdu bad_id = ApduError.busy

unfoldable pub uploader_to_apdu : {Nvm : Type 0} → UploaderError Nvm → ApduError
unfolding lock_to_apdu
uploader_to_apdu packet_type_parse_error = invalid_p1p2
uploader_to_apdu packet_type_invalid = invalid_p1p2
uploader_to_apdu (nvm _) = data_invalid
uploader_to_apdu (locked e) = lock_to_apdu e

pub record UploaderOutput : Type 0 where
  pub p2 : ℕ
  pub first : Bytes
  pub data_bytes : Bytes
  pub accessor : BufferAccessors

-- The statics `BUFFER` and `INIT_LEN`.
pub record Shared (st : Storage) : Type 0 where
  pub buffer : Lock st.Buffer BufferAccessors
  pub init_len : ℕ

-- Code that reads and writes the statics, and may fail.
abbrev pub Action : Storage → Type 0 → Type 0
Action st X = Shared st → Shared st × Result (UploaderError st.NvmError) X

-- The `?` behind a call of the lock; the resource is reached through the state.
abbrev pub lock_result :
    {Nvm T : Type 0} → Result LockError T → Result (UploaderError Nvm) (Unit {0})
lock_result (ok _) = ok tt
lock_result (err e) = err (locked e)
lock_result panic = panic

module _ {st : Storage} where
  abbrev pub lift : {X : Type 0} → Result (UploaderError st.NvmError) X → Action st X
  lift r s = (s, r)

  unfoldable pub continue :
      {X Y : Type 0}
      → (X → Action st Y)
      → Shared st
      → Result (UploaderError st.NvmError) X
      → Shared st × Result (UploaderError st.NvmError) Y
  continue f s (ok x) = f x s
  continue f s (err e) = (s, err e)
  continue f s panic = (s, panic)

  infixl 5 ◌>>=◌ ◌>>◌
  abbrev pub ◌>>=◌ : {X Y : Type 0} → Action st X → (X → Action st Y) → Action st Y
  ◌>>=◌ m f s = continue f (m s).0 (m s).1

  abbrev pub ◌>>◌ : {Y : Type 0} → Action st (Unit {0}) → Action st Y → Action st Y
  m >> k = m >>= λ _. k

  unfoldable pub lock_buffer : BufferAccessors → Action st (Unit {0})
  unfolding lock
  lock_buffer a s = (
    record s { buffer = (lock accessors s.buffer a).0 },
    lock_result (lock accessors s.buffer a).1,
  )

  unfoldable pub acquire_buffer : BufferAccessors → Action st (Unit {0})
  unfolding acquire
  acquire_buffer a s = (s, lock_result (acquire accessors s.buffer a))

  unfoldable pub reset_buffer : Action st (Unit {0})
  reset_buffer s = (record s { buffer = record s.buffer { item = st.reset s.buffer.item } }, ok tt)

  unfoldable pub write_buffer : Bytes → Action st (Unit {0})
  write_buffer bs s = (
    record s { buffer = record s.buffer { item = (st.write s.buffer.item bs).0 } },
    map_err nvm (st.write s.buffer.item bs).1,
  )

  unfoldable pub set_init_len : ℕ → Action st (Unit {0})
  set_init_len n s = (record s { init_len = n }, ok tt)

  -- `if let Ok(payload) = buffer.payload()`
  unfoldable pub if_payload :
      Result ApduBufferReadError Bytes → (Bytes → Action st (Unit {0})) → Action st (Unit {0})
  if_payload (ok payload) k = k payload
  if_payload (err _) k = lift (ok tt)
  if_payload panic k = lift panic

  -- `data[1..].split_at(INIT_LEN)` and `data[0]`; each of these panics out of range.
  unfoldable pub read_output : BufferAccessors → Action st (Option UploaderOutput)
  read_output a s = (
    s,
    elim (st.read_exact s.buffer.item) [
      | [] ↦ panic
      | p2 ∷ rest ↦
          if ltb (length rest) s.init_len
          then panic
          else ok (
              some (record {
                p2 = p2;
                first = take s.init_len rest;
                data_bytes = drop s.init_len rest;
                accessor = a;
              }))
    ],
  )

  module _ (values : ℕ) (a : BufferAccessors) where
    -- The branch of the first packet.
    unfoldable pub upload_init : Bytes → Action st (Option UploaderOutput)
    upload_init inner = do
      lock_buffer a
      reset_buffer
      p2 ← lift (apdu_unwrap (get_elem? inner 3))
      write_buffer (p2 ∷ [])
      if_payload (reader_payload values inner)
          λ payload. set_init_len (length payload) >> write_buffer payload
      lift (ok none)

    unfoldable pub upload_next : Bytes → Action st (Option UploaderOutput)
    upload_next inner = do
      acquire_buffer a
      if_payload (reader_payload values inner) write_buffer
      lift (ok none)

    unfoldable pub upload_last : Bytes → Action st (Option UploaderOutput)
    upload_last inner = do
      acquire_buffer a
      if_payload (reader_payload values inner) write_buffer
      read_output a

    -- `Uploader::upload`; `inner[i]` panics out of range.
    unfoldable pub upload : Bytes → Action st (Option UploaderOutput)
    unfolding is_init is_next is_last
    upload inner = do
      p1 ← lift (apdu_unwrap (get_elem? inner 2))
      packet_type ← lift (map_err (λ _. packet_type_parse_error) (packet_type_try_from p1))
      if is_init packet_type
          then upload_init inner
          else if is_next packet_type
          then upload_next inner
          else if is_last packet_type
          then upload_last inner
          else lift (err packet_type_invalid)

  -- `Drop for UploaderOutput`
  unfoldable pub drop_output : UploaderOutput → Shared st → Shared st
  unfolding acquire release
  drop_output output s = elim (acquire accessors s.buffer output.accessor) [
    | ok _ ↦ record s {
      buffer =
          (release accessors (record s.buffer { item = st.reset s.buffer.item }) output.accessor).0;
    }
    | _ ↦ s
  ]
