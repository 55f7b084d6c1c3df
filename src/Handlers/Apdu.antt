-- ===== src/Handlers/Apdu.antt =====
-- app/src/constants.rs, app/src/utils/apdu_wrapper.rs and app/src/dispatcher.rs: the buffer that the
-- host fills, the choice of the handler, and the status word in the answer.
pub mod Buffer
pub mod Answers
use ledger_avalanche.Prelude.{
  ℕ, ◌+◌, ◌-◌, ◌%◌, ◌^◌, ◌≡◌, refl, Bool, true, false, ◌&&◌, ◌||◌, not, Option, some, none, List,
  [], ◌∷◌, ◌++◌, Bytes, length, take, drop, get_elem?, to_be_bytes, from_be_bytes, ltb, leb, ◌==◌,
  if◌then◌else◌,
}
use ledger_avalanche.Errors.{Result, ok, err, panic, ◌>>=◌, ◌>>◌, map_err, apdu_unwrap}

pub data ApduError : Type 0 where
  execution_error wrong_length apdu_code_empty_buffer output_buffer_too_small data_invalid :
      ApduError
  apdu_code_conditions_not_satisfied command_not_allowed bad_key_example invalid_p1p2 : ApduError
  ins_not_supported cla_not_supported unknown sign_verify_error success busy : ApduError

-- `e as u16`
unfoldable pub apdu_error_code : ApduError → ℕ
apdu_error_code execution_error = 0x6400
apdu_error_code wrong_length = 0x6700
apdu_error_code apdu_code_empty_buffer = 0x6982
apdu_error_code output_buffer_too_small = 0x6983
apdu_error_code data_invalid = 0x6A80
apdu_error_code apdu_code_conditions_not_satisfied = 0x6985
apdu_error_code command_not_allowed = 0x6986
apdu_error_code bad_key_example = 0x6A81
apdu_error_code invalid_p1p2 = 0x6B00
apdu_error_code ins_not_supported = 0x6D00
apdu_error_code cla_not_supported = 0x6E00
apdu_error_code unknown = 0x6F00
apdu_error_code sign_verify_error = 0x6F01
apdu_error_code success = 0x9000
apdu_error_code busy = 0x9001

pub data ConvertApduError : Type 0 where
  length_error : ℕ → ℕ → ConvertApduError
  unknown_code : ℕ → ConvertApduError

-- `TryFrom<u16> for ApduError`
unfoldable pub apdu_error_try_from : ℕ → Result ConvertApduError ApduError
apdu_error_try_from n =
    if n == 0x6400
    then ok execution_error
    else if n == 0x6700
    then ok wrong_length
    else if n == 0x6982
    then ok apdu_code_empty_buffer
    else if n == 0x6983
    then ok output_buffer_too_small
    else if n == 0x6A80
    then ok data_invalid
    else if n == 0x6985
    then ok apdu_code_conditions_not_satisfied
    else if n == 0x6986
    then ok command_not_allowed
    else if n == 0x6A81
    then ok bad_key_example
    else if n == 0x6B00
    then ok invalid_p1p2
    else if n == 0x6D00
    then ok ins_not_supported
    else if n == 0x6E00
    then ok cla_not_supported
    else if n == 0x6F00
    then ok unknown
    else if n == 0x6F01
    then ok sign_verify_error
    else if n == 0x9000
    then ok success
    else if n == 0x9001
    then ok busy
    else err (unknown_code n)

-- `TryFrom<&[u8]> for ApduError`: `copy_from_slice` panics on other lengths than 2.
unfoldable pub apdu_error_from_slice : Bytes → Result ConvertApduError ApduError
apdu_error_from_slice value =
    if ltb 2 (length value)
    then err (length_error 2 (length value))
    else if not (length value == 2)
    then panic
    else apdu_error_try_from (from_be_bytes 0 value)

abbrev pub apdu_min_length : ℕ
apdu_min_length = 5

pub data ApduBufferReadError : Type 0 where
  length_mismatch : ℕ → ℕ → ApduBufferReadError
  not_enough_payload : ℕ → ℕ → ApduBufferReadError
  no_payload : ApduBufferReadError

unfoldable pub length_to_payload : ApduBufferReadError → ApduBufferReadError
length_to_payload (length_mismatch expected got) = not_enough_payload expected got
length_to_payload e = e

-- `len - offset` is on `usize`, of `values` values, and wraps around.
unfoldable pub check_min_len : ℕ → ℕ → ℕ → ℕ → Result ApduBufferReadError (Unit {0})
check_min_len values len expected offset =
    let left = (len + values - offset) % values in
    if ltb left expected then err (length_mismatch expected left) else ok tt

-- The reader is the buffer.
unfoldable pub new_reader : ℕ → Bytes → ℕ → Result ApduBufferReadError Bytes
new_reader values buf rx = do
  check_min_len values (length buf) apdu_min_length 0
  check_min_len values rx apdu_min_length 0
  check_min_len values (length buf) rx 0
  ok buf

unfoldable pub reader_payload : ℕ → Bytes → Result ApduBufferReadError Bytes
reader_payload values inner = do
  plen ← apdu_unwrap (get_elem? inner 4)
  map_err length_to_payload (check_min_len values (length inner) plen apdu_min_length)
  if leb (apdu_min_length + plen) (length inner)
      then ok (take plen (drop apdu_min_length inner))
      else panic

-- The handlers that a class and an instruction lead to.
pub data Command : Type 0 where
  get_version get_public_key get_extended_public_key get_wallet_id sign sign_hash sign_msg : Command
  eth_get_public_key set_plugin eth_provide_erc20 provide_nft_information : Command
  eth_get_app_configuration eth_sign sign_eth_msg : Command

avax_command : ℕ → Result ApduError Command
avax_command ins =
    if ins == 0x00
    then ok get_version
    else if ins == 0x02
    then ok get_public_key
    else if ins == 0x03
    then ok get_extended_public_key
    else if ins == 0x01
    then ok get_wallet_id
    else if ins == 0x05
    then ok sign
    else if ins == 0x04
    then ok sign_hash
    else if ins == 0x06
    then ok sign_msg
    else err command_not_allowed

eth_command : ℕ → Result ApduError Command
eth_command ins =
    if ins == 0x02
    then ok eth_get_public_key
    else if ins == 0x16
    then ok set_plugin
    else if ins == 0x0A
    then ok eth_provide_erc20
    else if ins == 0x14
    then ok provide_nft_information
    else if ins == 0x06
    then ok eth_get_app_configuration
    else if ins == 0x04
    then ok eth_sign
    else if ins == 0x08
    then ok sign_eth_msg
    else err command_not_allowed

-- The match of `apdu_dispatch`, with the features erc20 and erc721 and without dev.
unfoldable pub command_of : ℕ → ℕ → Result ApduError Command
unfolding avax_command eth_command
command_of cla ins =
    if not (cla == 0x80) && not (cla == 0xE0)
    then err cla_not_supported
    else if cla == 0x80
    then avax_command ins
    else eth_command ins

-- What a handler leaves: the number of bytes in the answer, the buffer, and its result.
pub record Answer : Type 0 where
  pub tx : ℕ
  pub buffer : Bytes
  pub result : Result ApduError (Unit {0})

-- `buffer[tx..tx + 2].copy_from_slice(&status_word.to_be_bytes())`; `get_mut` on a range out of
-- bounds gives nothing, and the unwrapping panics.
unfoldable pub write_status : ℕ → Bytes → ℕ → Result ApduError (ℕ × Bytes)
write_status tx buf status_word =
    if leb (tx + 2) (length buf)
    then ok ((tx + 2) % 2 ^ 32, take tx buf ++ (to_be_bytes 2 status_word ++ drop (tx + 2) buf))
    else panic

-- The arms of the match in `handle_apdu`: the status of the handler, if it fits behind the answer.
unfoldable pub finish_answer :
    ℕ → Bytes → Result ApduError (Unit {0}) → Result ApduError (ℕ × Bytes)
finish_answer tx buffer panic = panic
finish_answer tx buffer (ok _) =
    if leb (length buffer) ((tx + 2) % 2 ^ 32)
    then write_status 0 buffer (apdu_error_code output_buffer_too_small)
    else write_status tx buffer (apdu_error_code success)
finish_answer tx buffer (err e) =
    if leb (length buffer) ((tx + 2) % 2 ^ 32)
    then write_status 0 buffer (apdu_error_code output_buffer_too_small)
    else write_status tx buffer (apdu_error_code e)

module _ (values : ℕ) (handle : Command → Bytes → Answer) where
  -- The index `inner[i]` panics out of range.
  unfoldable pub apdu_dispatch : Bytes → Result ApduError Answer
  apdu_dispatch buf = do
    cla ← apdu_unwrap (get_elem? buf 0)
    ins ← apdu_unwrap (get_elem? buf 1)
    elim (command_of cla ins) [
      | ok command ↦ ok (handle command buf)
      | err e ↦ ok (record { tx = 0; buffer = buf; result = err e })
      | panic ↦ panic
    ]

  unfoldable pub answer_to :
      ℕ → Bytes → Result ApduBufferReadError Bytes → Result ApduError (ℕ × Bytes)
  answer_to tx buf (err _) = write_status tx buf (apdu_error_code wrong_length)
  answer_to tx buf panic = panic
  answer_to tx buf (ok reader) = do
    answer ← apdu_dispatch reader
    finish_answer answer.tx answer.buffer answer.result

  -- The number of bytes in the answer, and the buffer.
  unfoldable pub handle_apdu : ℕ → ℕ → Bytes → Result ApduError (ℕ × Bytes)
  handle_apdu tx rx buf = answer_to tx buf (new_reader values buf rx)
