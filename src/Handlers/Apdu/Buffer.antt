-- ===== src/Handlers/Apdu/Buffer.antt =====
-- The reader of the host's buffer, and the status codes.
use ledger_avalanche.Prelude.{
  ℕ, suc, ◌+◌, ◌-◌, ◌%◌, ◌^◌, ◌≤◌, ◌<◌, ◌≡◌, refl, ap, ◌∙◌, Bool, true, false, ◌∷◌, Bytes, length,
  take, to_be_bytes, length-to_be_bytes, from_be_bytes-to_be_bytes, ltb, leb, not, ◌↔◌,
  if◌then◌else◌, arith,
}
use ledger_avalanche.Errors.{Result, ok, err, panic, ◌>>=◌, map_err}
use ledger_avalanche.Handlers.Apdu.{
  ApduError, apdu_error_code, apdu_error_try_from, apdu_error_from_slice, apdu_min_length,
  ApduBufferReadError, length_mismatch, not_enough_payload, length_to_payload, check_min_len,
  new_reader, reader_payload,
}
use native.Mathlib.Nat.{mod-eq_of_lt, add-mod_right}

code_of_code : (e : ApduError) → apdu_error_try_from (apdu_error_code e) ≡ ok e
unfolding apdu_error_try_from apdu_error_code
code_of_code ApduError.execution_error = refl
code_of_code ApduError.wrong_length = refl
code_of_code ApduError.apdu_code_empty_buffer = refl
code_of_code ApduError.output_buffer_too_small = refl
code_of_code ApduError.data_invalid = refl
code_of_code ApduError.apdu_code_conditions_not_satisfied = refl
code_of_code ApduError.command_not_allowed = refl
code_of_code ApduError.bad_key_example = refl
code_of_code ApduError.invalid_p1p2 = refl
code_of_code ApduError.ins_not_supported = refl
code_of_code ApduError.cla_not_supported = refl
code_of_code ApduError.unknown = refl
code_of_code ApduError.sign_verify_error = refl
code_of_code ApduError.success = refl
code_of_code ApduError.busy = refl

code_lt : (e : ApduError) → apdu_error_code e < 256 ^ 2
unfolding apdu_error_code
code_lt ApduError.execution_error = omega arith
code_lt ApduError.wrong_length = omega arith
code_lt ApduError.apdu_code_empty_buffer = omega arith
code_lt ApduError.output_buffer_too_small = omega arith
code_lt ApduError.data_invalid = omega arith
code_lt ApduError.apdu_code_conditions_not_satisfied = omega arith
code_lt ApduError.command_not_allowed = omega arith
code_lt ApduError.bad_key_example = omega arith
code_lt ApduError.invalid_p1p2 = omega arith
code_lt ApduError.ins_not_supported = omega arith
code_lt ApduError.cla_not_supported = omega arith
code_lt ApduError.unknown = omega arith
code_lt ApduError.sign_verify_error = omega arith
code_lt ApduError.success = omega arith
code_lt ApduError.busy = omega arith

-- The two big-endian bytes of an error's status word convert back to the error.
pub apdu_error_from_slice-to_be_bytes :
    (e : ApduError) → apdu_error_from_slice (to_be_bytes 2 (apdu_error_code e)) ≡ ok e
unfolding apdu_error_from_slice
apdu_error_from_slice-to_be_bytes e =
    rw
      (
        length-to_be_bytes 2 (apdu_error_code e),
        from_be_bytes-to_be_bytes 2 (apdu_error_code e) (code_lt e),
      )
      (code_of_code e)

abbrev pub checked : Bool → ApduBufferReadError → Result ApduBufferReadError (Unit {0})
checked short e = if short then err e else ok tt

module _ (values : ℕ) where
  no_wrap :
      (len offset : ℕ)
      → len < values
      → offset ≤ len
      → (len + values - offset) % values ≡ len - offset
  no_wrap len offset h k =
      ap (λ n. n % values) (regroup len offset k)
      ∙ add-mod_right (len - offset) values
      ∙ mod-eq_of_lt (omega (arith, h))
    where
      regroup : (len offset : ℕ) → offset ≤ len → len + values - offset ≡ len - offset + values
      regroup len offset k = omega arith

  -- With `usize` wide enough, the test compares what is left behind the offset.
  pub check_lem :
      (len expected offset : ℕ)
      → len < values
      → offset ≤ len
      → check_min_len values len expected offset
        ≡ checked (ltb (len - offset) expected) (length_mismatch expected (len - offset))
  unfolding check_min_len
  check_lem len expected offset h k = rw (no_wrap len offset h k)

  -- For lengths that fit `usize`, a reader is made of a buffer exactly where at least the header's 5
  -- bytes were received and the buffer is as long as what was received.
  pub new_reader-ok :
      (buf : Bytes) (rx : ℕ)
      → length buf < values
      → rx < values
      → (new_reader values buf rx ≡ ok buf) ↔ ((apdu_min_length ≤ rx) × (rx ≤ length buf))
  unfolding new_reader
  new_reader-ok buf rx h k =
      rw
        (
          check_lem (length buf) apdu_min_length 0 h (omega arith),
          check_lem rx apdu_min_length 0 k (omega arith),
          check_lem (length buf) rx 0 h (omega arith),
        )
        (tests (length buf) rx buf)
    where
      tests :
          (n rx : ℕ) (buf : Bytes)
          → ((checked (ltb (n - 0) apdu_min_length) (length_mismatch apdu_min_length (n - 0))
                >>= λ _.
                    checked
                      (ltb (rx - 0) apdu_min_length)
                      (length_mismatch apdu_min_length (rx - 0))
                    >>= λ _. checked (ltb (n - 0) rx) (length_mismatch rx (n - 0)) >>= λ _. ok buf)
              ≡ ok buf)
            ↔ ((apdu_min_length ≤ rx) × (rx ≤ n))
      tests n rx buf = (λ e. ground arith, λ (a, b). ground arith)

  test_left :
      (n plen : ℕ) → ltb (suc (suc (suc (suc (suc n)))) - apdu_min_length) plen ≡ not (leb plen n)
  test_left n plen = ground arith

  test_end :
      (n plen : ℕ) → leb (apdu_min_length + plen) (suc (suc (suc (suc (suc n))))) ≡ leb plen n
  test_end n plen = ground arith

  behind_header : (n : ℕ) → suc (suc (suc (suc (suc n)))) - apdu_min_length ≡ n
  behind_header n = omega arith

  -- For a buffer with a header whose length fits `usize`, the payload is as many bytes behind the header
  -- as the fifth byte tells, or `NotEnoughPayload` where there are fewer; the code does not panic.
  pub reader_payload-eq :
      (a b c d plen : ℕ) (body : Bytes)
      → length body + 5 < values
      → reader_payload values (a ∷ b ∷ c ∷ d ∷ plen ∷ body) ≡ (
          if leb plen (length body)
          then ok (take plen body)
          else err (not_enough_payload plen (length body)))
  unfolding reader_payload length_to_payload
  reader_payload-eq a b c d plen body h =
      rw
        (
          check_lem (suc (suc (suc (suc (suc (length body)))))) plen apdu_min_length
              (omega (arith, h)) (omega arith),
          test_left (length body) plen,
          test_end (length body) plen,
          behind_header (length body),
        )
        (settle (leb plen (length body)))
    where
      settle :
          (fits : Bool)
          → (map_err length_to_payload (checked (not fits) (length_mismatch plen (length body)))
              >>= λ _. if fits then ok (take plen body) else panic)
            ≡ (if fits then ok (take plen body) else err (not_enough_payload plen (length body)))
      settle true = refl
      settle false = refl
