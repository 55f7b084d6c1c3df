-- ===== src/Handlers/Apdu/Answers.antt =====
-- Every answer ends in a status word: `handle_apdu` of app/src/dispatcher.rs.
use ledger_avalanche.Prelude.{
  ℕ, ◌+◌, ◌-◌, ◌%◌, ◌^◌, ◌≤◌, ◌<◌, ◌≡◌, ◌≢◌, refl, sym, ap, ◌∙◌, subst, Bool, true, false, ◌&&◌,
  not, [], ◌∷◌, ◌++◌, Bytes, length, take, drop, length-append, length-take, length-drop,
  take-append_length, drop-append_length, to_be_bytes, length-to_be_bytes, ltb, leb, ◌==◌,
  if◌then◌else◌, arith, Bool-cases, inl, inr,
}
use ledger_avalanche.Errors.{
  Result, ok, err, panic, Ensures, returns, fails, Ensures-if, Ensures-bind, Ensures-ok,
  Ensures-panic,
}
use ledger_avalanche.Handlers.Apdu.Buffer.{check_lem, checked}
use ledger_avalanche.Handlers.Apdu.{
  ApduError, apdu_error_code, wrong_length, success, output_buffer_too_small, apdu_min_length,
  new_reader, Command, command_of, Answer, apdu_dispatch, write_status, finish_answer, answer_to,
  handle_apdu, ApduBufferReadError,
}

-- An answer of `tx` bytes in a buffer of `n`, the last two of which are the status word of `e`.
pub record EndsInStatus (n tx : ℕ) (buffer : Bytes) (e : ApduError) : Type 0 where
  pub same_buffer : length buffer ≡ n
  pub fits : tx + 2 ≤ n
  pub status : take 2 (drop tx buffer) ≡ to_be_bytes 2 (apdu_error_code e)

abbrev pub IsAnswer : ℕ → Result ApduError (ℕ × Bytes) → Type 0
IsAnswer n r =
    (tx : ℕ) × (buffer : Bytes) × (e : ApduError) × (r ≡ ok (tx + 2, buffer))
    × EndsInStatus n tx buffer e

written :
    (tx : ℕ) (buf word : Bytes)
    → tx + 2 ≤ length buf
    → length word ≡ 2
    → take 2 (drop tx (take tx buf ++ (word ++ drop (tx + 2) buf))) ≡ word
written tx buf word h len =
    ap (λ k. take 2 (drop k (take tx buf ++ (word ++ drop (tx + 2) buf))))
      (sym (length-take tx buf (omega (arith, h))))
    ∙ ap (take 2) (drop-append_length (take tx buf) (word ++ drop (tx + 2) buf))
    ∙ ap (λ k. take k (word ++ drop (tx + 2) buf)) (sym len)
    ∙ take-append_length word (drop (tx + 2) buf)

write_lem :
    (tx : ℕ) (buf : Bytes) (e : ApduError)
    → tx + 2 ≤ length buf
    → tx + 2 < 2 ^ 32
    → IsAnswer (length buf) (write_status tx buf (apdu_error_code e))
unfolding write_status
write_lem tx buf e h k =
    let word = to_be_bytes 2 (apdu_error_code e) in
    let two = length-to_be_bytes 2 (apdu_error_code e) in
    (
      tx,
      take tx buf ++ (word ++ drop (tx + 2) buf),
      e,
      rw (room tx (length buf) h, small tx k),
      record {
        same_buffer = same_length tx buf word h two;
        fits = h;
        status = written tx buf word h two;
      },
    )
  where
    room : (tx n : ℕ) → tx + 2 ≤ n → leb (tx + 2) n ≡ true
    room tx n h = ground arith

    small : (tx : ℕ) → tx + 2 < 2 ^ 32 → (tx + 2) % 2 ^ 32 ≡ tx + 2
    small tx h = omega arith

    same_length :
        (tx : ℕ) (buf word : Bytes)
        → tx + 2 ≤ length buf
        → length word ≡ 2
        → length (take tx buf ++ (word ++ drop (tx + 2) buf)) ≡ length buf
    same_length tx buf word h two = omega (
      arith,
      length-append (take tx buf) (word ++ drop (tx + 2) buf),
      length-append word (drop (tx + 2) buf),
      length-take tx buf (omega (arith, h)),
      length-drop (tx + 2) buf,
    )

-- A choice that no panic follows.
choice :
    (b : Bool) (c : Command) {rest : Result ApduError Command}
    → Ensures (λ _. Unit {0}) rest
    → Ensures (λ _. Unit {0}) (if b then ok c else rest)
choice true c h = returns tt
choice false c h = h

command_of-Ensures : (cla ins : ℕ) → Ensures (λ _. Unit {0}) (command_of cla ins)
unfolding command_of
command_of-Ensures cla ins =
    Ensures-if (not (cla == 0x80) && not (cla == 0xE0)) (λ _. fails)
      λ _.
        Ensures-if (cla == 0x80)
          (λ _. choice (ins == 0x00) _ (
            choice (ins == 0x02) _ (
              choice (ins == 0x03) _ (
                choice (ins == 0x01) _ (
                  choice (ins == 0x05) _
                    (choice (ins == 0x04) _ (choice (ins == 0x06) _ fails)))))))
          (λ _. choice (ins == 0x02) _ (
            choice (ins == 0x16) _ (
              choice (ins == 0x0A) _ (
                choice (ins == 0x14) _ (
                  choice (ins == 0x06) _
                    (choice (ins == 0x04) _ (choice (ins == 0x08) _ fails)))))))

finish_written :
    (n tx : ℕ) (buffer : Bytes) (e : ApduError)
    → length buffer ≡ n
    → 2 ≤ n
    → tx + 2 < 2 ^ 32
    → IsAnswer n (
        if leb (length buffer) ((tx + 2) % 2 ^ 32)
        then write_status 0 buffer (apdu_error_code output_buffer_too_small)
        else write_status tx buffer (apdu_error_code e))
finish_written n tx buffer e len h k =
    subst
      (λ n. IsAnswer n (
        if leb (length buffer) ((tx + 2) % 2 ^ 32)
        then write_status 0 buffer (apdu_error_code output_buffer_too_small)
        else write_status tx buffer (apdu_error_code e)))
      len
      (elim (Bool-cases (leb (length buffer) ((tx + 2) % 2 ^ 32))) [
        | inl full ↦
            rw full
              (write_lem 0 buffer output_buffer_too_small (omega (arith, len, h)) (omega arith))
        | inr room ↦ rw room (write_lem tx buffer e (fits tx (length buffer) k room) k)
      ])
  where
    fits : (tx n : ℕ) → tx + 2 < 2 ^ 32 → leb n ((tx + 2) % 2 ^ 32) ≡ false → tx + 2 ≤ n
    fits tx n k room = ground arith

finish_lem :
    (n tx : ℕ) (buffer : Bytes) (r : Result ApduError (Unit {0}))
    → length buffer ≡ n
    → 2 ≤ n
    → tx + 2 < 2 ^ 32
    → r ≢ panic
    → IsAnswer n (finish_answer tx buffer r)
unfolding finish_answer
finish_lem n tx buffer (ok _) len h k ne = finish_written n tx buffer success len h k
finish_lem n tx buffer (err e) len h k ne = finish_written n tx buffer e len h k
finish_lem n tx buffer panic len h k ne = absurd (ne refl)

-- What the dispatch relies on of a handler's answer.
pub record IsHandled (buf : Bytes) (a : Answer) : Type 0 where
  pub same_length : length a.buffer ≡ length buf
  pub short : a.tx + 2 < 2 ^ 32
  pub no_panic : a.result ≢ panic

module _ (values : ℕ) (handle : Command → Bytes → Answer)
    (handled : (c : Command) (buf : Bytes) → IsHandled buf (handle c buf)) where
  abbrev route : Bytes → Result ApduError Command → Result ApduError Answer
  route buf r = elim r [
    | ok command ↦ ok (handle command buf)
    | err e ↦ ok (record { tx = 0; buffer = buf; result = err e })
    | panic ↦ panic
  ]

  routed :
      (buf : Bytes) (r : Result ApduError Command)
      → Ensures (λ _. Unit {0}) r
      → (a : Answer) × (route buf r ≡ ok a) × IsHandled buf a
  routed buf (ok c) h = (handle c buf, refl, handled c buf)
  routed buf (err e) h = (
    record { tx = 0; buffer = buf; result = err e },
    refl,
    record { same_length = refl; short = omega arith; no_panic = cc },
  )
  routed buf panic h = absurd (Ensures-panic h refl)

  dispatched :
      (buf : Bytes)
      → 5 ≤ length buf
      → (a : Answer) × (apdu_dispatch values handle buf ≡ ok a) × IsHandled buf a
  unfolding apdu_dispatch
  dispatched [] h = absurd (omega arith)
  dispatched (cla ∷ []) h = absurd (omega arith)
  dispatched (cla ∷ ins ∷ rest) h =
      routed (cla ∷ ins ∷ rest) (command_of cla ins) (command_of-Ensures cla ins)

  answered :
      (buf : Bytes) (r : Result ApduBufferReadError Bytes)
      → Ensures (λ b. (b ≡ buf) × (5 ≤ length b)) r
      → 2 ≤ length buf
      → IsAnswer (length buf) (answer_to values handle 0 buf r)
  unfolding answer_to
  answered buf (ok b) h k =
      let (same, long) = Ensures-ok h refl in
      let (a, d, g) = dispatched b long in
      rw d (
        finish_lem (length buf) a.tx a.buffer a.result (g.same_length ∙ ap length same) k g.short
          g.no_panic)
  answered buf (err _) h k = write_lem 0 buf wrong_length (omega (arith, k)) (omega arith)
  answered buf panic h k = absurd (Ensures-panic h refl)

  new_reader-Ensures :
      (buf : Bytes) (rx : ℕ)
      → length buf < values
      → rx < values
      → Ensures (λ b. (b ≡ buf) × (5 ≤ length b)) (new_reader values buf rx)
  unfolding new_reader
  new_reader-Ensures buf rx h k =
      rw
        (
          check_lem values (length buf) apdu_min_length 0 h (omega arith),
          check_lem values rx apdu_min_length 0 k (omega arith),
          check_lem values (length buf) rx 0 h (omega arith),
        )
        (Ensures-bind (checked_bound (ltb (length buf - 0) apdu_min_length) _) λ _ long.
          Ensures-bind (checked_bound (ltb (rx - 0) apdu_min_length) _) λ _ _.
            Ensures-bind (checked_bound (ltb (length buf - 0) rx) _)
              λ _ _. returns (refl, enough (length buf) long))
    where
      enough : (n : ℕ) → ltb (n - 0) apdu_min_length ≡ false → 5 ≤ n
      enough n e = ground arith

      checked_bound : (b : Bool) (e : ApduBufferReadError) → Ensures (λ _. b ≡ false) (checked b e)
      checked_bound true e = fails
      checked_bound false e = returns refl

  -- For handlers that keep the buffer's length, do not panic and answer in less than 2 ^ 32 - 2 bytes,
  -- a buffer of at least 2 bytes, lengths that fit `usize`, and no answer yet (`tx` is 0), `handle_apdu`
  -- returns, the buffer keeps its length, and the answer lies within it and ends in the two bytes of a
  -- status word.
  pub handle_apdu-EndsInStatus :
      (rx : ℕ) (buf : Bytes)
      → 2 ≤ length buf
      → length buf < values
      → rx < values
      → (tx : ℕ) × (buffer : Bytes) × (e : ApduError) × (handle_apdu values handle 0 rx buf
          ≡ ok (tx + 2, buffer))
        × EndsInStatus (length buf) tx buffer e
  unfolding handle_apdu
  handle_apdu-EndsInStatus rx buf two h k =
      answered buf (new_reader values buf rx) (new_reader-Ensures buf rx h k) two
