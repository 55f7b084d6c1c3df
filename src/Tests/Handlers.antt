-- ===== src/Tests/Handlers.antt =====
-- The theorems on what happens between the host, the display and the parser, applied.
use ledger_avalanche.Prelude.{
  ◌+◌, ℕ, ◌≡◌, ◌≤◌, ◌^◌, ◌↔◌, refl, [], ◌∷◌, ◌==◌, flatten, chunks, some, none, true, arith, Bytes,
  to_be_bytes,
}
use ledger_avalanche.Errors.{ok, err}
use ledger_avalanche.Handlers.Apdu.Answers.{EndsInStatus, IsHandled, handle_apdu-EndsInStatus}
use ledger_avalanche.Handlers.Apdu.{
  Answer, Command, handle_apdu, new_reader, reader_payload, apdu_min_length, ApduError,
  apdu_error_code, apdu_error_from_slice,
}
use ledger_avalanche.Handlers.Apdu.Buffer.{
  apdu_error_from_slice-to_be_bytes, new_reader-ok, reader_payload-eq,
}
use ledger_avalanche.Handlers.Lock.{
  EqTest, Lock, LockError, lock, acquire, release, lock-owner, lock-other, lock-lock,
}
use ledger_avalanche.Handlers.UiMessage.{
  ViewError, handle_ui_message, handle_ui_message-pages, handle_ui_message-extra_page,
}
use ledger_avalanche.Tests.Data.{repeat}

abbrev text : Bytes
text = 1 ∷ 2 ∷ 3 ∷ 4 ∷ 5 ∷ []

handle_ui_message-pages_example :
    (flatten (chunks 2 3 text) ≡ text)
    × (handle_ui_message text (repeat 4 9) 1 ≡ ok (4 ∷ 5 ∷ 0 ∷ 9 ∷ [], 2))
handle_ui_message-pages_example =
    handle_ui_message-pages text (repeat 4 9) 3 2 1 (4 ∷ 5 ∷ []) refl (omega arith) (omega arith)
      (omega arith) (omega arith) (omega arith) refl

handle_ui_message-extra_page_example :
    (handle_ui_message (repeat 6 1) (repeat 4 9) 0 ≡ ok (1 ∷ 1 ∷ 1 ∷ 0 ∷ [], 3))
    × (handle_ui_message (repeat 6 1) (repeat 4 9) 2 ≡ err ViewError.unknown)
handle_ui_message-extra_page_example =
    handle_ui_message-extra_page (repeat 6 1) (repeat 4 9) 3 refl (omega arith) 2 (omega arith)
      (omega arith) refl

same : (a : ℕ) → (a == a) ≡ true
same a = ground arith

equal : (a b : ℕ) → (a == b) ≡ true → a ≡ b
equal a b h = ground arith

abbrev accessors : EqTest ℕ
accessors = record { test = ◌==◌; test_refl = same; test_eq = equal }

abbrev free : Lock ℕ ℕ
free = record { item = 42; lock = none }

lock-owner_example :
    (acquire accessors (lock accessors free 1).0 1 ≡ ok 42)
    × (release accessors (lock accessors free 1).0 1 ≡ (record { item = 42; lock = none }, ok tt))
lock-owner_example = lock-owner accessors free 1

lock-other_example :
    (acquire accessors (lock accessors free 1).0 2 ≡ err LockError.busy)
    × (release accessors (lock accessors free 1).0 2
        ≡ ((lock accessors free 1).0, err LockError.bad_id))
lock-other_example = lock-other accessors free 1 2 (omega arith)

lock-lock_example :
    (lock accessors (lock accessors free 1).0 2 ≡ (record { item = 42; lock = some 2 }, ok 42))
    × (acquire accessors (lock accessors (lock accessors free 1).0 2).0 1 ≡ err LockError.busy)
lock-lock_example = lock-lock accessors free 1 2 (omega arith)

new_reader-ok_example :
    (new_reader (2 ^ 32) (repeat 10 0) 5 ≡ ok (repeat 10 0)) ↔ ((apdu_min_length ≤ 5) × (5 ≤ 10))
new_reader-ok_example = new_reader-ok (2 ^ 32) (repeat 10 0) 5 (omega arith) (omega arith)

reader_payload-eq_example :
    reader_payload (2 ^ 32) (0x80 ∷ 5 ∷ 0 ∷ 0 ∷ 2 ∷ 11 ∷ 12 ∷ 13 ∷ []) ≡ ok (11 ∷ 12 ∷ [])
reader_payload-eq_example =
    reader_payload-eq (2 ^ 32) 0x80 5 0 0 2 (11 ∷ 12 ∷ 13 ∷ []) (omega arith)

apdu_error_from_slice-to_be_bytes_example :
    apdu_error_from_slice (to_be_bytes 2 0x9001) ≡ ok ApduError.busy
unfolding apdu_error_code
apdu_error_from_slice-to_be_bytes_example = apdu_error_from_slice-to_be_bytes ApduError.busy

-- A handler that answers one byte.
abbrev one_byte : Command → Bytes → Answer
one_byte command buf = record { tx = 1; buffer = buf; result = ok tt }

one_byte-IsHandled : (command : Command) (buf : Bytes) → IsHandled buf (one_byte command buf)
one_byte-IsHandled command buf = record { same_length = refl; short = omega arith; no_panic = cc }

abbrev request : Bytes
request = 0x80 ∷ 0x05 ∷ 0 ∷ 0 ∷ 1 ∷ repeat 4 9

handle_apdu-EndsInStatus_example :
    (tx : ℕ) × (buffer : Bytes) × (e : ApduError) × (handle_apdu (2 ^ 32) one_byte 0 6 request
      ≡ ok (tx + 2, buffer))
    × EndsInStatus 9 tx buffer e
handle_apdu-EndsInStatus_example =
    handle_apdu-EndsInStatus (2 ^ 32) one_byte one_byte-IsHandled 6 request (omega arith)
      (omega arith) (omega arith)
