-- ===== src/Tests/Uploads.antt =====
-- The theorems on the uploader, applied with a store of a list of bytes.
use ledger_avalanche.Prelude.{
  ℕ, ◌+◌, ◌^◌, ◌≤◌, ◌<◌, ◌≡◌, ◌≢◌, refl, none, some, [], ◌∷◌, ◌++◌, Bytes, length, ltb,
  if◌then◌else◌, arith,
}
use ledger_avalanche.Errors.{Result, ok, err, panic}
use ledger_avalanche.Handlers.Apdu.Buffer.{reader_payload-eq}
use ledger_avalanche.Handlers.Upload.{
  sign, eth_sign, Storage, Shared, UploaderOutput, upload, drop_output,
}
use ledger_avalanche.Handlers.Upload.Steps.{Packet}
use ledger_avalanche.Handlers.Upload.Session.{upload_session, upload_session_lem}
use ledger_avalanche.Handlers.Upload.Safety.{start, next, taken_elsewhere, upload-ne-panic}
use ledger_avalanche.Tests.Data.{repeat, are_bytes-IsBytes}

abbrev write_list : ℕ → Bytes → Bytes → Bytes × Result (Unit {0}) (Unit {0})
write_list capacity b bs =
    if ltb capacity (length b + length bs) then (b, err tt) else (b ++ bs, ok tt)

list_fits :
    (capacity : ℕ) (b bs : Bytes)
    → length b + length bs ≤ capacity
    → ((write_list capacity b bs).0 ≡ b ++ bs) × ((write_list capacity b bs).1 ≡ ok tt)
list_fits capacity b bs h = ground arith

list_full :
    (capacity : ℕ) (b bs : Bytes)
    → capacity < length b + length bs
    → ((write_list capacity b bs).0 ≡ b) × ((e : Unit {0}) × ((write_list capacity b bs).1 ≡ err e))
list_full capacity b bs h = (ground arith, (tt, ground arith))

-- With the capacity of `BUFFER`.
abbrev list_storage : Storage
list_storage = record {
  Buffer = Bytes;
  NvmError = Unit {0};
  capacity = 0x1FFF;
  reset = λ _. [];
  write = write_list 0x1FFF;
  read_exact = λ b. b;
  reset_empties = λ _. refl;
  write_fits = list_fits 0x1FFF;
  write_full = list_full 0x1FFF;
}

abbrev frame : ℕ → ℕ → Bytes → Bytes
frame p1 p2 payload = 0x80 ∷ 0x05 ∷ p1 ∷ p2 ∷ length payload ∷ payload

packet : (p1 p2 a b : ℕ) → Packet (2 ^ 32) (frame p1 p2 (a ∷ b ∷ [])) p1 p2 (a ∷ b ∷ [])
packet p1 p2 a b = record {
  p1_is = refl;
  p2_is = refl;
  payload_is = reader_payload-eq (2 ^ 32) 0x80 0x05 p1 p2 2 (a ∷ b ∷ []) (omega arith);
}

-- Another accessor holds the buffer.
abbrev taken : Shared list_storage
taken = record { buffer = record { item = 7 ∷ []; lock = some eth_sign }; init_len = 1 }

upload_session_lem_example :
    (o : UploaderOutput) × (o
      ≡ record { p2 = 9; first = 1 ∷ 2 ∷ []; data_bytes = 3 ∷ 4 ∷ 5 ∷ 6 ∷ []; accessor = sign })
    × ((upload_session
          (2 ^ 32)
          sign
          (frame 0 9 (1 ∷ 2 ∷ []))
          (frame 1 0 (3 ∷ 4 ∷ []) ∷ [])
          (frame 2 0 (5 ∷ 6 ∷ []))
          taken).1
        ≡ ok (some o))
    × ((drop_output o
          (upload_session
            (2 ^ 32)
            sign
            (frame 0 9 (1 ∷ 2 ∷ []))
            (frame 1 0 (3 ∷ 4 ∷ []) ∷ [])
            (frame 2 0 (5 ∷ 6 ∷ []))
            taken).0).buffer.lock
        ≡ none)
    × (list_storage.read_exact
          (drop_output o
            (upload_session
              (2 ^ 32)
              sign
              (frame 0 9 (1 ∷ 2 ∷ []))
              (frame 1 0 (3 ∷ 4 ∷ []) ∷ [])
              (frame 2 0 (5 ∷ 6 ∷ []))
              taken).0).buffer.item
        ≡ [])
upload_session_lem_example =
    upload_session_lem (2 ^ 32) sign ((frame 1 0 (3 ∷ 4 ∷ [])) ∷ []) ((3 ∷ 4 ∷ []) ∷ []) taken
      (packet 0 9 1 2) ((0, packet 1 0 3 4), tt) (packet 2 0 5 6) (omega arith)

abbrev last_packet : Bytes
last_packet = frame 2 0 (5 ∷ 6 ∷ []) ++ repeat 253 0

last_packet-IsLong : 260 ≤ length last_packet
last_packet-IsLong = omega arith

abbrev unused : Shared list_storage
unused = record { buffer = record { item = []; lock = none }; init_len = 0 }

upload-ne-panic_example :
    (upload {st = list_storage}
      (2 ^ 32)
      sign
      last_packet
      (record { buffer = record { item = 7 ∷ []; lock = some eth_sign }; init_len = 0 })).1
    ≢ panic
upload-ne-panic_example =
    upload-ne-panic (2 ^ 32) (omega arith) sign last_packet
      (next (start [] 0) (taken_elsewhere eth_sign (7 ∷ []) refl)) refl
      (are_bytes-IsBytes last_packet refl) last_packet-IsLong (omega arith)
