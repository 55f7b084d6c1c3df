-- ===== src/Parser/Objects.antt =====
-- app/src/parser/object_list.rs: a list of objects that is kept as bytes and parsed again at each
-- walk. `read` is the cursor.
pub mod Walk
pub mod Format
use ledger_avalanche.Prelude.{
  ℕ, zero, suc, ◌+◌, ◌-◌, Bool, true, false, Option, some, none, List, [], ◌∷◌, Bytes, length, drop,
  ltb, ◌==◌, if◌then◌else◌,
}
use ledger_avalanche.Errors.{
  Result, ok, err, panic, Err, error, ◌>>=◌, ◌>>◌, bail_if, apdu_unwrap_result,
  unexpected_buffer_end,
}
use ledger_avalanche.Platform.{Platform, Parser}

pub record ObjectList : Type 0 where
  pub bytes : Bytes
  pub read : ℕ

module _ {A : Type 0} (object : Parser A) where
  -- `for _ in 0..num_objs { bytes_left = Obj::from_bytes_into(bytes_left, ..)?; }`
  unfoldable pub parse_objects : ℕ → Bytes → Result Err Bytes
  parse_objects zero bytes_left = ok bytes_left
  parse_objects (suc num_objs) bytes_left = do
    (left, _) ← object bytes_left
    parse_objects num_objs left

  unfoldable pub new_into_with_len : Platform → ℕ → Parser ObjectList
  new_into_with_len p num_objs input = do
    bytes_left ← parse_objects num_objs input
    (rem, bytes) ← p.take (length input - length bytes_left) input
    ok (rem, record { bytes = bytes; read = 0 })

  unfoldable pub new_into : Platform → Parser ObjectList
  new_into p input = do
    bail_if (length input == 0) (error unexpected_buffer_end)
    (rem, num_objects) ← p.be_uint 4 input
    new_into_with_len p num_objects rem

  -- The object at the cursor and the cursor behind it. Slicing past the end is a panic, and so is an
  -- object that does not parse.
  unfoldable pub parse_into : ObjectList → Result Err (Option (A × ℕ))
  parse_into list =
      let at_cursor = drop list.read list.bytes in
      if ltb (length list.bytes) list.read
      then panic
      else if length at_cursor == 0
      then ok none
      else do
        (rem, a) ← apdu_unwrap_result (object at_cursor)
        ok (some (a, length list.bytes - length rem))

  unfoldable pub parse_next : ObjectList → Result Err (ObjectList × Option A)
  parse_next list = do
    found ← parse_into list
    elim found [
      | some (a, read) ↦ ok (record list { read = read }, some a)
      | none ↦ ok (list, none)
    ]

  unfoldable pub peek_next : ObjectList → Result Err (Option A)
  peek_next list = do
    found ← parse_into list
    elim found [ some (a, _) ↦ ok (some a) | none ↦ ok none ]

  -- The `while let Some(..) = parse_next(..)` loops, on fuel; a round without fuel counts as a panic.
  unfoldable pub iterate_loop : {S : Type 0} → (S → A → S) → ℕ → ObjectList → S → Result Err S
  iterate_loop f zero list s = panic
  iterate_loop f (suc fuel) list s = do
    (list', found) ← parse_next list
    elim found [ some a ↦ iterate_loop f fuel list' (f s a) | none ↦ ok s ]

  unfoldable pub find_loop :
      {S : Type 0} → (S → A → S × Bool) → ℕ → ObjectList → S → Result Err (Option A × S)
  find_loop f zero list s = panic
  find_loop f (suc fuel) list s = do
    (list', found) ← parse_next list
    elim found [
      | some a ↦ elim (f s a).1 [
        | true ↦ ok (some a, (f s a).0)
        | false ↦ find_loop f fuel list' (f s a).0
      ]
      | none ↦ ok (none, s)
    ]

  unfoldable pub collect_loop : ℕ → ObjectList → Result Err (List A)
  collect_loop zero list = panic
  collect_loop (suc fuel) list = do
    (list', found) ← parse_next list
    elim found [ some a ↦ collect_loop fuel list' >>= λ rest. ok (a ∷ rest) | none ↦ ok [] ]

  -- A walk starts on a copy with the cursor at 0. Its closure keeps a state `S`.
  unfoldable pub iterate_with : {S : Type 0} → (S → A → S) → S → ObjectList → Result Err S
  iterate_with f s list = iterate_loop f (suc (length list.bytes)) (record list { read = 0 }) s

  unfoldable pub get_obj_if :
      {S : Type 0} → (S → A → S × Bool) → S → ObjectList → Result Err (Option A × S)
  get_obj_if f s list = find_loop f (suc (length list.bytes)) (record list { read = 0 }) s

  -- All that the iterator of `iter` yields.
  unfoldable pub iter : ObjectList → Result Err (List A)
  iter list = collect_loop (suc (length list.bytes)) (record list { read = 0 })
