-- ===== src/Codec/Locked.antt =====
-- An optional lock ahead of a typed object: a tag with the lock time, or nothing. The source has it
-- in app/src/parser/pvm_output.rs and app/src/parser/inputs.rs, as
-- `if let Ok((r, _)) = tag(..)(input) { let (r, time) = be_..(r)?; .. }`.
use ledger_avalanche.Prelude.{
  ℕ, ◌≡◌, ◌≢◌, refl, Option, some, none, [], Bytes, ◌++◌, IsByte, IsBytes, to_be_bytes,
  append_assoc, All-append_split, subst, IsU32,
}
use ledger_avalanche.Errors.{ok, err, panic, ◌>>=◌, returns, Ensures, Ensures-ok}
use ledger_avalanche.Platform.{Platform, Parser, IResult}
use ledger_avalanche.Codec.Format.{Exact, Exact-then, reads}
use ledger_avalanche.Codec.Primitives.{tag-Exact, be_uint-Exact}

module _ {L : Type 0} (parse_lock : Parser L) where
  after_tag : IResult Bytes → Parser (Option L)
  after_tag (ok (r, _)) input = do (rem, time) ← parse_lock r; ok (rem, some time)
  after_tag (err _) input = ok (input, none)
  after_tag panic input = panic

  unfoldable pub parse_locked : Platform → ℕ → Parser (Option L)
  unfolding after_tag
  parse_locked p lock_tag input = after_tag (p.tag (to_be_bytes 4 lock_tag) input) input

abbrev pub encode_locked : {L : Type 0} → (L → Bytes) → ℕ → Option L → Bytes
encode_locked encode lock_tag none = []
encode_locked encode lock_tag (some time) = to_be_bytes 4 lock_tag ++ encode time

abbrev pub IsLocked : {L : Type 0} → (L → Type 0) → Option L → Type 0
IsLocked Valid none = Unit
IsLocked Valid (some time) = Valid time

module _ {L : Type 0} {parse_lock : Parser L} {encode : L → Bytes} {Valid : L → Type 0}
    (lock-Exact : Exact parse_lock encode Valid) (p : Platform) (lock_tag : ℕ) where
  after_tag_sound :
      (r : IResult Bytes) (input : Bytes)
      → IsBytes input
      → Ensures (λ r. (r.1 ≡ to_be_bytes 4 lock_tag) × (input ≡ r.1 ++ r.0)) r
      → Ensures
          (λ r.
            IsLocked Valid r.1 × IsBytes r.0 × (input ≡ encode_locked encode lock_tag r.1 ++ r.0))
          (after_tag parse_lock r input)
  unfolding after_tag
  after_tag_sound (ok (r, t)) input h e =
      let (et, ei) = Ensures-ok e refl in
      Exact-then lock-Exact r (All-append_split IsByte t r (subst IsBytes ei h)).1 _
        λ time rest v hr el. returns (v, hr, simp (ei, et, el, append_assoc))
  after_tag_sound (err _) input h e = returns (tt, h, refl)
  after_tag_sound panic input h e = elim e [ ]

  pub parse_locked_sound :
      (input : Bytes)
      → IsBytes input
      → Ensures
          (λ r.
            IsLocked Valid r.1 × IsBytes r.0 × (input ≡ encode_locked encode lock_tag r.1 ++ r.0))
          (parse_locked parse_lock p lock_tag input)
  unfolding parse_locked
  parse_locked_sound input h =
      after_tag_sound (p.tag (to_be_bytes 4 lock_tag) input) input h
        ((tag-Exact p (to_be_bytes 4 lock_tag)).sound input h)

  parse_locked-some :
      (time : L) (rest : Bytes)
      → Valid time
      → parse_locked parse_lock p lock_tag (encode_locked encode lock_tag (some time) ++ rest)
        ≡ ok (rest, some time)
  unfolding parse_locked
  parse_locked-some time rest v = simp (
    append_assoc,
    reads (tag-Exact p (to_be_bytes 4 lock_tag)) (to_be_bytes 4 lock_tag) refl,
    reads lock-Exact time v,
  )

  -- Without a lock the object starts with a type id of its own.
  parse_locked-none :
      (type_id : ℕ) (input rest : Bytes)
      → IsU32 lock_tag
      → type_id ≢ lock_tag
      → p.be_uint 4 input ≡ ok (rest, type_id)
      → parse_locked parse_lock p lock_tag input ≡ ok (input, none)
  unfolding parse_locked
  parse_locked-none type_id input rest range ne peeked =
      rw (p.tag_mismatch (to_be_bytes 4 lock_tag) input other) refl
    where
      other : (r : Bytes) → input ≢ to_be_bytes 4 lock_tag ++ r
      other r e =
          let again = reads (be_uint-Exact p 4) lock_tag range r in ne (cc (peeked, again, e))

  -- A lock, or none, in front of an object that starts with a type id of its own.
  pub parse_locked_complete :
      (lock : Option L) (type_id : ℕ) (body rest : Bytes)
      → IsLocked Valid lock
      → IsU32 lock_tag
      → type_id ≢ lock_tag
      → p.be_uint 4 body ≡ ok (rest, type_id)
      → parse_locked parse_lock p lock_tag (encode_locked encode lock_tag lock ++ body)
        ≡ ok (body, lock)
  parse_locked_complete none type_id body rest v = parse_locked-none type_id body rest
  parse_locked_complete (some time) type_id body rest v = λ _ _ _. parse_locked-some time body v
