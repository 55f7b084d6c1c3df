-- ===== src/Handlers/UiMessage.antt =====
-- `handle_ui_message` of app/src/handlers/utils.rs, which copies a page of a text for the display.
use ledger_avalanche.Prelude.{
  ℕ, zero, suc, ◌+◌, ◌-◌, ◌*◌, ◌/◌, ◌%◌, ◌≤◌, ◌<◌, ◌≡◌, refl, sym, ap, ◌∙◌, true, false, Option,
  some, none, [], ◌∷◌, ◌++◌, Bytes, length, take, drop, get_elem?, length-drop, take_append_drop,
  eq-nil_of_length, flatten, chunks, ltb, leb, ◌==◌, if◌then◌else◌, arith,
}
use ledger_avalanche.Errors.{Result, ok, err, panic, ◌>>=◌, ok_or}
use native.Mathlib.Nat.{mul-div_cancel, mul-le-mul_right}

pub data ViewError : Type 0 where
  unknown no_data : ViewError

-- `slice.chunks(size).nth(n)` of a slice: the pieces of `size` bytes, the last of which may be shorter.
abbrev nth_chunk : ℕ → ℕ → Bytes → Option Bytes
nth_chunk size n bs =
    if ltb (n * size) (length bs) then some (take size (drop (n * size) bs)) else none

-- The display's buffer with a text and a null byte in front of what it held.
abbrev pub write_text : Bytes → Bytes → Bytes
write_text text out = text ++ (0 ∷ drop (suc (length text)) out)

-- The buffer afterwards and the number of pages, as a `u8`. An empty buffer makes the code index out
-- of range.
unfoldable pub handle_ui_message : Bytes → Bytes → ℕ → Result ViewError (Bytes × ℕ)
handle_ui_message item out page =
    let m_len = length out - 1 in
    if length out == 0
    then panic
    else if ltb m_len 1
    then err unknown
    else if leb m_len (length item)
    then (ok_or (nth_chunk m_len page item) unknown >>= λ chunk.
        ok (write_text chunk out, (1 + length item / m_len % 256) % 256))
    else ok (write_text item out, 1)

module _ (item out : Bytes) (m : ℕ) (room : length out ≡ m + 1) (some_room : 0 < m) where
  m_len_is : length out - 1 ≡ m
  m_len_is = omega (arith, room)

  not_empty : (length out == 0) ≡ false
  not_empty = ground (arith, room)

  at_least_one : ltb m 1 ≡ false
  at_least_one = ground (arith, some_room)

  module _ (long : m ≤ length item) where
    long_test : leb m (length item) ≡ true
    long_test = ground (arith, long)

    ui_chunk :
        (page : ℕ)
        → handle_ui_message item out page ≡ (
            ok_or (nth_chunk m page item) unknown >>= λ chunk.
            ok (write_text chunk out, (1 + length item / m % 256) % 256))
    unfolding handle_ui_message
    ui_chunk page = rw (not_empty, m_len_is, at_least_one, long_test)

    -- Every page that starts within a long text shows its piece of it.
    pub handle_ui_message-page :
        (page : ℕ)
        → page * m < length item
        → length item / m < 255
        → handle_ui_message item out page
          ≡ ok (write_text (take m (drop (page * m) item)) out, 1 + length item / m)
    handle_ui_message-page page h few =
        ui_chunk page
        ∙ rw (inside page h) (
            ap (λ n. ok (write_text (take m (drop (page * m) item)) out, n))
              (small (length item / m) few))
      where
        inside : (page : ℕ) → page * m < length item → ltb (page * m) (length item) ≡ true
        inside page h = ground arith

        small : (q : ℕ) → q < 255 → (1 + q % 256) % 256 ≡ 1 + q
        small q h = omega arith

    -- A page that starts behind the text is an error.
    pub handle_ui_message-past :
        (page : ℕ) → length item ≤ page * m → handle_ui_message item out page ≡ err unknown
    handle_ui_message-past page h = ui_chunk page ∙ rw (outside page h)
      where
        outside : (page : ℕ) → length item ≤ page * m → ltb (page * m) (length item) ≡ false
        outside page h = ground arith

  -- A shorter text takes one page.
  pub handle_ui_message-short :
      (page : ℕ) → length item < m → handle_ui_message item out page ≡ ok (write_text item out, 1)
  unfolding handle_ui_message
  handle_ui_message-short page h = rw (not_empty, m_len_is, at_least_one, short_test h)
    where
      short_test : length item < m → leb m (length item) ≡ false
      short_test h = ground arith

  -- For a display of `m` bytes and a null, and a text of exactly `k` pages of `m` bytes (`k` from 1 to
  -- 254), the first page reports `k + 1` pages, and the last of these is an error.
  pub handle_ui_message-extra_page :
      (k : ℕ)
      → 0 < k
      → k < 255
      → length item ≡ k * m
      → (handle_ui_message item out 0 ≡ ok (write_text (take m item) out, 1 + k))
        × (handle_ui_message item out k ≡ err unknown)
  handle_ui_message-extra_page k pos few e =
      let quotient : length item / m ≡ k = ap (λ n. n / m) e ∙ mul-div_cancel k some_room in
      let long : m ≤ length item = fits k pos e in
      (
        handle_ui_message-page long 0 (omega (arith, long, some_room))
              (omega (arith, quotient, few))
            ∙ rw (no_pages, quotient),
        handle_ui_message-past long k (omega (arith, e)),
      )
    where
      no_pages : 0 * m ≡ 0
      no_pages = omega arith

      fits : (k : ℕ) → 0 < k → length item ≡ k * m → m ≤ length item
      fits k pos e = grind arith

flatten-pages : (n m : ℕ) (item : Bytes) → length item ≤ n * m → flatten (chunks n m item) ≡ item
flatten-pages zero m item h = sym (eq-nil_of_length item (omega arith))
flatten-pages (suc n) m item h =
    ap (λ rest. take m item ++ rest)
      (flatten-pages n m (drop m item) (grind (arith, length-drop m item)))
    ∙ take_append_drop m item

drop-drop : (a b : ℕ) (xs : Bytes) → drop a (drop b xs) ≡ drop (b + a) xs
drop-drop a zero xs = ap (λ n. drop n xs) (omega arith)
drop-drop a (suc b) [] = nil a ∙ sym (nil (suc b + a))
  where
    nil : (n : ℕ) → drop {A = ℕ} n [] ≡ []
    nil zero = refl
    nil (suc n) = refl
drop-drop a (suc b) (x ∷ xs) = drop-drop a b xs ∙ ap (λ n. drop n (x ∷ xs)) (shift a b)
  where
    shift : (a b : ℕ) → suc (b + a) ≡ suc b + a
    shift a b = omega arith

first_page : (m : ℕ) (xs : Bytes) → take m (drop (0 * m) xs) ≡ take m xs
first_page m xs = ap (λ j. take m (drop j xs)) (none_before m)
  where
    none_before : (m : ℕ) → 0 * m ≡ 0
    none_before m = omega arith

next_page :
    (m k : ℕ) (xs : Bytes) → take m (drop (suc k * m) xs) ≡ take m (drop (k * m) (drop m xs))
next_page m k xs = ap (take m) (ap (λ j. drop j xs) (one_more m k) ∙ sym (drop-drop (k * m) m xs))
  where
    one_more : (m k : ℕ) → suc k * m ≡ m + k * m
    one_more m k = grind arith

-- A page's piece.
get_elem?-chunks :
    (n m k : ℕ) (xs t : Bytes)
    → get_elem? (chunks n m xs) k ≡ some t
    → (k < n) × (take m (drop (k * m) xs) ≡ t)
get_elem?-chunks zero m k xs t e = cc e
get_elem?-chunks (suc n) m zero xs t e = (omega arith, first_page m xs ∙ cc e)
get_elem?-chunks (suc n) m (suc k) xs t e =
    let (lt, piece) = get_elem?-chunks n m k (drop m xs) t e in
    (omega (arith, lt), next_page m k xs ∙ piece)

-- For a display of `m` bytes and a null, and a text of `n` pages that is not shorter than a page and has
-- less than 255 full pages: the pages' pieces, put together, are the text, and asked for page `k`, the
-- code writes piece `k` and a null, and reports one page more than the text has full pages.
pub handle_ui_message-pages :
    (item out : Bytes) (m n k : ℕ) (t : Bytes)
    → length out ≡ m + 1
    → 0 < m
    → m ≤ length item
    → length item / m < 255
    → length item ≤ n * m
    → n * m < length item + m
    → get_elem? (chunks n m item) k ≡ some t
    → (flatten (chunks n m item) ≡ item)
      × (handle_ui_message item out k ≡ ok (write_text t out, 1 + length item / m))
handle_ui_message-pages item out m n k t room some_room long few covers tight e =
    let (lt, piece) = get_elem?-chunks n m k item t e in
    (
      flatten-pages n m item covers,
      handle_ui_message-page item out m room some_room long k (grind (arith, mul-le-mul_right m lt))
            few
          ∙ ap (λ bs. ok (write_text bs out, 1 + length item / m)) piece,
    )
