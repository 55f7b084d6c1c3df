-- ===== src/Handlers/Lock.antt =====
-- app/src/handlers/lock.rs: a resource and the accessor that holds it.
use ledger_avalanche.Prelude.{
  ◌≡◌, refl, sym, ap, subst, Bool, true, false, Option, some, none, Bool-cases, inl, inr, ◌⊎◌,
}
use ledger_avalanche.Errors.{Result, ok, err}
use mathlib.Core.Logic.{◌≢◌}

-- The bound `A: Eq`: the test decides equality.
pub record EqTest (A : Type 0) : Type 0 where
  pub test : A → A → Bool
  pub test_refl : (a : A) → test a a ≡ true
  pub test_eq : (a b : A) → test a b ≡ true → a ≡ b

pub record Lock (T A : Type 0) : Type 0 where
  pub item : T
  pub lock : Option A

pub data LockError : Type 0 where
  busy not_locked bad_id : LockError

module _ {A : Type 0} (eq : EqTest A) where
  other : (a b : A) → a ≢ b → eq.test a b ≡ false
  other a b ne = elim (Bool-cases (eq.test a b)) [
    | inl e ↦ absurd (ne (eq.test_eq a b e))
    | inr e ↦ e
  ]

module _ {T A : Type 0} (eq : EqTest A) where
  unfoldable pub new_lock : T → Lock T A
  new_lock item = record { item = item; lock = none }

  -- The lock afterwards; the caller gets at `item` on success.
  unfoldable pub lock : Lock T A → A → Lock T A × Result LockError T
  lock l acq = elim l.lock [
    | some a ↦ elim (eq.test a acq) [
      | true ↦ (l, ok l.item)
      | false ↦ (record l { lock = some acq }, ok l.item)
    ]
    | none ↦ (record l { lock = some acq }, ok l.item)
  ]

  unfoldable pub acquire : Lock T A → A → Result LockError T
  acquire l acq = elim l.lock [
    | some a ↦ elim (eq.test a acq) [ true ↦ ok l.item | false ↦ err busy ]
    | none ↦ err not_locked
  ]

  unfoldable pub release : Lock T A → A → Lock T A × Result LockError (Unit {0})
  release l acq = elim l.lock [
    | some a ↦ elim (eq.test a acq) [
      | true ↦ (record l { lock = none }, ok tt)
      | false ↦ (l, err bad_id)
    ]
    | none ↦ (l, err not_locked)
  ]

  lock_held :
      (item : T) (held : Option A) (a : A)
      → lock (record { item = item; lock = held }) a
        ≡ (record { item = item; lock = some a }, ok item)
  unfolding lock
  lock_held item none a = refl
  lock_held item (some b) a = elim (Bool-cases (eq.test b a)) [
    | inl e ↦
        rw (lock, e) (ap (λ c. (record { item = item; lock = some c }, ok item)) (eq.test_eq b a e))
    | inr e ↦ rw (lock, e)
  ]

  -- Whoever locks gets the resource and holds it, whatever held it before.
  pub lock_lem :
      (l : Lock T A) (a : A) → lock l a ≡ (record { item = l.item; lock = some a }, ok l.item)
  lock_lem l a = lock_held l.item l.lock a

  pub acquire_held : (l : Lock T A) (a : A) → l.lock ≡ some a → acquire l a ≡ ok l.item
  unfolding acquire
  acquire_held l a h = rw (acquire, h, eq.test_refl a)

  -- Either the accessor holds the lock, or nothing is acquired.
  pub acquire_cases :
      (l : Lock T A) (a : A)
      → ((l.lock ≡ some a) × (acquire l a ≡ ok l.item)) ⊎ ((e : LockError) × (acquire l a ≡ err e))
  unfolding acquire
  acquire_cases l a = held_cases l.item l.lock
    where
      held_cases :
          (item : T) (held : Option A)
          → ((held ≡ some a) × (acquire (record { item = item; lock = held }) a ≡ ok item))
            ⊎ ((e : LockError) × (acquire (record { item = item; lock = held }) a ≡ err e))
      held_cases item none = inr (not_locked, refl)
      held_cases item (some b) = elim (Bool-cases (eq.test b a)) [
        | inl e ↦ inl (ap some (eq.test_eq b a e), rw (acquire, e))
        | inr e ↦ inr (busy, rw (acquire, e))
      ]

  pub release_held :
      (l : Lock T A) (a : A) → l.lock ≡ some a → release l a ≡ (record l { lock = none }, ok tt)
  unfolding release
  release_held l a h = rw (release, h, eq.test_refl a)

  -- From any state, after `lock` the same accessor acquires the resource, and its release leaves the
  -- resource free.
  pub lock-owner :
      (l : Lock T A) (a : A)
      → (acquire (lock l a).0 a ≡ ok l.item)
        × (release (lock l a).0 a ≡ (record { item = l.item; lock = none }, ok tt))
  unfolding acquire release
  lock-owner l a =
      subst
        (λ r.
          (acquire r.0 a ≡ ok l.item)
          × (release r.0 a ≡ (record { item = l.item; lock = none }, ok tt)))
        (sym (lock_lem l a)) (rw (acquire, eq.test_refl a), rw (release, eq.test_refl a))

  -- From any state, after `lock` another accessor can neither acquire the resource (busy) nor release
  -- it (bad id), and its release changes nothing.
  pub lock-other :
      (l : Lock T A) (a b : A)
      → a ≢ b
      → (acquire (lock l a).0 b ≡ err busy) × (release (lock l a).0 b ≡ ((lock l a).0, err bad_id))
  unfolding acquire release
  lock-other l a b ne =
      subst (λ r. (acquire r.0 b ≡ err busy) × (release r.0 b ≡ (r.0, err bad_id)))
        (sym (lock_lem l a)) (rw (acquire, other eq a b ne), rw (release, other eq a b ne))

  -- From any state, after a `lock` the `lock` of another accessor takes the resource by force, and the
  -- first one finds it busy.
  pub lock-lock :
      (l : Lock T A) (a b : A)
      → a ≢ b
      → (lock (lock l a).0 b ≡ (record { item = l.item; lock = some b }, ok l.item))
        × (acquire (lock (lock l a).0 b).0 a ≡ err busy)
  unfolding acquire
  lock-lock l a b ne =
      rw
        (
          lock_lem l a,
          lock_lem (record { item = l.item; lock = some a }) b,
          acquire,
          other eq b a (λ e. ne (sym e)),
        )
        (refl, refl)
