-- ===== src/Sync/Lock.antt =====
-- A `Locker` knows whether its object is locked.
use ckcore.Base.{Bool, true, false, not, ◌≡◌, Bool-cases, inl, inr, sym, arith}
use ckcore.Sync.{Lockable, Locker, locker, destroy, unlock, relock}

-- What a lockable object promises: `held` says whether it is locked; a call that fails changes nothing of that.
pub record IsLock {S : Type 0} (o : Lockable S) (held : S → Bool) : Type 0 where
  pub locks : (s : S) → held s ≡ false → held (o.lock s).1 ≡ (o.lock s).0
  pub unlocks : (s : S) → held s ≡ true → held (o.unlock s).1 ≡ not (o.unlock s).0

module _ {S : Type 0} {o : Lockable S} {held : S → Bool} (is_lock : IsLock o held) where
  open is_lock use {locks, unlocks}

  abbrev pub Knows : Locker S → Type 0
  Knows l = l.is_locked ≡ held l.lockable

  -- A locker of an object that is free knows whether it is locked.
  locker-Knows : (s : S) → held s ≡ false → Knows (locker o s)
  unfolding locker
  locker-Knows s h = sym (locks s h)

  -- A locker that knows whether its object is locked, over an object whose calls change that just when
  -- they succeed: it knows so after `unlock` and after `relock`; `unlock` returns false when it is not
  -- locked, `relock` when it is; and the destructor leaves the object free when its unlock succeeds.
  pub locker_lem :
      (l : Locker S)
      → Knows l
      → Knows (unlock o l).1
        × Knows (relock o l).1
        × (l.is_locked ≡ false → (unlock o l).0 ≡ false)
        × (l.is_locked ≡ true → (relock o l).0 ≡ false)
        × ((o.unlock l.lockable).0 ≡ true → held (destroy o l) ≡ false)
  unfolding unlock relock destroy
  locker_lem l k = elim (Bool-cases l.is_locked) [
    | inl e ↦ ground (arith, k, e, locks l.lockable, unlocks l.lockable)
    | inr e ↦ ground (arith, k, e, locks l.lockable, unlocks l.lockable)
  ]
