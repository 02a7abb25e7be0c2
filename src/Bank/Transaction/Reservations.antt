-- ===== src/Bank/Transaction/Reservations.antt =====
-- The slots of the buffer pool that a transaction holds.
use cmsc125_lab.Bank.BufferPool.{buffer_pool_size, BufferPool, occupy, load_account, unload_account}
use cmsc125_lab.Bank.BufferPool.Promises.{PoolOk, Loaded, occupy-Loaded, unload_account-Unloaded}
use cmsc125_lab.Bank.BufferPool.Slots.{used_slots, copies}
use cmsc125_lab.Base.{
  ◌==◌, length, count, ℕ, suc, ◌+◌, ◌<◌, ◌≡◌, refl, false, some, List, [], ◌∷◌, arith,
}

-- From the pool `p`, one slot more has been loaded for each account of the list.
pub record Reserves (is : List ℕ) (p p' : BufferPool) : Type 0 where
  pub in_order : PoolOk p'
  pub taken : length is + p'.empty_slots ≡ p.empty_slots
  pub one_each : (j : ℕ) → copies j p'.slots ≡ count j is + copies j p.slots

pub Reserves-none : (p : BufferPool) → PoolOk p → Reserves [] p p
Reserves-none p ok = record { in_order = ok; taken = omega arith; one_each = λ j. omega arith }

some_used-below :
    (p : BufferPool) → PoolOk p → 0 < p.empty_slots → used_slots p.slots < buffer_pool_size
some_used-below p ok h = omega (arith, ok.semaphore)

pub occupy-Reserves :
    (i : ℕ) (is : List ℕ) (p p' q : BufferPool)
    → Reserves is p p'
    → Loaded i p' (some q)
    → Reserves (i ∷ is) p q
unfolding Loaded
occupy-Reserves i is p p' q r l = record {
  in_order = l.0;
  taken = let t = r.taken in let e = l.1 in omega arith;
  one_each = λ j. let t = r.one_each j in let e = l.2 j in ground arith;
}

pub load-Reserves :
    (i : ℕ) (is : List ℕ) (p p' : BufferPool)
    → Reserves is p p'
    → 0 < p'.empty_slots
    → (load_account i p' ≡ some (occupy i p')) × Reserves (i ∷ is) p (occupy i p')
unfolding load_account
load-Reserves i is p p' r h =
    let free : (p'.empty_slots == 0) ≡ false = ground arith in
    (
      rw free refl,
      occupy-Reserves i is p p' (occupy i p') r
          (occupy-Loaded i p' r.in_order (some_used-below p' r.in_order h)),
    )

pub unload-Reserves :
    (i : ℕ) (is : List ℕ) (p p' : BufferPool)
    → Reserves (i ∷ is) p p'
    → Reserves is p (unload_account i p')
unload-Reserves i is p p' r =
    let counted : count i (i ∷ is) ≡ suc (count i is) = ground arith in
    let u = unload_account-Unloaded i p' r.in_order (let e = r.one_each i in omega arith) in
    record {
      in_order = u.still_ok;
      taken = (let t = r.taken in let e = u.one_more_free in omega arith);
      one_each = λ j. let t = r.one_each j in let e = u.copies_left j in ground arith;
    }

pub swap-Reserves :
    (i j : ℕ) (p p' : BufferPool) → Reserves (i ∷ j ∷ []) p p' → Reserves (j ∷ i ∷ []) p p'
swap-Reserves i j p p' r = record {
  in_order = r.in_order;
  taken = r.taken;
  one_each = λ k. let e = r.one_each k in omega arith;
}

-- What the pool lends to a transaction comes back: as `p` was, but for its counters and the order
-- of its slots.
pub Returned : BufferPool → BufferPool → Type 0
Returned p p' = Reserves [] p p'
