-- ===== src/Bank/BufferPool/Promises.antt =====
-- The counters of the buffer pool agree with its slots.
use cmsc125_lab.Bank.BufferPool.{
  buffer_pool_size, BufferSlot, BufferPool, free_slot, init_buffer_pool, occupy, load_account,
  free_first, unload_account,
}
use cmsc125_lab.Bank.BufferPool.Slots.{
  used_slots, copies, length-fill_first, used-fill_first, copies-fill_first, length-free_first,
  used-free_first, copies-free_first,
}
use cmsc125_lab.Base.{
  ◌==◌, if◌then◌else◌, Bool-cases, length, ℤ, pos, ◌+ℤ◌, ◌-ℤ◌, ◌≤ℤ◌, ltb_ℤ, int_laws, ℕ, suc, ◌+◌,
  ◌≤◌, ◌<◌, ◌≡◌, refl, sym, ap, ◌∙◌, inl, inr, Option, none, some, List, [], ◌∷◌, map, arith,
}

-- The pool between two operations: its five slots, the semaphore and the counters tell the same
-- number of slots in use, and the peak lies between that number and five.
pub record PoolOk (p : BufferPool) : Type 0 where
  pub slot_count : length p.slots ≡ buffer_pool_size
  pub semaphore : used_slots p.slots + p.empty_slots ≡ buffer_pool_size
  pub usage : p.current_usage ≡ pos (used_slots p.slots)
  pub loads : p.total_loads ≡ p.total_unloads +ℤ p.current_usage
  pub peak_above : p.current_usage ≤ℤ p.peak_usage
  pub peak_below : p.peak_usage ≤ℤ pos buffer_pool_size

-- The counters of the pool, in a loop-free form: one more load.
up : (c : ℤ) (n : ℕ) → c ≡ pos n → c +ℤ pos 1 ≡ pos (suc n)
up c n e = grind int_laws

down : (c : ℤ) (n : ℕ) → c ≡ pos (suc n) → c -ℤ pos 1 ≡ pos n
down c n e = grind int_laws

load_balance : (l u c : ℤ) → l ≡ u +ℤ c → l +ℤ pos 1 ≡ u +ℤ (c +ℤ pos 1)
load_balance l u c e = grind int_laws

unload_balance : (l u c : ℤ) → l ≡ u +ℤ c → l ≡ u +ℤ pos 1 +ℤ (c -ℤ pos 1)
unload_balance l u c e = grind int_laws

peak-above : (c k : ℤ) → c ≤ℤ (if ltb_ℤ k c then c else k)
peak-above c k = ground arith

peak-below : (c k : ℤ) (n : ℕ) → c ≤ℤ pos n → k ≤ℤ pos n → (if ltb_ℤ k c then c else k) ≤ℤ pos n
peak-below c k n hc hk = ground arith

as_bound : (c : ℤ) (n m : ℕ) → c ≡ pos n → n ≤ m → c ≤ℤ pos m
as_bound c n m e h = rw e (omega arith)

one_less : (c k : ℤ) (n : ℕ) → c ≡ pos (suc n) → c ≤ℤ k → (c -ℤ pos 1) ≤ℤ k
one_less c k n e h = grind int_laws

-- What `load_account` promises on a pool in order: it waits exactly when all five slots are in use,
-- and otherwise the account is in one slot more, every other account where it was.
unfoldable pub Loaded : ℕ → BufferPool → Option BufferPool → Type 0
Loaded i p none = used_slots p.slots ≡ buffer_pool_size
Loaded i p (some p') =
    PoolOk p'
    × (suc p'.empty_slots ≡ p.empty_slots)
    × ((j : ℕ) → copies j p'.slots ≡ (if i == j then 1 else 0) + copies j p.slots)

occupy-PoolOk :
    (i : ℕ) (p : BufferPool)
    → PoolOk p
    → used_slots p.slots < buffer_pool_size
    → PoolOk (occupy i p)
unfolding occupy
occupy-PoolOk i p ok room =
    let used = used-fill_first i p.slots (rw ok.slot_count room) in
    let usage' = up p.current_usage (used_slots p.slots) ok.usage in
    record {
      slot_count = length-fill_first i p.slots ∙ ok.slot_count;
      semaphore = rw used (omega (arith, ok.semaphore));
      usage = usage' ∙ ap pos (sym used);
      loads = load_balance p.total_loads p.total_unloads p.current_usage ok.loads;
      peak_above = peak-above (p.current_usage +ℤ pos 1) p.peak_usage;
      peak_below =
          peak-below (p.current_usage +ℤ pos 1) p.peak_usage buffer_pool_size
            (as_bound _ (suc (used_slots p.slots)) buffer_pool_size usage' room) ok.peak_below;
    }

pub occupy-Loaded :
    (i : ℕ) (p : BufferPool)
    → PoolOk p
    → used_slots p.slots < buffer_pool_size
    → Loaded i p (some (occupy i p))
unfolding Loaded occupy
occupy-Loaded i p ok room = (
  occupy-PoolOk i p ok room,
  omega (arith, ok.semaphore),
  λ j. copies-fill_first i j p.slots (rw ok.slot_count room),
)

-- On a pool in order, `load_account` blocks only when all five slots are in use; otherwise it leaves a
-- pool in order with one slot more for the account, one free slot less, and no other change.
pub load_account-Loaded : (i : ℕ) (p : BufferPool) → PoolOk p → Loaded i p (load_account i p)
unfolding load_account Loaded
load_account-Loaded i p ok = elim (Bool-cases (p.empty_slots == 0)) [
  | inl full ↦ rw full (ground (arith, ok.semaphore))
  | inr free ↦ rw free (occupy-Loaded i p ok (ground (arith, ok.semaphore)))
]

unload-PoolOk :
    (i : ℕ) (p : BufferPool) → PoolOk p → 0 < copies i p.slots → PoolOk (unload_account i p)
unfolding unload_account
unload-PoolOk i p ok inside =
    let used = used-free_first i p.slots inside in
    let usage = ok.usage ∙ ap pos (sym used) in
    record {
      slot_count = length-free_first i p.slots ∙ ok.slot_count;
      semaphore = omega (arith, ok.semaphore);
      usage = down p.current_usage (used_slots (free_first i p.slots)) usage;
      loads = unload_balance p.total_loads p.total_unloads p.current_usage ok.loads;
      peak_above =
          one_less p.current_usage p.peak_usage (used_slots (free_first i p.slots)) usage
            ok.peak_above;
      peak_below = ok.peak_below;
    }

-- What `unload_account` promises on a pool in order that holds the account.
pub record Unloaded (i : ℕ) (p p' : BufferPool) : Type 0 where
  pub still_ok : PoolOk p'
  pub one_more_free : p'.empty_slots ≡ suc p.empty_slots
  pub copies_left : (j : ℕ) → (if i == j then 1 else 0) + copies j p'.slots ≡ copies j p.slots

-- On a pool in order that holds the account, `unload_account` leaves a pool in order with one slot
-- less for the account, one free slot more, and no other change.
pub unload_account-Unloaded :
    (i : ℕ) (p : BufferPool) → PoolOk p → 0 < copies i p.slots → Unloaded i p (unload_account i p)
unfolding unload_account
unload_account-Unloaded i p ok inside = record {
  still_ok = unload-PoolOk i p ok inside;
  one_more_free = refl;
  copies_left = λ j. copies-free_first i j p.slots inside;
}

free_slots-unused : (cs : List BufferSlot) → used_slots (map free_slot cs) ≡ 0
unfolding used_slots free_slot
free_slots-unused [] = refl
free_slots-unused (c ∷ cs) = let rest = free_slots-unused cs in omega arith

length-free_slots : (cs : List BufferSlot) → length (map free_slot cs) ≡ length cs
length-free_slots [] = refl
length-free_slots (c ∷ cs) = ap suc (length-free_slots cs)

-- `init_buffer_pool` brings a pool with five slots in order, with every slot free.
pub init_buffer_pool-PoolOk :
    (cs : List BufferSlot) → length cs ≡ buffer_pool_size → PoolOk (init_buffer_pool cs)
unfolding init_buffer_pool ◌+ℤ◌
init_buffer_pool-PoolOk cs e = record {
  slot_count = length-free_slots cs ∙ e;
  semaphore = rw (free_slots-unused cs) refl;
  usage = rw (free_slots-unused cs) refl;
  loads = refl;
  peak_above = omega arith;
  peak_below = omega arith;
}
