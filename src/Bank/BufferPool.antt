-- ===== src/Bank/BufferPool.antt =====
-- lab_3/src/buffer_pool.c and lab_3/include/buffer_pool.h. The pointer of a slot is
-- `&bank.accounts[account_id]` and is left out. The semaphore is its count; an operation that would
-- wait for it returns none. What runs between the lock of the pool and its release is one step.
pub mod Slots
pub mod Promises
use cmsc125_lab.Base.{
  ◌==◌, if◌then◌else◌, ℤ, pos, ◌+ℤ◌, ◌-ℤ◌, ltb_ℤ, ℕ, suc, ◌-◌, Bool, true, false, ◌&&◌, Option,
  none, some, List, [], ◌∷◌, map,
}

-- BUFFER_POOL_SIZE.
abbrev pub buffer_pool_size : ℕ
buffer_pool_size = 5

pub record BufferSlot : Type 0 where
  pub slot_account : ℕ
  pub in_use : Bool

pub record BufferPool : Type 0 where
  pub slots : List BufferSlot
  pub empty_slots : ℕ
  pub total_loads : ℤ
  pub total_unloads : ℤ
  pub current_usage : ℤ
  pub peak_usage : ℤ

unfoldable pub free_slot : BufferSlot → BufferSlot
free_slot c = record c { in_use = false }

-- `sem_init`, the counters, and the loop that marks every slot as free.
unfoldable pub init_buffer_pool : List BufferSlot → BufferPool
unfolding free_slot
init_buffer_pool cells = record {
  slots = map free_slot cells;
  empty_slots = buffer_pool_size;
  total_loads = pos 0;
  total_unloads = pos 0;
  current_usage = pos 0;
  peak_usage = pos 0;
}

-- The loop of `load_account`: the first free slot takes the account.
unfoldable pub fill_first : ℕ → List BufferSlot → List BufferSlot
fill_first i [] = []
fill_first i (c ∷ cs) =
    let rest = fill_first i cs in
    if c.in_use then c ∷ rest else record { slot_account = i; in_use = true } ∷ cs

-- The counters and the slots of `load_account`.
unfoldable pub occupy : ℕ → BufferPool → BufferPool
unfolding fill_first
occupy i p =
    let usage = p.current_usage +ℤ pos 1 in
    record p {
      slots = fill_first i p.slots;
      empty_slots = p.empty_slots - 1;
      total_loads = p.total_loads +ℤ pos 1;
      current_usage = usage;
      peak_usage = if ltb_ℤ p.peak_usage usage then usage else p.peak_usage;
    }

-- none where `sem_wait` blocks.
unfoldable pub load_account : ℕ → BufferPool → Option BufferPool
unfolding occupy
load_account i p = if p.empty_slots == 0 then none else some (occupy i p)

-- The loop of `unload_account`: the first slot that holds the account is freed.
unfoldable pub free_first : ℕ → List BufferSlot → List BufferSlot
unfolding free_slot
free_first i [] = []
free_first i (c ∷ cs) =
    let rest = free_first i cs in
    if c.in_use && (c.slot_account == i) then free_slot c ∷ cs else c ∷ rest

unfoldable pub unload_account : ℕ → BufferPool → BufferPool
unfolding free_first
unload_account i p = record p {
  slots = free_first i p.slots;
  empty_slots = suc p.empty_slots;
  total_unloads = p.total_unloads +ℤ pos 1;
  current_usage = p.current_usage -ℤ pos 1;
}
