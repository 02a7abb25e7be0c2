-- ===== src/Bank/BufferPool/Slots.antt =====
-- How the loops of the buffer pool change the slots in use.
use cmsc125_lab.Bank.BufferPool.{BufferSlot, free_slot, fill_first, free_first}
use cmsc125_lab.Base.{
  ◌==◌, if◌then◌else◌, Bool-cases, length, ℕ, suc, ◌+◌, ◌≤◌, ◌<◌, ◌≡◌, refl, inl, inr, ◌&&◌, List,
  [], ◌∷◌, arith,
}

-- The slots in use, and those in use for one account.
unfoldable pub used_slots : List BufferSlot → ℕ
used_slots [] = 0
used_slots (c ∷ cs) = (if c.in_use then 1 else 0) + used_slots cs

unfoldable pub copies : ℕ → List BufferSlot → ℕ
copies i [] = 0
copies i (c ∷ cs) = (if c.in_use && (c.slot_account == i) then 1 else 0) + copies i cs

pub length-fill_first : (i : ℕ) (cs : List BufferSlot) → length (fill_first i cs) ≡ length cs
unfolding fill_first
length-fill_first i [] = refl
length-fill_first i (c ∷ cs) = ground (arith, length-fill_first i cs)

pub used-fill_first :
    (i : ℕ) (cs : List BufferSlot)
    → used_slots cs < length cs
    → used_slots (fill_first i cs) ≡ suc (used_slots cs)
unfolding fill_first used_slots
used-fill_first i [] h = absurd (omega arith)
used-fill_first i (c ∷ cs) h = elim (Bool-cases c.in_use) [
  | inl e ↦ let rest = used-fill_first i cs (ground arith) in rw e (omega arith)
  | inr e ↦ rw e (omega arith)
]

pub copies-fill_first :
    (i j : ℕ) (cs : List BufferSlot)
    → used_slots cs < length cs
    → copies j (fill_first i cs) ≡ (if i == j then 1 else 0) + copies j cs
unfolding fill_first used_slots copies
copies-fill_first i j [] h = absurd (omega arith)
copies-fill_first i j (c ∷ cs) h = elim (Bool-cases c.in_use) [
  | inl e ↦ let rest = copies-fill_first i j cs (ground arith) in ground (arith, e)
  | inr e ↦ ground arith
]

pub length-free_first : (i : ℕ) (cs : List BufferSlot) → length (free_first i cs) ≡ length cs
unfolding free_first free_slot
length-free_first i [] = refl
length-free_first i (c ∷ cs) = ground (arith, length-free_first i cs)

copies-le-used : (i : ℕ) (cs : List BufferSlot) → copies i cs ≤ used_slots cs
unfolding copies used_slots
copies-le-used i [] = omega arith
copies-le-used i (c ∷ cs) = ground (arith, copies-le-used i cs)

pub used-free_first :
    (i : ℕ) (cs : List BufferSlot)
    → 0 < copies i cs
    → suc (used_slots (free_first i cs)) ≡ used_slots cs
unfolding free_first free_slot used_slots copies
used-free_first i [] h = absurd (omega arith)
used-free_first i (c ∷ cs) h = elim (Bool-cases (c.in_use && (c.slot_account == i))) [
  | inl e ↦ ground arith
  | inr e ↦ let rest = used-free_first i cs (ground arith) in ground arith
]

pub copies-free_first :
    (i j : ℕ) (cs : List BufferSlot)
    → 0 < copies i cs
    → (if i == j then 1 else 0) + copies j (free_first i cs) ≡ copies j cs
unfolding free_first free_slot copies
copies-free_first i j [] h = absurd (omega arith)
copies-free_first i j (c ∷ cs) h = elim (Bool-cases (c.in_use && (c.slot_account == i))) [
  | inl e ↦ ground arith
  | inr e ↦ let rest = copies-free_first i j cs (ground arith) in ground arith
]
