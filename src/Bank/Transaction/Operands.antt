-- ===== src/Bank/Transaction/Operands.antt =====
-- The slots that the switches of a transaction load and unload.
use cmsc125_lab.Bank.Accounts.{first_id, second_id}
use cmsc125_lab.Bank.BufferPool.{BufferPool, occupy, load_account}
use cmsc125_lab.Bank.BufferPool.Promises.{PoolOk}
use cmsc125_lab.Bank.Transaction.{
  OpType, op_deposit, op_withdraw, op_transfer, op_balance, Operation, load_operands,
  release_operands, release_refused,
}
use cmsc125_lab.Bank.Transaction.Reservations.{
  Reserves, Reserves-none, load-Reserves, unload-Reserves, swap-Reserves,
}
use cmsc125_lab.Base.{ℕ, ◌<◌, ◌≡◌, sym, subst, Option, none, some, List, [], ◌∷◌, arith}

-- The accounts that an operation holds, the last loaded first.
unfoldable pub operands : OpType → Operation → List ℕ
operands op_transfer op =
    second_id op.account op.target_account ∷ first_id op.account op.target_account ∷ []
operands _ op = op.account ∷ []

unfoldable pub Lends : OpType → Operation → BufferPool → Option BufferPool → Type 0
Lends k op pool none = ⊥
Lends k op pool (some loaded) = Reserves (operands k op) pool loaded

load_one-Reserves :
    (i : ℕ) (is : List ℕ) (p p' : BufferPool)
    → Reserves is p p'
    → 0 < p'.empty_slots
    → (q : BufferPool) × (load_account i p' ≡ some q) × Reserves (i ∷ is) p q
load_one-Reserves i is p p' r h = let l = load-Reserves i is p p' r h in (occupy i p', l.0, l.1)

load_simple-Lends :
    (i : ℕ) (pool : BufferPool)
    → PoolOk pool
    → 1 < pool.empty_slots
    → (q : BufferPool) × (load_account i pool ≡ some q) × Reserves (i ∷ []) pool q
load_simple-Lends i pool ok room =
    load_one-Reserves i [] pool pool (Reserves-none pool ok) (omega arith)

pub load_operands-Lends :
    (k : OpType) (op : Operation) (pool : BufferPool)
    → PoolOk pool
    → 1 < pool.empty_slots
    → Lends k op pool (load_operands k op pool)
unfolding load_operands Lends operands
load_operands-Lends op_deposit op pool ok room =
    let (q, e, r) = load_simple-Lends op.account pool ok room in rw e r
load_operands-Lends op_withdraw op pool ok room =
    let (q, e, r) = load_simple-Lends op.account pool ok room in rw e r
load_operands-Lends op_balance op pool ok room =
    let (q, e, r) = load_simple-Lends op.account pool ok room in rw e r
load_operands-Lends op_transfer op pool ok room =
    let (q, e, r) = load_simple-Lends (first_id op.account op.target_account) pool ok room in
    let (q', e', r') =
      load_one-Reserves (second_id op.account op.target_account)
        (first_id op.account op.target_account ∷ []) pool q r (let t = r.taken in omega arith) in
    subst
      (λ o. Lends op_transfer op pool (elim o [
        | none ↦ none
        | some loaded ↦ load_account (second_id op.account op.target_account) loaded
      ]))
      (sym e) (subst (Lends op_transfer op pool) (sym e') r')

pub release_operands-Returned :
    (k : OpType) (op : Operation) (pool loaded : BufferPool)
    → Reserves (operands k op) pool loaded
    → Reserves [] pool (release_operands k op loaded)
unfolding release_operands operands
release_operands-Returned op_deposit op pool loaded r = unload-Reserves op.account [] pool loaded r
release_operands-Returned op_withdraw op pool loaded r = unload-Reserves op.account [] pool loaded r
release_operands-Returned op_balance op pool loaded r = unload-Reserves op.account [] pool loaded r
release_operands-Returned op_transfer op pool loaded r =
    let first = first_id op.account op.target_account in
    let second = second_id op.account op.target_account in
    unload-Reserves first [] pool _ (unload-Reserves second (first ∷ []) pool loaded r)

pub release_refused-Returned :
    (k : OpType) (op : Operation) (pool loaded : BufferPool)
    → Reserves (operands k op) pool loaded
    → Reserves [] pool (release_refused k op loaded)
unfolding release_refused operands
release_refused-Returned op_deposit op pool loaded r = unload-Reserves op.account [] pool loaded r
release_refused-Returned op_withdraw op pool loaded r = unload-Reserves op.account [] pool loaded r
release_refused-Returned op_balance op pool loaded r = unload-Reserves op.account [] pool loaded r
release_refused-Returned op_transfer op pool loaded r =
    let first = first_id op.account op.target_account in
    let second = second_id op.account op.target_account in
    unload-Reserves second [] pool _
      (unload-Reserves first (second ∷ []) pool loaded (swap-Reserves second first pool loaded r))
