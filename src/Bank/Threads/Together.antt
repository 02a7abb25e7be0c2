-- ===== src/Bank/Threads/Together.antt =====
-- lab_3/src/transaction.c: a section of one of several threads.
use cmsc125_lab.Bank.BufferPool.{BufferPool}
use cmsc125_lab.Bank.Threads.{Thread, move_at, move_thread}
use cmsc125_lab.Bank.Threads.Holdings.{held_at, held_by_all, all_sections_left, MovedOr}
use cmsc125_lab.Bank.Threads.Slots.{move_at-MovedOr}
use cmsc125_lab.Bank.Transaction.{Globals}
use cmsc125_lab.Bank.Transaction.Reservations.{Reserves}
use cmsc125_lab.Base.{
  length, length-append, count, count-append, ℕ, zero, suc, ◌<◌, ◌≡◌, refl, ap, Option, none, some,
  List, [], ◌∷◌, ◌++◌, arith,
}

-- The slots lent depend on how often each account is held, not on the order.
pub recounted-Reserves :
    (is js : List ℕ) (q p : BufferPool)
    → length js ≡ length is
    → ((k : ℕ) → count k js ≡ count k is)
    → Reserves is q p
    → Reserves js q p
recounted-Reserves is js q p e f r = record {
  in_order = r.in_order;
  taken = let t = r.taken in omega arith;
  one_each = λ k. let t = r.one_each k in let c = f k in omega arith;
}

pub ruleset count_laws = (arith, length-append, count-append)

nest-Reserves :
    (is js ks : List ℕ) (q p : BufferPool)
    → Reserves (is ++ js ++ ks) q p
    → Reserves (is ++ (js ++ ks)) q p
nest-Reserves is js ks q p r =
    recounted-Reserves (is ++ js ++ ks) (is ++ (js ++ ks)) q p (grind count_laws)
      (λ k. grind count_laws) r

unnest-Reserves :
    (is js ks : List ℕ) (q p : BufferPool)
    → Reserves (is ++ (js ++ ks)) q p
    → Reserves (is ++ js ++ ks) q p
unnest-Reserves is js ks q p r =
    recounted-Reserves (is ++ (js ++ ks)) (is ++ js ++ ks) q p (grind count_laws)
      (λ k. grind count_laws) r

set_aside-Reserves :
    (is js ks : List ℕ) (q p : BufferPool)
    → Reserves (is ++ js ++ ks) q p
    → Reserves (js ++ (is ++ ks)) q p
set_aside-Reserves is js ks q p r =
    recounted-Reserves (is ++ js ++ ks) (js ++ (is ++ ks)) q p (grind count_laws)
      (λ k. grind count_laws) r

put_back-Reserves :
    (is js ks : List ℕ) (q p : BufferPool)
    → Reserves (js ++ (is ++ ks)) q p
    → Reserves (is ++ js ++ ks) q p
put_back-Reserves is js ks q p r =
    recounted-Reserves (js ++ (is ++ ks)) (is ++ js ++ ks) q p (grind count_laws)
      (λ k. grind count_laws) r

-- What a section of one of the threads leaves.
unfoldable pub AllMovedOr :
    List ℕ → BufferPool → List Thread → Option (List Thread × Globals) → Type 0
AllMovedOr others q ts none = Unit {0}
AllMovedOr others q ts (some (ts', g')) =
    Reserves (held_by_all ts' ++ others) q g'.shared_pool
    × (all_sections_left ts' < all_sections_left ts)
    × (length ts' ≡ length ts)

head-AllMovedOr :
    (others : List ℕ) (q : BufferPool) (t : Thread) (ts : List Thread)
    (o : Option (Thread × Globals))
    → MovedOr (held_by_all ts ++ others) q t.place t o
    → AllMovedOr others q (t ∷ ts) (elim o [ none ↦ none | some (t', g') ↦ some (t' ∷ ts, g') ])
unfolding AllMovedOr MovedOr held_by_all all_sections_left
head-AllMovedOr others q t ts none m = tt
head-AllMovedOr others q t ts (some (t', g')) m = (
  unnest-Reserves (held_at t'.place) (held_by_all ts) others q g'.shared_pool m.reserves,
  omega (arith, m.fewer),
  refl,
)

tail-AllMovedOr :
    (others : List ℕ) (q : BufferPool) (t : Thread) (ts : List Thread)
    (o : Option (List Thread × Globals))
    → AllMovedOr (held_at t.place ++ others) q ts o
    → AllMovedOr others q (t ∷ ts) (elim o [ none ↦ none | some (ts', g') ↦ some (t ∷ ts', g') ])
unfolding AllMovedOr held_by_all all_sections_left
tail-AllMovedOr others q t ts none m = tt
tail-AllMovedOr others q t ts (some (ts', g')) (r, less, same) = (
  put_back-Reserves (held_at t.place) (held_by_all ts') others q g'.shared_pool r,
  omega arith,
  ap suc same,
)

pub move_thread-AllMovedOr :
    (i : ℕ) (others : List ℕ) (q : BufferPool) (ts : List Thread) (g : Globals)
    → Reserves (held_by_all ts ++ others) q g.shared_pool
    → AllMovedOr others q ts (move_thread i ts g)
unfolding move_thread held_by_all AllMovedOr
move_thread-AllMovedOr i others q [] g r = tt
move_thread-AllMovedOr zero others q (t ∷ ts) g r =
    head-AllMovedOr others q t ts (move_at t.place t g) (
      move_at-MovedOr (held_by_all ts ++ others) q t.place t g
        (nest-Reserves (held_at t.place) (held_by_all ts) others q g.shared_pool r))
move_thread-AllMovedOr (suc i) others q (t ∷ ts) g r =
    tail-AllMovedOr others q t ts (move_thread i ts g) (
      move_thread-AllMovedOr i (held_at t.place ++ others) q ts g
        (set_aside-Reserves (held_at t.place) (held_by_all ts) others q g.shared_pool r))
