-- ===== src/Sched/WaitingQueue/Contents.antt =====
-- What a waiting queue holds, whichever policy it has.
use cmsc125_lab.Base.{
  ◌==◌, if◌then◌else◌, Bool-cases, length, length-append, count, count-append, ℤ, leb_ℤ, ℕ, zero,
  suc, ◌+◌, ◌<◌, ◌≡◌, refl, ap, inl, inr, List, [], ◌∷◌, ◌++◌, arith,
}
use cmsc125_lab.Sched.Chain.{insert_by}
use cmsc125_lab.Sched.MlfqQueue.{MlfqQueue, append_at, clamp_level, all_processes}
use cmsc125_lab.Sched.Process.{Process, Store}
use cmsc125_lab.Sched.WaitingQueue.{
  WaitingQueue, fcfs_queue, sjf_queue, stcf_queue, rr_queue, mlfq_queue, queue_size,
}

abbrev pub contents : WaitingQueue → List ℕ
contents (fcfs_queue q) = q.items
contents (sjf_queue q) = q.items
contents (stcf_queue q) = q.items
contents (rr_queue q) = q.active ++ (q.round ++ q.pending)
contents (mlfq_queue q) = all_processes q.level_queues

pub record HasLevels (q : MlfqQueue) : Type 0 where
  pub some_level : 0 < q.num_levels
  pub level_count : length q.level_queues ≡ q.num_levels

abbrev pub LevelsOk : WaitingQueue → Type 0
LevelsOk (mlfq_queue q) = HasLevels q
LevelsOk _ = Unit

-- The size is exact, and an MLFQ queue has a list for each of its levels.
pub record IsExact (w : WaitingQueue) : Type 0 where
  pub size_exact : queue_size w ≡ length (contents w)
  pub levels_ok : LevelsOk w

abbrev pub hit : ℕ → ℕ → ℕ
hit a i = if a == i then 1 else 0

-- `contents` after one more process `i`.
pub record Adds (i : ℕ) (xs ys : List ℕ) : Type 0 where
  pub longer : length ys ≡ suc (length xs)
  pub counted : (a : ℕ) → count a ys ≡ hit a i + count a xs

pub Adds-append : (i : ℕ) (xs : List ℕ) → Adds i xs (xs ++ i ∷ [])
Adds-append i xs = record {
  longer = omega (arith, length-append xs (i ∷ []));
  counted = λ a. omega (arith, count-append a xs (i ∷ []));
}

Adds-cons : (i x : ℕ) (xs ys : List ℕ) → Adds i xs ys → Adds i (x ∷ xs) (x ∷ ys)
Adds-cons i x xs ys v = record {
  longer = omega (arith, v.longer);
  counted = λ a. omega (arith, v.counted a);
}

pub Adds-between : (i : ℕ) (xs ys zs : List ℕ) → Adds i ys zs → Adds i (xs ++ ys) (xs ++ zs)
Adds-between i [] ys zs v = v
Adds-between i (x ∷ xs) ys zs v = Adds-cons i x (xs ++ ys) (xs ++ zs) (Adds-between i xs ys zs v)

pub Adds-before : (i : ℕ) (xs ys zs : List ℕ) → Adds i xs ys → Adds i (xs ++ zs) (ys ++ zs)
Adds-before i xs ys zs v = record {
  longer = omega (arith, v.longer, length-append xs zs, length-append ys zs);
  counted = λ a. omega (arith, v.counted a, count-append a xs zs, count-append a ys zs);
}

pub Adds-insert_by :
    (key : Process → ℤ) (ps : Store) (i : ℕ) (xs : List ℕ) → Adds i xs (insert_by key ps i xs)
unfolding insert_by
Adds-insert_by key ps i [] = record { longer = refl; counted = λ a. refl }
Adds-insert_by key ps i (x ∷ xs) = elim (Bool-cases (leb_ℤ (key (ps x)) (key (ps i)))) [
  | inl past ↦ rw past (Adds-cons i x xs _ (Adds-insert_by key ps i xs))
  | inr stop ↦ rw stop (record { longer = refl; counted = λ a. refl })
]

pub Adds-append_at :
    (qs : List (List ℕ)) (level i : ℕ)
    → level < length qs
    → Adds i (all_processes qs) (all_processes (append_at qs level i))
unfolding all_processes append_at
Adds-append_at [] level i h = absurd (omega arith)
Adds-append_at (q ∷ qs) zero i h =
    Adds-before i q (q ++ i ∷ []) (all_processes qs) (Adds-append i q)
Adds-append_at (q ∷ qs) (suc level) i h =
    Adds-between i q (all_processes qs) _ (Adds-append_at qs level i (omega arith))

pub length-append_at :
    (qs : List (List ℕ)) (level i : ℕ) → length (append_at qs level i) ≡ length qs
unfolding append_at
length-append_at [] level i = refl
length-append_at (q ∷ qs) zero i = refl
length-append_at (q ∷ qs) (suc level) i = ap suc (length-append_at qs level i)

pub clamp_level_lt : (q : MlfqQueue) (p : ℤ) → 0 < q.num_levels → clamp_level q p < q.num_levels
unfolding clamp_level
clamp_level_lt q p h = ground arith
