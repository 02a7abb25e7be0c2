-- ===== src/Sched/Chain/Ordered.antt =====
-- The SJF and STCF queues are kept in order of their keys, so that the head is a least element.
use cmsc125_lab.Base.{
  Bool-cases, All, ℤ, ◌≤ℤ◌, leb_ℤ, ℕ, ◌≡◌, refl, inl, inr, Option, none, some, List, [], ◌∷◌, arith,
}
use cmsc125_lab.Sched.Chain.{
  Chain, chain_take, chain_dequeue, insert_by, burst_key, remaining_key, sjf_enqueue, stcf_enqueue,
}
use cmsc125_lab.Sched.Process.{Process, Store}

abbrev pub NotLess : (Process → ℤ) → Store → ℤ → List ℕ → Type 0
NotLess key ps t = All (λ (i : ℕ). t ≤ℤ key (ps i))

abbrev pub IsOrdered : (Process → ℤ) → Store → List ℕ → Type 0
IsOrdered key ps [] = Unit
IsOrdered key ps (i ∷ is) = NotLess key ps (key (ps i)) is × IsOrdered key ps is

NotLess-mono :
    (key : Process → ℤ) (ps : Store) (t u : ℤ) (is : List ℕ)
    → t ≤ℤ u
    → NotLess key ps u is
    → NotLess key ps t is
NotLess-mono key ps t u [] h b = tt
NotLess-mono key ps t u (i ∷ is) h b = (omega arith, NotLess-mono key ps t u is h b.1)

insert_by-NotLess :
    (key : Process → ℤ) (ps : Store) (t : ℤ) (i : ℕ) (is : List ℕ)
    → t ≤ℤ key (ps i)
    → NotLess key ps t is
    → NotLess key ps t (insert_by key ps i is)
unfolding insert_by
insert_by-NotLess key ps t i [] h b = (h, tt)
insert_by-NotLess key ps t i (j ∷ is) h b = elim (Bool-cases (leb_ℤ (key (ps j)) (key (ps i)))) [
  | inl past ↦ rw past (b.0, insert_by-NotLess key ps t i is h b.1)
  | inr stop ↦ rw stop (h, b)
]

insert_by-IsOrdered :
    (key : Process → ℤ) (ps : Store) (i : ℕ) (is : List ℕ)
    → IsOrdered key ps is
    → IsOrdered key ps (insert_by key ps i is)
unfolding insert_by
insert_by-IsOrdered key ps i [] o = (tt, tt)
insert_by-IsOrdered key ps i (j ∷ is) o = elim (Bool-cases (leb_ℤ (key (ps j)) (key (ps i)))) [
  | inl past ↦ rw past (
    insert_by-NotLess key ps (key (ps j)) i is (ground arith) o.0,
    insert_by-IsOrdered key ps i is o.1,
  )
  | inr stop ↦
      let le : key (ps i) ≤ℤ key (ps j) = ground arith in
      rw stop ((le, NotLess-mono key ps (key (ps i)) (key (ps j)) is le o.0), o)
]

-- What a dequeue from a list in order of `key` returns: a process with a least key, and the rest in
-- order; nothing only from an empty list.
abbrev pub LeastFirst : (Process → ℤ) → Store → List ℕ → Option (ℕ × Chain) → Type 0
LeastFirst key ps is none = is ≡ []
LeastFirst key ps is (some (i, q)) =
    NotLess key ps (key (ps i)) is × IsOrdered key ps q.items × (is ≡ i ∷ q.items)

chain_take-LeastFirst :
    (key : Process → ℤ) (ps : Store) (is : List ℕ) (n : ℕ)
    → IsOrdered key ps is
    → LeastFirst key ps is (chain_take is n)
unfolding chain_take
chain_take-LeastFirst key ps [] n o = refl
chain_take-LeastFirst key ps (i ∷ is) n o = ((omega arith, o.0), o.1, refl)

-- In an SJF queue that is in order of burst time, after one more `sjf_enqueue`, `sjf_dequeue`
-- returns a process of least burst time among those queued, and the rest stays in order.
pub sjf_enqueue-LeastFirst :
    (ps : Store) (q : Chain) (i : ℕ)
    → IsOrdered burst_key ps q.items
    → LeastFirst burst_key ps (sjf_enqueue ps q i).items (chain_dequeue (sjf_enqueue ps q i))
unfolding sjf_enqueue chain_dequeue
sjf_enqueue-LeastFirst ps q i o =
    chain_take-LeastFirst burst_key ps _ _ (insert_by-IsOrdered burst_key ps i q.items o)

-- In an STCF queue that is in order of remaining time, after one more `stcf_enqueue`,
-- `stcf_dequeue` returns a process of least remaining time, and the rest stays in order.
pub stcf_enqueue-LeastFirst :
    (ps : Store) (q : Chain) (i : ℕ)
    → IsOrdered remaining_key ps q.items
    → LeastFirst remaining_key ps (stcf_enqueue ps q i).items (chain_dequeue (stcf_enqueue ps q i))
unfolding stcf_enqueue chain_dequeue
stcf_enqueue-LeastFirst ps q i o =
    chain_take-LeastFirst remaining_key ps _ _ (insert_by-IsOrdered remaining_key ps i q.items o)
