-- ===== src/Pevm/GraphScheduler/Progress.antt =====
-- `next_task` of graph_scheduler.rs in the states in which no thread holds a task.
pub mod Upward
mod Static
use congestion_control.Prelude.{
  ℕ, zero, suc, ◌+◌, ◌-◌, ◌≡◌, ◌≤◌, ◌<◌, refl, ap, ◌∙◌, subst, sym, Bool, true, false, not, List,
  [], ◌∷◌, arith, ◌==◌, bit, count, count_if, get_or, length, replicate, if◌then◌else◌, Option,
  some, none, ◌⊎◌, inl, inr, zero_or_pos, Bool-cases, ltb, lt_or_le, count_if_all, Option-cases,
}
use congestion_control.Pevm.Types.{
  IncarnationStatus, ready_to_execute, executing, executed, validated, aborting, BitFlags, is_done,
  is_validated, Task, execution, validation,
}
use congestion_control.Pevm.Node.{TransactionNode}
use congestion_control.Pevm.Atomics.{heap_peek_or, heap_is_empty}
use congestion_control.Pevm.GraphScheduler.{
  GraphScheduler, new, status_at, parents_of, Poll, stop, found, again, poll, next_task,
  check_all_done, try_validation_task, try_execution_task, no_status, version_at, or_execution,
  as_poll,
}
use congestion_control.Pevm.GraphScheduler.Completion.Release.{remaining_at, unreleased}
use congestion_control.Pevm.GraphScheduler.Workers.{System, Reach, Work, waits, go_on}
use congestion_control.Pevm.GraphScheduler.Invariant.{IsValid, IsMirrored, has_validated}
use congestion_control.Pevm.GraphScheduler.Invariant.Poll.{
  try_validation_task_at, try_validation_task-IsValid,
}
use congestion_control.Pevm.GraphScheduler.Invariant.Pop.{try_execution_task_at, List-cases}
use congestion_control.Pevm.GraphScheduler.Safety.{initial, reachable-IsValid}
use Upward.{IsUpward, new-IsUpward, Reach-IsUpward}
use Static.{Reach-IsSameBlock}

-- Every edge goes from a lower index to a higher one.
abbrev pub IsForward : List TransactionNode → Type 0
IsForward nodes = (p c : ℕ) → 0 < count p (parents_of nodes c) → p < c

unreleased-zero :
    (released : List Bool) (ps : List ℕ)
    → ((p : ℕ) → 0 < count p ps → get_or released p false ≡ true)
    → unreleased released ps ≡ 0
unreleased-zero released [] h = refl
unreleased-zero released (p ∷ ps) h =
    let rest = unreleased-zero released ps (λ q c. h q (omega arith)) in
    let first = h p (ground arith) in ground arith

pub waits-zero :
    (i : ℕ) (dss : List (List ℕ)) → ((b : ℕ) → count i (get_or dss b []) ≡ 0) → waits i dss ≡ 0
waits-zero i [] h = refl
waits-zero i (ds ∷ dss) h = omega (arith, h 0, waits-zero i dss (λ b. h (suc b)))

module _ (s : GraphScheduler) (k : IsValid s []) (fwd : IsForward s.dependency_graph)
    (up : IsUpward s.transactions_dependents) (idle : s.executable_txs ≡ []) where
  done_step :
      (i : ℕ)
      → i < s.block_size
      → ((j : ℕ) → j < i → is_done (status_at s j).status ≡ true)
      → is_done (status_at s i).status ≡ true
  done_step i h ih =
      let t = k.tracked i h in
      let u : unreleased s.children_released (parents_of s.dependency_graph i) ≡ 0 =
        unreleased-zero s.children_released (parents_of s.dependency_graph i)
          (λ p c. (k.tracked p (omega (arith, fwd p i c))).released (ih p (fwd p i c))) in
      let w : waits i s.transactions_dependents ≡ 0 = waits-zero i s.transactions_dependents (λ b.
        elim (zero_or_pos (count i (get_or s.transactions_dependents b []))) [
          | inl z ↦ z
          | inr c ↦ ap (count i) ((k.tracked b (omega (arith, up b i c))).awaited (ih b (up b i c)))
        ]) in
      ground arith

  done_below : (n i : ℕ) → n ≤ s.block_size → i < n → is_done (status_at s i).status ≡ true
  done_below zero i h l = elim l [ ]
  done_below (suc n) i h l =
      done_step i (omega arith) (λ j g. done_below n j (omega arith) (omega arith))

  all_done : (i : ℕ) → i < s.block_size → is_done (status_at s i).status ≡ true
  all_done i h = done_below s.block_size i (omega arith) h

  -- Once the sweep has passed the block, all are validated.
  all_validated :
      s.block_size ≤ s.validation_idx
      → (i : ℕ) → i < s.block_size
      → is_validated (status_at s i).status ≡ true
  all_validated e i h = ground (arith, all_done i h, (k.tracked i h).to_validate)

  all_counted : s.block_size ≤ s.validation_idx → s.num_validated ≡ s.block_size
  all_counted e =
      k.validated_counted
      ∙ (count_if_all has_validated s.transactions_status no_status
            (λ i h. all_validated e i (omega (arith, k.statuses_sized)))
          ∙ k.statuses_sized)

  poll_empty :
      s.aborted ≡ false
      → ((t : Task) × ((poll s false).1 ≡ found t))
        ⊎ ((poll s false ≡ (s, stop)) × (s.block_size ≤ s.validation_idx))
  unfolding poll check_all_done
  poll_empty a = elim (lt_or_le s.validation_idx s.block_size) [
    | inl h ↦
        let e = try_validation_task_at s [] k in
        inl
          (validation (version_at s s.validation_idx), ground (arith, all_done s.validation_idx h))
    | inr h ↦ inr (ground (arith, all_counted h), h)
  ]

or_execution-some :
    (p : GraphScheduler × Option Task) (t : Task) → p.1 ≡ some t → (or_execution p).1 ≡ found t
unfolding or_execution
or_execution-some (s, none) t e = ground arith
or_execution-some (s, some u) t e = ground arith

or_execution-none :
    (p : GraphScheduler × Option Task) (t : Task)
    → p.1 ≡ none
    → (try_execution_task p.0).1 ≡ some t
    → (or_execution p).1 ≡ found t
unfolding or_execution as_poll
or_execution-none (s, none) t e f = ground arith
or_execution-none (s, some u) t e f = ground arith

-- With an entry in the heap a round hands out a task.
poll_entry :
    (s : GraphScheduler) (j : ℕ) (heap : List ℕ)
    → IsValid s []
    → s.executable_txs ≡ j ∷ heap
    → s.aborted ≡ false
    → (t : Task) × ((or_execution (try_validation_task s)).1 ≡ found t)
poll_entry s j heap k e a =
    let r = (try_validation_task s).0 in
    elim (Option-cases (try_validation_task s).1) [
      | inl o ↦
          let f : r.executable_txs ≡ j ∷ heap = ground (arith, try_validation_task_at s [] k) in
          let k' : IsValid r [] =
            subst (λ o'. IsValid r (go_on o' [])) o (try_validation_task-IsValid s [] k) in
          (
            execution (version_at r j),
            or_execution-none (try_validation_task s) _ o
                (ap (λ p. p.1) (try_execution_task_at r [] k' j heap f)),
          )
      | inr (t, o) ↦ (t, or_execution-some (try_validation_task s) t o)
    ]

-- What the first round of `next_task` does in a valid state in which no thread holds a task.
idle_poll :
    (s : GraphScheduler)
    → IsValid s []
    → IsForward s.dependency_graph
    → IsUpward s.transactions_dependents
    → s.aborted ≡ false
    → ((t : Task) × ((poll s false).1 ≡ found t))
      ⊎ ((poll s false ≡ (s, stop))
          × ((i : ℕ) → i < s.block_size → is_validated (status_at s i).status ≡ true)
          × (s.num_validated ≡ s.block_size))
unfolding poll check_all_done
idle_poll s k fwd up a = elim (List-cases s.executable_txs) [
  | inl e ↦ elim (poll_empty s k fwd up e a) [
    | inl f ↦ inl f
    | inr (p, b) ↦ inr (p, all_validated s k fwd up e b, all_counted s k fwd up e b)
  ]
  | inr (j, heap, e) ↦ let (t, f) = poll_entry s j heap k e a in inl (t, ground arith)
]

next_task_found :
    (s : GraphScheduler) (rounds : List Bool) (t : Task)
    → (poll s false).1 ≡ found t
    → (next_task (false ∷ rounds) s).1 ≡ found t
unfolding next_task
next_task_found s rounds t e = rw (e, next_task) e

next_task_stop :
    (s r : GraphScheduler) (rounds : List Bool)
    → poll s false ≡ (r, stop)
    → next_task (false ∷ rounds) s ≡ (r, stop)
unfolding next_task
next_task_stop s r rounds e = rw (ap (λ p. p.1) e, next_task) e

module _ (lib : BitFlags) (nodes : List TransactionNode) {sys : System} (m : IsMirrored nodes)
    (fwd : IsForward nodes) (r : Reach lib (initial nodes) sys) (idle : sys.work ≡ [])
    (running : sys.scheduler.aborted ≡ false) where
  open sys use {scheduler as s}

  -- From a graph whose edges go forward: in every reachable state, each call being one atomic step, in
  -- which no thread holds a task
  -- and the scheduler is not aborted, the loop of `next_task` ends in its first round, without its
  -- timeout. It hands out a task, or it ends because all transactions are validated and counted so,
  -- and changes nothing. So the workers never wait for one another in a circle.
  pub no_deadlock :
      (rounds : List Bool)
      → ((t : Task) × ((next_task (false ∷ rounds) s).1 ≡ found t))
        ⊎ ((next_task (false ∷ rounds) s ≡ (s, stop))
            × ((i : ℕ) → i < length nodes → is_validated (status_at s i).status ≡ true)
            × (s.num_validated ≡ length nodes))
  unfolding new
  no_deadlock rounds =
      let same = Reach-IsSameBlock r in
      let k = subst (λ ws. IsValid s ws) idle (reachable-IsValid lib nodes m r) in
      let up = Reach-IsUpward (new-IsUpward (length nodes) nodes) r in
      let f : IsForward s.dependency_graph = subst IsForward (sym same.same_graph) fwd in
      elim (idle_poll s k f up running) [
        | inl (t, e) ↦ inl (t, next_task_found s rounds t e)
        | inr (e, all, n) ↦ inr (
          next_task_stop s s rounds e,
          λ i h. all i (omega (arith, same.same_size)),
          omega (arith, n, same.same_size),
        )
      ]
