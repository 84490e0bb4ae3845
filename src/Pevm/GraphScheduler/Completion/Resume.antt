-- ===== src/Pevm/GraphScheduler/Completion/Resume.antt =====
-- `resume_dependents` of graph_scheduler.rs: what the loop over the drained dependents changes.
use congestion_control.Prelude.{
  ℕ, ◌+◌, ◌≤◌, ◌<◌, ◌≡◌, refl, ◌∙◌, List, [], ◌∷◌, arith, ◌==◌, bit, if◌then◌else◌, count, get_or,
  get_or-set, length, length-set,
}
use congestion_control.Pevm.Types.{ready_to_execute, TxStatus}
use congestion_control.Pevm.Atomics.{count-heap_push, IsSorted, heap_push-IsSorted}
use congestion_control.Pevm.GraphScheduler.{GraphScheduler, status_at, no_status}
use congestion_control.Pevm.GraphScheduler.Completion.{set_ready_status, resume, resume_all}

-- The next incarnation of a transaction, ready.
abbrev pub next_ready : TxStatus → TxStatus
next_ready tx = record { incarnation = tx.incarnation + 1; status = ready_to_execute }

-- Nothing but the statuses and the heap changes.
pub resume_all-frame :
    (s : GraphScheduler) (is : List ℕ)
    → resume_all s is ≡ record s {
      transactions_status = (resume_all s is).transactions_status;
      executable_txs = (resume_all s is).executable_txs;
    }
unfolding resume_all resume set_ready_status
resume_all-frame s [] = refl
resume_all-frame s (i ∷ is) = ground (arith, resume_all-frame (resume s i) is)

length-resume :
    (s : GraphScheduler) (i : ℕ)
    → length (resume s i).transactions_status ≡ length s.transactions_status
unfolding resume set_ready_status
length-resume s i = ground (arith, length-set s.transactions_status i (next_ready (status_at s i)))

pub length-resume_all :
    (s : GraphScheduler) (is : List ℕ)
    → length (resume_all s is).transactions_status ≡ length s.transactions_status
unfolding resume_all
length-resume_all s [] = refl
length-resume_all s (i ∷ is) = length-resume_all (resume s i) is ∙ length-resume s i

remaining-resume :
    (s : GraphScheduler) (i : ℕ) → (resume s i).remaining_dependencies ≡ s.remaining_dependencies
unfolding resume set_ready_status
remaining-resume s i = ground arith

-- One round at a transaction with no graph dependency left.
resume_at :
    (s : GraphScheduler) (k i : ℕ)
    → i < length s.transactions_status
    → get_or s.remaining_dependencies i 0 ≡ 0
    → (status_at (resume s k) i ≡ (if k == i then next_ready (status_at s i) else status_at s i))
      × (count i (resume s k).executable_txs ≡ count i s.executable_txs + bit (k == i))
unfolding resume set_ready_status
resume_at s k i h z = ground (
  arith,
  get_or-set s.transactions_status k i (next_ready (status_at s k)) no_status,
  count-heap_push i k s.executable_txs,
)

-- A transaction with no graph dependency left that is listed once becomes ready, as its next
-- incarnation, and is pushed; one that is not listed stays as it was.
pub resume_all_at :
    (s : GraphScheduler) (ks : List ℕ) (i : ℕ)
    → i < length s.transactions_status
    → get_or s.remaining_dependencies i 0 ≡ 0
    → count i ks ≤ 1
    → (status_at (resume_all s ks) i
        ≡ (if count i ks == 1 then next_ready (status_at s i) else status_at s i))
      × (count i (resume_all s ks).executable_txs ≡ count i s.executable_txs + count i ks)
unfolding resume_all
resume_all_at s [] i h z l = (refl, omega arith)
resume_all_at s (k ∷ ks) i h z l = ground (
  arith,
  resume_at s k i h z,
  remaining-resume s k,
  length-resume s k,
  resume_all_at (resume s k) ks i,
)

-- The same for a transaction that is not listed, whatever its dependencies.
pub resume_all_others :
    (s : GraphScheduler) (ks : List ℕ) (i : ℕ)
    → count i ks ≡ 0
    → (status_at (resume_all s ks) i ≡ status_at s i)
      × (count i (resume_all s ks).executable_txs ≡ count i s.executable_txs)
unfolding resume_all resume set_ready_status
resume_all_others s [] i l = (refl, refl)
resume_all_others s (k ∷ ks) i l = ground (
  arith,
  get_or-set s.transactions_status k i (next_ready (status_at s k)) no_status,
  count-heap_push i k s.executable_txs,
  resume_all_others (resume s k) ks i,
)

pub resume_all-IsSorted :
    (s : GraphScheduler) (ks : List ℕ)
    → IsSorted s.executable_txs
    → IsSorted (resume_all s ks).executable_txs
unfolding resume_all resume set_ready_status
resume_all-IsSorted s [] h = h
resume_all-IsSorted s (k ∷ ks) h =
    resume_all-IsSorted (resume s k) ks (ground (arith, heap_push-IsSorted k s.executable_txs h))
