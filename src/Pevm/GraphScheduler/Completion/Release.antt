-- ===== src/Pevm/GraphScheduler/Completion/Release.antt =====
-- `release_children` of graph_scheduler.rs: what the loop over the children changes.
use congestion_control.Prelude.{
  ℕ, ◌+◌, ◌≤◌, ◌<◌, ◌≡◌, refl, ◌∙◌, Bool, true, false, not, ◌&&◌, ◌||◌, List, [], ◌∷◌, arith, ltb,
  ◌==◌, bit, count, get_or, set, get_or-set, length, length-set, Bool-cases, inl, inr,
}
use congestion_control.Pevm.Atomics.{
  wrapping_decrement, count-heap_push, IsSorted, heap_push-IsSorted,
}
use congestion_control.Pevm.GraphScheduler.{GraphScheduler, parents_of, children_of}
use congestion_control.Pevm.GraphScheduler.Completion.{release_child, release_all, release_children}

abbrev pub remaining_at : GraphScheduler → ℕ → ℕ
remaining_at s i = get_or s.remaining_dependencies i 0

-- Nothing but the counts and the heap changes.
pub release_all-frame :
    (s : GraphScheduler) (cs : List ℕ)
    → release_all s cs ≡ record s {
      remaining_dependencies = (release_all s cs).remaining_dependencies;
      executable_txs = (release_all s cs).executable_txs;
    }
unfolding release_all release_child
release_all-frame s [] = refl
release_all-frame s (c ∷ cs) = ground (arith, release_all-frame (release_child s c) cs)

length-release_child :
    (s : GraphScheduler) (c : ℕ)
    → length (release_child s c).remaining_dependencies ≡ length s.remaining_dependencies
unfolding release_child
length-release_child s c =
    ground (arith, length-set s.remaining_dependencies c (wrapping_decrement (remaining_at s c)))

pub length-release_all :
    (s : GraphScheduler) (cs : List ℕ)
    → length (release_all s cs).remaining_dependencies ≡ length s.remaining_dependencies
unfolding release_all
length-release_all s [] = refl
length-release_all s (c ∷ cs) = length-release_all (release_child s c) cs ∙ length-release_child s c

release_child_at :
    (s : GraphScheduler) (c i : ℕ)
    → i < length s.remaining_dependencies
    → bit (c == i) ≤ remaining_at s i
    → (remaining_at (release_child s c) i + bit (c == i) ≡ remaining_at s i)
      × (count i (release_child s c).executable_txs
          ≡ count i s.executable_txs + bit (c == i && remaining_at (release_child s c) i == 0))
unfolding release_child wrapping_decrement
release_child_at s c i h l = ground (
  arith,
  get_or-set s.remaining_dependencies c i (wrapping_decrement (remaining_at s c)) 0,
  count-heap_push i c s.executable_txs,
)

-- The count of a child falls by its number of occurrences, with no wrap, and the child is pushed
-- exactly when its count reaches 0.
pub release_all_at :
    (s : GraphScheduler) (cs : List ℕ) (i : ℕ)
    → i < length s.remaining_dependencies
    → count i cs ≤ remaining_at s i
    → (remaining_at (release_all s cs) i + count i cs ≡ remaining_at s i)
      × (count i (release_all s cs).executable_txs
          ≡ count i s.executable_txs
            + bit (ltb 0 (count i cs) && remaining_at (release_all s cs) i == 0))
unfolding release_all
release_all_at s [] i h l = (omega arith, omega arith)
release_all_at s (c ∷ cs) i h l = ground (
  arith,
  length-release_child s c,
  release_child_at s c i h (omega arith),
  release_all_at (release_child s c) cs i (rw (length-release_child s c) h),
)

-- What is not among the children is not pushed.
release_all_others :
    (s : GraphScheduler) (cs : List ℕ) (i : ℕ)
    → count i cs ≡ 0
    → count i (release_all s cs).executable_txs ≡ count i s.executable_txs
unfolding release_all release_child
release_all_others s [] i h = refl
release_all_others s (c ∷ cs) i h =
    ground
      (arith, count-heap_push i c s.executable_txs, release_all_others (release_child s c) cs i)

-- How many of the parents have not yet released their children.
abbrev pub unreleased : List Bool → List ℕ → ℕ
unreleased released [] = 0
unreleased released (p ∷ ps) = bit (not (get_or released p false)) + unreleased released ps

pub unreleased-set :
    (released : List Bool) (i : ℕ) (ps : List ℕ)
    → i < length released
    → get_or released i false ≡ false
    → unreleased (set released i true) ps + count i ps ≡ unreleased released ps
unreleased-set released i [] h e = refl
unreleased-set released i (p ∷ ps) h e =
    ground (arith, get_or-set released i p true false, unreleased-set released i ps h e)

unreleased-set_again :
    (released : List Bool) (i : ℕ) (ps : List ℕ)
    → i < length released
    → get_or released i false ≡ true
    → unreleased (set released i true) ps ≡ unreleased released ps
unreleased-set_again released i [] h e = refl
unreleased-set_again released i (p ∷ ps) h e = elim (Bool-cases (p == i)) [
  | inl q ↦
      let w : p ≡ i = ground arith in
      ground (arith, get_or-set released i p true false, unreleased-set_again released i ps h e)
  | inr q ↦
      ground (arith, get_or-set released i p true false, unreleased-set_again released i ps h e)
]

pub count-le-unreleased :
    (released : List Bool) (i : ℕ) (ps : List ℕ)
    → get_or released i false ≡ false
    → count i ps ≤ unreleased released ps
count-le-unreleased released i [] e = omega arith
count-le-unreleased released i (p ∷ ps) e = elim (Bool-cases (p == i)) [
  | inl q ↦ let w : p ≡ i = ground arith in ground (arith, count-le-unreleased released i ps e)
  | inr q ↦ ground (arith, count-le-unreleased released i ps e)
]

-- What `release_children` leaves as it was.
pub record IsReleased (s r : GraphScheduler) : Type 0 where
  pub same_size : r.block_size ≡ s.block_size
  pub same_statuses : r.transactions_status ≡ s.transactions_status
  pub same_dependents : r.transactions_dependents ≡ s.transactions_dependents
  pub same_validation : r.validation_idx ≡ s.validation_idx
  pub same_validated : r.num_validated ≡ s.num_validated
  pub same_graph : r.dependency_graph ≡ s.dependency_graph
  pub same_length : length r.remaining_dependencies ≡ length s.remaining_dependencies
  pub same_released : length r.children_released ≡ length s.children_released

-- The state before the loop over the children.
abbrev marked : GraphScheduler → ℕ → GraphScheduler
marked s t = record s { children_released = set s.children_released t true }

pub release_children-IsReleased : (s : GraphScheduler) (t : ℕ) → IsReleased s (release_children s t)
unfolding release_children
release_children-IsReleased s t = ground (
  arith,
  release_all-frame (marked s t) (children_of s.dependency_graph t),
  length-release_all (marked s t) (children_of s.dependency_graph t),
  length-set s.children_released t true,
)

-- What holds of a transaction's count, heap entry and flag, if its count was that of its
-- unreleased parents.
pub release_children_at :
    (s : GraphScheduler) (t i : ℕ)
    → count i (children_of s.dependency_graph t) ≡ count t (parents_of s.dependency_graph i)
    → t < length s.children_released
    → i < length s.remaining_dependencies
    → remaining_at s i ≡ unreleased s.children_released (parents_of s.dependency_graph i)
    → let r = release_children s t in
      (remaining_at r i ≡ unreleased r.children_released (parents_of s.dependency_graph i))
      × (count i r.executable_txs + bit (remaining_at s i == 0)
          ≡ count i s.executable_txs + bit (remaining_at r i == 0))
      × (remaining_at r i ≤ remaining_at s i)
      × (get_or r.children_released i false ≡ (t == i || get_or s.children_released i false))
unfolding release_children
release_children_at s t i m lt li e = ground (
  arith,
  release_all-frame (marked s t) (children_of s.dependency_graph t),
  release_all_at (marked s t) (children_of s.dependency_graph t) i li,
  get_or-set s.children_released t i true false,
  unreleased-set s.children_released t (parents_of s.dependency_graph i) lt,
  unreleased-set_again s.children_released t (parents_of s.dependency_graph i) lt,
  count-le-unreleased s.children_released t (parents_of s.dependency_graph i),
)

pub release_children_others :
    (s : GraphScheduler) (t i : ℕ)
    → count i (children_of s.dependency_graph t) ≡ 0
    → count i (release_children s t).executable_txs ≡ count i s.executable_txs
unfolding release_children
release_children_others s t i h =
    ground (arith, release_all_others (marked s t) (children_of s.dependency_graph t) i h)

release_all-IsSorted :
    (s : GraphScheduler) (cs : List ℕ)
    → IsSorted s.executable_txs
    → IsSorted (release_all s cs).executable_txs
unfolding release_all release_child
release_all-IsSorted s [] h = h
release_all-IsSorted s (c ∷ cs) h =
    release_all-IsSorted (release_child s c) cs
      (ground (arith, heap_push-IsSorted c s.executable_txs h))

pub release_children-IsSorted :
    (s : GraphScheduler) (t : ℕ)
    → IsSorted s.executable_txs
    → IsSorted (release_children s t).executable_txs
unfolding release_children
release_children-IsSorted s t h =
    ground (arith, release_all-IsSorted (marked s t) (children_of s.dependency_graph t) h)
