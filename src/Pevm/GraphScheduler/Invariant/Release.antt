-- ===== src/Pevm/GraphScheduler/Invariant/Release.antt =====
-- `release_children` keeps the invariant.
use congestion_control.Prelude.{
  true, false, get_or, ℕ, ◌≡◌, ◌≤◌, ◌<◌, sym, ap, ◌∙◌, subst, List, [], arith, count, get_or_beyond,
}
use congestion_control.Pevm.Node.{no_node}
use congestion_control.Pevm.GraphScheduler.{GraphScheduler, parents_of, children_of}
use congestion_control.Pevm.GraphScheduler.Completion.{release_children}
use congestion_control.Pevm.GraphScheduler.Completion.Release.{
  release_children-IsReleased, release_children-IsSorted, release_children_at,
  release_children_others,
}
use congestion_control.Pevm.GraphScheduler.Workers.{Work}
use congestion_control.Pevm.GraphScheduler.Invariant.{IsTracked, IsAbsent, IsValid, IsMirrored}

module _ (s : GraphScheduler) (ws : List Work) (t : ℕ) (v : IsValid s ws)
    (in_block : t < s.block_size) where
  release_children-IsTracked : (i : ℕ) → i < s.block_size → IsTracked (release_children s t) ws i
  release_children-IsTracked i h =
      let k = v.tracked i h in
      let g = release_children-IsReleased s t in
      let e =
        release_children_at s t i (v.mirrored t i) (omega (arith, v.released_sized))
          (omega (arith, v.remaining_sized)) k.counted in
      record {
        one_execution = ground arith;
        current = ground arith;
        one_wait = ground arith;
        in_heap = ground arith;
        satisfied = ground arith;
        counted = ground arith;
        released = ground arith;
        to_validate = ground arith;
        awaited = ground arith;
      }

  release_children-IsAbsent : (i : ℕ) → s.block_size ≤ i → IsAbsent (release_children s t) ws i
  release_children-IsAbsent i h =
      let k = v.absent i h in
      let g = release_children-IsReleased s t in
      let nobody : parents_of s.dependency_graph i ≡ [] =
        ap (λ n. n.parent_indices)
          (get_or_beyond s.dependency_graph i no_node (omega (arith, v.nodes_sized))) in
      let childless : count i (children_of s.dependency_graph t) ≡ 0 =
        v.mirrored t i ∙ ap (count t) nobody in
      record {
        no_execution = k.no_execution;
        no_validation = k.no_validation;
        no_wait = ground arith;
        no_entry = release_children_others s t i childless ∙ k.no_entry;
      }

  -- `release_children` keeps the invariant.
  pub release_children-IsValid : IsValid (release_children s t) ws
  release_children-IsValid =
      let g = release_children-IsReleased s t in
      record {
        statuses_sized = ground arith;
        dependents_sized = ground arith;
        remaining_sized = ground arith;
        released_sized = ground arith;
        nodes_sized = ground arith;
        heap_sorted = release_children-IsSorted s t v.heap_sorted;
        mirrored = subst IsMirrored (sym g.same_graph) v.mirrored;
        validated_counted = ground arith;
        tracked = λ i h. release_children-IsTracked i (omega (arith, g.same_size));
        absent = λ i h. release_children-IsAbsent i (omega (arith, g.same_size));
      }

  -- The transaction has released its children.
  pub release_children-freed : get_or (release_children s t).children_released t false ≡ true
  release_children-freed = ground (
    arith,
    release_children_at s t t (v.mirrored t t) (omega (arith, v.released_sized))
        (omega (arith, v.remaining_sized)) (v.tracked t in_block).counted,
  )
