-- ===== src/Pevm/MvMemory/Later.antt =====
-- mv_memory.rs: `record` of a later transaction against the validation of an earlier one.
use congestion_control.Prelude.{
  ℕ, ◌≡◌, ◌<◌, sym, ◌∙◌, List, [], ◌∷◌, arith, length, inl, inr, Bool-cases, ap,
}
use congestion_control.Pevm.Types.{TxVersion}
use congestion_control.Pevm.MvMemory.{
  MvMemory, ReadOrigin, ReadSet, WriteSet, mv_memory, from_storage, last_at,
  validate_read_locations, record_sets, LastLocations,
}
use congestion_control.Pevm.MvMemory.Entries.{Entries, entry_at, AreOrdered}
use congestion_control.Pevm.MvMemory.Recording.{record_sets-IsRecorded}
use congestion_control.Pevm.MvMemory.Validation.{IsCurrent, AreCurrent, singles, validate_singles}

module _ (entries entries' : Entries) (i : ℕ)
    (agree : (l k : ℕ) → k < i → entry_at entries' l k ≡ entry_at entries l k) where
  IsCurrent-agree : (l : ℕ) (og : ReadOrigin) → IsCurrent entries i l og → IsCurrent entries' i l og
  IsCurrent-agree l from_storage c = λ k h. agree l k h ∙ c k h
  IsCurrent-agree l (mv_memory v) (low, (x, at), gap) =
      (low, (x, agree l v.tx_idx low ∙ at), λ k a b. agree l k b ∙ gap k a b)

  all_agree : (rs : List (ℕ × ReadOrigin)) → AreCurrent entries i rs → AreCurrent entries' i rs
  all_agree [] c = tt
  all_agree ((l, og) ∷ rs) (c, cs) = (IsCurrent-agree l og c, all_agree rs cs)

-- What a later transaction records changes no validation of an earlier one whose locations were each
-- read from one origin.
pub later_record :
    (m : MvMemory) (v : TxVersion) (reads : ReadSet) (ws : WriteSet) (i : ℕ)
    (rs : List (ℕ × ReadOrigin))
    → AreOrdered m.entries
    → v.tx_idx < length m.last_locations
    → i < v.tx_idx
    → (last_at m i).read ≡ singles rs
    → validate_read_locations (record_sets m v reads ws).0 i ≡ validate_read_locations m i
later_record m v reads ws i rs o h lt e =
    let r = record_sets-IsRecorded m v reads ws o h in
    let m' = (record_sets m v reads ws).0 in
    let e' : (last_at m' i).read ≡ singles rs =
      ap (λ (x : LastLocations). x.read) (r.others i (ground arith)) ∙ e in
    let agree : (l k : ℕ) → k < i → entry_at m'.entries l k ≡ entry_at m.entries l k =
      λ l k g. let q = r.entry l k in ground arith in
    let before = validate_singles m i rs o e in
    let after = validate_singles m' i rs r.ordered e' in
    elim (Bool-cases (validate_read_locations m i)) [
      | inl t ↦ after.1 (all_agree m.entries m'.entries i agree rs (before.0 t)) ∙ sym t
      | inr f ↦ elim (Bool-cases (validate_read_locations m' i)) [
        | inr f' ↦ f' ∙ sym f
        | inl t' ↦
            let t =
              before.1
                (all_agree m'.entries m.entries i (λ l k g. sym (agree l k g)) rs (after.0 t')) in
            absurd (ground arith)
      ]
    ]
