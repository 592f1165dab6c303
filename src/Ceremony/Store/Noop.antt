-- ===== src/Ceremony/Store/Noop.antt =====
-- When `with_milestone_mut_unlocked` of crates/mp/src/milestone/io.rs leaves the file alone.
use master_plan.Prelude.{
  str_eq_refl, String, ◌≡◌, refl, sym, ap, inl, inr, true, false, not, none, some, str_eq, eq_iff,
  if◌then◌else◌, Bool-cases, ok,
}
use master_plan.Model.Milestone.{MilestoneFile}
use master_plan.Ceremony.Store.{with_milestone_mut_unlocked, changed, stamp}

module _ (to_json : MilestoneFile → String)
    (keeps_updated : (m n : MilestoneFile)
      → to_json m ≡ to_json n
      → m.milestone.updated ≡ n.milestone.updated) where
  same_day :
      (today : String) (m : MilestoneFile)
      → m.milestone.updated ≡ today
      → changed (some (to_json m)) (to_json (stamp today m)) ≡ false
  same_day today m e = rw (sym e) (ap not (str_eq_refl (to_json m)))

  other_day :
      (today : String) (m : MilestoneFile)
      → str_eq m.milestone.updated today ≡ false
      → changed (some (to_json m)) (to_json (stamp today m)) ≡ true
  other_day today m n = elim (Bool-cases (str_eq (to_json m) (to_json (stamp today m)))) [
    | inl e ↦
        (let same_text = (eq_iff (to_json m) (to_json (stamp today m))).0 e in
          let dated =
            (eq_iff m.milestone.updated today).1 (keeps_updated m (stamp today m) same_text) in
          cc)
    | inr e ↦ ap not e
  ]

  -- A change that leaves the milestone as it was, over a file that holds the milestone's own text,
  -- writes nothing on the day of the last change. On any other day it writes the milestone with the
  -- new date.
  pub noop-writes :
      {R : Type 0} (today : String) (m : MilestoneFile) (result : R)
      → with_milestone_mut_unlocked to_json today (some (to_json m)) m (λ n. ok (n, result))
        ≡ ok (result, if str_eq m.milestone.updated today then none else some (stamp today m))
  unfolding with_milestone_mut_unlocked
  noop-writes today m result = elim (Bool-cases (str_eq m.milestone.updated today)) [
    | inl e ↦ rw (same_day today m ((eq_iff m.milestone.updated today).0 e), e) refl
    | inr e ↦ rw (other_day today m e, e) refl
  ]
