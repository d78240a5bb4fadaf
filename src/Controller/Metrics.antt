-- ===== src/Controller/Metrics.antt =====
-- The part of internalReconcile that counts the active instances.
pub mod Laws
use argocd_operator.Base.{
  ℕ, zero, suc, String, Bool, true, false, ◌==◌, string_eq, if◌then◌else◌, Option, none, some, List,
  [], ◌∷◌, ℤ, pos, negsuc,
}
use argocd_operator.Base.Map.{Map, lookup, insert, erase}
use argocd_operator.Controller.{Counts}

abbrev pub inc : ℤ → ℤ
inc (pos n) = pos (suc n)
inc (negsuc zero) = pos 0
inc (negsuc (suc n)) = negsuc n

abbrev pub dec : ℤ → ℤ
dec (pos zero) = negsuc zero
dec (pos (suc n)) = pos n
dec (negsuc n) = negsuc (suc n)

-- The value of the gauge with this label.
abbrev pub gauge : String → Map String ℤ → ℤ
gauge phase m = elim (lookup phase m) [ none ↦ pos 0 | some z ↦ z ]

abbrev pub inc_gauge : String → Map String ℤ → Map String ℤ
inc_gauge phase m = insert phase (inc (gauge phase m)) m

abbrev pub dec_gauge : String → Map String ℤ → Map String ℤ
dec_gauge phase m = insert phase (dec (gauge phase m)) m

-- An instance is seen with the phase of its status.
unfoldable pub track : String → String → Counts → Counts
unfolding lookup insert
track namespace phase m =
    let tracked = insert namespace phase m.active in
    elim (lookup namespace m.active) [
      | none ↦ if phase == "" then m else record m {
        active = tracked;
        by_phase = inc_gauge phase m.by_phase;
        total = inc m.total;
      }
      | some old ↦
          if old == phase
          then m
          else record m { active = tracked; by_phase = dec_gauge old (inc_gauge phase m.by_phase) }
    ]

abbrev pub count_reconciliation : String → Counts → Counts
count_reconciliation namespace m =
    let n : ℕ = elim (lookup namespace m.reconciliations) [ none ↦ 0 | some k ↦ k ] in
    record m { reconciliations = insert namespace (suc n) m.reconciliations }

-- An instance that is being deleted leaves the counts, with its phase.
unfoldable pub untrack : String → String → Counts → Counts
unfolding lookup insert erase
untrack namespace phase m = record {
  active = erase namespace m.active;
  by_phase = dec_gauge phase m.by_phase;
  total = dec m.total;
  reconciliations = erase namespace m.reconciliations;
}
