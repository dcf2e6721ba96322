-- ===== src/Routing/Crews/LeastBusy.antt =====
-- `select_crew_runner` gives a member that is eligible and has the least work.
use mathlib.Core.List.{Memᴰ}
use mathlib.Core.List.Memᴰ
use journeyman.Base.{
  ℕ, ◌≤◌, Bool, true, false, Option, some, List, [], ◌∷◌, String, ◌≡◌, refl, sym, subst, ap, arith,
  ◌⊎◌, inl, inr, keep, Bool-cases,
}
use journeyman.Base.Members.{keep-Memᴰ, Memᴰ-keep}
use journeyman.Base.Text.{Python}
use journeyman.Runner.{Runner, Requirement}
use journeyman.Job.Columns.{required_set}
use journeyman.Routing.{Routed, routed, unroutable, raised}
use journeyman.Routing.Crews.{
  Crew, Loads, planned_load, score_less, least, choose, nobody, select_crew_runner,
  is_eligible_member,
}

module _ (py : Python) (loads : Loads) (additional : ℕ → ℕ) where
  score-true :
      (r s : Runner)
      → score_less py loads additional r s ≡ true
      → planned_load additional r ≤ planned_load additional s
  unfolding score_less
  score-true r s h = ground arith

  score-false :
      (r s : Runner)
      → score_less py loads additional r s ≡ false
      → planned_load additional s ≤ planned_load additional r
  unfolding score_less
  score-false r s h = ground arith

  -- the runner of the loop is one of the list, and has no more work than any of it
  least-least :
      (best : Runner) (rs : List Runner)
      → Memᴰ (least py loads additional best rs) (best ∷ rs)
        × ((s : Runner)
            → Memᴰ s (best ∷ rs)
            → planned_load additional (least py loads additional best rs)
              ≤ planned_load additional s)
  least-least best [] = (
    Memᴰ.head refl,
    λ s m. elim (Memᴰ.cases_cons m) [
      | inl e ↦
          subst (λ x. planned_load additional best ≤ planned_load additional x) (sym e)
            (omega arith)
      | inr m' ↦ absurd (Memᴰ.not-nil m')
    ],
  )
  least-least best (r ∷ rs) = elim (Bool-cases (score_less py loads additional r best)) [
    | inl e ↦
        let (m, low) = least-least r rs in
        simp e (
          Memᴰ.tail m,
          λ s k. elim (Memᴰ.cases_cons k) [
            | inr k' ↦ low s k'
            | inl same ↦ omega (
              arith,
              low r (Memᴰ.head refl),
              score-true r best e,
              ap (planned_load additional) same,
            )
          ],
        )
    | inr e ↦
        let (m, low) = least-least best rs in
        simp e (
          elim (Memᴰ.cases_cons m) [
            | inl same ↦ Memᴰ.head same
            | inr m' ↦ Memᴰ.tail (Memᴰ.tail m')
          ],
          λ s k. elim (Memᴰ.cases_cons k) [
            | inl same ↦ low s (Memᴰ.head same)
            | inr k' ↦ elim (Memᴰ.cases_cons k') [
              | inr k'' ↦ low s (Memᴰ.tail k'')
              | inl same ↦ omega (
                arith,
                low best (Memᴰ.head refl),
                score-false r best e,
                ap (planned_load additional) same,
              )
            ]
          ],
        )
  ]

  module _ (now : ℕ) (crew : Crew) (capabilities : List String)
      (requirement : Option Requirement) where
    abbrev fits : Runner → Bool
    fits = is_eligible_member now (required_set py capabilities) requirement

    -- what an answer of the selection says of the crew
    pub IsSelection : Routed Runner → Type 0
    IsSelection (routed r) =
        (crew.enabled ≡ true)
        × Memᴰ r crew.runners
        × (fits r ≡ true)
        × ((s : Runner)
            → Memᴰ s crew.runners
            → fits s ≡ true
            → planned_load additional r ≤ planned_load additional s)
    IsSelection (unroutable e) =
        (crew.enabled ≡ false) ⊎ ((s : Runner) → Memᴰ s crew.runners → fits s ≡ false)
    IsSelection raised = ⊥

    choose-IsSelection :
        (message : String) (rs : List Runner)
        → crew.enabled ≡ true
        → rs ≡ keep fits crew.runners
        → IsSelection (choose py loads additional message rs)
    unfolding IsSelection
    choose-IsSelection message [] on e = inr λ s m. elim (Bool-cases (fits s)) [
      | inr k ↦ k
      | inl k ↦ absurd (Memᴰ.not-nil (subst (Memᴰ s) (sym e) (Memᴰ-keep fits s crew.runners m k)))
    ]
    choose-IsSelection message (r ∷ rs) on e =
        let (m, low) = least-least r rs in
        let (member, k) =
          keep-Memᴰ fits _ crew.runners (subst (Memᴰ (least py loads additional r rs)) e m) in
        (
          on,
          member,
          k,
          λ s ms fit. low s (subst (Memᴰ s) (sym e) (Memᴰ-keep fits s crew.runners ms fit)),
        )

    -- `select_crew_runner` on a crew gives an enabled crew's member that passes all tests and has, of
    -- those members, the least work running and planned; it refuses exactly if the crew is disabled or
    -- no member passes the tests, and it raises nothing else.
    pub select_crew_runner-IsSelection :
        IsSelection
          (select_crew_runner py loads additional now (some crew) capabilities requirement)
    unfolding select_crew_runner IsSelection
    select_crew_runner-IsSelection = elim (Bool-cases crew.enabled) [
      | inl on ↦ simp on (
          choose-IsSelection (nobody py loads additional (some crew) capabilities requirement)
            (keep fits crew.runners) on refl)
      | inr off ↦ simp off (inl refl)
    ]
