-- ===== src/System/Serial.antt =====
-- The invariant of the job table, and that an operation on one row and a quiet change of all rows keep it.
use mathlib.Core.List.{Memᴰ}
use mathlib.Core.List.Memᴰ
use journeyman.Base.{
  ℕ, true, false, List, [], ◌∷◌, ◌≡◌, refl, sym, subst, ◌∙◌, arith, if◌then◌else◌, ◌==◌, Bool-cases,
  inl, inr,
}
use journeyman.Runner.{Runner}
use journeyman.Job.{Job}
use journeyman.Cancellation.{
  finalize_abandoned_cancellation, recover_stale_cancelling_jobs, is_recovered,
  effective_stale_seconds,
}
use journeyman.Draining.{unassign_job, unassign_not_started_work}
use journeyman.System.{on_job}
use journeyman.System.Moves.{is_fresh, IsQuiet, IsQuiet-refl, IsQuiet-recover}
use journeyman.System.Starts.{IsStart, IsStart-quiet}
use journeyman.System.Remote.{IsQuiet-unassign}
use journeyman.System.Pairs.{Rivals, Rivals-swap, IsFine, left-IsFine, right-IsFine, quiet-IsFine}

-- the invariant of the job table
pub record IsSerial (jobs : List Job) : Type 0 where
  pub fine : (x y : Job) → Memᴰ x jobs → Memᴰ y jobs → Rivals x y → IsFine x y
  pub fresh : (x : Job) → Memᴰ x jobs → is_fresh x ≡ true

-- rivals after an operation were rivals before it
Rivals-back :
    (x y x' y' : Job)
    → (x'.id ≡ x.id)
      × (x'.project_id ≡ x.project_id)
      × (x'.concurrency_policy ≡ x.concurrency_policy)
    → (y'.id ≡ y.id)
      × (y'.project_id ≡ y.project_id)
      × (y'.concurrency_policy ≡ y.concurrency_policy)
    → Rivals x' y'
    → Rivals x y
Rivals-back x y x' y' (xi, xp, xc) (yi, yp, yc) r = record {
  apart = λ e. r.apart (xi ∙ e ∙ sym yi);
  one_project = sym xp ∙ r.one_project ∙ yp;
  left_serialized = sym xc ∙ r.left_serialized;
  right_serialized = sym yc ∙ r.right_serialized;
}

module _ (jobs : List Job) (id : ℕ) (f : Job → Job) (moves : (j : Job) → IsStart jobs j (f j)) where
  abbrev row : Job → Job
  row j = if j.id == id then f j else j

  row-IsStart : (j : Job) → IsStart jobs j (row j)
  row-IsStart j = elim (Bool-cases (j.id == id)) [
    | inl e ↦ simp e (moves j)
    | inr e ↦ simp e (IsStart-quiet jobs j j (IsQuiet-refl j))
  ]

  -- only one of two rivals has the id
  rows-IsFine :
      IsSerial jobs → (x y : Job) → Memᴰ x jobs → Memᴰ y jobs → Rivals x y → IsFine (row x) (row y)
  rows-IsFine inv x y mx my r =
      let f = inv.fine x y mx my r in
      let g = inv.fine y x my mx (Rivals-swap x y r) in
      elim (Bool-cases (x.id == id)) [
        | inl ex ↦
            let still : row y ≡ y = rw (other ex) refl in
            subst (λ j. IsFine (row x) j) (sym still)
              (left-IsFine jobs x y mx my r f g (row x) (inv.fresh x mx) (row-IsStart x))
        | inr ex ↦
            let still : row x ≡ x = rw ex refl in
            subst (λ j. IsFine j (row y)) (sym still)
              (right-IsFine jobs x y mx my r f g (row y) (inv.fresh y my) (row-IsStart y))
      ]
    where
      other : (x.id == id) ≡ true → (y.id == id) ≡ false
      other e = ground (arith, r.apart)

  pub on_job-IsSerial : IsSerial jobs → IsSerial (on_job id f jobs)
  on_job-IsSerial inv = record {
    fine = λ x' y' mx' my' r.
        let (x, mx, ex) = Memᴰ.of_map row jobs mx' in
        let (y, my, ey) = Memᴰ.of_map row jobs my' in
        let sx = subst (IsStart jobs x) ex (row-IsStart x) in
        let sy = subst (IsStart jobs y) ey (row-IsStart y) in
        subst (λ j. IsFine j y') ex
          (subst (λ j. IsFine (row x) j) ey
            (rows-IsFine inv x y mx my (
              Rivals-back x y x' y' (sx.same_id, sx.same_project, sx.same_policy)
                (sy.same_id, sy.same_project, sy.same_policy) r)));
    fresh = λ x' mx'.
        let (x, mx, ex) = Memᴰ.of_map row jobs mx' in
        subst (λ j. is_fresh j ≡ true) ex ((row-IsStart x).stays_fresh (inv.fresh x mx));
  }

-- a table whose rows all come from quiet changes of rows
pub traced-IsSerial :
    (jobs after : List Job)
    → ((x' : Job) → Memᴰ x' after → (x : Job) × Memᴰ x jobs × IsQuiet x x')
    → IsSerial jobs
    → IsSerial after
traced-IsSerial jobs after back inv = record {
  fine = λ x' y' mx' my' r.
      let (x, mx, qx) = back x' mx' in
      let (y, my, qy) = back y' my' in
      quiet-IsFine x y x' y'
        (inv.fine x y mx my (
          Rivals-back x y x' y' (qx.same_id, qx.same_project, qx.same_policy)
            (qy.same_id, qy.same_project, qy.same_policy) r))
        (inv.fresh x mx) (inv.fresh y my) qx qy;
  fresh = λ x' mx'. let (x, mx, qx) = back x' mx' in qx.stays_fresh (inv.fresh x mx);
}

recovered-IsQuiet :
    (now configured : ℕ) (runners : List Runner) (j : Job)
    → IsQuiet j (
        if is_recovered now (effective_stale_seconds configured) runners j
        then finalize_abandoned_cancellation now (effective_stale_seconds configured) j
        else j)
recovered-IsQuiet now configured runners j =
    elim (Bool-cases (is_recovered now (effective_stale_seconds configured) runners j)) [
      | inl e ↦ simp e (IsQuiet-recover now (effective_stale_seconds configured) j)
      | inr e ↦ simp e (IsQuiet-refl j)
    ]

pub recover-back :
    (now configured : ℕ) (jobs : List Job) (runners : List Runner) (x' : Job)
    → Memᴰ x' (recover_stale_cancelling_jobs now configured jobs runners).0
    → (x : Job) × Memᴰ x jobs × IsQuiet x x'
unfolding recover_stale_cancelling_jobs
recover-back now configured [] runners x' m = absurd (Memᴰ.not-nil m)
recover-back now configured (j ∷ jobs) runners x' m = elim (Memᴰ.cases_cons m) [
  | inr below ↦ let (x, mx, q) = recover-back now configured jobs _ x' below in (x, Memᴰ.tail mx, q)
  | inl e ↦
      (j, Memᴰ.head refl, subst (IsQuiet j) (sym e) (recovered-IsQuiet now configured runners j))
]

pub drain-back :
    (runner_id : ℕ) (jobs : List Job) (x' : Job)
    → Memᴰ x' (unassign_not_started_work runner_id jobs)
    → (x : Job) × Memᴰ x jobs × IsQuiet x x'
unfolding unassign_not_started_work
drain-back runner_id jobs x' m =
    let (x, mx, e) = Memᴰ.of_map (unassign_job runner_id) jobs m in
    (x, mx, subst (IsQuiet x) e (IsQuiet-unassign runner_id x))
