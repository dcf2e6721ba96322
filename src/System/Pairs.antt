-- ===== src/System/Pairs.antt =====
-- Two jobs that the policy keeps apart, before and after one of them moves.
use mathlib.Core.List.{Memᴰ}
use journeyman.Base.{
  Bool, true, false, List, ◌≡◌, ◌≢◌, refl, sym, ◌∙◌, arith, ◌⊎◌, inl, inr, Bool-cases,
}
use journeyman.Job.{Job, Policy}
use journeyman.Concurrency.{job_can_start, is_active, queued_le, goes_first}
use journeyman.Concurrency.Exclusion.{job_can_start_iff, All-Memᴰ}
use journeyman.System.Moves.{is_busy, is_fresh, is_assigned, IsQuiet}
use journeyman.System.Starts.{IsStart, CanGo}

-- two jobs that the policy keeps apart
pub record Rivals (x y : Job) : Type 0 where
  pub apart : x.id ≢ y.id
  pub one_project : x.project_id ≡ y.project_id
  pub left_serialized : x.concurrency_policy ≡ Policy.serialized
  pub right_serialized : y.concurrency_policy ≡ Policy.serialized

pub Rivals-swap : (x y : Job) → Rivals x y → Rivals y x
Rivals-swap x y r = record {
  apart = λ e. r.apart (sym e);
  one_project = sym r.one_project;
  left_serialized = r.right_serialized;
  right_serialized = r.left_serialized;
}

-- what the table keeps of two rivals: not both are at work, and while the first is assigned to a
-- remote runner, the second is not at work and is over if it stands before the first in the queue
pub record IsFine (x y : Job) : Type 0 where
  pub alone : is_busy x ≡ true → is_busy y ≡ false
  pub idle : is_assigned x ≡ true → is_busy y ≡ false
  pub ahead : is_assigned x ≡ true → queued_le y x ≡ true → is_active y.status ≡ false

-- a rival that is active lets a job start only from behind it, and while it is queued itself
unblocked :
    (jobs : List Job) (x y : Job)
    → Memᴰ y jobs
    → Rivals x y
    → job_can_start x jobs ≡ true
    → is_active y.status ≡ true
    → goes_first x y ≡ false
unblocked jobs x y my r h a =
    All-Memᴰ _ jobs ((job_can_start_iff x jobs r.left_serialized).0 h) my
      (ground (arith, r.one_project, r.apart))

start-idle :
    (jobs : List Job) (x y : Job)
    → Memᴰ y jobs
    → Rivals x y
    → job_can_start x jobs ≡ true
    → is_busy y ≡ false
unfolding is_busy
start-idle jobs x y my r h = elim (Bool-cases (is_active y.status)) [
  | inl a ↦ ground (arith, unblocked jobs x y my r h a)
  | inr a ↦ ground arith
]

start-ahead :
    (jobs : List Job) (x y : Job)
    → Memᴰ y jobs
    → Rivals x y
    → job_can_start x jobs ≡ true
    → queued_le y x ≡ true
    → is_active y.status ≡ false
start-ahead jobs x y my r h before = elim (Bool-cases (is_active y.status)) [
  | inr a ↦ a
  | inl a ↦ ground (arith, unblocked jobs x y my r h a, r.apart)
]

queued_le_either : (x y : Job) → (queued_le x y ≡ true) ⊎ (queued_le y x ≡ true)
queued_le_either x y = ground arith

assigned-active : (x : Job) → is_assigned x ≡ true → is_active x.status ≡ true
unfolding is_assigned
assigned-active x h = ground arith

-- of two rivals that are fine, not both are assigned
not_both : (x y : Job) → IsFine x y → IsFine y x → is_assigned x ≡ true → ¬ (is_assigned y ≡ true)
not_both x y f g ax ay = elim (queued_le_either x y) [
  | inl before ↦ clash (sym (assigned-active x ax) ∙ g.ahead ay before)
  | inr before ↦ clash (sym (assigned-active y ay) ∙ f.ahead ax before)
]
  where
    clash : true ≡ false → ⊥
    clash e = cc

-- beside an assigned rival, no job can start
not_started :
    (jobs : List Job) (x y : Job)
    → Memᴰ x jobs
    → Rivals x y
    → IsFine x y
    → is_assigned x ≡ true
    → ¬ CanGo jobs y
unfolding CanGo
not_started jobs x y mx r f ax (can, queued) = elim (queued_le_either x y) [
  | inl before ↦
      clash (sym (assigned-active x ax) ∙ start-ahead jobs y x mx (Rivals-swap x y r) can before)
  | inr before ↦ ground (arith, f.ahead ax before)
]
  where
    clash : true ≡ false → ⊥
    clash e = cc

is-false : (b : Bool) → ¬ (b ≡ true) → b ≡ false
is-false true h = absurd (h refl)
is-false false h = refl

-- a job in the same place of the queue
moved-before :
    (x x' y y' : Job)
    → x'.id ≡ x.id
    → y'.id ≡ y.id
    → x'.queued_at ≡ x.queued_at
    → y'.queued_at ≡ y.queued_at
    → queued_le x' y' ≡ queued_le x y
moved-before x x' y y' ex ey qx qy = simp (ex, ey, qx, qy) refl

module _ (jobs : List Job) (x y : Job) (mx : Memᴰ x jobs) (my : Memᴰ y jobs) (r : Rivals x y)
    (f : IsFine x y) (g : IsFine y x) where
  -- the first of two rivals moves
  pub left-IsFine : (x' : Job) → is_fresh x ≡ true → IsStart jobs x x' → IsFine x' y
  unfolding CanGo
  left-IsFine x' fresh m = record {
    alone = λ b. elim (m.busy_before fresh b) [
      | inl was ↦ f.alone was
      | inr (inl (can, q)) ↦ start-idle jobs x y my r can
      | inr (inr assigned) ↦ f.idle assigned
    ];
    idle = λ a. elim (m.assigned_before fresh a) [
      | inl was ↦ f.idle was
      | inr (can, q) ↦ start-idle jobs x y my r can
    ];
    ahead = λ a before.
        let here = sym (moved-before y y x x' refl m.same_id refl m.same_queued_at) ∙ before in
        elim (m.assigned_before fresh a) [
          | inl was ↦ f.ahead was here
          | inr (can, q) ↦ start-ahead jobs x y my r can here
        ];
  }

  -- the second moves
  pub right-IsFine : (y' : Job) → is_fresh y ≡ true → IsStart jobs y y' → IsFine x y'
  unfolding CanGo
  right-IsFine y' fresh m = record {
    alone = λ bx. is-false (is_busy y') (λ b. elim (m.busy_before fresh b) [
      | inl was ↦ clash (sym was ∙ f.alone bx)
      | inr (inl (can, q)) ↦ clash (sym bx ∙ start-idle jobs y x mx (Rivals-swap x y r) can)
      | inr (inr assigned) ↦ clash (sym bx ∙ g.idle assigned)
    ]);
    idle = λ a. is-false (is_busy y') (λ b. elim (m.busy_before fresh b) [
      | inl was ↦ clash (sym was ∙ f.idle a)
      | inr (inl go) ↦ not_started jobs x y mx r f a go
      | inr (inr assigned) ↦ not_both x y f g a assigned
    ]);
    ahead = λ a before. is-false (is_active y'.status) (λ e. clash (
        sym (m.active_before e)
        ∙ f.ahead a (sym (moved-before y y' x x m.same_id refl m.same_queued_at refl) ∙ before)));
  }
    where
      clash : true ≡ false → ⊥
      clash e = cc

-- both move, and start nothing
pub quiet-IsFine :
    (x y x' y' : Job)
    → IsFine x y
    → is_fresh x ≡ true
    → is_fresh y ≡ true
    → IsQuiet x x'
    → IsQuiet y y'
    → IsFine x' y'
quiet-IsFine x y x' y' f fx fy p q = record {
  alone = λ b.
      is-false (is_busy y') (λ c. clash (sym (q.busy_before fy c) ∙ f.alone (p.busy_before fx b)));
  idle = λ a.
      is-false (is_busy y')
        (λ c. clash (sym (q.busy_before fy c) ∙ f.idle (p.assigned_before fx a)));
  ahead = λ a before. is-false (is_active y'.status) (λ e. clash (
      sym (q.active_before e)
      ∙ f.ahead (p.assigned_before fx a) (
          sym (moved-before y y' x x' q.same_id p.same_id q.same_queued_at p.same_queued_at)
          ∙ before)));
}
  where
    clash : true ≡ false → ⊥
    clash e = cc
