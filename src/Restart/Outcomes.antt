-- ===== src/Restart/Outcomes.antt =====
-- When the page announces a restart.
use flamenco_manager.Common.{◌≡◌, refl, ◌⊎◌, inl, inr, ◌↔◌, true, Option, arith, Bool-cases}
use flamenco_manager.Common.Http.{HttpError, status_is}
use flamenco_manager.Auth.Ajax.{Result, resolved, rejected, pending, Stage}
use flamenco_manager.Restart.{restart_ok, restart_failed, restart_ended}

restart_failed-no_answer :
    (e : HttpError) → restart_failed e ≡ restart_ok → status_is 0 e.status ≡ true
unfolding restart_failed restart_ok
restart_failed-no_answer e k = elim (Bool-cases (status_is 0 e.status)) [
  | inl y ↦ y
  | inr y ↦ absurd (ground arith)
]

-- The page announces a restart and goes to the setup exactly if the request was answered, or failed with
-- status 0 (no connection), at whichever stage.
pub restart_ended_iff :
    {R : Type 0} (x : Result R)
    → (restart_ended x ≡ restart_ok) ↔ (
        ((r : R) × (x ≡ resolved r))
        ⊎ ((e : HttpError) × (stage : Option Stage) × (x ≡ rejected e stage)
            × (status_is 0 e.status ≡ true)))
unfolding restart_ended restart_failed
restart_ended_iff (resolved r) = (λ k. inl (r, refl), λ k. refl)
restart_ended_iff (rejected e stage) = (
  λ k. inr (e, stage, refl, restart_failed-no_answer e k),
  λ k. elim k [ inl (r, q) ↦ absurd (ground arith) | inr (x, st, q, y) ↦ ground arith ],
)
restart_ended_iff pending = (
  λ k. absurd (unfold restart_ok in ground arith),
  λ k. elim k [ inl (r, q) ↦ absurd (ground arith) | inr (x, st, q, y) ↦ absurd (ground arith) ],
)
