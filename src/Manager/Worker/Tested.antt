-- ===== src/Manager/Worker/Tested.antt =====
-- When test tasks are queued for a worker.
use flamenco_manager.Common.{
  ℕ, suc, String, some, List, [], ◌∷◌, filter, ◌==◌, ◌≡◌, ◌≢◌, ◌⊎◌, inl, inr, refl, sym, ◌∙◌, arith,
  eq_iff, Bool-cases,
}
use mathlib.Core.Bool.{false≢true}
use flamenco_manager.Manager.Worker.TestTask.{
  TestFailure, Made, Tests, created, not_created, not_testing, Queueing, queueing, stopped,
  queued_after, queue_tests, queue_test_blender_render_task, created_of, create_test_task,
  no_storage, not_copied, no_output, not_inserted, no_task_types, only_unknown_task_types,
}
use flamenco_manager.Manager.Worker.Offered.{
  is_test_task_type, IsMade, queue_test_blender_render_task-made,
}

-- Everything succeeds for each of these test tasks.
abbrev pub AllMade : (ℕ → Made) → ℕ → List String → Type 0
AllMade made n [] = Unit
AllMade made n (t ∷ ts) = IsMade (made n) × AllMade made (suc n) ts

queue_test_blender_render_task-cases :
    (m : Made)
    → IsMade m ⊎ ((e : TestFailure) × (queue_test_blender_render_task m ≡ some e) × ¬ IsMade m)
unfolding queue_test_blender_render_task
queue_test_blender_render_task-cases m = elim (Bool-cases m.storage) [
  | inr s ↦ inr (no_storage, rw s refl, λ k. false≢true (sym s ∙ k.0))
  | inl s ↦ elim (Bool-cases m.copied) [
    | inr c ↦ inr (not_copied, rw (s, c) refl, λ k. false≢true (sym c ∙ k.1))
    | inl c ↦ elim (Bool-cases m.output) [
      | inr o ↦ inr (no_output, rw (s, c, o) refl, λ k. false≢true (sym o ∙ k.2))
      | inl o ↦ elim (Bool-cases m.inserted) [
        | inr i ↦ inr (not_inserted, rw (s, c, o, i) refl, λ k. false≢true (sym i ∙ k.3))
        | inl i ↦ inl (s, c, o, i)
      ]
    ]
  ]
]

-- The loop ends with these task types, or with an error.
Ends : (ℕ → Made) → ℕ → List String → Queueing → Type 0
Ends made n types q =
    ((q ≡ queueing types) × AllMade made n types)
    ⊎ ((e : TestFailure) × (q ≡ stopped e) × ¬ AllMade made n types)

queued_after-Ends :
    (made : ℕ → Made) (n : ℕ) (t : String) (ts : List String) (rest : Queueing)
    → Ends made (suc n) ts rest
    → Ends made n (t ∷ ts) (queued_after t (queue_test_blender_render_task (made n)) rest)
unfolding Ends queued_after
queued_after-Ends made n t ts rest h = elim (queue_test_blender_render_task-cases (made n)) [
  | inr (e, k, not_made) ↦ inr (e, rw k refl, λ all. not_made all.0)
  | inl m ↦ elim h [
    | inl (k, all) ↦ inl (rw (queue_test_blender_render_task-made (made n) m, k) refl, (m, all))
    | inr (e, k, none_made) ↦
        inr (e, rw (queue_test_blender_render_task-made (made n) m, k) refl, λ all. none_made all.1)
  ]
]

queue_tests-Ends :
    (made : ℕ → Made) (n : ℕ) (types : List String)
    → Ends made n (filter is_test_task_type types) (queue_tests made n types)
unfolding queue_tests
queue_tests-Ends made n [] = unfold Ends in inl (refl, tt)
queue_tests-Ends made n (t ∷ ts) = elim (Bool-cases (t == "test-blender-render")) [
  | inl y ↦ rw y (
      queued_after-Ends made n t (filter is_test_task_type ts) (queue_tests made (suc n) ts)
        (queue_tests-Ends made (suc n) ts))
  | inr m ↦ rw m (queue_tests-Ends made n ts)
]

-- Test tasks of these task types may be queued.
abbrev pub MayQueue : String → Tests → List String → Type 0
MayQueue status t types = (status ≡ "testing") × (types ≢ []) × AllMade t.made 0 types

created_of-cases :
    (types known : List String) (made : ℕ → Made) (q : Queueing)
    → Ends made 0 known q
    → ((created_of types q ≡ created known) × (known ≢ []) × AllMade made 0 known)
      ⊎ ((e : TestFailure) × (created_of types q ≡ not_created e)
          × ¬ ((known ≢ []) × AllMade made 0 known))
unfolding Ends created_of
created_of-cases types known made q (inr (e, k, none_made)) = inr (e, rw k refl, λ h. none_made h.1)
created_of-cases [] [] made q (inl (k, all)) = inr (no_task_types, rw k refl, λ h. h.0 refl)
created_of-cases (t ∷ ts) [] made q (inl (k, all)) =
    inr (only_unknown_task_types (t ∷ ts), rw k refl, λ h. h.0 refl)
created_of-cases types (f ∷ fs) made q (inl (k, all)) = inl (rw k refl, (λ e. cc), all)

-- Let a worker have a status and support some task types. Either it is testing, the type of the test tasks is
-- among them, and everything succeeds for each test task, and then one is queued for each time that it
-- is listed; or one of these does not hold, and there is an error.
pub create_test_task-cases :
    (status : String) (t : Tests)
    → let known : List String = filter is_test_task_type t.supported_task_types in
      ((create_test_task status t ≡ created known) × MayQueue status t known)
      ⊎ ((e : TestFailure) × (create_test_task status t ≡ not_created e)
          × ¬ MayQueue status t known)
unfolding create_test_task
create_test_task-cases status t = elim (Bool-cases (status == "testing")) [
  | inr n ↦
      inr (
        not_testing status,
        rw n refl,
        λ h. absurd (ground (arith, n, h.0, eq_iff status "testing")),
      )
  | inl y ↦
      elim (created_of-cases t.supported_task_types
        (filter is_test_task_type t.supported_task_types) t.made
        (queue_tests t.made 0 t.supported_task_types)
        (queue_tests-Ends t.made 0 t.supported_task_types)) [
          | inl (k, some_known, all) ↦
              inl (rw y k, ((eq_iff status "testing").0 y, some_known, all))
          | inr (e, k, refused) ↦ inr (e, rw y k, λ h. refused (h.1, h.2))
        ]
]
