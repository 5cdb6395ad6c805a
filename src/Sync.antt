-- ===== src/Sync.antt =====
-- internal/sync/engine.go: the phase of a sync run from that of an operation. The phases of
-- operations are string constants of github.com/skaphos/gitops-engine, parameters here.
use keleustes.Base.{
  ◌≡◌, ◌≢◌, ◌↔◌, inl, inr, ◌∙◌, sym, refl, Bool-cases, false, Str, str, ◌==◌, ==_sound, ==_refl,
  if◌then◌else◌, ◌||◌, any, any_of_In, In, ==_iff,
}
use keleustes.Api.Resources.Runs.{sync_run_phases}

pub record OperationPhases : Type 0 where
  pub running : Str
  pub terminating : Str
  pub failed : Str
  pub error : Str
  pub succeeded : Str

abbrev pub phase_pending : Str
phase_pending = str "Pending"

abbrev pub phase_running : Str
phase_running = str "Running"

abbrev pub phase_succeeded : Str
phase_succeeded = str "Succeeded"

abbrev pub phase_failed : Str
phase_failed = str "Failed"

abbrev pub phase_error : Str
phase_error = str "Error"

unfoldable pub phase_from_operation : OperationPhases → Str → Str
phase_from_operation ops op =
    if op == ops.running || op == ops.terminating
    then phase_running
    else if op == ops.succeeded
    then phase_succeeded
    else if op == ops.failed
    then phase_failed
    else if op == ops.error
    then phase_error
    else phase_pending

-- A word that a search does not find in the list of the phases is none of them.
not_In_phases : (p : Str) → any (λ q. q == p) sync_run_phases ≡ false → ¬ In p sync_run_phases
not_In_phases p h i = let f = any_of_In (λ q. q == p) p sync_run_phases i (==_refl p) in cc

running_not_In : ¬ In phase_running sync_run_phases
unfolding ◌==◌
running_not_In = not_In_phases phase_running refl

error_not_In : ¬ In phase_error sync_run_phases
unfolding ◌==◌
error_not_In = not_In_phases phase_error refl

succeeded_In : In phase_succeeded sync_run_phases
succeeded_In = inr (inr (inr (inr (inl refl))))

failed_In : In phase_failed sync_run_phases
failed_In = inr (inr (inr (inr (inr (inl refl)))))

==_differs : {s t : Str} → (s == t) ≡ false → s ≢ t
==_differs {s} {t} h e = let y = (==_iff s t).1 e in cc

-- The phase of an operation is one of those that the custom resource admits exactly where the
-- operation does not run, terminate or end in an error: of these, the first two give Running and
-- the last gives Error, which `SyncRun.status.phase` does not admit. The constant of an error is
-- not that of a success or of a failure.
pub phase_from_operation-In :
    (ops : OperationPhases) (op : Str)
    → ops.error ≢ ops.succeeded
    → ops.error ≢ ops.failed
    → In (phase_from_operation ops op) sync_run_phases
      ↔ ((op ≢ ops.running) × (op ≢ ops.terminating) × (op ≢ ops.error))
unfolding phase_from_operation
phase_from_operation-In ops op h k = elim (Bool-cases (op == ops.running)) [
  | inl r ↦ rw r (λ i. absurd (running_not_In i), λ n. absurd (n.0 (==_sound _ _ r)))
  | inr r ↦ elim (Bool-cases (op == ops.terminating)) [
    | inl t ↦ rw (r, t) (λ i. absurd (running_not_In i), λ n. absurd (n.1 (==_sound _ _ t)))
    | inr t ↦ elim (Bool-cases (op == ops.succeeded)) [
      | inl s ↦
          rw (r, t, s)
            (λ _. (==_differs r, ==_differs t, λ e. h (sym e ∙ ==_sound _ _ s)), λ _. succeeded_In)
      | inr s ↦ elim (Bool-cases (op == ops.failed)) [
        | inl f ↦
            rw (r, t, s, f)
              (λ _. (==_differs r, ==_differs t, λ e. k (sym e ∙ ==_sound _ _ f)), λ _. failed_In)
        | inr f ↦ elim (Bool-cases (op == ops.error)) [
          | inl e ↦
              rw (r, t, s, f, e) (λ i. absurd (error_not_In i), λ n. absurd (n.2 (==_sound _ _ e)))
          | inr e ↦
              rw (r, t, s, f, e) (λ _. (==_differs r, ==_differs t, ==_differs e), λ _. inl refl)
        ]
      ]
    ]
  ]
]
