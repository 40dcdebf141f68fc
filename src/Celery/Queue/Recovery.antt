-- ===== src/Celery/Queue/Recovery.antt =====
-- autoweave/celery_queue.py: which runs `recover_workflows` queues.
use autoweave_library.Common.{
  ℕ, ◌≡◌, ◌≢◌, ◌↔◌, ◌⊎◌, refl, sym, ◌∙◌, ap, subst, Bool, true, not, List, [], ◌∷◌, ◌++◌,
  append_assoc, append-nil, map, String, any, max, none, is_some_text, strip, Has, All,
  if◌then◌else◌, ◌==◌, ==_iff, string_eq, arith, Bool-cases, inl, inr,
}
use autoweave_library.Models.{
  WorkflowRunRecord, WorkflowRunStatus, HumanRequestRecord, HumanRequestStatus,
  ApprovalRequestRecord, ApprovalStatus, workflow_run_status_eq, human_request_status_eq,
  approval_status_eq,
}
use autoweave_library.Storage.Repository.{Repository, list_workflow_runs}
use autoweave_library.Storage.Repository.Rows.{
  list_human_requests_for_run, list_approval_requests_for_run,
}
use autoweave_library.Celery.Queue.{
  WorkflowAction, CeleryWorkflowDispatchReceipt, CeleryWorkflowDispatcher, Broker, first_queue,
  receipt_of, celery_queue_name, workflow_payload, enqueue_workflow_action, is_recoverable,
  continue_payload, recover_runs, recover_workflows,
}

-- A run of the project that is not over, has no open question and no open approval, and whose
-- request is not empty.
abbrev pub IsRecoverable :
    (project_id request_text : String) → Repository → WorkflowRunRecord → Type 0
IsRecoverable project_id request_text repository run =
    (run.project_id ≡ project_id)
    × (run.status ≢ WorkflowRunStatus.completed)
    × (run.status ≢ WorkflowRunStatus.failed)
    × (run.status ≢ WorkflowRunStatus.cancelled)
    × All (λ (r : HumanRequestRecord). r.status ≢ HumanRequestStatus.opened)
        (list_human_requests_for_run run.id repository)
    × All (λ (r : ApprovalRequestRecord). r.status ≢ ApprovalStatus.requested)
        (list_approval_requests_for_run run.id repository)
    × (is_some_text request_text ≡ true)

none_open :
    (rs : List HumanRequestRecord)
    → (not (any (λ (r : HumanRequestRecord). r.status == HumanRequestStatus.opened) rs) ≡ true)
      ↔ All (λ (r : HumanRequestRecord). r.status ≢ HumanRequestStatus.opened) rs
none_open [] = ground arith
none_open (r ∷ rs) = ground (arith, none_open rs, ==_iff r.status HumanRequestStatus.opened)

none_requested :
    (rs : List ApprovalRequestRecord)
    → (not (any (λ (r : ApprovalRequestRecord). r.status == ApprovalStatus.requested) rs) ≡ true)
      ↔ All (λ (r : ApprovalRequestRecord). r.status ≢ ApprovalStatus.requested) rs
none_requested [] = ground arith
none_requested (r ∷ rs) =
    ground (arith, none_requested rs, ==_iff r.status ApprovalStatus.requested)

is_recoverable-IsRecoverable :
    (project_id request_text : String) (repository : Repository) (run : WorkflowRunRecord)
    → (is_recoverable project_id request_text repository run ≡ true)
      ↔ IsRecoverable project_id request_text repository run
unfolding is_recoverable
is_recoverable-IsRecoverable project_id request_text repository run = ground (
  arith,
  ==_iff run.project_id project_id,
  ==_iff run.status WorkflowRunStatus.completed,
  ==_iff run.status WorkflowRunStatus.failed,
  ==_iff run.status WorkflowRunStatus.cancelled,
  none_open (list_human_requests_for_run run.id repository),
  none_requested (list_approval_requests_for_run run.id repository),
)

-- The first name of a queue that is not blank, and "dispatch" where there is none.
abbrev pub target_queue : List String → String
target_queue [] = "dispatch"
target_queue (name ∷ names) =
    let later = target_queue names in if is_some_text (strip name) then strip name else later

first_target : (names : List String) → first_queue names ≡ target_queue names
unfolding first_queue celery_queue_name
first_target [] = refl
first_target (name ∷ names) = ground (arith, first_target names)

Has-append : {A : Type 0} (a : A) (xs ys : List A) → Has a (xs ++ ys) ↔ (Has a xs ⊎ Has a ys)
Has-append a [] ys = (λ h. inr h, λ h. elim h [ inl k ↦ absurd k | inr k ↦ k ])
Has-append a (x ∷ xs) ys = ground (arith, Has-append a xs ys)

module _ (dispatcher : CeleryWorkflowDispatcher) (new_id : ℕ → String)
    (user_request : WorkflowRunRecord → String) (dispatch : Bool) (steps : ℕ) where
  -- The message that continues a run.
  abbrev pub message : WorkflowRunRecord → WorkflowAction × String
  message run = (
    record {
      action = "continue_workflow";
      root = dispatcher.root;
      environ = dispatcher.environ;
      workflow_run_id = run.id;
      request = strip (user_request run);
      dispatch = dispatch;
      max_steps = max 1 steps;
      human_request_id = none;
      approval_request_id = none;
      approved = none;
    },
    target_queue dispatcher.runtime_queue_names,
  )

  abbrev queued : String → Repository → List WorkflowRunRecord → Broker
  queued project_id repository [] = []
  queued project_id repository (run ∷ runs) =
      let later = queued project_id repository runs in
      if is_recoverable project_id (strip (user_request run)) repository run
      then message run ∷ later
      else later

  abbrev pub receipt_runs : List CeleryWorkflowDispatchReceipt → List String
  receipt_runs rs = map (λ (r : CeleryWorkflowDispatchReceipt). r.workflow_run_id) rs

  abbrev pub message_runs : Broker → List String
  message_runs ms = map (λ (m : WorkflowAction × String). m.0.workflow_run_id) ms

  abbrev recovered :
      String
      → Repository
      → List WorkflowRunRecord
      → Broker
      → List CeleryWorkflowDispatchReceipt × Broker
  recovered = recover_runs dispatcher new_id user_request dispatch steps

  recover_runs-queued :
      (project_id : String) (repository : Repository) (runs : List WorkflowRunRecord)
      (broker : Broker)
      → ((recovered project_id repository runs broker).1
          ≡ broker ++ queued project_id repository runs)
        × (receipt_runs (recovered project_id repository runs broker).0
            ≡ message_runs (queued project_id repository runs))
  unfolding recover_runs enqueue_workflow_action receipt_of continue_payload workflow_payload
  recover_runs-queued project_id repository [] broker = (sym (append-nil broker), refl)
  recover_runs-queued project_id repository (run ∷ runs) broker =
      elim (Bool-cases (is_recoverable project_id (strip (user_request run)) repository run)) [
        | inl chosen ↦
            let (sent, same) =
              recover_runs-queued project_id repository runs (broker ++ (message run ∷ [])) in
            rw (recover_runs, queued, chosen, first_target dispatcher.runtime_queue_names)
              (
                sent ∙ append_assoc broker (message run ∷ []) (queued project_id repository runs),
                ap (λ is. run.id ∷ is) same,
              )
        | inr left ↦
            rw (recover_runs, queued, left) (recover_runs-queued project_id repository runs broker)
      ]

  -- The message continues a recoverable run of the list.
  abbrev pub Continues :
      String → Repository → List WorkflowRunRecord → WorkflowAction × String → Type 0
  Continues project_id repository runs m =
      (run : WorkflowRunRecord) × (Has run runs
        × IsRecoverable project_id (strip (user_request run)) repository run
        × (m ≡ message run))

  queued-Continues :
      (project_id : String) (repository : Repository) (runs : List WorkflowRunRecord)
      (m : WorkflowAction × String)
      → Has m (queued project_id repository runs) ↔ Continues project_id repository runs m
  queued-Continues project_id repository [] m = (λ h. absurd h, λ (run, (h, c, e)). absurd h)
  queued-Continues project_id repository (run ∷ runs) m =
      let later = queued-Continues project_id repository runs m in
      let decides =
        is_recoverable-IsRecoverable project_id (strip (user_request run)) repository run in
      elim (Bool-cases (is_recoverable project_id (strip (user_request run)) repository run)) [
        | inl chosen ↦
            rw (queued, chosen)
              (
                λ h. elim h [
                  | inl e ↦ (run, (inl refl, decides.0 chosen, e))
                  | inr k ↦ let (r, (inside, c, e)) = later.0 k in (r, (inr inside, c, e))
                ],
                λ (r, (inside, c, e)). elim inside [
                  | inl same ↦ inl (e ∙ ap message same)
                  | inr k ↦ inr (later.1 (r, (k, c, e)))
                ],
              )
        | inr left ↦
            rw (queued, left)
              (
                λ h. let (r, (inside, c, e)) = later.0 h in (r, (inr inside, c, e)),
                λ (r, (inside, c, e)). elim inside [
                  | inl same ↦
                      let c' =
                        subst (λ x. IsRecoverable project_id (strip (user_request x)) repository x)
                          same c in
                      let chosen = decides.1 c' in absurd (cc)
                  | inr k ↦ later.1 (r, (k, c, e))
                ],
              )
      ]

  -- With a project id that is not blank, `recover_workflows` sends the broker, after what it was
  -- sent before, exactly one kind of message: the action "continue_workflow" with the id and the
  -- stripped request of a run of the project that is not over, waits for no human and no approval,
  -- and has a request, at least one step and no answer, on the first queue whose name is not blank
  -- ("dispatch" without one); each such run of the repository gets it, and the receipts name the
  -- runs of the messages in their order.
  pub recover_workflows-Continues :
      (wanted : String) (repository : Repository) (broker : Broker)
      → is_some_text (strip wanted) ≡ true
      → let r =
          recover_workflows dispatcher new_id user_request dispatch steps wanted repository
            broker in
        (sent : Broker) × ((r.1 ≡ broker ++ sent)
          × (receipt_runs r.0 ≡ message_runs sent)
          × ((m : WorkflowAction × String)
              → Has m sent ↔ Continues (strip wanted) repository (list_workflow_runs repository) m))
  unfolding recover_workflows
  recover_workflows-Continues wanted repository broker named =
      let runs = list_workflow_runs repository in
      let (sent, same) = recover_runs-queued (strip wanted) repository runs broker in
      (
        queued (strip wanted) repository runs,
        (rw named sent, rw named same, λ m. queued-Continues (strip wanted) repository runs m),
      )
