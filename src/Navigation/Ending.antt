-- ===== src/Navigation/Ending.antt =====
-- The end of a path in an instance that was not called (proceedToken of navigation.go).
use flow_go.Prelude.{
  ℕ, String, ◌≡◌, refl, sym, ap, ◌∙◌, Bool, true, false, List, none, some, ◌==◌, nat_eq, string_eq,
  any, Bool-cases, inl, inr,
}
use flow_go.Prelude.Text.{is_empty}
use flow_go.Model.Workflow.{Execution, WorkflowInstance, is_active, is_completed_instance}
use flow_go.Navigation.Exit.{
  Moves, notify_if_called, proceed_sub_process, check_sub_process_completion, complete_element,
  end_of_path,
}
use flow_go.Navigation.Tokens.{
  lift, get_executions, execution_at, update_element, complete_instance, complete_if_no_active,
}
use flow_go.Navigation.Places.{settled}
use flow_go.Navigation.Runs.{RunsTo, RunsTo-then, RunsTo-weaken}
use flow_go.Navigation.Steps.{with_executions}
use flow_go.Navigation.World.{
  World, WorkflowDefinition, Env, pure, ◌>>=◌, ◌>>◌, asks, draw, store, emit, elem_at, modify_at,
  change_executions, set_status, mark_completed, find_execution,
}

abbrev pub active_left : List Execution → Bool
active_left = any (λ ex. is_active ex.status)

-- `after` is `before` with the executions `exs`, and is completed unless one of them is active.
pub record Settles (before : WorkflowInstance) (exs : List Execution) (after : WorkflowInstance)
    : Type 0 where
  pub same_executions : after.executions ≡ exs
  pub same_caller : after.parent_instance ≡ before.parent_instance
  pub goes_on : active_left exs ≡ true → after.status ≡ before.status
  pub ends : active_left exs ≡ false → is_completed_instance after.status ≡ true

abbrev pub settled_at : ℕ → World → List Execution
settled_at i w = modify_at i settled w.instance_.executions

Settles-same :
    (i j k l : WorkflowInstance)
    → j ≡ i
    → l ≡ k
    → Settles j j.executions k
    → Settles i i.executions l
Settles-same i j k l before after s = rw (sym before, after) s

module _ (env : Env) (wf : WorkflowDefinition) (moves : Moves) where
  complete_element-RunsTo :
      (step_id : String) (key : ℕ) (w : World)
      → RunsTo (λ v. v.instance_ ≡ w.instance_) (complete_element env wf moves step_id key w)
  unfolding complete_element pure draw ◌>>=◌ ◌>>◌ update_element store asks emit
  complete_element-RunsTo step_id key w = elim (Bool-cases (key == 0)) [
    | inl e ↦ rw e (refl, refl)
    | inr e ↦ rw e (refl, refl)
  ]

  complete_if_no_active-RunsTo :
      (w : World)
      → RunsTo
          (λ v. Settles w.instance_ w.instance_.executions v.instance_)
          (complete_if_no_active env wf w)
  unfolding complete_if_no_active complete_instance pure draw ◌>>=◌ ◌>>◌ store asks emit
      mark_completed get_executions
  complete_if_no_active-RunsTo w = elim (Bool-cases (is_completed_instance w.instance_.status)) [
    | inl e ↦ rw e (
      refl,
      record { same_executions = refl; same_caller = refl; goes_on = λ h. refl; ends = λ h. e },
    )
    | inr e ↦ elim (Bool-cases (active_left w.instance_.executions)) [
      | inl a ↦
          rw (e, a)
            (
              refl,
              record {
                same_executions = refl;
                same_caller = refl;
                goes_on = λ h. refl;
                ends = λ h. cc (a, h);
              },
            )
      | inr a ↦
          rw (e, a)
            (
              refl,
              record {
                same_executions = refl;
                same_caller = refl;
                goes_on = λ h. cc (a, h);
                ends = λ h. refl;
              },
            )
    ]
  ]

  check-RunsTo :
      (id : String) (ex : Execution) (w : World)
      → find_execution id w.instance_.executions ≡ some ex
      → is_empty ex.parent_id ≡ true
      → RunsTo (λ v. v ≡ w) (check_sub_process_completion env wf moves id w)
  unfolding check_sub_process_completion proceed_sub_process pure ◌>>=◌ asks get_executions
  check-RunsTo id ex w h top = rw (h, top) (refl, refl)

  notify-RunsTo :
      (w : World)
      → w.instance_.parent_instance ≡ none
      → RunsTo
          (λ v. v ≡ w)
          ((asks (λ w. w.instance_.parent_instance) >>= notify_if_called env wf moves) w)
  unfolding notify_if_called pure ◌>>=◌ asks
  notify-RunsTo w h = rw h (refl, refl)

  -- The rest of the path's end, once the token is completed.
  wind_up-RunsTo :
      (id step_id : String) (key : ℕ) (ex : Execution) (w : World)
      → find_execution id w.instance_.executions ≡ some ex
      → is_empty ex.parent_id ≡ true
      → w.instance_.parent_instance ≡ none
      → RunsTo
          (λ v. Settles w.instance_ w.instance_.executions v.instance_)
          ((complete_element env wf moves step_id key
              >> (complete_if_no_active env wf
                  >> (check_sub_process_completion env wf moves id
                      >> (asks (λ w. w.instance_.parent_instance)
                          >>= notify_if_called env wf moves))))
            w)
  wind_up-RunsTo id step_id key ex w found top alone =
      RunsTo-then _ _ w (λ v. v.instance_ ≡ w.instance_)
        (λ x. Settles w.instance_ w.instance_.executions x.instance_)
        (complete_element-RunsTo step_id key w)
        (λ v same.
          RunsTo-then _ _ v (λ u. Settles v.instance_ v.instance_.executions u.instance_)
            (λ x. Settles w.instance_ w.instance_.executions x.instance_)
            (complete_if_no_active-RunsTo v)
            (λ u s.
              RunsTo-then _ _ u (λ x. x ≡ u)
                (λ x. Settles w.instance_ w.instance_.executions x.instance_)
                (check-RunsTo id ex u
                  (ap (find_execution id) (s.same_executions ∙ ap (λ i. i.executions) same) ∙ found)
                  top)
                (λ x stays.
                  RunsTo-weaken (λ y. y ≡ x)
                    (λ x. Settles w.instance_ w.instance_.executions x.instance_) _
                    (λ y still.
                      Settles-same w.instance_ v.instance_ u.instance_ y.instance_ same
                        (ap (λ z. z.instance_) (still ∙ stays)) s)
                    (notify-RunsTo x (
                      ap (λ z. z.instance_.parent_instance) stays
                      ∙ s.same_caller
                      ∙ ap (λ i. i.parent_instance) same
                      ∙ alone)))))

  pub end_of_path-RunsTo :
      (i : ℕ) (id step_id : String) (ex : Execution) (w : World)
      → elem_at i (settled_at i w) ≡ some (settled ex)
      → find_execution id (settled_at i w) ≡ some (settled ex)
      → is_empty ex.parent_id ≡ true
      → w.instance_.parent_instance ≡ none
      → RunsTo
          (λ v. Settles w.instance_ (settled_at i w) v.instance_)
          (end_of_path env wf moves i step_id id w)
  unfolding end_of_path execution_at get_executions asks set_status change_executions ◌>>=◌ ◌>>◌
      lift pure
  end_of_path-RunsTo i id step_id ex w here found top alone =
      let (ended, s) =
        wind_up-RunsTo id step_id ex.element_instance_key (settled ex)
          (with_executions w (settled_at i w)) found top alone in
      rw here (
        ended,
        record {
          same_executions = s.same_executions;
          same_caller = s.same_caller;
          goes_on = s.goes_on;
          ends = s.ends;
        },
      )
