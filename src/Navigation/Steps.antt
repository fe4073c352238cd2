-- ===== src/Navigation/Steps.antt =====
-- A navigation as a sequence of steps of a machine. Each step draws an answer, changes the tables,
-- announces an event, changes executions without making one active, adds one, sets the variables,
-- completes the instance, or is a run of code outside of the navigation. Of the rows of jobs, only those change whose key the generator draws.
use flow_go.Prelude.{
  ℕ, zero, suc, ◌≡◌, ◌≢◌, Bool, true, false, List, [], ◌∷◌, ◌++◌, some, if◌then◌else◌,
}
use flow_go.Model.{Job}
use flow_go.Model.Event.{Event}
use flow_go.Model.Value.{Variables}
use flow_go.Model.Workflow.{Execution, ExecutionStatus, WorkflowStatus, is_active}
use flow_go.Repository.{Db}
use flow_go.Repository.Jobs.{get_job}
use flow_go.Navigation.World.{
  World, Env, Failure, Nav, Outcome, done, failed, then_, pure, fail, ◌>>=◌, ◌>>◌, asks, draw,
  store, emit, modify_at, change_executions, set_status, put_execution, append_execution,
  set_context, mark_completed,
}

-- The row of every job whose key is not drawn stays.
abbrev pub KeepsRows : (ℕ → ℕ) → Db → Db → Type 0
KeepsRows keys before after =
    (k : ℕ) (job : Job)
    → ((n : ℕ) → k ≢ keys n)
    → get_job k before.jobs ≡ some job
    → get_job k after.jobs ≡ some job

-- No execution of the first list that is not active becomes active.
abbrev pub StaysCalm : List Execution → List Execution → Type 0
StaysCalm [] after = Unit
StaysCalm (x ∷ xs) [] = ⊥
StaysCalm (x ∷ xs) (y ∷ ys) =
    (is_active y.status ≡ true → is_active x.status ≡ true) × StaysCalm xs ys

pub StaysCalm-refl : (xs : List Execution) → StaysCalm xs xs
StaysCalm-refl [] = tt
StaysCalm-refl (x ∷ xs) = ((λ h. h), StaysCalm-refl xs)

pub StaysCalm-trans :
    (xs ys zs : List Execution) → StaysCalm xs ys → StaysCalm ys zs → StaysCalm xs zs
StaysCalm-trans [] ys zs p q = tt
StaysCalm-trans (x ∷ xs) [] zs p q = absurd p
StaysCalm-trans (x ∷ xs) (y ∷ ys) [] p q = absurd q
StaysCalm-trans (x ∷ xs) (y ∷ ys) (z ∷ zs) (f, p) (g, q) =
    ((λ h. f (g h)), StaysCalm-trans xs ys zs p q)

pub StaysCalm-append : (xs ys : List Execution) → StaysCalm xs (xs ++ ys)
StaysCalm-append [] ys = tt
StaysCalm-append (x ∷ xs) ys = ((λ h. h), StaysCalm-append xs ys)

pub StaysCalm-modify_at :
    (i : ℕ) (f : Execution → Execution)
    → ((ex : Execution) → is_active (f ex).status ≡ true → is_active ex.status ≡ true)
    → (xs : List Execution) → StaysCalm xs (modify_at i f xs)
unfolding modify_at
StaysCalm-modify_at i f h [] = tt
StaysCalm-modify_at zero f h (x ∷ xs) = (h x, StaysCalm-refl xs)
StaysCalm-modify_at (suc i) f h (x ∷ xs) = ((λ a. a), StaysCalm-modify_at i f h xs)

abbrev pub with_executions : World → List Execution → World
with_executions w exs = record w { instance_ = record w.instance_ { executions = exs } }

-- What code outside of the navigation takes a world to.
abbrev pub Outside : Type 1
Outside = World → World → Type 0

module _ (env : Env) (out : Outside) where
  pub data Step : World → World → Type 0 where
    drawn : (w : World) (n : ℕ) → Step w (record w { draws = n })
    stored :
        (w : World) (db : Db)
        → KeepsRows env.snowflake w.session.db db
        → Step w (record w { session = record w.session { db = db } })
    announced :
        (w : World) (e : Event)
        → Step w (record w { session = record w.session { events = w.session.events ++ e ∷ [] } })
    changed :
        (w : World) (exs : List Execution)
        → StaysCalm w.instance_.executions exs
        → Step w (with_executions w exs)
    varied :
        (w : World) (context : Variables)
        → Step w (record w { instance_ = record w.instance_ { context = context } })
    completed :
        (w : World)
        → Step w (record w { instance_ = record w.instance_ { status = WorkflowStatus.completed } })
    left : (u v : World) → out u v → Step u v

  pub data Reaches : World → World → Type 0 where
    stop : (w : World) → Reaches w w
    go_on : (u v w : World) → Step u v → Reaches v w → Reaches u w

  pub one_step : (u v : World) → Step u v → Reaches u v
  one_step u v s = go_on u v v s (stop v)

  pub Reaches-trans : (u v w : World) → Reaches u v → Reaches v w → Reaches u w
  Reaches-trans _ _ w (stop _) b = b
  Reaches-trans _ _ w (go_on u x v s a) b = go_on u x w s (Reaches-trans x v w a b)

  -- Every run of a navigation is a sequence of steps, whether it succeeds or fails.
  pub record Follows {A : Type 0} (m : Nav A) : Type 0 where
    pub path : (w : World) → Reaches w (m w).1

module _ (env : Env) (out : Outside) where
  pub step-Follows :
      {A : Type 0} (m : Nav A) → ((w : World) → Step env out w (m w).1) → Follows env out m
  step-Follows m s = record { path = λ w. one_step env out w (m w).1 (s w) }

  pub pure-Follows : {A : Type 0} (a : A) → Follows env out (pure a)
  unfolding pure
  pure-Follows a = record { path = λ w. stop w }

  pub fail-Follows : {A : Type 0} (e : Failure) → Follows env out (fail {A = A} e)
  unfolding fail
  fail-Follows e = record { path = λ w. stop w }

  pub asks-Follows : {A : Type 0} (f : World → A) → Follows env out (asks f)
  unfolding asks
  asks-Follows f = record { path = λ w. stop w }

  pub draw-Follows : {A : Type 0} (f : ℕ → A) → Follows env out (draw f)
  unfolding draw
  draw-Follows f = step-Follows (draw f) (λ w. drawn w (suc w.draws))

  outcome-Follows :
      {A B : Type 0} (f : A → Nav B)
      → ((a : A) → Follows env out (f a))
      → (w : World) (r : Outcome A × World) → Reaches env out w r.1
      → Reaches env out w (then_ r f).1
  outcome-Follows f q w (done a, v) p = Reaches-trans env out w v (f a v).1 p ((q a).path v)
  outcome-Follows f q w (failed x, v) p = p

  pub bind-Follows :
      {A B : Type 0} (m : Nav A) (f : A → Nav B)
      → Follows env out m
      → ((a : A) → Follows env out (f a))
      → Follows env out (m >>= f)
  unfolding ◌>>=◌
  bind-Follows m f p q = record { path = λ w. outcome-Follows f q w (m w) (p.path w) }

  pub then-Follows :
      {A B : Type 0} (m : Nav A) (k : Nav B)
      → Follows env out m
      → Follows env out k
      → Follows env out (m >> k)
  unfolding ◌>>◌
  then-Follows m k p q = bind-Follows m (λ _. k) p (λ _. q)

  pub if-Follows :
      {A : Type 0} (b : Bool) (m k : Nav A)
      → Follows env out m
      → Follows env out k
      → Follows env out (if b then m else k)
  if-Follows true m k p q = p
  if-Follows false m k p q = q

  pub store-Follows :
      (f : Db → Db) → ((db : Db) → KeepsRows env.snowflake db (f db)) → Follows env out (store f)
  unfolding store
  store-Follows f keeps =
      step-Follows (store f) (λ w. stored w (f w.session.db) (keeps w.session.db))

  -- A change of other tables.
  pub aside-Follows :
      (f : Db → Db) → ((db : Db) → (f db).jobs ≡ db.jobs) → Follows env out (store f)
  aside-Follows f same = store-Follows f (λ db k job fresh h. rw (same db) h)

  pub emit-Follows : (e : Event) → Follows env out (emit e)
  unfolding emit
  emit-Follows e = step-Follows (emit e) (λ w. announced w e)

  pub change-Follows :
      (f : List Execution → List Execution)
      → ((exs : List Execution) → StaysCalm exs (f exs))
      → Follows env out (change_executions f)
  unfolding change_executions
  change-Follows f h =
      step-Follows (change_executions f)
        (λ w. changed w (f w.instance_.executions) (h w.instance_.executions))

  pub set_status-Follows :
      (i : ℕ) (status : ExecutionStatus)
      → is_active status ≡ false
      → Follows env out (set_status i status)
  unfolding set_status
  set_status-Follows i status h =
      change-Follows _ (StaysCalm-modify_at i (λ ex. record ex { status = status }) (λ ex a. cc h))

  pub put_execution-Follows :
      (i : ℕ) (e : Execution) → is_active e.status ≡ false → Follows env out (put_execution i e)
  unfolding put_execution
  put_execution-Follows i e h = change-Follows _ (StaysCalm-modify_at i (λ _. e) (λ ex a. cc h))

  pub append-Follows : (e : Execution) → Follows env out (append_execution e)
  unfolding append_execution
  append-Follows e = change-Follows (λ exs. exs ++ e ∷ []) (λ exs. StaysCalm-append exs (e ∷ []))

  pub set_context-Follows : (context : Variables) → Follows env out (set_context context)
  unfolding set_context
  set_context-Follows context = step-Follows (set_context context) (λ w. varied w context)

  pub mark_completed-Follows : Follows env out mark_completed
  unfolding mark_completed
  mark_completed-Follows = step-Follows mark_completed (λ w. completed w)
