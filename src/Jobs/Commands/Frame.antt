-- ===== src/Jobs/Commands/Frame.antt =====
-- The rows that the commands of jobs.go about one job leave alone.
use flow_go.Prelude.{
  ℕ, String, ◌≡◌, true, false, List, Option, none, some, arith, ◌==◌, nat_eq, ◌⊎◌, inl, inr,
  Bool-cases, ◌∙◌,
}
use flow_go.Prelude.Int.{pos, leb_ℤ}
use flow_go.Model.{Job, is_completed}
use flow_go.Repository.Jobs.{get_job, key-get_job}
use flow_go.Engine.Tx.{Tx, ok, Session, bind_ok, ◌>>=◌}
use flow_go.Jobs.{
  complete_found, extend_found, fail_found, read_job, retry_found, complete_job, fail_job,
  extend_job_lock, retry_job,
}
use flow_go.Jobs.Commands.{
  Command, complete, fail, extend_lock, retry, run, target, IsProtected, fail_found-other,
  extend_found-other, retry_found-other, fail_found-IsProtected, extend_found-IsProtected,
  retry_found-IsProtected, complete_found-IsProtected,
}
use flow_go.Jobs.Completion.{read_job_ok, complete_found_ok}
use flow_go.Jobs.Interface.{Navigation}

-- What a command leaves of a row: every write of its own leaves it, and what follows them, if
-- anything, is that a completion hands its session to the navigation engine, with the instance and
-- the element of the job it has completed, which is another one.
pub data Left (nav : Navigation) (key k : ℕ) (row : Job) (s s' : Session) : Type 0 where
  own_writes : (there : get_job k s'.db.jobs ≡ some row) → Left nav key k row s s'
  handed_over :
      (job : Job) (before : Session) (read : get_job key s.db.jobs ≡ some job)
      (differs : (key == k) ≡ false) (there : get_job k before.db.jobs ≡ some row)
      (moves_on : nav.complete_execution job.process_instance_key job.element_instance_key before
        ≡ ok (tt, s'))
      → Left nav key k row s s'

complete_found-other :
    (nav : Navigation) (key k : ℕ) (job row : Job) (worker : String)
    (variables : List (String × nav.Value)) (now : ℕ) (s s' : Session)
    → get_job key s.db.jobs ≡ some job
    → (key == k) ≡ false
    → get_job k s.db.jobs ≡ some row
    → complete_found nav job worker variables now s ≡ ok (tt, s')
    → Left nav key k row s s'
unfolding complete_found
complete_found-other nav key k job row worker variables now s s' read other there e =
    elim (Bool-cases (is_completed job.state)) [
      | inl done ↦ own_writes (ground arith)
      | inr open_ ↦
          let c = complete_found_ok nav worker variables now key job s s' read open_ e in
          handed_over job c.handed_over read other (c.others k (λ same. ground arith) ∙ there)
            c.moves_on
    ]

-- Whom a command comes from, if it says so.
unfoldable pub sender : {V : Type 0} → Command V → Option String
sender (complete key worker variables) = some worker
sender (fail incident_key key worker message retries) = some worker
sender (extend_lock key worker lock_duration) = some worker
sender (retry key retries) = none

-- What keeps a command from a row: it is about another job, or the row is protected.
abbrev pub Spares : {V : Type 0} → ℕ → Command V → ℕ → Job → Type 0
Spares now c k row = ((target c == k) ≡ false) ⊎ IsProtected now (sender c) row

-- A command reads its job and goes on: if it is another job then `other` applies, and otherwise
-- `same`.
through :
    (nav : Navigation) (key k : ℕ) (row : Job) (found : Job → Tx (Unit {0})) (s s' : Session)
    → get_job k s.db.jobs ≡ some row
    → ((job : Job)
        → get_job key s.db.jobs ≡ some job
        → (key == k) ≡ false
        → (job.key == k) ≡ false
        → found job s ≡ ok (tt, s')
        → Left nav key k row s s')
    → ((key == k) ≡ true → found row s ≡ ok (tt, s') → s' ≡ s)
    → (read_job key >>= found) s ≡ ok (tt, s')
    → Left nav key k row s s'
through nav key k row found s s' there other same e =
    let (job, s₁, read, e₁) = bind_ok (read_job key) found s e in
    let (it, unchanged) = read_job_ok key s s₁ job read in
    let keyed = key-get_job key s.db.jobs job it in
    let e₂ : found job s ≡ ok (tt, s') = rw unchanged at e₁ in
    elim (Bool-cases (key == k)) [
      | inr differs ↦ other job it differs (rw keyed differs) e₂
      | inl agrees ↦
          let key_is : key ≡ k = ground arith in
          let job_is : job ≡ row = cc (key_is, it, there) in
          own_writes (rw (same agrees (rw job_is at e₂)) there)
    ]

protected :
    {V : Type 0} (now : ℕ) (c : Command V) (k : ℕ) (row : Job)
    → Spares now c k row
    → (target c == k) ≡ true
    → IsProtected now (sender c) row
protected now c k row (inl other) same = cc (other, same)
protected now c k row (inr p) same = p

-- A command that succeeds leaves a row exactly as it is if it is about another job, if the row is
-- completed, or if the row is activated, its lock is not over, and the command comes from another
-- worker than the one that holds it or is a retry. The one exception is a completion of another
-- job: the row is as it was in the session that it hands to the navigation engine to move on the
-- completed job's execution, and what the engine does from there is not claimed here.
pub run-Spares :
    (nav : Navigation) (now : ℕ) (c : Command nav.Value) (k : ℕ) (row : Job) (s s' : Session)
    → get_job k s.db.jobs ≡ some row
    → Spares now c k row
    → run nav now c s ≡ ok (tt, s')
    → Left nav (target c) k row s s'
unfolding run complete_job fail_job extend_job_lock retry_job target sender
run-Spares nav now (complete key worker variables) k row s s' there p e =
    through nav key k row (λ job. complete_found nav job worker variables now) s s' there
      (λ job read differs other e'.
        complete_found-other nav key k job row worker variables now s s' read differs there e')
      (λ same e'.
        complete_found-IsProtected now row s s' nav worker variables
          (protected {V = nav.Value} now (complete key worker variables) k row p same) e')
      e
run-Spares nav now (fail incident_key key worker message retries) k row s s' there p e =
    through nav key k row (λ job. fail_found incident_key job worker message retries now) s s' there
      (λ job read differs other e'.
        own_writes (
          cc (fail_found-other incident_key k job worker message retries now s s' other e', there)))
      (λ same e'.
        fail_found-IsProtected now row s s' incident_key worker message retries
          (protected {V = nav.Value} now (fail incident_key key worker message retries) k row p
            same)
          e')
      e
run-Spares nav now (extend_lock key worker d) k row s s' there p e =
    elim (Bool-cases (leb_ℤ d (pos 0))) [
      | inl bad ↦ cc (rw bad at e)
      | inr good ↦
          through nav key k row (λ job. extend_found job worker d now) s s' there
            (λ job read differs other e'.
              own_writes (cc (extend_found-other k job worker d now s s' other e', there)))
            (λ same e'.
              extend_found-IsProtected now row s s' worker d
                (protected {V = nav.Value} now (extend_lock key worker d) k row p same) e')
            (rw good at e)
    ]
run-Spares nav now (retry key retries) k row s s' there p e =
    through nav key k row (λ job. retry_found job retries now) s s' there
      (λ job read differs other e'.
        own_writes (cc (retry_found-other k job retries now s s' other e', there)))
      (λ same e'.
        retry_found-IsProtected now row s s' retries
          (protected {V = nav.Value} now (retry key retries) k row p same) e')
      e
