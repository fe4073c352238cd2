-- ===== src/Jobs/Lock.antt =====
-- The lock that a worker holds on a job.
use flow_go.Prelude.{
  ℕ, ◌≤◌, String, ◌≡◌, ◌↔◌, refl, false, Option, none, some, arith, eq_iff, string_eq,
}
use flow_go.Prelude.Text.{is_empty}
use flow_go.Model.{Job}
use flow_go.Jobs.{ownership_error, lock_error}

-- What it takes to pass `ensureActiveLockOwnership`.
pub record OwnsLock (job : Job) (worker : String) (now : ℕ) : Type 0 where
  pub named : is_empty worker ≡ false
  pub same : job.worker ≡ worker
  pub until : ℕ
  pub locked : job.lock_expiration_time ≡ some until
  pub in_time : now ≤ until

lock_error-none :
    (lock : Option ℕ) (now : ℕ)
    → lock_error lock now ≡ none
    → (until : ℕ) × (lock ≡ some until) × (now ≤ until)
unfolding lock_error
lock_error-none none now h = cc
lock_error-none (some until) now h = (until, refl, ground arith)

-- The check passes exactly for the worker that the job names, while its lock lasts.
pub ownership_iff :
    (job : Job) (worker : String) (now : ℕ)
    → (ownership_error job worker now ≡ none) ↔ OwnsLock job worker now
unfolding ownership_error
ownership_iff job worker now = (forward, backward)
  where
    forward : ownership_error job worker now ≡ none → OwnsLock job worker now
    forward h =
        let passed : lock_error job.lock_expiration_time now ≡ none = ground arith in
        let (until, locked, in_time) = lock_error-none job.lock_expiration_time now passed in
        record {
          named = ground arith;
          same = ground (arith, eq_iff job.worker worker);
          until = until;
          locked = locked;
          in_time = in_time;
        }

    backward : OwnsLock job worker now → ownership_error job worker now ≡ none
    backward h = ground (arith, eq_iff job.worker worker)
