-- ===== src/Sync/Deliveries.antt =====
-- The calls that a part of the log leads to, and what they depend on the clock for (`ProcessEvent`
-- of service.go).
use mathlib.Core.List.{append_assoc}
use flow_go.Prelude.{
  ℕ, String, ◌≡◌, ◌≢◌, refl, sym, ap, ◌∙◌, true, false, List, [], ◌∷◌, ◌++◌, All, arith, ◌==◌,
  string_eq, Bool-cases, inl, inr, eq_iff,
}
use flow_go.Model.Event.{Event}
use flow_go.Sync.Effects.{Cell, field, variable, assigned, effects, effects-append, Keeps}
use flow_go.Sync.Search.{Place, Request, place_of}
use flow_go.Sync.Service.{SyncEnv, requests_of}

-- An event of the log that is delivered twice, with the clock at both times.
pub record Redelivery : Type 0 where
  pub what : Event
  pub first : ℕ
  pub again : ℕ

unfoldable pub first_times : List Redelivery → List (ℕ × Event)
first_times [] = []
first_times (d ∷ ds) = (d.first, d.what) ∷ first_times ds

unfoldable pub second_times : List Redelivery → List (ℕ × Event)
second_times [] = []
second_times (d ∷ ds) = (d.again, d.what) ∷ second_times ds

pub All-append :
    {A : Type 0} (P : A → Type 0) (xs ys : List A) → All P xs → All P ys → All P (xs ++ ys)
All-append P [] ys a b = b
All-append P (x ∷ xs) ys (p, a) b = (p, All-append P xs ys a b)

pub All-drop : {A : Type 0} (P : A → Type 0) (xs ys : List A) → All P (xs ++ ys) → All P ys
All-drop P [] ys a = a
All-drop P (x ∷ xs) ys (p, a) = All-drop P xs ys a

pub All-take : {A : Type 0} (P : A → Type 0) (xs ys : List A) → All P (xs ++ ys) → All P xs
All-take P [] ys a = tt
All-take P (x ∷ xs) ys (p, a) = (p, All-take P xs ys a)

other_name : (name : String) → field name ≢ field "updated_at" → ("updated_at" == name) ≡ false
other_name name other = elim (Bool-cases ("updated_at" == name)) [
  | inl e ↦ absurd (other (ap field (sym (named name e))))
  | inr e ↦ e
]
  where
    named : (name : String) → ("updated_at" == name) ≡ true → "updated_at" ≡ name
    named name e = ground (arith, eq_iff "updated_at" name)

module _ (env : SyncEnv) where
  requests_of-Keeps : (now : ℕ) (e : Event) → All Keeps (requests_of env now e)
  unfolding requests_of
  requests_of-Keeps now (Event.process_instance_created _ _ _ _ _ _) = (tt, tt)
  requests_of-Keeps now (Event.element_instance_activated _ _ _ _ _ _ _ _) = (tt, tt)
  requests_of-Keeps now (Event.variable_updated _ _ _ _ _) = (tt, (tt, tt))
  requests_of-Keeps now (Event.element_instance_completed _ _ _ _) = (tt, tt)
  requests_of-Keeps now (Event.process_instance_completed _ _ _) = (tt, tt)
  requests_of-Keeps now (Event.job_created _ _ _ _ _ _ _ _) = (tt, tt)
  requests_of-Keeps now (Event.job_activated _ _ _) = (tt, tt)
  requests_of-Keeps now (Event.job_completed _ _ _) = (tt, tt)
  requests_of-Keeps now (Event.job_failed _ _ _ _ _) = (tt, tt)

  -- The clock has no part in where an event is written.
  requests_of-places :
      (P : Place → Type 0) (now later : ℕ) (e : Event)
      → All (λ r. P (place_of r)) (requests_of env now e)
      → All (λ r. P (place_of r)) (requests_of env later e)
  unfolding requests_of
  requests_of-places P now later (Event.process_instance_created _ _ _ _ _ _) h = h
  requests_of-places P now later (Event.element_instance_activated _ _ _ _ _ _ _ _) h = h
  requests_of-places P now later (Event.variable_updated _ _ _ _ _) h = h
  requests_of-places P now later (Event.element_instance_completed _ _ _ _) h = h
  requests_of-places P now later (Event.process_instance_completed _ _ _) h = h
  requests_of-places P now later (Event.job_created _ _ _ _ _ _ _ _) h = h
  requests_of-places P now later (Event.job_activated _ _ _) h = h
  requests_of-places P now later (Event.job_completed _ _ _) h = h
  requests_of-places P now later (Event.job_failed _ _ _ _ _) h = h

  -- The clock only shows in the field `updated_at`.
  activated_at_any_time :
      (key until now later : ℕ) (worker : String) (p : Place) (c : Cell)
      → c ≢ field "updated_at"
      → effects (requests_of env now (Event.job_activated key worker until)) p c
        ≡ effects (requests_of env later (Event.job_activated key worker until)) p c
  unfolding requests_of effects assigned
  activated_at_any_time key until now later worker p (field name) other =
      rw (other_name name other) refl
  activated_at_any_time key until now later worker p (variable name) other = refl

  effects-any_time :
      (now later : ℕ) (e : Event) (p : Place) (c : Cell)
      → c ≢ field "updated_at"
      → effects (requests_of env now e) p c ≡ effects (requests_of env later e) p c
  unfolding requests_of
  effects-any_time now later (Event.process_instance_created _ _ _ _ _ _) p c other = refl
  effects-any_time now later (Event.element_instance_activated _ _ _ _ _ _ _ _) p c other = refl
  effects-any_time now later (Event.variable_updated _ _ _ _ _) p c other = refl
  effects-any_time now later (Event.element_instance_completed _ _ _ _) p c other = refl
  effects-any_time now later (Event.process_instance_completed _ _ _) p c other = refl
  effects-any_time now later (Event.job_created _ _ _ _ _ _ _ _) p c other = refl
  effects-any_time now later (Event.job_activated key worker until) p c other =
      activated_at_any_time key until now later worker p c other
  effects-any_time now later (Event.job_completed _ _ _) p c other = refl
  effects-any_time now later (Event.job_failed _ _ _ _ _) p c other = refl

  -- The calls for a part of the log.
  unfoldable pub calls_for : List (ℕ × Event) → List Request
  calls_for [] = []
  calls_for (d ∷ ds) = requests_of env d.0 d.1 ++ calls_for ds

  pub calls_for-Keeps : (ds : List (ℕ × Event)) → All Keeps (calls_for ds)
  unfolding calls_for
  calls_for-Keeps [] = tt
  calls_for-Keeps (d ∷ ds) =
      All-append Keeps (requests_of env d.0 d.1) (calls_for ds) (requests_of-Keeps d.0 d.1)
        (calls_for-Keeps ds)

  pub calls_for-append :
      (ds es : List (ℕ × Event)) → calls_for (ds ++ es) ≡ calls_for ds ++ calls_for es
  unfolding calls_for
  calls_for-append [] es = refl
  calls_for-append (d ∷ ds) es =
      ap (λ rs. requests_of env d.0 d.1 ++ rs) (calls_for-append ds es)
      ∙ sym (append_assoc (requests_of env d.0 d.1) (calls_for ds) (calls_for es))

  pub calls_for-places :
      (P : Place → Type 0) (qs : List Redelivery)
      → All (λ r. P (place_of r)) (calls_for (first_times qs))
      → All (λ r. P (place_of r)) (calls_for (second_times qs))
  unfolding calls_for first_times second_times
  calls_for-places P [] h = tt
  calls_for-places P (q ∷ qs) h =
      let Q = λ (r : Request). P (place_of r) in
      All-append Q (requests_of env q.again q.what) (calls_for (second_times qs))
        (requests_of-places P q.first q.again q.what
          (All-take Q (requests_of env q.first q.what) (calls_for (first_times qs)) h))
        (calls_for-places P qs
          (All-drop Q (requests_of env q.first q.what) (calls_for (first_times qs)) h))

  pub effects-again :
      (qs : List Redelivery) (p : Place) (c : Cell)
      → c ≢ field "updated_at"
      → effects (calls_for (first_times qs)) p c ≡ effects (calls_for (second_times qs)) p c
  unfolding calls_for first_times second_times
  effects-again [] p c other = refl
  effects-again (q ∷ qs) p c other =
      effects-append (requests_of env q.first q.what) (calls_for (first_times qs)) p c
      ∙ rw (effects-any_time q.first q.again q.what p c other, effects-again qs p c other) refl
      ∙ sym (effects-append (requests_of env q.again q.what) (calls_for (second_times qs)) p c)
