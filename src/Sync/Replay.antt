-- ===== src/Sync/Replay.antt =====
-- Delivering a part of the log again (`ProcessEvent` of service.go).
use flow_go.Prelude.{
  ℕ, String, ◌≡◌, ◌≢◌, refl, subst, sym, ap, ◌∙◌, List, [], ◌∷◌, ◌++◌, All, Option, none, some,
}
use flow_go.Model.Event.{Event}
use flow_go.Model.Value.{Value}
use flow_go.Sync.Deliveries.{
  Redelivery, first_times, second_times, calls_for, calls_for-Keeps, calls_for-append,
  calls_for-places, effects-again, All-drop,
}
use flow_go.Sync.Calls.{call_all-look}
use flow_go.Sync.Effects.{Cell, field, look, apply, effects, effects-append, or_earlier, Effect}
use flow_go.Sync.Present.{Present, call_all-leaves, call_all-succeeds}
use flow_go.Sync.Search.{Place, Request, place_of, Elastic, Healthy, call, call_all, and_then}
use flow_go.Sync.Service.{SyncEnv, requests_of, process_event, process_events}

module _ (env : SyncEnv) (es : Elastic) where
  and_then_assoc :
      (a : Option String × es.Store) (f g : es.Store → Option String × es.Store)
      → and_then es (and_then es a f) g ≡ and_then es a (λ s. and_then es (f s) g)
  and_then_assoc (none, s) f g = refl
  and_then_assoc (some e, s) f g = refl

  call_all-append :
      (rs ts : List Request) (s : es.Store)
      → call_all es (rs ++ ts) s ≡ and_then es (call_all es rs s) (call_all es ts)
  unfolding call_all
  call_all-append [] ts s = refl
  call_all-append (r ∷ rs) ts s =
      ap (and_then es (call es r s)) (λ i t. call_all-append rs ts t i)
      ∙ sym (and_then_assoc (call es r s) (call_all es rs) (call_all es ts))

  process_events-calls :
      (ds : List (ℕ × Event)) (s : es.Store)
      → process_events env es ds s ≡ call_all es (calls_for env ds) s
  unfolding process_events process_event calls_for call_all
  process_events-calls [] s = refl
  process_events-calls (d ∷ ds) s =
      ap (and_then es (call_all es (requests_of env d.0 d.1) s))
        (λ i t. process_events-calls ds t i)
      ∙ sym (call_all-append (requests_of env d.0 d.1) (calls_for env ds) s)

determined_twice :
    (a b : Effect) (old : Option Value)
    → apply a (apply (or_earlier a b) old) ≡ apply (or_earlier a b) old
determined_twice none b old = refl
determined_twice (some v) b old = refl

module _ (env : SyncEnv) (es : Elastic) (healthy : Healthy es) where
  -- The store after the log up to here, and after a part of it once more.
  abbrev pub delivered : List (ℕ × Event) → es.Store → es.Store
  delivered ds s = (process_events env es ds s).1

  pub delivered-look :
      (ds : List (ℕ × Event)) (p : Place) (c : Cell) (s : es.Store)
      → (process_events env es ds s).0 ≡ none
      → look c (es.read p (delivered ds s))
        ≡ apply (effects (calls_for env ds) p c) (look c (es.read p s))
  delivered-look ds p c s ok =
      let same = process_events-calls env es ds s in
      ap (λ a. look c (es.read p a.1)) same
      ∙ call_all-look es healthy (calls_for env ds) p c s (calls_for-Keeps env ds)
          (ap (λ a. a.0) (sym same) ∙ ok)

  -- The documents that the end of the log writes are there after it, so it can be processed again.
  again-succeeds :
      (ps : List (ℕ × Event)) (qs : List Redelivery) (s : es.Store)
      → (process_events env es (ps ++ first_times qs) s).0 ≡ none
      → (process_events env es (second_times qs) (delivered (ps ++ first_times qs) s)).0 ≡ none
  again-succeeds ps qs s ok =
      let ds = ps ++ first_times qs in
      let same = process_events-calls env es ds s in
      let t = delivered ds s in
      let P = λ (p : Place). Present es p t in
      let Q = λ (r : Request). P (place_of r) in
      let here =
        subst (λ a. All (λ r. Present es (place_of r) a.1) (calls_for env ds)) (sym same)
          (call_all-leaves es healthy (calls_for env ds) s (calls_for-Keeps env ds)
            (ap (λ a. a.0) (sym same) ∙ ok)) in
      let ends =
        All-drop Q (calls_for env ps) (calls_for env (first_times qs))
          (subst (All Q) (calls_for-append env ps (first_times qs)) here) in
      ap (λ a. a.0) (process_events-calls env es (second_times qs) t)
      ∙ call_all-succeeds es healthy (calls_for env (second_times qs)) t
          (calls_for-Keeps env (second_times qs)) (calls_for-places env P qs ends)

  -- Let a log be processed without an error by a store that answers every request. If its end is
  -- then delivered again, in order, as after a restart from an earlier offset, it is processed
  -- without an error again, whatever the clock shows now, and every document reads as before but
  -- for the field `updated_at`.
  pub process_events-replay :
      (ps : List (ℕ × Event)) (qs : List Redelivery) (s : es.Store)
      → (process_events env es (ps ++ first_times qs) s).0 ≡ none
      → ((process_events env es (second_times qs) (delivered (ps ++ first_times qs) s)).0 ≡ none)
        × ((p : Place) (c : Cell)
            → c ≢ field "updated_at"
            → look c (es.read p (delivered (second_times qs) (delivered (ps ++ first_times qs) s)))
              ≡ look c (es.read p (delivered (ps ++ first_times qs) s)))
  process_events-replay ps qs s ok =
      let ds = ps ++ first_times qs in
      let again = again-succeeds ps qs s ok in
      (
        again,
        (λ p c other.
            let late = effects (calls_for env (first_times qs)) p c in
            let early = effects (calls_for env ps) p c in
            let whole =
              delivered-look ds p c s ok
              ∙ ap (λ e. apply e (look c (es.read p s)))
                  (ap (λ rs. effects rs p c) (calls_for-append env ps (first_times qs))
                    ∙ effects-append (calls_for env ps) (calls_for env (first_times qs)) p c) in
            delivered-look (second_times qs) p c (delivered ds s) again
            ∙ ap (λ e. apply e (look c (es.read p (delivered ds s))))
                (sym (effects-again env qs p c other))
            ∙ ap (apply late) whole
            ∙ determined_twice late early (look c (es.read p s))
            ∙ sym whole),
      )
