-- ===== src/Sync/Skipping.antt =====
-- Messages that the consumer leaves uncommitted (consumeLoop of kafka_consumer.go).
use flow_go.Prelude.{
  ℕ, suc, ◌<◌, ◌≤◌, String, ◌≡◌, ◌≢◌, refl, ◌∙◌, Bool, true, false, ◌&&◌, ◌||◌, List, [], ◌∷◌, All,
  Option, none, some, arith, Bool-cases, inl, inr, if◌then◌else◌,
}
use flow_go.Sync.Consumer.{
  Payload, no_value, typed, captured, bad_json, KafkaMessage, Answers, Consumer, process_with_retry,
  commit, finish_message, consume_payload, consume, consume_loop,
}
use flow_go.Sync.Search.{Elastic}
use flow_go.Sync.Service.{SyncEnv}

abbrev pub settles : Answers → Option String → Bool
settles answers none = answers.commit_accepts
settles answers (some e) = answers.dlq_accepts && answers.commit_accepts

module _ (env : SyncEnv) (es : Elastic) (max_retries : ℕ) where
  abbrev pub error_at : KafkaMessage → Answers → Consumer env es → Option String
  error_at m answers c =
      (process_with_retry env es answers.clock m.payload max_retries 0 c.store).error

  abbrev commits_payload : Payload → KafkaMessage → Answers → Consumer env es → Bool
  commits_payload no_value m answers c = answers.commit_accepts
  commits_payload _ m answers c = settles answers (error_at m answers c)

  -- Whether a turn of the loop commits its message.
  abbrev pub commits : KafkaMessage → Answers → Consumer env es → Bool
  commits m answers c = commits_payload m.payload m answers c

  -- Whether one of the turns does.
  unfoldable pub commits_one : List (KafkaMessage × Answers) → Consumer env es → Bool
  commits_one [] c = false
  commits_one (m ∷ ms) c =
      commits m.0 m.1 c || commits_one ms (consume env es max_retries m.0 m.1 c)

  finish-committed :
      (answers : Answers) (offset : ℕ) (e : Option String) (c : Consumer env es)
      → (finish_message env es answers offset e c).committed
        ≡ (if settles answers e then suc offset else c.committed)
  unfolding finish_message commit
  finish-committed answers offset none c = ground arith
  finish-committed answers offset (some e) c = ground arith

  payload-committed :
      (m : KafkaMessage) (p : Payload) (answers : Answers) (c : Consumer env es)
      → m.payload ≡ p
      → (consume_payload env es max_retries m p answers c).committed
        ≡ (if commits_payload p m answers c then suc m.offset else c.committed)
  unfolding commit
  payload-committed m no_value answers c h = ground arith
  payload-committed m (typed incoming) answers c h =
      finish-committed answers m.offset (error_at m answers c) _
  payload-committed m (captured table row) answers c h =
      finish-committed answers m.offset (error_at m answers c) _
  payload-committed m (bad_json error) answers c h =
      finish-committed answers m.offset (error_at m answers c) _

  consume-committed :
      (m : KafkaMessage) (answers : Answers) (c : Consumer env es)
      → (consume env es max_retries m answers c).committed
        ≡ (if commits m answers c then suc m.offset else c.committed)
  unfolding consume
  consume-committed m answers c = payload-committed m m.payload answers c refl

  abbrev pub After : ℕ → KafkaMessage × Answers → Type 0
  After offset m = offset < m.0.offset

  consume_loop-above :
      (offset : ℕ) (ms : List (KafkaMessage × Answers)) (c : Consumer env es)
      → All (After offset) ms
      → offset < c.committed
      → offset < (consume_loop env es max_retries ms c).committed
  unfolding consume_loop
  consume_loop-above offset [] c after h = h
  consume_loop-above offset (m ∷ ms) c (a, after) h =
      consume_loop-above offset ms (consume env es max_retries m.0 m.1 c) after
        (ground (arith, consume-committed m.0 m.1 c))

  later_commits :
      (offset : ℕ) (ms : List (KafkaMessage × Answers)) (c : Consumer env es)
      → All (After offset) ms
      → c.committed ≤ offset
      → (commits_one ms c ≡ true → offset < (consume_loop env es max_retries ms c).committed)
        × (commits_one ms c ≡ false
            → (consume_loop env es max_retries ms c).committed ≡ c.committed)
  unfolding consume_loop commits_one
  later_commits offset [] c after h = ((λ e. cc e), (λ e. refl))
  later_commits offset (m ∷ ms) c (a, after) h = elim (Bool-cases (commits m.0 m.1 c)) [
    | inl e ↦ (
      (λ f.
          consume_loop-above offset ms (consume env es max_retries m.0 m.1 c) after
            (ground (arith, consume-committed m.0 m.1 c))),
      (λ f. cc (e, f)),
    )
    | inr e ↦
        let same = consume-committed m.0 m.1 c ∙ (rw e refl) in
        let (passed, stayed) =
          later_commits offset ms (consume env es max_retries m.0 m.1 c) after
            (ground (arith, same)) in
        ((λ f. passed (rw e at f)), (λ f. stayed (rw e at f) ∙ same))
  ]

  abandoned-commits :
      (p : Payload) (m : KafkaMessage) (answers : Answers) (c : Consumer env es) (e : String)
      → p ≢ no_value
      → error_at m answers c ≡ some e
      → answers.dlq_accepts ≡ false
      → commits_payload p m answers c ≡ false
  abandoned-commits no_value m answers c e h error refused = absurd (h refl)
  abandoned-commits (typed incoming) m answers c e h error refused = rw (error, refused) refl
  abandoned-commits (captured table row) m answers c e h error refused = rw (error, refused) refl
  abandoned-commits (bad_json text) m answers c e h error refused = rw (error, refused) refl

  -- Let a message with a value fail at every attempt, and let the dead letter queue not take it, so
  -- that it is left uncommitted, and let the messages after it have later offsets. If one of them
  -- is committed, then the group goes on behind the message, which is never delivered again;
  -- otherwise the committed offset stays where it was.
  pub consume_loop-skips :
      (m : KafkaMessage) (answers : Answers) (ms : List (KafkaMessage × Answers))
      (c : Consumer env es) (e : String)
      → m.payload ≢ no_value
      → error_at m answers c ≡ some e
      → answers.dlq_accepts ≡ false
      → All (After m.offset) ms
      → c.committed ≤ m.offset
      → (commits_one ms (consume env es max_retries m answers c) ≡ true
          → m.offset < (consume_loop env es max_retries ((m, answers) ∷ ms) c).committed)
        × (commits_one ms (consume env es max_retries m answers c) ≡ false
            → (consume_loop env es max_retries ((m, answers) ∷ ms) c).committed ≡ c.committed)
  unfolding consume_loop
  consume_loop-skips m answers ms c e value error refused after h =
      let left =
        consume-committed m answers c
        ∙ (rw (abandoned-commits m.payload m answers c e value error refused) refl) in
      let (passed, stayed) =
        later_commits m.offset ms (consume env es max_retries m answers c) after
          (ground (arith, left)) in
      (passed, (λ f. stayed f ∙ left))
