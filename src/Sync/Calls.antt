-- ===== src/Sync/Calls.antt =====
-- What calls that succeed do to what is read.
use flow_go.Prelude.{
  String, ◌≡◌, refl, sym, ap, ◌∙◌, false, All, List, [], ◌∷◌, Option, none, some, string_eq,
  Bool-cases, Option-cases, inl, inr,
}
use flow_go.Sync.Search.{
  Place, Document, Script, Request, update_document, place_of, Answer, Elastic, Healthy, error_of,
  call, call_all, and_then,
}
use flow_go.Sync.Effects.{
  Cell, look, apply, same_place, effect, effects, apply-or_earlier, look-run_script, same_place-eq,
  same_place-other, Keeps, same_place_refl, effect-elsewhere,
}

no_refusal :
    (q : Place) (script : Script) (answer : Answer)
    → answer ≡ Answer.not_found
    → error_of (update_document q script) answer ≡ none
    → ⊥
unfolding error_of
no_refusal q script Answer.accepted a b = cc a
no_refusal q script Answer.not_found a b = cc b
no_refusal q script (Answer.refused status) a b = cc a
no_refusal q script (Answer.unreachable error) a b = cc a

module _ (es : Elastic) (healthy : Healthy es) where
  -- A script that runs finds its document.
  pub update-finds :
      (q : Place) (script : Script) (s : es.Store)
      → (call es (update_document q script) s).0 ≡ none
      → (doc : Document) × (es.read q s ≡ some doc)
  unfolding call error_of
  update-finds q script s ok = elim (Option-cases (es.read q s)) [
    | inl e ↦ absurd (no_refusal q script _ (healthy.update_missing q script s e) ok)
    | inr found ↦ found
  ]

  call-elsewhere :
      (r : Request) (p : Place) (c : Cell) (s : es.Store)
      → same_place p (place_of r) ≡ false
      → look c (es.read p (call es r s).1) ≡ look c (es.read p s)
  unfolding call
  call-elsewhere r p c s h =
      ap (look c) (healthy.others_stay r p s (same_place-other p (place_of r) h))

  call-here :
      (r : Request) (c : Cell) (s : es.Store)
      → Keeps r
      → (call es r s).0 ≡ none
      → look c (es.read (place_of r) (call es r s).1)
        ≡ apply (effect r (place_of r) c) (look c (es.read (place_of r) s))
  unfolding call
  call-here (Request.index_document q doc) c s keeps ok =
      ap (look c) (healthy.index_accepted q doc s).1 ∙ (rw (same_place_refl q) refl)
  call-here (Request.update_document q script) c s keeps ok =
      let (doc, found) = update-finds q script s ok in
      ap (look c) (healthy.update_accepted q script doc s found).1
      ∙ look-run_script script c doc
      ∙ (rw (same_place_refl q, found) refl)
  call-here (Request.delete_document q) c s keeps ok = absurd keeps

  pub call-look :
      (r : Request) (p : Place) (c : Cell) (s : es.Store)
      → Keeps r
      → (call es r s).0 ≡ none
      → look c (es.read p (call es r s).1) ≡ apply (effect r p c) (look c (es.read p s))
  call-look r p c s keeps ok = elim (Bool-cases (same_place p (place_of r))) [
    | inl e ↦ rw (same_place-eq p (place_of r) e) (call-here r c s keeps ok)
    | inr e ↦
        call-elsewhere r p c s e
        ∙ ap (λ x. apply x (look c (es.read p s))) (sym (effect-elsewhere r p c e))
  ]

  pub then-ok :
      (r : Request) (rs : List Request) (s : es.Store)
      → (call_all es (r ∷ rs) s).0 ≡ none
      → ((call es r s).0 ≡ none) × (call_all es (r ∷ rs) s ≡ call_all es rs (call es r s).1)
  unfolding call_all
  then-ok r rs s ok = split_answer (call es r s) ok
    where
      split_answer :
          (a : Option String × es.Store)
          → (and_then es a (call_all es rs)).0 ≡ none
          → (a.0 ≡ none) × (and_then es a (call_all es rs) ≡ call_all es rs a.1)
      split_answer (none, t) h = (refl, refl)
      split_answer (some e, t) h = (h, cc h)

  -- After calls that all succeed, a cell holds what the last of them that determines it says.
  pub call_all-look :
      (rs : List Request) (p : Place) (c : Cell) (s : es.Store)
      → All Keeps rs
      → (call_all es rs s).0 ≡ none
      → look c (es.read p (call_all es rs s).1) ≡ apply (effects rs p c) (look c (es.read p s))
  unfolding effects call_all
  call_all-look [] p c s keeps ok = refl
  call_all-look (r ∷ rs) p c s (k, ks) ok =
      let (first, rest) = then-ok r rs s ok in
      rw rest (
        call_all-look rs p c (call es r s).1 ks (ap (λ a. a.0) (sym rest) ∙ ok)
        ∙ ap (apply (effects rs p c)) (call-look r p c s k first)
        ∙ sym (apply-or_earlier (effects rs p c) (effect r p c) (look c (es.read p s))))
