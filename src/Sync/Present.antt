-- ===== src/Sync/Present.antt =====
-- Documents that are there: no event takes one away, so what was written once can be written again.
use flow_go.Prelude.{
  String, ◌≡◌, refl, subst, sym, ap, ◌∙◌, List, [], ◌∷◌, All, Option, none, some, Bool-cases, inl,
  inr,
}
use flow_go.Sync.Calls.{update-finds, then-ok}
use flow_go.Sync.Effects.{same_place, same_place-eq, same_place-other, Keeps}
use flow_go.Sync.Search.{
  Place, Document, Request, place_of, Elastic, Healthy, run_script, error_of, call, call_all,
  and_then,
}

module _ (es : Elastic) where
  abbrev pub Present : Place → es.Store → Type 0
  Present p s = (doc : Document) × (es.read p s ≡ some doc)

module _ (es : Elastic) (healthy : Healthy es) where
  call-own :
      (r : Request) (s : es.Store)
      → Keeps r
      → (call es r s).0 ≡ none
      → Present es (place_of r) (call es r s).1
  unfolding call
  call-own (Request.index_document q doc) s keeps ok = (doc, (healthy.index_accepted q doc s).1)
  call-own (Request.update_document q script) s keeps ok =
      let (doc, found) = update-finds es healthy q script s ok in
      (run_script script doc, (healthy.update_accepted q script doc s found).1)
  call-own (Request.delete_document q) s keeps ok = absurd keeps

  call-Present :
      (r : Request) (p : Place) (s : es.Store)
      → Keeps r
      → (call es r s).0 ≡ none
      → Present es p s
      → Present es p (call es r s).1
  unfolding call
  call-Present r p s keeps ok (doc, found) = elim (Bool-cases (same_place p (place_of r))) [
    | inl e ↦ rw (same_place-eq p (place_of r) e) (call-own r s keeps ok)
    | inr e ↦ (doc, (healthy.others_stay r p s (same_place-other p (place_of r) e) ∙ found))
  ]

  call_all-Present :
      (rs : List Request) (p : Place) (s : es.Store)
      → All Keeps rs
      → (call_all es rs s).0 ≡ none
      → Present es p s
      → Present es p (call_all es rs s).1
  unfolding call_all
  call_all-Present [] p s keeps ok h = h
  call_all-Present (r ∷ rs) p s (k, ks) ok h =
      let (first, rest) = then-ok es healthy r rs s ok in
      rw rest (
        call_all-Present rs p (call es r s).1 ks (ap (λ a. a.0) (sym rest) ∙ ok)
          (call-Present r p s k first h))

  -- After calls that all succeed, every document that they wrote is there.
  pub call_all-leaves :
      (rs : List Request) (s : es.Store)
      → All Keeps rs
      → (call_all es rs s).0 ≡ none
      → All (λ r. Present es (place_of r) (call_all es rs s).1) rs
  unfolding call_all
  call_all-leaves [] s keeps ok = tt
  call_all-leaves (r ∷ rs) s (k, ks) ok =
      let (first, rest) = then-ok es healthy r rs s ok in
      let ok' = ap (λ a. a.0) (sym rest) ∙ ok in
      subst (λ a. All (λ x. Present es (place_of x) a.1) (r ∷ rs)) (sym rest)
        (
          call_all-Present rs (place_of r) (call es r s).1 ks ok' (call-own r s k first),
          call_all-leaves rs (call es r s).1 ks ok',
        )

  call-succeeds :
      (r : Request) (s : es.Store) → Keeps r → Present es (place_of r) s → (call es r s).0 ≡ none
  unfolding call error_of
  call-succeeds (Request.index_document q doc) s keeps h =
      rw (healthy.index_accepted q doc s).0 refl
  call-succeeds (Request.update_document q script) s keeps (doc, found) =
      rw (healthy.update_accepted q script doc s found).0 refl
  call-succeeds (Request.delete_document q) s keeps h = absurd keeps

  call-All-Present :
      (r : Request) (rs : List Request) (s : es.Store)
      → Keeps r
      → (call es r s).0 ≡ none
      → All (λ x. Present es (place_of x) s) rs
      → All (λ x. Present es (place_of x) (call es r s).1) rs
  call-All-Present r [] s keeps ok h = tt
  call-All-Present r (x ∷ xs) s keeps ok (h, hs) =
      (call-Present r (place_of x) s keeps ok h, call-All-Present r xs s keeps ok hs)

  -- Calls on documents that are all there succeed.
  pub call_all-succeeds :
      (rs : List Request) (s : es.Store)
      → All Keeps rs
      → All (λ r. Present es (place_of r) s) rs
      → (call_all es rs s).0 ≡ none
  unfolding call_all
  call_all-succeeds [] s keeps h = refl
  call_all-succeeds (r ∷ rs) s (k, ks) (h, hs) =
      let ok = call-succeeds r s k h in
      and_then-ok (call es r s) ok
        (call_all-succeeds rs (call es r s).1 ks (call-All-Present r rs s k ok hs))
    where
      and_then-ok :
          (a : Option String × es.Store)
          → a.0 ≡ none
          → (call_all es rs a.1).0 ≡ none
          → (and_then es a (call_all es rs)).0 ≡ none
      and_then-ok (none, t) e h = h
      and_then-ok (some x, t) e h = cc e
