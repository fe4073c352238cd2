-- ===== src/Sync/Effects.antt =====
-- What a sequence of calls does to what is read: every call that succeeds determines some cells of
-- the documents, or leaves them alone.
use flow_go.Prelude.{
  String, ◌≡◌, ◌≢◌, refl, sym, ap, ◌∙◌, Bool, true, false, ◌&&◌, List, [], ◌∷◌, ◌++◌, Option, none,
  some, arith, ◌==◌, string_eq, if◌then◌else◌, eq_iff, beq_refl,
}
use flow_go.Prelude.Assoc.{lookup, insert, remove}
use flow_go.Model.Value.{Value, Variables}
use flow_go.Sync.Search.{
  Place, Document, Script, Request, place_of, insert_all, context_or_new, run_script, removed_from,
}

-- What can be read in a document: a field, or a variable of the context.
pub data Cell : Type 0 where
  field : String → Cell
  variable : String → Cell

abbrev context_of : Option Variables → String → Option Value
context_of none name = none
context_of (some context) name = lookup name context

abbrev pub look : Cell → Option Document → Option Value
look c none = none
look (field name) (some doc) = lookup name doc.fields
look (variable name) (some doc) = context_of doc.context name

-- The value that a cell is left with, if it is determined.
abbrev pub Effect : Type 0
Effect = Option (Option Value)

abbrev pub apply : Effect → Option Value → Option Value
apply none old = old
apply (some new) old = new

abbrev pub or_earlier : Effect → Effect → Effect
or_earlier none earlier = earlier
or_earlier (some v) earlier = some v

unfoldable pub assigned : String → Variables → Effect
assigned name [] = none
assigned name (v ∷ vs) =
    or_earlier (assigned name vs) (if v.0 == name then some (some v.1) else none)

abbrev pub written : Script → Cell → Effect
written (Script.set_fields vs) (field name) = assigned name vs
written (Script.put_context name value) (variable other) =
    if name == other then some (some value) else none
written (Script.remove_context name) (variable other) = if name == other then some none else none
written _ _ = none

abbrev pub same_place : Place → Place → Bool
same_place p q = p.table == q.table && p.id == q.id

abbrev pub effect : Request → Place → Cell → Effect
effect (Request.index_document q doc) p c =
    if same_place p q then some (look c (some doc)) else none
effect (Request.update_document q script) p c = if same_place p q then written script c else none
effect (Request.delete_document q) p c = if same_place p q then some none else none

unfoldable pub effects : List Request → Place → Cell → Effect
effects [] p c = none
effects (r ∷ rs) p c = or_earlier (effects rs p c) (effect r p c)

lookup-insert :
    (name : String) (v : String × Value) (vs : Variables)
    → lookup name (insert v.0 v.1 vs)
      ≡ apply (if v.0 == name then some (some v.1) else none) (lookup name vs)
unfolding lookup insert
lookup-insert name v [] = ground arith
lookup-insert name v (x ∷ xs) =
    ground (arith, lookup-insert name v xs, eq_iff x.0 v.0, eq_iff x.0 name, eq_iff v.0 name)

pub apply-or_earlier :
    (a b : Effect) (old : Option Value) → apply (or_earlier a b) old ≡ apply a (apply b old)
apply-or_earlier none b old = refl
apply-or_earlier (some v) b old = refl

or_earlier_assoc : (a b c : Effect) → or_earlier (or_earlier a b) c ≡ or_earlier a (or_earlier b c)
or_earlier_assoc none b c = refl
or_earlier_assoc (some v) b c = refl

or_earlier-none : (a : Effect) → or_earlier a none ≡ a
or_earlier-none none = refl
or_earlier-none (some v) = refl

lookup-insert_all :
    (name : String) (vs fields : Variables)
    → lookup name (insert_all vs fields) ≡ apply (assigned name vs) (lookup name fields)
unfolding insert_all assigned
lookup-insert_all name [] fields = refl
lookup-insert_all name (v ∷ vs) fields =
    lookup-insert_all name vs (insert v.0 v.1 fields)
    ∙ ap (apply (assigned name vs)) (lookup-insert name v fields)
    ∙ sym (apply-or_earlier (assigned name vs) _ (lookup name fields))

pub effects-append :
    (rs ts : List Request) (p : Place) (c : Cell)
    → effects (rs ++ ts) p c ≡ or_earlier (effects ts p c) (effects rs p c)
unfolding effects
effects-append [] ts p c = sym (or_earlier-none (effects ts p c))
effects-append (r ∷ rs) ts p c =
    ap (λ e. or_earlier e (effect r p c)) (effects-append rs ts p c)
    ∙ or_earlier_assoc (effects ts p c) (effects rs p c) (effect r p c)

lookup-removed :
    (name other : String) (vs : Variables)
    → lookup other (remove name vs)
      ≡ apply (if name == other then some none else none) (lookup other vs)
unfolding lookup remove
lookup-removed name other [] = ground arith
lookup-removed name other (x ∷ xs) =
    ground
      (arith, lookup-removed name other xs, eq_iff x.0 name, eq_iff x.0 other, eq_iff name other)

lookup-context :
    (name : String) (context : Option Variables)
    → lookup name (context_or_new context) ≡ context_of context name
unfolding lookup
lookup-context name none = refl
lookup-context name (some context) = refl

look-removed :
    (name other : String) (doc : Document)
    → look (variable other) (some (run_script (Script.remove_context name) doc))
      ≡ apply (if name == other then some none else none) (look (variable other) (some doc))
unfolding run_script
look-removed name other doc =
    elim doc.context
      as (λ context.
        context_of (removed_from name context) other
        ≡ apply (if name == other then some none else none) (context_of context other)) [
          | none ↦ ground arith
          | some vs ↦ lookup-removed name other vs
        ]

pub look-run_script :
    (script : Script) (c : Cell) (doc : Document)
    → look c (some (run_script script doc)) ≡ apply (written script c) (look c (some doc))
unfolding run_script
look-run_script (Script.set_fields vs) (field name) doc = lookup-insert_all name vs doc.fields
look-run_script (Script.set_fields vs) (variable name) doc = refl
look-run_script (Script.put_context name value) (field other) doc = refl
look-run_script (Script.put_context name value) (variable other) doc =
    lookup-insert other (name, value) (context_or_new doc.context)
    ∙ ap (apply (if name == other then some (some value) else none))
        (lookup-context other doc.context)
look-run_script (Script.remove_context name) (field other) doc = refl
look-run_script (Script.remove_context name) (variable other) doc = look-removed name other doc

pub same_place-eq : (p q : Place) → same_place p q ≡ true → p ≡ q
same_place-eq p q h = ground (arith, eq_iff p.table q.table, eq_iff p.id q.id)

pub same_place-other : (p q : Place) → same_place p q ≡ false → p ≢ q
same_place-other p q h e = ground (arith, eq_iff p.table q.table, eq_iff p.id q.id)

-- A request that takes no document away.
abbrev pub Keeps : Request → Type 0
Keeps (Request.delete_document p) = ⊥
Keeps r = Unit

pub same_place_refl : (p : Place) → same_place p p ≡ true
same_place_refl p = rw (beq_refl p.table, beq_refl p.id) refl

pub effect-elsewhere :
    (r : Request) (p : Place) (c : Cell) → same_place p (place_of r) ≡ false → effect r p c ≡ none
effect-elsewhere (Request.index_document q doc) p c h = rw h refl
effect-elsewhere (Request.update_document q script) p c h = rw h refl
effect-elsewhere (Request.delete_document q) p c h = rw h refl
