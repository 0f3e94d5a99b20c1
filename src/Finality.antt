-- ===== src/Finality.antt =====
-- A document's stored status under the writes of documentai-api/src/documentai_api/utils/ddb.py,
-- classifiers/document_classification.py and jobs/document_reaper/main.py: which actions keep it.
pub mod Stays
pub mod Batches
use strata_documentai_api_en.Prelude.{
  refl, ap, ◌∙◌, sym, subst, String, ◌≡◌, ◌⊎◌, inl, inr, Bool, true, false, Option, none, some,
  List, [], ◌∷◌, lookup, insert, lookup-insert, lookup-insert_ne, str_eq, Bool-cases, Option-cases,
}
use text.Mathlib.TextEquality.{eq_iff}
use strata_documentai_api_en.Status.{ProcessStatus, is_classified}
use strata_documentai_api_en.Document.{Document}
use strata_documentai_api_en.Store.{update_document, document_or_empty}
use strata_documentai_api_en.Store.State.{World, Env}
use strata_documentai_api_en.Store.Actions.{conditional_check_failed, raised, returned}
use strata_documentai_api_en.Store.Keeps.{Keeps, Keeps-bind, Keeps-then, Keeps-when}

-- The item under `key` has the status `s`.
pub record StatusAt (key : String) (s : ProcessStatus) (w : World) : Type 0 where
  pub item : Document
  pub found : lookup key w.documents ≡ some item
  pub has_status : item.process_status ≡ some s

-- An update that, on an item of status `s`, either fails its condition or keeps the status.
abbrev pub IsHarmless : ProcessStatus → (Document → Document) → (Document → Bool) → Type 0
IsHarmless s f c =
    (d : Document) → d.process_status ≡ some s → (c d ≡ false) ⊎ ((f d).process_status ≡ some s)

module _ (key : String) (f : Document → Document) (c : Document → Bool) (w : World) where
  pub update_accepted :
      c (document_or_empty (lookup key w.documents)) ≡ true
      → update_document key f c w ≡ (
        returned tt,
        record w {
          documents = insert key (f (document_or_empty (lookup key w.documents))) w.documents;
        },
      )
  unfolding update_document
  update_accepted h = rw h

  pub update_refused :
      c (document_or_empty (lookup key w.documents)) ≡ false
      → update_document key f c w ≡ (raised conditional_check_failed, w)
  unfolding update_document
  update_refused h = rw h

module _ (key : String) (s : ProcessStatus) where
  -- The status of an item after the item under another key, or the same one, is replaced.
  pub StatusAt-insert :
      (j : String) (d : Document) (w : World)
      → (j ≡ key → d.process_status ≡ some s)
      → StatusAt key s w
      → StatusAt key s (record w { documents = insert j d w.documents })
  StatusAt-insert j d w h p = elim (Bool-cases (str_eq j key)) [
    | inl e ↦ record {
      item = d;
      found = lookup-insert j key d w.documents ∙ rw e;
      has_status = h ((eq_iff j key).0 e);
    }
    | inr n ↦ record {
      item = p.item;
      found = lookup-insert j key d w.documents ∙ rw n p.found;
      has_status = p.has_status;
    }
  ]

  found_at :
      (j : String) (w : World) (p : StatusAt key s w)
      → j ≡ key
      → document_or_empty (lookup j w.documents) ≡ p.item
  found_at j w p e =
      ap (λ k. document_or_empty (lookup k w.documents)) e ∙ ap document_or_empty p.found

  accepted_status :
      (f : Document → Document) (c : Document → Bool) (j : String) (w : World)
      (p : StatusAt key s w)
      → IsHarmless s f c
      → c (document_or_empty (lookup j w.documents)) ≡ true
      → j ≡ key
      → (f (document_or_empty (lookup j w.documents))).process_status ≡ some s
  accepted_status f c j w p h y e =
      let at = found_at j w p e in
      elim (h p.item p.has_status) [
        | inl n ↦ cc (ap c at, y, n)
        | inr k ↦ ap (λ d. (f d).process_status) at ∙ k
      ]

  pub Keeps-update :
      (j : String) (f : Document → Document) (c : Document → Bool)
      → IsHarmless s f c
      → Keeps (StatusAt key s) (update_document j f c)
  Keeps-update j f c h w p = elim (Bool-cases (c (document_or_empty (lookup j w.documents)))) [
    | inl y ↦
        subst (λ r. StatusAt key s r.1) (sym (update_accepted j f c w y))
          (StatusAt-insert j (f (document_or_empty (lookup j w.documents))) w
            (accepted_status f c j w p h y) p)
    | inr n ↦ subst (λ r. StatusAt key s r.1) (sym (update_refused j f c w n)) p
  ]
