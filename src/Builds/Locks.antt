-- ===== src/Builds/Locks.antt =====
-- The lock on a build that is submitted, and what the failure of a submission leaves of it.
use strata_documentai_api_en.Prelude.{
  ℕ, ◌≡◌, ◌≢◌, refl, ap, ◌∙◌, sym, subst, String, true, false, some, [], ◌∷◌, is_some, ◌==◌,
  lookup-insert_self, any_of, arith, Bool-cases, inl, inr, if_both, if◌then◌else◌,
}
use strata_documentai_api_en.Document.{BuildItem}
use strata_documentai_api_en.Store.State.{World}
use strata_documentai_api_en.Store.Actions.{returned, raised, http_error}
use strata_documentai_api_en.Builds.{
  Pages, page_at, put_at, items_of, with_items, update_page, item_or_empty, pages_or_none,
  is_stamped, is_locked, submitted_at_time, stamp_pages, mark_document_build_submitted,
  is_document_build_submitted,
}

page_at-put_at :
    (n m : ℕ) (i : BuildItem) (ps : Pages)
    → page_at m (put_at n i ps) ≡ (if n == m then some i else page_at m ps)
unfolding page_at put_at
page_at-put_at n m i [] = ground arith
page_at-put_at n m i ((l, j) ∷ ps) = let rest = page_at-put_at n m i ps in ground (arith, rest)

equal_self : (n : ℕ) → (n == n) ≡ true
equal_self n = ground arith

not_equal : (n m : ℕ) → n ≢ m → (n == m) ≡ false
not_equal n m h = ground (arith, h)

any_stamped :
    (m : ℕ) (ps : Pages) (i : BuildItem)
    → page_at m ps ≡ some i
    → is_some i.submitted_at ≡ true
    → any_of is_stamped ps ≡ true
unfolding page_at
any_stamped m [] i h t = cc
any_stamped m ((n, j) ∷ ps) i h t = elim (Bool-cases (is_some j.submitted_at)) [
  | inl y ↦ rw y
  | inr x ↦ elim (Bool-cases (n == m)) [
    | inl y ↦
        let same : some j ≡ some i = rw y at h in
        let times : is_some j.submitted_at ≡ is_some i.submitted_at =
          ap (λ o. is_some (item_or_empty o).submitted_at) same in
        cc (x, times, t)
    | inr z ↦ rw x (any_stamped m ps i (rw z at h) t)
  ]
]

module _ (build_id : String) where
  items_of-with_items : (ps : Pages) (w : World) → items_of build_id (with_items build_id ps w) ≡ ps
  items_of-with_items ps w = ap pages_or_none (lookup-insert_self build_id ps w.builds)

  -- The row of a page after the row of a page is updated.
  pub updated_self :
      (n : ℕ) (f : BuildItem → BuildItem) (w : World)
      → page_at n (items_of build_id (update_page build_id n f w))
        ≡ some (f (item_or_empty (page_at n (items_of build_id w))))
  updated_self n f w =
      let ps = items_of build_id w in
      let i = f (item_or_empty (page_at n ps)) in
      ap (page_at n) (items_of-with_items (put_at n i ps) w)
      ∙ page_at-put_at n n i ps
      ∙ rw (equal_self n) refl

  pub updated_other :
      (n m : ℕ) (f : BuildItem → BuildItem) (w : World)
      → n ≢ m
      → page_at m (items_of build_id (update_page build_id n f w)) ≡ page_at m (items_of build_id w)
  updated_other n m f w h =
      let ps = items_of build_id w in
      let i = f (item_or_empty (page_at n ps)) in
      ap (page_at m) (items_of-with_items (put_at n i ps) w)
      ∙ page_at-put_at n m i ps
      ∙ rw (not_equal n m h) refl

  -- The row of the page is there, and says that the build was submitted.
  pub record StampedAt (n : ℕ) (w : World) : Type 0 where
    pub item : BuildItem
    pub found : page_at n (items_of build_id w) ≡ some item
    pub has_time : is_some item.submitted_at ≡ true

  stamped_self :
      (n now : ℕ) (w : World) → StampedAt n (update_page build_id n (submitted_at_time now) w)
  stamped_self n now w = record {
    item = submitted_at_time now (item_or_empty (page_at n (items_of build_id w)));
    found = updated_self n (submitted_at_time now) w;
    has_time = refl;
  }

  stamped_after :
      (n m now : ℕ) (w : World)
      → StampedAt m w
      → StampedAt m (update_page build_id n (submitted_at_time now) w)
  stamped_after n m now w p = elim (Bool-cases (n == m)) [
    | inl y ↦
        let e : n ≡ m = ground (arith, y) in
        subst (λ k. StampedAt k (update_page build_id n (submitted_at_time now) w)) e
          (stamped_self n now w)
    | inr x ↦
        let d : n ≢ m = ground (arith, x) in
        record {
          item = p.item;
          found = updated_other n m (submitted_at_time now) w d ∙ p.found;
          has_time = p.has_time;
        }
  ]

  stamp-StampedAt :
      (now : ℕ) (ps : Pages) (m : ℕ) (w : World)
      → StampedAt m w
      → StampedAt m (stamp_pages build_id now ps w)
  unfolding stamp_pages
  stamp-StampedAt now [] m w p = p
  stamp-StampedAt now ((n, i) ∷ ps) m w p =
      if_both (StampedAt m) (n == 0) (stamp_pages build_id now ps w)
        (stamp_pages build_id now ps (update_page build_id n (submitted_at_time now) w))
        (stamp-StampedAt now ps m w p)
        (stamp-StampedAt now ps m (update_page build_id n (submitted_at_time now) w)
          (stamped_after n m now w p))

  listed-StampedAt :
      (now : ℕ) (ps : Pages) (m : ℕ) (i : BuildItem) (w : World)
      → m ≢ 0
      → page_at m ps ≡ some i
      → StampedAt m (stamp_pages build_id now ps w)
  unfolding stamp_pages page_at
  listed-StampedAt now [] m i w z h = cc
  listed-StampedAt now ((n, j) ∷ ps) m i w z h = elim (Bool-cases (n == m)) [
    | inl y ↦
        let e : n ≡ m = ground (arith, y) in
        rw (not_equal n 0 (λ x. z (sym e ∙ x))) (
          stamp-StampedAt now ps m (update_page build_id n (submitted_at_time now) w) (
            subst (λ k. StampedAt k (update_page build_id n (submitted_at_time now) w)) e
              (stamped_self n now w)))
    | inr x ↦
        let rest : page_at m ps ≡ some i = rw x at h in
        if_both (StampedAt m) (n == 0) (stamp_pages build_id now ps w)
          (stamp_pages build_id now ps (update_page build_id n (submitted_at_time now) w))
          (listed-StampedAt now ps m i w z rest)
          (listed-StampedAt now ps m i (update_page build_id n (submitted_at_time now) w) z rest)
  ]

  pub stamped_submitted :
      (m : ℕ) (w : World) → StampedAt m w → is_document_build_submitted build_id w ≡ true
  unfolding is_document_build_submitted
  stamped_submitted m w p = any_stamped m (items_of build_id w) p.item p.found p.has_time

  pub locked : (w : World) → StampedAt 0 w → is_locked build_id w ≡ true
  locked w p = ap (λ o. is_some (item_or_empty o).submitted_at) p.found ∙ p.has_time

  abbrev pub submitted_world : (w : World) → World
  submitted_world w =
      let w' = update_page build_id 0 (submitted_at_time w.now) w in
      stamp_pages build_id w.now (items_of build_id w') w'

  pub mark_accepted :
      (w : World)
      → is_locked build_id w ≡ false
      → mark_document_build_submitted build_id w ≡ (returned tt, submitted_world w)
  unfolding mark_document_build_submitted
  mark_accepted w h = rw h

  pub mark_refused :
      (w : World)
      → is_locked build_id w ≡ true
      → mark_document_build_submitted build_id w ≡ (raised (http_error 400), w)
  unfolding mark_document_build_submitted
  mark_refused w h = rw h

  pub marked_locked : (w : World) → StampedAt 0 (submitted_world w)
  marked_locked w =
      stamp-StampedAt w.now _ 0 (update_page build_id 0 (submitted_at_time w.now) w)
        (stamped_self 0 w.now w)

  pub marked_page :
      (n : ℕ) (i : BuildItem) (w : World)
      → page_at n (items_of build_id w) ≡ some i
      → n ≢ 0
      → StampedAt n (submitted_world w)
  marked_page n i w h z =
      let w' = update_page build_id 0 (submitted_at_time w.now) w in
      listed-StampedAt w.now (items_of build_id w') n i w' z
        (updated_other 0 n (submitted_at_time w.now) w (λ e. z (sym e)) ∙ h)
