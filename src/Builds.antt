-- ===== src/Builds.antt =====
-- documentai-api/src/documentai_api/utils/document_build.py: documents that clients build page by page. The
-- items of a build are kept by page number; an item's time to live is left out.
pub mod Submit
pub mod Uploads
pub mod Refused
pub mod Locks
pub mod Rollback
use strata_documentai_api_en.Prelude.{
  delete, has_text, ℕ, String, Bool, true, false, not, ◌&&◌, Option, none, some, List, [], ◌∷◌,
  is_some, is_true, ◌==◌, leb, lookup, insert, any_of, filter_if, map, if◌then◌else◌, ltb, length,
}
use strata_documentai_api_en.Response.{truthy}
use strata_documentai_api_en.Document.{BuildItem}
use strata_documentai_api_en.Store.State.{World}
use strata_documentai_api_en.Store.Actions.{
  Action, returned, raised, value_error, http_error, pure, ◌>>=◌, ◌>>◌,
}

abbrev pub Pages : Type 0
Pages = List (ℕ × BuildItem)

abbrev pub empty_item : BuildItem
empty_item = record {
  is_build_metadata = none;
  s3_path = none;
  original_file_name = none;
  category = none;
  created_at = none;
  submitted_at = none;
  ai_consent_flag = none;
  tenant_id = none;
  api_key_name = none;
}

abbrev pub item_or_empty : Option BuildItem → BuildItem
item_or_empty none = empty_item
item_or_empty (some i) = i

abbrev pub pages_or_none : Option Pages → Pages
pages_or_none none = []
pages_or_none (some ps) = ps

unfoldable pub page_at : ℕ → Pages → Option BuildItem
page_at n [] = none
page_at n ((m, i) ∷ ps) = let rest = page_at n ps in if m == n then some i else rest

unfoldable pub put_at : ℕ → BuildItem → Pages → Pages
put_at n i [] = (n, i) ∷ []
put_at n i ((m, j) ∷ ps) = let rest = put_at n i ps in if m == n then (n, i) ∷ ps else (m, j) ∷ rest

unfoldable pub remove_at : ℕ → Pages → Pages
remove_at n [] = []
remove_at n ((m, j) ∷ ps) = let rest = remove_at n ps in if m == n then rest else (m, j) ∷ rest

-- The rows of a build in the table, and the table with other rows for it.
abbrev pub items_of : String → World → Pages
items_of build_id w = pages_or_none (lookup build_id w.builds)

abbrev pub with_items : String → Pages → World → World
with_items build_id ps w = record w { builds = insert build_id ps w.builds }

abbrev pub update_page : String → ℕ → (BuildItem → BuildItem) → World → World
update_page build_id n f w =
    let ps = items_of build_id w in
    with_items build_id (put_at n (f (item_or_empty (page_at n ps))) ps) w

-- `_query_items_for_build`
abbrev pub query_items : String → Action Pages
query_items build_id w = (returned (items_of build_id w), w)

unfoldable pub get_build_metadata : String → Action (Option BuildItem)
unfolding page_at
get_build_metadata build_id w = (returned (page_at 0 (items_of build_id w)), w)

unfoldable pub document_build_page_exists : String → ℕ → World → Bool
unfolding page_at
document_build_page_exists build_id n w = is_some (page_at n (items_of build_id w))

unfoldable pub document_build_exists : String → World → Bool
unfolding document_build_page_exists
document_build_exists build_id w = document_build_page_exists build_id 0 w

abbrev pub page_item : String → Option String → Option String → ℕ → BuildItem
page_item s3_path original_file_name category now = record empty_item {
  s3_path = some s3_path;
  original_file_name = truthy original_file_name;
  category = truthy category;
  created_at = some now;
}

abbrev pub put_page : String → ℕ → BuildItem → Action (Unit {0})
put_page build_id n i w = (returned tt, with_items build_id (put_at n i (items_of build_id w)) w)

unfoldable pub upsert_document_build_page :
    String → ℕ → String → Option String → Option String → Bool → Action (Unit {0})
unfolding put_at document_build_page_exists
upsert_document_build_page build_id n s3_path original_file_name category overwrite w =
    if not overwrite && document_build_page_exists build_id n w
    then (raised (http_error 409), w)
    else put_page build_id n (page_item s3_path original_file_name category w.now) w

pub record PageMetadata : Type 0 where
  pub page_number : ℕ
  pub s3_key : Option String
  pub original_file_name : Option String
  pub category : Option String
  pub created_at : Option ℕ

abbrev pub page_metadata : ℕ × BuildItem → PageMetadata
page_metadata (n, i) = record {
  page_number = n;
  s3_key = i.s3_path;
  original_file_name = i.original_file_name;
  category = i.category;
  created_at = i.created_at;
}

abbrev pub is_page : ℕ × BuildItem → Bool
is_page (n, i) = not (is_true i.is_build_metadata)

unfoldable pub insert_page : PageMetadata → List PageMetadata → List PageMetadata
insert_page p [] = p ∷ []
insert_page p (q ∷ qs) =
    let rest = insert_page p qs in if leb p.page_number q.page_number then p ∷ q ∷ qs else q ∷ rest

-- `sorted`, by page number
unfoldable pub sort_pages : List PageMetadata → List PageMetadata
unfolding insert_page
sort_pages [] = []
sort_pages (p ∷ ps) = insert_page p (sort_pages ps)

unfoldable pub pages_of : String → World → List PageMetadata
unfolding sort_pages
pages_of build_id w = sort_pages (map page_metadata (filter_if is_page (items_of build_id w)))

unfoldable pub get_document_build_pages : String → Action (List PageMetadata)
unfolding pages_of
get_document_build_pages build_id w = (returned (pages_of build_id w), w)

abbrev pub is_stamped : ℕ × BuildItem → Bool
is_stamped (n, i) = is_some i.submitted_at

unfoldable pub is_document_build_submitted : String → World → Bool
is_document_build_submitted build_id w = any_of is_stamped (items_of build_id w)

abbrev pub submitted_at_time : ℕ → BuildItem → BuildItem
submitted_at_time now i = record i { submitted_at = some now }

-- the loop over the rows of the pages
unfoldable pub stamp_pages : String → ℕ → Pages → World → World
unfolding put_at page_at
stamp_pages build_id now [] w = w
stamp_pages build_id now ((n, i) ∷ ps) w =
    if n == 0
    then stamp_pages build_id now ps w
    else stamp_pages build_id now ps (update_page build_id n (submitted_at_time now) w)

abbrev pub is_locked : String → World → Bool
is_locked build_id w = is_some (item_or_empty (page_at 0 (items_of build_id w))).submitted_at

unfoldable pub mark_document_build_submitted : String → Action (Unit {0})
unfolding stamp_pages put_at page_at
mark_document_build_submitted build_id w =
    if is_locked build_id w
    then (raised (http_error 400), w)
    else (let w' = update_page build_id 0 (submitted_at_time w.now) w in
        (returned tt, stamp_pages build_id w.now (items_of build_id w') w'))

abbrev pub unsubmitted : BuildItem → BuildItem
unsubmitted i = record i { submitted_at = none }

unfoldable pub clear_submitted_at : String → Action (Unit {0})
unfolding put_at page_at
clear_submitted_at build_id w = (returned tt, update_page build_id 0 unsubmitted w)

-- the page's file goes first
abbrev pub without_object : Option String → World → World
without_object none w = w
without_object (some key) w =
    if has_text (some key) then record w { objects = delete key w.objects } else w

abbrev pub deleted_page : String → ℕ → Option BuildItem → Action Bool
deleted_page build_id n none w = (returned false, w)
deleted_page build_id n (some i) w = (
  returned true,
  with_items build_id (remove_at n (items_of build_id w)) (without_object i.s3_path w),
)

unfoldable pub delete_document_build_page : String → ℕ → Action Bool
unfolding is_document_build_submitted remove_at page_at
delete_document_build_page build_id n w =
    if is_document_build_submitted build_id w
    then (raised value_error, w)
    else deleted_page build_id n (page_at n (items_of build_id w)) w

unfoldable pub create_document_build :
    String → Option String → Option Bool → Option String → Option String → Action String
unfolding put_at
create_document_build build_id category ai_consent_flag tenant_id api_key_name w =
    (put_page build_id 0 (record empty_item {
      is_build_metadata = some true;
      category = truthy category;
      created_at = some w.now;
      ai_consent_flag = ai_consent_flag;
      tenant_id = tenant_id;
      api_key_name = api_key_name;
    })
        >> pure build_id)
      w

unfoldable pub delete_pages : String → List PageMetadata → Action (Unit {0})
unfolding delete_document_build_page
delete_pages build_id [] = pure tt
delete_pages build_id (p ∷ ps) =
    let rest = delete_pages build_id ps in delete_document_build_page build_id p.page_number >> rest

abbrev pub delete_metadata : String → Action Bool
delete_metadata build_id w =
    (returned true, with_items build_id (remove_at 0 (items_of build_id w)) w)

abbrev pub delete_found : String → List PageMetadata → Action Bool
delete_found build_id pages w =
    if not (ltb 0 (length pages)) && not (document_build_exists build_id w)
    then (returned false, w)
    else (delete_pages build_id pages >> delete_metadata build_id) w

unfoldable pub delete_document_build : String → Action Bool
unfolding is_document_build_submitted get_document_build_pages delete_pages remove_at
    document_build_exists
delete_document_build build_id w =
    if is_document_build_submitted build_id w
    then (raised value_error, w)
    else (get_document_build_pages build_id >>= delete_found build_id) w
