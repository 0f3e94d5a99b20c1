-- ===== src/Builds/Uploads.antt =====
-- The upload of pages: documentai-api/src/documentai_api/routers/build.py. What is stored of a file (its
-- bytes, or the converted ones) and how its copy ends belong to the file; the text of a page number
-- is an argument. The files of a request are taken one after the other.
use strata_documentai_api_en.Prelude.{
  ℕ, suc, ◌+◌, String, Bool, false, Option, none, some, List, [], ◌∷◌, has_text, ltb, leb, joined,
  length, insert, if◌then◌else◌,
}
use strata_documentai_api_en.FileValidation.{validate_file_type}
use strata_documentai_api_en.Metrics.{get_extension}
use strata_documentai_api_en.BatchUpload.{Copying, copied, not_converted, refused, broken}
use strata_documentai_api_en.Store.Actions.{
  Action, Error, returned, raised, http_error, pure, raise, catch, ◌>>=◌, ◌>>◌,
}
use strata_documentai_api_en.Builds.{
  PageMetadata, get_document_build_pages, upsert_document_build_page,
}

pub record PageFile : Type 0 where
  pub filename : Option String
  pub size : Option ℕ
  pub detected : String
  pub content : String
  pub copying : Copying

-- The build, who uploads to it, and the prefix of the preprocessing location.
pub record BuildTarget : Type 0 where
  pub build_id : String
  pub tenant_id : String
  pub category : Option String
  pub prefix : String

pub record BuildPageBatchItem : Type 0 where
  pub page_number : ℕ
  pub file_name : Option String

-- `SystemDefaults.MAX_PAGES_PER_BUILD` and `BDA_MAX_DOCUMENT_FILE_SIZE_BYTES`
abbrev pub max_pages : ℕ
max_pages = 50

abbrev pub max_file_size : ℕ
max_file_size = 524288000

-- An image that cannot be converted: the routes answer 400.
abbrev pub copy_page : String → String → Copying → Action (Unit {0})
copy_page key content copied w = (returned tt, record w { objects = insert key content w.objects })
copy_page key content (not_converted message) w = (raised (http_error 400), w)
copy_page key content (refused status detail) w = (raised (http_error status), w)
copy_page key content (broken e) w = (raised e, w)

abbrev pub is_too_large : Option ℕ → Bool
is_too_large none = false
is_too_large (some n) = ltb max_file_size n

abbrev pub last_page : List PageMetadata → ℕ
last_page [] = 0
last_page (p ∷ ps) =
    let rest = last_page ps in if ltb rest p.page_number then p.page_number else rest

-- `page_number` if it is given, or the one after the last
abbrev pub number_or_next : Option ℕ → List PageMetadata → ℕ
number_or_next none pages = suc (last_page pages)
number_or_next (some n) pages = n

abbrev pub internal_error : {A : Type 0} → Error → Action A
internal_error (http_error status) = raise (http_error status)
internal_error e = raise (http_error 500)

module _ (page_text : ℕ → String) where
  abbrev pub page_file_name : BuildTarget → ℕ → PageFile → String
  page_file_name t n f = joined t.tenant_id (
      joined "/" (
        joined t.build_id
          (joined "-page-" (joined (page_text n) (joined "." (get_extension f.detected "bin"))))))

  abbrev pub page_path : BuildTarget → ℕ → PageFile → String
  page_path t n f =
      if has_text (some t.prefix)
      then joined t.prefix (joined "/" (page_file_name t n f))
      else page_file_name t n f

  unfoldable pub add_page_to_build : BuildTarget → PageFile → ℕ → Bool → Action BuildPageBatchItem
  unfolding upsert_document_build_page get_extension
  add_page_to_build t f n overwrite =
      if has_text f.filename
      then copy_page (page_path t n f) f.content f.copying
        >> upsert_document_build_page t.build_id n (page_path t n f) f.filename t.category overwrite
        >> pure (record { page_number = n; file_name = f.filename })
      else raise (http_error 400)

  abbrev pub add_within_limit :
      BuildTarget → PageFile → Option ℕ → Bool → List PageMetadata → Action BuildPageBatchItem
  add_within_limit t f n overwrite pages =
      if leb max_pages (length pages)
      then raise (http_error 400)
      else add_page_to_build t f (number_or_next n pages) overwrite

  abbrev pub add_checked : BuildTarget → PageFile → Option ℕ → Bool → Action BuildPageBatchItem
  add_checked t f n overwrite =
      if is_too_large f.size
      then raise (http_error 400)
      else (get_document_build_pages t.build_id >>= add_within_limit t f n overwrite)

  unfoldable pub upload_document_build_page :
      BuildTarget → PageFile → Option ℕ → Bool → Action BuildPageBatchItem
  unfolding validate_file_type get_document_build_pages add_page_to_build
  upload_document_build_page t f n overwrite =
      catch (validate_file_type f.detected >> add_checked t f n overwrite) internal_error

  unfoldable pub validate_all : List PageFile → Action (Unit {0})
  unfolding validate_file_type
  validate_all [] = pure tt
  validate_all (f ∷ fs) =
      let rest = validate_all fs in
      validate_file_type f.detected
      >> (if is_too_large f.size then raise (http_error 400) else rest)

  unfoldable pub add_files : BuildTarget → ℕ → List PageFile → Action (List BuildPageBatchItem)
  unfolding add_page_to_build
  add_files t n [] = pure []
  add_files t n (f ∷ fs) =
      let rest = add_files t (suc n) fs in
      add_page_to_build t f n false >>= λ item. rest >>= λ items. pure (item ∷ items)

  abbrev pub add_all_within_limit :
      BuildTarget → List PageFile → List PageMetadata → Action (List BuildPageBatchItem)
  add_all_within_limit t fs pages =
      if ltb max_pages (length pages + length fs)
      then raise (http_error 400)
      else add_files t (suc (last_page pages)) fs

  abbrev pub batch_checked : BuildTarget → List PageFile → Action (List BuildPageBatchItem)
  batch_checked t fs =
      if ltb max_pages (length fs)
      then raise (http_error 400)
      else (validate_all fs >> get_document_build_pages t.build_id >>= add_all_within_limit t fs)

  unfoldable pub upload_document_build_pages_batch :
      BuildTarget → List PageFile → Action (List BuildPageBatchItem)
  unfolding validate_all get_document_build_pages add_files
  upload_document_build_pages_batch t fs = catch (batch_checked t fs) internal_error
