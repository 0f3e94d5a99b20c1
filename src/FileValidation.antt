-- ===== src/FileValidation.antt =====
-- documentai-api/src/documentai_api/constants/file_validation.py, the content types of uploads, and
-- the check of an upload's type in utils/uploads.py. What a file's bytes show, the type that the
-- detection finds, is an argument.
use strata_documentai_api_en.Prelude.{if◌then◌else◌, String, Bool, List, [], ◌∷◌, ◌++◌, text_in}
use strata_documentai_api_en.Store.Actions.{Action, http_error, value_error, pure, raise}

abbrev pub no_conversion_needed : List String
no_conversion_needed =
    "application/pdf" ∷ "application/msword"
    ∷ "application/vnd.openxmlformats-officedocument.wordprocessingml.document" ∷ "image/jpeg"
    ∷ "image/png" ∷ []

abbrev pub requires_conversion : List String
requires_conversion =
    "image/bmp" ∷ "image/heic" ∷ "image/heif" ∷ "image/webp" ∷ "image/gif" ∷ "image/tiff" ∷ []

abbrev pub grayscale_convertible : List String
grayscale_convertible = "image/jpeg" ∷ "image/png" ∷ []

unfoldable pub is_supported : String → Bool
is_supported content_type = text_in content_type (no_conversion_needed ++ requires_conversion)

unfoldable pub needs_conversion : String → Bool
needs_conversion content_type = text_in content_type requires_conversion

unfoldable pub is_odt : String → Bool
is_odt content_type = text_in content_type ("application/vnd.oasis.opendocument.text" ∷ [])

-- `validate_file_type`, of the type that was detected
unfoldable pub validate_file_type : String → Action String
unfolding is_supported is_odt
validate_file_type detected =
    if is_odt detected
    then raise (http_error 400)
    else if is_supported detected
    then pure detected
    else raise (http_error 400)

-- `validate_s3_object_is_bda_native`
unfoldable pub validate_s3_object_is_bda_native : String → Action String
validate_s3_object_is_bda_native detected =
    if text_in detected no_conversion_needed then pure detected else raise value_error
