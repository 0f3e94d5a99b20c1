-- ===== src/Metrics/Counters.antt =====
-- The numbers of the statistics, each with what a record adds to it.
use strata_documentai_api_en.Prelude.{
  ℕ, ◌+◌, String, ◌≡◌, refl, Bool, true, false, Option, none, some, [], ◌∷◌, has_text, str_eq,
  lookup, insert, Table, if◌then◌else◌, arith,
}
use text.Mathlib.TextEquality.{eq_iff}
use strata_documentai_api_en.Batch.{or_zero}
use strata_documentai_api_en.Metrics.{
  Readings, RawRecord, Timing, Stats, add_to, add_if, add_time, add_hour, read_if, either, get_or,
  value_or, user_category, file_type, is_textract, is_invoked, is_recognized, process_record,
}
use strata_documentai_api_en.Metrics.Summary.{merge_table}

-- The seven tables.
pub data Breakdown : Type 0 where
  status classification response_code file_types user_categories upload_methods hours : Breakdown

pub data Counter : Type 0 where
  records bda_invocations textract_extractions extraction_invocations recognized : Counter
  file_sizes pages bda_pages input_tokens output_tokens : Counter
  total_times total_timed bda_times bda_timed wait_times wait_timed : Counter
  under : Breakdown → String → Counter

abbrev pub table_of : Breakdown → Stats → Table ℕ
table_of status s = s.by_status
table_of classification s = s.by_classification
table_of response_code s = s.by_response_code
table_of file_types s = s.by_file_type
table_of user_categories s = s.by_user_category
table_of upload_methods s = s.by_upload_method
table_of hours s = s.by_hour

-- The numbers that a table has under a key: a table of Python has one at most.
abbrev pub sum_under : String → Table ℕ → ℕ
sum_under key [] = 0
sum_under key ((name, n) ∷ t) = (if str_eq name key then n else 0) + sum_under key t

abbrev pub sum_values : Table ℕ → ℕ
sum_values [] = 0
sum_values ((name, n) ∷ t) = n + sum_values t

abbrev pub read_counter : Counter → Stats → ℕ
read_counter records s = s.total_records
read_counter bda_invocations s = s.total_bda_invocations
read_counter textract_extractions s = s.total_textract_extractions
read_counter extraction_invocations s = s.total_extraction_invocations
read_counter recognized s = s.total_documents_recognized
read_counter file_sizes s = s.total_file_size_bytes
read_counter pages s = s.total_pages
read_counter bda_pages s = s.total_bda_pages
read_counter input_tokens s = s.total_bedrock_input_tokens
read_counter output_tokens s = s.total_bedrock_output_tokens
read_counter total_times s = s.total_processing_time.sum
read_counter total_timed s = s.total_processing_time.count
read_counter bda_times s = s.bda_processing_time.sum
read_counter bda_timed s = s.bda_processing_time.count
read_counter wait_times s = s.bda_wait_time.sum
read_counter wait_timed s = s.bda_wait_time.count
read_counter (under b key) s = sum_under key (table_of b s)

-- The key that a record has in a table, if it is counted there.
abbrev pub key_of : Readings → Breakdown → RawRecord → Option String
key_of rd status r = some (get_or "unknown" r.process_status)
key_of rd classification r = some (value_or "null" r.bda_matched_document_class)
key_of rd response_code r = some (value_or "null" r.response_code)
key_of rd file_types r = some (file_type r)
key_of rd user_categories r = some (user_category r)
key_of rd upload_methods r = some (value_or "unknown" r.upload_method)
key_of rd hours r = read_if rd.read_hour r.created_at

abbrev pub is_key : String → Option String → ℕ
is_key key none = 0
is_key key (some k) = if str_eq k key then 1 else 0

abbrev one_if : Bool → ℕ
one_if b = if b then 1 else 0

abbrev pub count_of : Option ℕ → ℕ
count_of none = 0
count_of (some n) = 1

abbrev total_time : Readings → RawRecord → Option ℕ
total_time rd r = read_if rd.read_seconds r.total_processing_time_seconds

abbrev bda_time : Readings → RawRecord → Option ℕ
bda_time rd r =
    read_if rd.read_seconds
      (either r.extraction_processing_time_seconds r.bda_processing_time_seconds)

abbrev wait_time : Readings → RawRecord → Option ℕ
wait_time rd r =
    read_if rd.read_seconds (either r.extraction_wait_time_seconds r.bda_wait_time_seconds)

abbrev number_of : Readings → Option String → ℕ
number_of rd o = or_zero (read_if rd.read_int o)

-- What one record is worth to a number, read off the record alone.
abbrev pub worth : Readings → Counter → RawRecord → ℕ
worth rd records r = 1
worth rd bda_invocations r = one_if (has_text r.bda_invocation_arn)
worth rd textract_extractions r = one_if (is_textract r)
worth rd extraction_invocations r = one_if (is_invoked r)
worth rd recognized r = one_if (is_recognized r)
worth rd file_sizes r = number_of rd r.file_size_bytes
worth rd pages r = number_of rd r.pages_detected
worth rd bda_pages r = number_of rd r.pages_sent_to_bda
worth rd input_tokens r =
    number_of rd r.preclassification_input_tokens + number_of rd r.crop_input_tokens
worth rd output_tokens r =
    number_of rd r.preclassification_output_tokens + number_of rd r.crop_output_tokens
worth rd total_times r = or_zero (total_time rd r)
worth rd total_timed r = count_of (total_time rd r)
worth rd bda_times r = or_zero (bda_time rd r)
worth rd bda_timed r = count_of (bda_time rd r)
worth rd wait_times r = or_zero (wait_time rd r)
worth rd wait_timed r = count_of (wait_time rd r)
worth rd (under b key) r = is_key key (key_of rd b r)

sum_under-insert :
    (key other : String) (n m : ℕ) (t : Table ℕ)
    → or_zero (lookup key t) ≡ m
    → sum_under other (insert key (m + n) t)
      ≡ sum_under other t + (if str_eq key other then n else 0)
unfolding insert lookup
sum_under-insert key other n m [] h = ground arith
sum_under-insert key other n m ((name, k) ∷ t) h =
    let rest = sum_under-insert key other n m t in
    ground (arith, rest, eq_iff name key, eq_iff name other, eq_iff key other)

pub sum_under-add_to :
    (key other : String) (n : ℕ) (t : Table ℕ)
    → sum_under other (add_to key n t) ≡ sum_under other t + (if str_eq key other then n else 0)
unfolding add_to
sum_under-add_to key other n t = sum_under-insert key other n (or_zero (lookup key t)) t refl

sum_values-insert :
    (key : String) (n m : ℕ) (t : Table ℕ)
    → or_zero (lookup key t) ≡ m
    → sum_values (insert key (m + n) t) ≡ sum_values t + n
unfolding insert lookup
sum_values-insert key n m [] h = ground arith
sum_values-insert key n m ((name, k) ∷ t) h =
    let rest = sum_values-insert key n m t in ground (arith, rest, eq_iff name key)

pub sum_values-add_to :
    (key : String) (n : ℕ) (t : Table ℕ) → sum_values (add_to key n t) ≡ sum_values t + n
unfolding add_to
sum_values-add_to key n t = sum_values-insert key n (or_zero (lookup key t)) t refl

pub sum_under-merge_table :
    (key : String) (a t : Table ℕ)
    → sum_under key (merge_table a t) ≡ sum_under key a + sum_under key t
unfolding merge_table
sum_under-merge_table key a [] = omega arith
sum_under-merge_table key a ((name, n) ∷ t) =
    omega (arith, sum_under-merge_table key (add_to name n a) t, sum_under-add_to name key n a)

pub sum_values-merge_table :
    (a t : Table ℕ) → sum_values (merge_table a t) ≡ sum_values a + sum_values t
unfolding merge_table
sum_values-merge_table a [] = omega arith
sum_values-merge_table a ((name, n) ∷ t) =
    omega (arith, sum_values-merge_table (add_to name n a) t, sum_values-add_to name n a)

add_if_lem : (b : Bool) (n : ℕ) → add_if b n ≡ n + one_if b
add_if_lem true n = omega arith
add_if_lem false n = omega arith

add_time-sum : (o : Option ℕ) (t : Timing) → (add_time o t).sum ≡ t.sum + or_zero o
add_time-sum none t = omega arith
add_time-sum (some n) t = refl

add_time-count : (o : Option ℕ) (t : Timing) → (add_time o t).count ≡ t.count + count_of o
add_time-count none t = omega arith
add_time-count (some n) t = omega arith

add_hour-sum_under :
    (key : String) (o : Option String) (t : Table ℕ)
    → sum_under key (add_hour o t) ≡ sum_under key t + is_key key o
add_hour-sum_under key none t = omega arith
add_hour-sum_under key (some hour) t = sum_under-add_to hour key 1 t

module _ (rd : Readings) (r : RawRecord) (s : Stats) where
  under-process_record :
      (b : Breakdown) (key : String)
      → sum_under key (table_of b (process_record rd r s))
        ≡ sum_under key (table_of b s) + is_key key (key_of rd b r)
  unfolding process_record
  under-process_record status key = sum_under-add_to _ key 1 s.by_status
  under-process_record classification key = sum_under-add_to _ key 1 s.by_classification
  under-process_record response_code key = sum_under-add_to _ key 1 s.by_response_code
  under-process_record file_types key = sum_under-add_to _ key 1 s.by_file_type
  under-process_record user_categories key = sum_under-add_to _ key 1 s.by_user_category
  under-process_record upload_methods key = sum_under-add_to _ key 1 s.by_upload_method
  under-process_record hours key = add_hour-sum_under key (key_of rd hours r) s.by_hour

  -- Each number grows by what the record is worth to it.
  pub read_counter-process_record :
      (c : Counter) → read_counter c (process_record rd r s) ≡ read_counter c s + worth rd c r
  unfolding process_record
  read_counter-process_record records = omega arith
  read_counter-process_record bda_invocations = add_if_lem _ s.total_bda_invocations
  read_counter-process_record textract_extractions = add_if_lem _ s.total_textract_extractions
  read_counter-process_record extraction_invocations = add_if_lem _ s.total_extraction_invocations
  read_counter-process_record recognized = add_if_lem _ s.total_documents_recognized
  read_counter-process_record file_sizes = refl
  read_counter-process_record pages = refl
  read_counter-process_record bda_pages = refl
  read_counter-process_record input_tokens = omega arith
  read_counter-process_record output_tokens = omega arith
  read_counter-process_record total_times = add_time-sum _ s.total_processing_time
  read_counter-process_record total_timed = add_time-count _ s.total_processing_time
  read_counter-process_record bda_times = add_time-sum _ s.bda_processing_time
  read_counter-process_record bda_timed = add_time-count _ s.bda_processing_time
  read_counter-process_record wait_times = add_time-sum _ s.bda_wait_time
  read_counter-process_record wait_timed = add_time-count _ s.bda_wait_time
  read_counter-process_record (under b key) = under-process_record b key
