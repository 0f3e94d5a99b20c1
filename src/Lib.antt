-- ===== src/Lib.antt =====
-- A verification library for the document processing API (documentai-api/src/documentai_api).
--
-- A document is uploaded, described by an item of the document-metadata table, processed by an
-- extraction engine, and given a terminal status; a batch counts the files that have
-- one. The parts share two DynamoDB tables and a metrics queue, and write them from several jobs at
-- once, each write under a condition that the service checks atomically. Source paths below are
-- relative to documentai-api/src/documentai_api.
--
-- Prelude: truth of optional values, tables with text keys, lists measured by native numbers, and
-- the integers for differences of times.
-- Status, Codes: constants/processing.py and utils/response_codes.py. A member of a StrEnum is a
-- constructor with its text.
-- Rules: utils/extraction_rules.py. A rule is looked up in a table that is an argument.
-- Document: the items and data classes. An attribute that may be absent is an Option. Times are
-- hundredths of a second, confidences ten-thousandths.
-- Confidence, Timing: utils/bda.py and utils/extraction_timing.py. A mean is the float that
-- Python finds.
-- Doubles: Python's floats, binary64, as multiples of 2^-130, with the sum of Python 3.12 and later. The
-- fuel of a rounding is 256 doublings, enough for every number below 2^179.
-- Response: classifiers/api_response.py, the response as a function of the record.
-- Store: the tables, the queue and the clock as one record, and the actions on it: a function from
-- the state to an outcome, returned or raised, and the state after it. An update of DynamoDB is a
-- function on items with a condition, and creates an absent item.
-- Ddb: utils/ddb.py. An update expression is the function on items that it denotes.
-- Batch: utils/batch_operations.py.
-- Classify: classifiers/document_classification.py with the writes of responses.
-- Reaper: jobs/document_reaper/main.py.
-- Finality: which actions keep the stored status of a document.
-- Lifecycle: pipeline/document_lifecycle.py and models/document_record.py. What the
-- analyses find is an argument.
-- Quota: utils/write_limit.py.
-- Reader: readers/bda.py. A result is a tree of fields, groups and other values.
-- Poll: pipeline/jobs.py. The loop counts its attempts with fuel, one more than the timeout's seconds,
-- which is enough because an attempt takes five.
-- Cache: utils/cache.py.
-- Results: processors/bda.py and pipeline/bda.py. What is read of a result is an argument.
-- FileValidation: constants/file_validation.py and the checks of utils/uploads.py on a detected type.
-- BatchUpload: routers/batch.py. The files of a request are taken one after the other, where the source
-- starts them together; what becomes of a file's copy into S3 is part of the request.
-- Metrics: jobs/metrics_aggregator/main.py and the summary of utils/metrics.py. What Python's readings of
-- numbers and dates make of a text is an argument.
-- Textract: extractors/textract.py, processors/textract.py and pipeline/textract.py.
-- Processor: jobs/document_processor/main.py and resolve_project_arn of utils/bda_invoker.py. What is
-- configured and what the services find for a document is an argument, a run. An event reads the
-- document, writes its first record (Lifecycle), claims it, and then tries Textract and the extraction
-- service, which is retried as often as configured.
-- Auth: utils/auth.py, with the roles of utils/jwt_auth.py. The hash functions and the verification of a
-- token are arguments. The thread that writes when a key was last used is an operation of its own.
-- Builds: utils/document_build.py and routers/build.py: the rows of a build, the upload of its pages, its
-- submission under a lock, and the deletions.
-- TenantAccess: utils/tenant_access.py and the scope of an administrator, of utils/jwt_auth.py.
-- Documents: routers/documents.py, pipeline/uploads.py, utils/jobs.py and the purge of utils/uploads.py:
-- the upload of one document, its results, its deletion, and the search. What becomes of the copy into
-- S3, what is read of an extraction, and which deletions in S3 fail, are arguments. Documents.Presigned is
-- routers/presigned.py.
-- Scenarios: the theorems at concrete states.
--
-- Not modelled: the failure of a call for a reason other than a condition (network, throttling),
-- logging, tracing, and what the AWS services compute. Lists are finite and every function is
-- structurally recursive, but for the loop of Poll. Concurrency is a sequence of steps, one for each call
-- of a job; a job's own reads and writes are not split.
pub mod Prelude
pub mod Status
pub mod Codes
pub mod Rules
pub mod Document
pub mod Documents
pub mod Doubles
pub mod Response
pub mod Confidence
pub mod Store
pub mod Timing
pub mod Ddb
pub mod Batch
pub mod Classify
pub mod Reaper
pub mod Finality
pub mod Results
pub mod FileValidation
pub mod BatchUpload
pub mod Metrics
pub mod Textract
pub mod Processor
pub mod Scenarios
pub mod Quota
pub mod Lifecycle
pub mod Reader
pub mod Poll
pub mod Cache
pub mod Auth
pub mod Builds
pub mod TenantAccess
