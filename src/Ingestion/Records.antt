-- ===== src/Ingestion/Records.antt =====
-- sources.py, events.py, pipeline.py and models.py: what the pipeline takes, stores and returns. The
-- text of an error is left out.
use econiq_ai.Prelude.{
  ℕ, Option, String, List, ltb, if◌then◌else◌, Result, ok, err, Error, value_error,
}
use econiq_ai.Prelude.Text.{Text}
use econiq_ai.Graph.Rows.{NodeRow}
use econiq_ai.Ingestion.Documents.{ParsedDocument, IngestionError}
use econiq_ai.Ingestion.Parsers.{Libraries, ParserRegistry}
use econiq_ai.Ingestion.Storage.{ObjectStore}

-- The fields that the pipeline reads. A document that is constructed is one that
-- `validated_document` returns.
pub record RawDocument : Type 0 where
  pub source : Text
  pub title : Text
  pub content : List ℕ
  pub content_type : Text
  pub publication_time : ℕ
  pub retrieved_at : ℕ
  pub publisher : Option Text
  pub author : Option Text
  pub url : Option Text
  pub document_type : String
  pub language : Text

-- `__post_init__`
unfoldable pub validated_document : RawDocument → Result RawDocument
validated_document document =
    if ltb document.retrieved_at document.publication_time then err value_error else ok document

pub data ExtractionStatus : Type 0 where
  extraction_parsed extraction_failed : ExtractionStatus

-- A row of `documents`.
pub record DocumentRow : Type 0 where
  pub document_id : ℕ
  pub source : Text
  pub publisher : Option Text
  pub author : Option Text
  pub title : Text
  pub url : Option Text
  pub document_type : String
  pub publication_time : ℕ
  pub retrieved_at : ℕ
  pub language : Text
  pub storage_uri : Text
  pub content_hash : Text
  pub raw_content : Option Text
  pub extraction_status : ExtractionStatus

pub record DocumentIngested : Type 0 where
  pub document_id : ℕ
  pub source : Text
  pub document_type : String
  pub publication_time : ℕ
  pub content_hash : Text
  pub storage_uri : Text
  pub section_count : ℕ

pub data IngestionStatus : Type 0 where
  ingested duplicate parse_failed : IngestionStatus

pub record IngestionResult : Type 0 where
  pub status : IngestionStatus
  pub content_hash : Text
  pub document_id : Option ℕ
  pub document : Option ParsedDocument
  pub event : Option DocumentIngested
  pub error : Option IngestionError

pub record IngestionPipeline (Store : Type 0) : Type 0 where
  pub object_store : ObjectStore Store
  pub libraries : Libraries
  pub parsers : ParserRegistry
  pub inline_text_limit : ℕ
  pub sha256 : List ℕ → Text
  pub encode : Text → List ℕ
  pub decode : List ℕ → Text
  pub uuid4 : ℕ → ℕ

-- The object store, the tables, what was published, and how many ids were drawn.
pub record World (Store : Type 0) : Type 0 where
  pub store : Store
  pub documents : List DocumentRow
  pub nodes : List NodeRow
  pub published : List DocumentIngested
  pub drawn : ℕ

-- A call returns or raises; what it did before it raised stays.
pub data Ingest (A : Type 0) (Store : Type 0) : Type 0 where
  returned : A → World Store → Ingest A Store
  raised : Error → World Store → Ingest A Store
