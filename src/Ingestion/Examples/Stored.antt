-- ===== src/Ingestion/Examples/Stored.antt =====
-- The theorems about the ingestion pipeline at a store in memory and at one and two documents.
use econiq_ai.Prelude.{ℕ, ◌+◌, ◌≡◌, refl, none, some, List, [], ◌∷◌, All, count, length, arith}
use econiq_ai.Prelude.Text.{codes, is_space, is_empty, text_eq}
use econiq_ai.Ingestion.Documents.{is_empty_document, ParsedDocument}
use econiq_ai.Ingestion.Parsers.{register, parse, plain_text_parse, media_type}
use econiq_ai.Ingestion.Normalize.{normalize_whitespace}
use econiq_ai.Ingestion.Examples.{note, noted, libraries, plain}
use econiq_ai.Ingestion.Storage.{MemoryStore, memory_store, memory_put}
use econiq_ai.Ingestion.Records.{
  RawDocument, DocumentRow, ingested, IngestionResult, IngestionPipeline, World, returned,
}
use econiq_ai.Ingestion.Pipeline.{
  columns_fit, hash_of, with_text, parse_result, duplicate_of, ingest, load_normalized_text,
}
use econiq_ai.Ingestion.Pipeline.Sources.{ingest_source, summarize}
use econiq_ai.Ingestion.Pipeline.Settled.{IsReady, IsReliable}
use econiq_ai.Ingestion.Pipeline.Stored.{Records, Reports, ingest_stored}
use econiq_ai.Ontology.Edges.{document}
use econiq_ai.Ingestion.Pipeline.Again.{IsInjective, rows_with, is_new, ingest_idempotent}
use econiq_ai.Ingestion.Pipeline.Totals.{ingest_source_total}
use econiq_ai.Ingestion.Pipeline.Retrieval.{memory_store-ReadsBack, load_normalized_text-ingest}

-- The hash and the codec leave the bytes as they are.
abbrev the_pipeline : IngestionPipeline MemoryStore
the_pipeline = record {
  object_store = memory_store;
  libraries = libraries;
  parsers = register plain [];
  inline_text_limit = 32000;
  sha256 = λ content. content;
  encode = λ text. text;
  decode = λ content. content;
  uuid4 = λ k. k;
}

abbrev nothing_yet : World MemoryStore
nothing_yet = record {
  store = record { bucket = codes "econiq-documents"; objects = []; content_types = [] };
  documents = [];
  nodes = [];
  published = [];
  drawn = 0;
}

abbrev acquired : List ℕ → RawDocument
acquired content = record {
  source = codes "feed";
  title = codes "A note";
  content = content;
  content_type = 116 ∷ 47 ∷ 112 ∷ [];
  publication_time = 3;
  retrieved_at = 5;
  publisher = none;
  author = none;
  url = none;
  document_type = "other";
  language = codes "en";
}

nothing_yet-IsReady : IsReady the_pipeline nothing_yet
nothing_yet-IsReady = record {
  unique = λ content_hash. omega arith;
  fresh = λ k le node m. elim m [ ];
}

takes_all : IsReliable the_pipeline
unfolding memory_store memory_put
takes_all key content content_type store = (_, _, refl)

drawn_once : IsInjective the_pipeline
drawn_once j k e = e

ingest_stored_example :
    (result : IngestionResult) × (later : World MemoryStore) × (row : DocumentRow) × (ingest
        the_pipeline
        (acquired note)
        nothing_yet
      ≡ returned result later)
    × (result.document_id ≡ some row.document_id)
    × (later.documents ≡ row ∷ [])
    × (later.nodes ≡ record { node_id = row.document_id; node_type = document } ∷ [])
    × Records the_pipeline (acquired note) 0 row
    × Reports the_pipeline (acquired note) nothing_yet row result later
unfolding columns_fit hash_of
ingest_stored_example =
    ingest_stored the_pipeline (acquired note) nothing_yet takes_all refl nothing_yet-IsReady refl

-- the same bytes from elsewhere
abbrev syndicated : List ℕ → RawDocument
syndicated content = record (acquired content) { source = codes "wire"; title = codes "Another" }

ingest_idempotent_example :
    (result : IngestionResult) × (later : World MemoryStore) × (id : ℕ) × (ingest the_pipeline
        (acquired note)
        nothing_yet
      ≡ returned result later)
    × (result.document_id ≡ some id)
    × IsReady the_pipeline later
    × (ingest the_pipeline (syndicated note) later
        ≡ returned (duplicate_of the_pipeline (hash_of the_pipeline (syndicated note)) id) later)
unfolding hash_of columns_fit
ingest_idempotent_example =
    ingest_idempotent the_pipeline takes_all drawn_once (acquired note) (syndicated note)
      nothing_yet refl nothing_yet-IsReady refl

-- two documents, of which the last comes again
abbrev yielded : List RawDocument
yielded = acquired note ∷ acquired (66 ∷ []) ∷ acquired (66 ∷ []) ∷ []

ingest_source_total_example :
    (results : List IngestionResult) × (later : World MemoryStore) × (ingest_source the_pipeline
        yielded none nothing_yet
      ≡ returned results later)
    × ((summarize results).total ≡ length yielded)
    × All (λ document. rows_with (hash_of the_pipeline document) later ≡ 1) yielded
    × (length later.documents ≡ length nothing_yet.documents + count is_new results)
unfolding columns_fit hash_of
ingest_source_total_example =
    ingest_source_total the_pipeline takes_all drawn_once yielded nothing_yet
      (refl, (refl, (refl, tt))) nothing_yet-IsReady

abbrev entitled : ParsedDocument
entitled = record noted { title = some (codes "A note") }

load_normalized_text-ingest_example :
    (result : IngestionResult) × (later : World MemoryStore) × (ingest the_pipeline
        (acquired note)
        nothing_yet
      ≡ returned result later)
    × (result.status ≡ ingested)
    × (load_normalized_text the_pipeline (hash_of the_pipeline (acquired note)) later.store
        ≡ some entitled.text)
unfolding normalize_whitespace parse_result with_text is_empty_document parse plain_text_parse
    media_type columns_fit hash_of register is_space is_empty text_eq
load_normalized_text-ingest_example =
    load_normalized_text-ingest the_pipeline takes_all memory_store-ReadsBack (λ text. refl)
      (acquired note) entitled nothing_yet refl nothing_yet-IsReady refl refl
