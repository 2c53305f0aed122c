-- ===== src/Ingestion/Pipeline.antt =====
-- pipeline.py: `IngestionPipeline`. The hash, the codec, uuid4 and the object store are parameters.
pub mod Sources
pub mod Settled
pub mod Once
pub mod Again
pub mod Totals
pub mod Retrieval
pub mod Stored
use econiq_ai.Prelude.{
  ℕ, suc, ◌+◌, ◌≡◌, Bool, true, false, not, ◌&&◌, ◌||◌, Option, none, some, String, List, [], ◌∷◌,
  ◌++◌, ltb, leb, any, filter, count, take, length, if◌then◌else◌, Result, ok, err, Error,
  integrity_error, multiple_results, value_error, storage_error, client_error, ◌==◌,
}
use econiq_ai.Prelude.Text.{Text, codes, text_eq, or_else, is_empty}
use econiq_ai.Graph.Rows.{NodeRow}
use econiq_ai.Ontology.Edges.{document as document_node}
use econiq_ai.Ingestion.Documents.{
  Section, ParsedDocument, is_empty_document, IngestionError, Parse, parsed, failed,
}
use econiq_ai.Ingestion.Parsers.{Libraries, ParserRegistry, parse, media_type}
use econiq_ai.Ingestion.Storage.{
  Artifact, raw, normalized, object_key, StoredObject, Put, stored, refused, broken, ObjectStore,
}
use econiq_ai.Ingestion.Records.{
  RawDocument, ExtractionStatus, DocumentRow, DocumentIngested, IngestionStatus, IngestionResult,
  IngestionPipeline, World, Ingest, extraction_parsed, extraction_failed, ingested, duplicate,
  parse_failed, returned, raised,
}

abbrev pub extensions : List (Text × Text)
extensions =
    (codes "text/html", codes ".html")
    ∷ (codes "application/xhtml+xml", codes ".html")
    ∷ (codes "application/pdf", codes ".pdf")
    ∷ (codes "text/plain", codes ".txt")
    ∷ (codes "text/markdown", codes ".md")
    ∷ (codes "application/json", codes ".json")
    ∷ (codes "application/xml", codes ".xml")
    ∷ []

unfoldable pub extension_in : Text → List (Text × Text) → Text
extension_in media [] = []
extension_in media ((key, extension) ∷ rest) =
    if text_eq key media then extension else extension_in media rest

-- `_extension_for`
unfoldable pub extension_for : Libraries → Text → Text
unfolding extension_in media_type
extension_for libraries content_type = extension_in (media_type libraries content_type) extensions

-- `_parse`
unfoldable pub parse_result : Parse → Option ParsedDocument × Option IngestionError
parse_result (parsed found) = (some found, none)
parse_result (failed error) = (none, some error)

abbrev pub has_hash : Text → DocumentRow → Bool
has_hash content_hash row = text_eq row.content_hash content_hash

-- `scalar_one_or_none`
unfoldable pub one_or_none : List DocumentRow → Result (Option ℕ)
one_or_none [] = ok none
one_or_none (row ∷ []) = ok (some row.document_id)
one_or_none (row ∷ other ∷ rows) = err multiple_results

unfoldable pub find_by_hash : Text → List DocumentRow → Result (Option ℕ)
unfolding one_or_none
find_by_hash content_hash rows = one_or_none (filter (has_hash content_hash) rows)

-- A parsed document that has text.
unfoldable pub with_text : Option ParsedDocument → Option ParsedDocument
unfolding is_empty_document
with_text none = none
with_text (some found) = if is_empty_document found then none else some found

unfoldable pub status_of : Option ParsedDocument → ExtractionStatus
status_of none = extraction_failed
status_of (some found) = extraction_parsed

-- `parsed.title if parsed and parsed.title else raw.title`
unfoldable pub title_for : Option ParsedDocument → Text → Text
unfolding or_else
title_for none title = title
title_for (some found) title = elim (or_else found.title none) [ none ↦ title | some t ↦ t ]

unfoldable pub inline_text : ℕ → Option ParsedDocument → Option Text
inline_text limit none = none
inline_text limit (some found) = if leb (length found.text) limit then some found.text else none

-- `String(width)`, which may be NULL
abbrev option_fits : ℕ → Option Text → Bool
option_fits width none = true
option_fits width (some s) = leb (length s) width

module _ {Store : Type 0} (p : IngestionPipeline Store) where
  unfoldable pub hash_of : RawDocument → Text
  hash_of document = p.sha256 document.content

  unfoldable pub row_of :
      ℕ → RawDocument → Option ParsedDocument → Text → ExtractionStatus → DocumentRow
  unfolding hash_of title_for inline_text
  row_of id document found uri status = record {
    document_id = id;
    source = document.source;
    publisher = document.publisher;
    author = document.author;
    title = take 2000 (title_for found document.title);
    url = document.url;
    document_type = document.document_type;
    publication_time = document.publication_time;
    retrieved_at = document.retrieved_at;
    language = document.language;
    storage_uri = uri;
    content_hash = hash_of document;
    raw_content = inline_text p.inline_text_limit found;
    extraction_status = status;
  }

  -- What the widths of the columns of `documents` and its check say of the row.
  unfoldable pub columns_fit : RawDocument → Bool
  unfolding hash_of
  columns_fit document =
      leb (length document.source) 128
      && option_fits 256 document.publisher
      && option_fits 256 document.author
      && leb (length document.language) 8
      && leb (length (hash_of document)) 64
      && leb document.publication_time document.retrieved_at

  -- `_persist`: the keys of both tables are unique, and so is the hash. A refused insert leaves
  -- nothing behind.
  unfoldable pub persist :
      RawDocument → Option ParsedDocument → Text → ExtractionStatus → World Store → Ingest ℕ Store
  unfolding row_of columns_fit
  persist document found uri status w =
      let id = p.uuid4 w.drawn in
      let row = row_of id document found uri status in
      if any (λ (node : NodeRow). node.node_id == id) w.nodes
        || any (has_hash row.content_hash) w.documents
        || not (columns_fit document)
      then raised integrity_error (record w { drawn = suc w.drawn })
      else returned id (record w {
        documents = w.documents ++ (row ∷ []);
        nodes = w.nodes ++ (record { node_id = id; node_type = document_node } ∷ []);
        drawn = suc w.drawn;
      })

  unfoldable pub event_of : RawDocument → ParsedDocument → Text → ℕ → DocumentIngested
  unfolding hash_of
  event_of document found uri id = record {
    document_id = id;
    source = document.source;
    document_type = document.document_type;
    publication_time = document.publication_time;
    content_hash = hash_of document;
    storage_uri = uri;
    section_count = length found.sections;
  }

  -- What is returned once the row is stored.
  unfoldable pub announce :
      RawDocument
      → Option ParsedDocument
      → Option IngestionError
      → Text
      → Ingest ℕ Store
      → Ingest IngestionResult Store
  unfolding event_of hash_of
  announce document usable error uri (raised e w) = raised e w
  announce document none error uri (returned id w) =
      returned
        (record {
          status = parse_failed;
          content_hash = hash_of document;
          document_id = some id;
          document = none;
          event = none;
          error = error;
        })
        w
  announce document (some found) error uri (returned id w) =
      let event = event_of document found uri id in
      returned
        (record {
          status = ingested;
          content_hash = hash_of document;
          document_id = some id;
          document = some found;
          event = some event;
          error = none;
        })
        (record w { published = w.published ++ (event ∷ []) })

  unfoldable pub store_text : RawDocument → ParsedDocument → Store → Put Store
  unfolding object_key hash_of
  store_text document found store =
      p.object_store.put (object_key normalized (hash_of document) (codes ".txt"))
        (p.encode found.text) (codes "text/plain") store

  -- The row and the event of a document whose bytes are stored.
  unfoldable pub settle :
      RawDocument
      → Option ParsedDocument × Option IngestionError
      → Text
      → World Store
      → Ingest IngestionResult Store
  unfolding persist announce status_of with_text
  settle document (found, error) uri w =
      announce document (with_text found) error uri
        (persist document found uri (status_of (with_text found)) w)

  unfoldable pub after_text :
      RawDocument
      → Option ParsedDocument × Option IngestionError
      → Text
      → World Store
      → Put Store
      → Ingest IngestionResult Store
  unfolding settle
  after_text document result uri w refused = raised storage_error w
  after_text document result uri w broken = raised client_error w
  after_text document result uri w (stored object store) =
      settle document result uri (record w { store = store })

  unfoldable pub keep_found :
      RawDocument
      → Option ParsedDocument × Option IngestionError
      → Text
      → World Store
      → Option ParsedDocument
      → Ingest IngestionResult Store
  unfolding store_text after_text settle
  keep_found document result uri w none = settle document result uri w
  keep_found document result uri w (some found) =
      after_text document result uri w (store_text document found w.store)

  unfoldable pub keep_text :
      RawDocument
      → Option ParsedDocument × Option IngestionError
      → Text
      → World Store
      → Ingest IngestionResult Store
  unfolding with_text keep_found
  keep_text document result uri w = keep_found document result uri w (with_text result.0)

  unfoldable pub after_raw : RawDocument → World Store → Put Store → Ingest IngestionResult Store
  unfolding keep_text parse_result parse
  after_raw document w refused = raised storage_error w
  after_raw document w broken = raised client_error w
  after_raw document w (stored object store) =
      keep_text document
        (parse_result (
          parse p.libraries p.parsers document.content document.content_type (some document.title)))
        object.uri (record w { store = store })

  unfoldable pub store_raw : RawDocument → Store → Put Store
  unfolding object_key hash_of extension_for
  store_raw document store =
      p.object_store.put
        (object_key raw (hash_of document) (extension_for p.libraries document.content_type))
        document.content document.content_type store

  abbrev pub duplicate_of : Text → ℕ → IngestionResult
  duplicate_of content_hash id = record {
    status = duplicate;
    content_hash = content_hash;
    document_id = some id;
    document = none;
    event = none;
    error = none;
  }

  unfoldable pub after_lookup :
      RawDocument → World Store → Result (Option ℕ) → Ingest IngestionResult Store
  unfolding after_raw store_raw hash_of
  after_lookup document w (err e) = raised e w
  after_lookup document w (ok (some existing)) =
      returned (duplicate_of (hash_of document) existing) w
  after_lookup document w (ok none) = after_raw document w (store_raw document w.store)

  unfoldable pub ingest : RawDocument → World Store → Ingest IngestionResult Store
  unfolding after_lookup find_by_hash hash_of
  ingest document w = after_lookup document w (find_by_hash (hash_of document) w.documents)

  -- `none` stands for the `StorageError` of a missing object.
  unfoldable pub load_normalized_text : Text → Store → Option Text
  unfolding object_key
  load_normalized_text content_hash store =
      elim (p.object_store.get (object_key normalized content_hash (codes ".txt")) store) [
        | none ↦ none
        | some content ↦ some (p.decode content)
      ]
