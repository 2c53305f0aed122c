-- ===== src/Ingestion/Pipeline/Sources.antt =====
-- pipeline.py: `ingest_source`, over the documents that a source yields, and `summarize`.
use econiq_ai.Prelude.{
  ℕ, ◌+◌, ◌==◌, Bool, false, Option, none, some, List, [], ◌∷◌, ◌++◌, leb, count, length,
  if◌then◌else◌, storage_error,
}
use econiq_ai.Ingestion.Records.{
  RawDocument, IngestionStatus, ingested, duplicate, parse_failed, IngestionResult,
  IngestionPipeline, World, Ingest, returned, raised,
}
use econiq_ai.Ingestion.Pipeline.{hash_of, ingest}

unfoldable pub is_full : Option ℕ → ℕ → Bool
is_full none taken = false
is_full (some limit) taken = leb limit taken

module _ {Store : Type 0} (p : IngestionPipeline Store) where
  -- A round of `ingest_source`: an `IngestionError` becomes a result.
  unfoldable pub caught : RawDocument → Ingest IngestionResult Store → Ingest IngestionResult Store
  unfolding hash_of
  caught document (raised storage_error w) =
      returned
        (record {
          status = parse_failed;
          content_hash = hash_of p document;
          document_id = none;
          document = none;
          event = none;
          error = none;
        })
        w
  caught document other = other

  -- The loop over the documents, with the results so far.
  unfoldable pub drain :
      Option ℕ
      → List IngestionResult
      → List RawDocument
      → World Store
      → Ingest (List IngestionResult) Store
  unfolding caught ingest is_full
  drain limit results [] w = returned results w
  drain limit results (document ∷ documents) w = elim (caught document (ingest p document w)) [
    | raised e later ↦ raised e later
    | returned result later ↦
        let more = results ++ (result ∷ []) in
        let rest = drain limit more documents later in
        if is_full limit (length more) then returned more later else rest
  ]

  unfoldable pub ingest_source :
      List RawDocument → Option ℕ → World Store → Ingest (List IngestionResult) Store
  unfolding drain
  ingest_source documents limit w = drain limit [] documents w

abbrev pub status_index : IngestionStatus → ℕ
status_index ingested = 0
status_index duplicate = 1
status_index parse_failed = 2

abbrev pub has_status : IngestionStatus → IngestionResult → Bool
has_status status result = status_index result.status == status_index status

pub record Summary : Type 0 where
  pub ingested_count : ℕ
  pub duplicate_count : ℕ
  pub parse_failed_count : ℕ
  pub total : ℕ

unfoldable pub summarize : List IngestionResult → Summary
summarize results =
    let a = count (has_status ingested) results in
    let b = count (has_status duplicate) results in
    let c = count (has_status parse_failed) results in
    record { ingested_count = a; duplicate_count = b; parse_failed_count = c; total = a + (b + c) }
