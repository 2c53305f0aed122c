-- ===== src/Ingestion/Pipeline/Totals.antt =====
-- pipeline.py: `ingest_source` over all that a source yields, and the counts of `summarize`.
use mathlib.Core.List.{append-nil, append_assoc}
use econiq_ai.Prelude.{
  true, suc, ◌+◌, ◌≤◌, ◌≡◌, refl, sym, ap, ◌∙◌, none, List, [], ◌∷◌, ◌++◌, count, arith, All,
  length, if◌then◌else◌, ◌==◌,
}
use econiq_ai.Prelude.Text.{Text}
use econiq_ai.Prelude.Counting.{count-append}
use econiq_ai.Ingestion.Records.{
  RawDocument, IngestionStatus, ingested, duplicate, parse_failed, IngestionResult,
  IngestionPipeline, World, returned,
}
use econiq_ai.Ingestion.Pipeline.{columns_fit, hash_of, ingest}
use econiq_ai.Ingestion.Pipeline.Sources.{
  is_full, caught, drain, ingest_source, status_index, summarize,
}
use econiq_ai.Ingestion.Pipeline.Settled.{IsReady, IsReliable}
use econiq_ai.Ingestion.Pipeline.Again.{IsInjective, rows_with, is_new, ingest_once}

status_counted :
    (status : IngestionStatus)
    → (if status_index status == 0 then 1 else 0)
        + ((if status_index status == 1 then 1 else 0)
            + (if status_index status == 2 then 1 else 0))
      ≡ 1
status_counted ingested = refl
status_counted duplicate = refl
status_counted parse_failed = refl

pub summarize-total : (results : List IngestionResult) → (summarize results).total ≡ length results
unfolding summarize
summarize-total [] = refl
summarize-total (result ∷ results) =
    omega (arith, status_counted result.status, summarize-total results)

module _ {Store : Type 0} (p : IngestionPipeline Store) where
  drain_step :
      (results : List IngestionResult) (document : RawDocument) (documents : List RawDocument)
      → (w later : World Store) (result : IngestionResult)
      → ingest p document w ≡ returned result later
      → drain p none results (document ∷ documents) w
        ≡ drain p none (results ++ (result ∷ [])) documents later
  unfolding drain caught is_full
  drain_step results document documents w later result e = rw (e, drain, caught) refl

module _ {Store : Type 0} (p : IngestionPipeline Store) (reliable : IsReliable p)
    (injective : IsInjective p) where
  -- What a run over some documents comes to.
  pub record Drains (documents : List RawDocument) (w : World Store) (more : List IngestionResult)
      (later : World Store) : Type 0 where
    pub ready : IsReady p later
    pub answered : length more ≡ length documents
    pub known : All (λ document. rows_with (hash_of p document) later ≡ 1) documents
    pub keeps : (content_hash : Text) → rows_with content_hash w ≤ rows_with content_hash later
    pub grows : length later.documents ≡ length w.documents + count is_new more

  drain_total :
      (documents : List RawDocument) (results : List IngestionResult) (w : World Store)
      → All (λ document. columns_fit p document ≡ true) documents
      → IsReady p w
      → (more : List IngestionResult) × (later : World Store) × (drain p none results documents w
          ≡ returned (results ++ more) later)
        × Drains documents w more later
  unfolding drain
  drain_total [] results w fit ready = (
    [],
    w,
    ap (λ l. returned l w) (sym (append-nil results)),
    record {
      ready = ready;
      answered = refl;
      known = tt;
      keeps = λ content_hash. omega arith;
      grows = omega arith;
    },
  )
  drain_total (document ∷ documents) results w fit ready =
      let (result, middle, e, ready_middle, one, mono, grown) =
        ingest_once p reliable injective document w fit.0 ready in
      let (more, later, f, drained) =
        drain_total documents (results ++ (result ∷ [])) middle fit.1 ready_middle in
      (
        result ∷ more,
        later,
        drain_step p results document documents w middle result e
            ∙ f
            ∙ ap (λ l. returned l later) (append_assoc results (result ∷ []) more),
        record {
          ready = drained.ready;
          answered = ap suc drained.answered;
          known = (
            let le = drained.keeps (hash_of p document) in
                let single = drained.ready.unique (hash_of p document) in omega arith,
            drained.known,
          );
          keeps = λ content_hash.
              let a = mono content_hash in let b = drained.keeps content_hash in omega arith;
          grows = omega (arith, drained.grows, count-append is_new (result ∷ []) more);
        },
      )

  -- With ids that are drawn once, a store that takes everything, tables in which no hash stands
  -- twice and no id that is not drawn yet names a node, and documents whose texts fit the columns
  -- and that were not published after they were retrieved: ingest_source without a limit returns,
  -- summarize counts as many results as there are documents, each document has exactly one row
  -- with its hash, and the table has grown by the number of results that are no duplicates.
  pub ingest_source_total :
      (documents : List RawDocument) (w : World Store)
      → All (λ document. columns_fit p document ≡ true) documents
      → IsReady p w
      → (results : List IngestionResult) × (later : World Store) × (ingest_source p documents none w
          ≡ returned results later)
        × ((summarize results).total ≡ length documents)
        × All (λ document. rows_with (hash_of p document) later ≡ 1) documents
        × (length later.documents ≡ length w.documents + count is_new results)
  unfolding ingest_source
  ingest_source_total documents w fit ready =
      let (results, later, e, drained) = drain_total documents [] w fit ready in
      (results, later, e, summarize-total results ∙ drained.answered, drained.known, drained.grows)
