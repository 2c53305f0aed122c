-- ===== src/Lib.antt =====
-- Econiq turns documents into claims, events and economic processes. This library models the part
-- of it that decides: the orchestrator, which schedules the agents' work, the rules of the ontology,
-- and the structural analysis of evidence. Numbers are native naturals: ids (UUIDs), instants and
-- durations in seconds are all numbers, and the texts are the source's.
--
-- The orchestrator (services/orchestration/src/econiq_orchestration). A stage's handler returns
-- events, which are stored in the outbox in the transaction that settles the work item; the dispatcher
-- reads the outbox and schedules the stages that each event triggers; workers claim what is
-- scheduled; the reconciler schedules what the events missed.
--   Orchestration/Store.antt: the rows of work_items and outbox_events (models.py and enums.py of
--     packages/data-models) and what their keys, checks, foreign key and column
--     widths allow. `commit` is the end of a transaction:
--     it returns the new database, or an integrity error. `IsConsistent` (Store/Consistency.antt) is
--     the invariant that these constraints keep.
--   Orchestration/Queue.antt: queue.py, `WorkQueue`. One function for each method; the session is the
--     database that it takes and returns. Rows that other sessions lock are a function from ids,
--     which SKIP LOCKED skips. What an id or the clock would give is an argument.
--     Orchestration/Queue/Contract.antt is its abstract contract: used ids, busy keys and known events.
--     Orchestration/Work.antt has its data: priorities, requests, claimed work, the backoff.
--   Orchestration/Outbox.antt: events.py, `Outbox`. `Env` holds the ids that each session draws and the
--     instants of the clock one by one, `str` of a UUID and `repr`.
--   Orchestration/Stages.antt and Orchestration/Registrations.antt: stages.py, the pipeline and its keys, and
--     the registry of handlers.
--   Orchestration/Runner.antt: runner.py. An action (Runner/Session.antt) takes a world and returns a
--     result and a world: a call that raises leaves what was committed before it. Handlers and finders
--     are parameters: any function (Orchestration/Handlers.antt). `drain` and `run_until_idle` count
--     down the number of rounds that the source bounds them by, so that no fuel is added.
--   The properties are in Queue/, Runner/ and Stages/, and run at concrete tables in Examples.antt and
--     Examples/Running.antt.
--
-- The ontology (packages/ontology/src/econiq_ontology).
--   Ontology/Labels.antt and Ontology/Archetypes.antt: archetypes.py. A set is a list of its members,
--     a table of transitions a list of pairs (Archetypes/Tables.antt).
--   Ontology/Edges.antt: graph.py, the legal edges and the validator of `Relationship`.
--   Ontology/States.antt: base.py and process_layer.py, the validators of entities, observations,
--     processes and process states. A validator returns the model or `value_error`.
--   Ontology/Requirement.antt: process_layer.py, the tree of required capabilities. A coverage is an
--     exact fraction where the source has a float.
--   Ontology/Scorecards.antt: quality.py, the families of scores and the validator of `Scorecard`.
--
-- Evidence (services/agents/src/econiq_agents).
--   Evidence/Dependence.antt: dependence.py, the structural findings and the pairs left to the agent.
--   Evidence/Clustering.antt: clustering_metrics.py, the pairwise counts of `evaluate_clustering`.
--   Evidence/Independence.antt: independence.py. What the regular expression finds in a text is a
--     parameter, the threshold a fraction.
--   Evidence/Sources.antt: dependence.py, `effective_sources`. The fuel of its union-find is the
--     number of dependences: each of them makes a tree one step deeper at most.
--
-- Ingestion (services/ingestion/src/econiq_ingestion; parsing.py but for the last). A text is the list of its code points.
--   Ingestion/Normalize.antt: `normalize_whitespace`. Ingestion/Headings.antt: the regular expression of
--     headings; its digits are a parameter. Ingestion/Sections.antt: `detect_sections`.
--   Ingestion/Documents.antt: sections and documents. Ingestion/Pages.antt: `PdfParser`, from the pages that
--     pymupdf finds. Ingestion/Tags.antt: `_StripTags`, on the calls that html.parser makes.
--   Ingestion/Parsers.antt: the other parsers and the registry. Their libraries are a record of functions.
--   Ingestion/Records.antt, Ingestion/Storage.antt and Ingestion/Pipeline.antt: storage.py and pipeline.py. A
--     world has the object store, the tables and what was published; a call that raises leaves what it did.
--     The store is any record of `put` and `get`; the store in memory is one. Ingestion/Pipeline/Sources.antt:
--     `ingest_source`, over the list of documents that a source yields.
--
-- LLM access (packages/llm/src/econiq_llm). The provider is a function of the attempt and the request.
--   Llm/Types.antt, Llm/Calls.antt and Llm/Service.antt: types.py, observability.py and service.py,
--     `LLMService.structured`. The rounds of its loop are counted down from the number of attempts, so that
--     no fuel is added; the outcome has the requests and the records in order, which are what the provider
--     and the observers see. Llm/Reply.antt: `_parse_json`.
--   Llm/Schema.antt and Llm/Recursion.antt: schema_tools.py, over the JSON values of Llm/Json.antt. The
--     search for a cycle has one unit of fuel for each definition and one more: each visit that goes on
--     sees a definition that no visit saw before.
--   Llm/Costs.antt: costs.py, exact where the source has floats.
--
-- Market outcomes (services/market/src/econiq_market/outcomes.py), in Market/Outcomes.antt: prices are
-- natural numbers, and the floats that are computed from them are exact ratios. Rows of the same instant
-- are taken in the order of the table. The volatility is left out.
--
-- The API (apps/api/src/econiq_api/auth.py), in Api/Auth.antt: a request leads to an error of HTTP or to a
-- route and what it is given. The check of a token's signature is a parameter.
--
-- The graph service (services/graph/src/econiq_graph), over rows of the tables. A recursive query is the list
-- of its rows, level by level up to its depth, so that no fuel is added.
--   Graph/Rows.antt and Graph/Walks.antt: the rows, `_temporal_sql` and the recursive queries of both files.
--     Graph/Walks/ says which routes their rows are.
--   Graph/Integrity.antt: integrity.py, the checks, `would_create_cycle` and `assert_healthy`.
--   Graph/Queries.antt and Graph/Discovery.antt: queries.py and types.py, `traverse` and the queries that it
--     serves. A traversal is given the tables of its first query and those of its later ones: they are read in
--     sessions of their own. Graph/Queries/Neighbors.antt: `neighbors`, with the names of its parameters; what
--     the driver asks of these is a parameter of the model.
--
-- The Llm, Graph, Ingestion, Market and Api modules each have their theorems in folders named for the part they are
-- about, and run at concrete data in their Examples.antt.
--
-- Prelude.antt has the names that all of these share, with lemmas on lists and texts in Prelude/.
--
-- Not modelled: `poll_forever`, an endless loop around `tick`; logging; the agents with their prompts and
-- the writing of what they return; the sources that read files and feeds, and the client of S3; the
-- queries of the graph service for drawings and for evidence; the market warehouse and its providers;
-- evaluation; the rest of the API and the web application, which are queries and views around the parts above; the
-- bounds of fields, which pydantic checks, and those of the integer columns; calendar dates and square roots of the market outcomes.
mod Prelude
pub mod Orchestration
pub mod Ontology
pub mod Evidence
pub mod Ingestion
pub mod Llm
pub mod Market
pub mod Graph
pub mod Api
