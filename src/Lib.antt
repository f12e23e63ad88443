-- ===== src/Lib.antt =====
-- SourceTrace answers questions over uploaded documents with citations. This library models the core
-- of its API, apps/api/src/sourcetrace: the retrieval of evidence, the workflow that turns it into an
-- answer or a refusal, and the ingestion and indexing of documents.
--
-- The parts, and the files that model them:
-- - rag/workflow.py, the answer workflow: Rag/Workflow. State has the records, the events, the
--   services that the workflow is given, and the monad of the nodes: a state of the world (the number
--   of calls made, the events and the traces) and a result that may be a cancellation or a failure.
--   Nodes has one function for each node (`analyze` is `_analyze`, `assess_evidence` is `_assess`,
--   `give_answer` is `_answer`, the others have the source's name), Graph the edges and `run`, Traces
--   the trace. Rules, Ready and Steps are the proof: rules for the monad, what the state holds when a
--   node starts, and each node from such a state. Runs and Reported speak of whole runs.
-- - rag/workflow.py, the citation labels: Rag/Citation. The label pattern has a fixed length, so
--   `findall` and `sub` are scans.
-- - rag/answer_text.py: Rag/AnswerText. rag/language.py: Rag/Language. rag/ports.py: Rag/Ports.
-- - modules/retrieval/service.py: Retrieval. Query has the normalisation of queries, plans and
--   `resolve_plan`; Evidence the records; Search `RetrievalService.search`, which uses Fusion
--   (`_fuse_ranked_candidates`), Rerank (the loop over the reranker's scores and
--   `_query_coverage_candidate_ids`), Coverage (`_coverage_candidate_limits`) and Pages
--   (`select_page_diverse`).
--   Order has the order of candidates, apart from the keys that the source sorts by.
-- - modules/retrieval/hybrid.py: Retrieval/Hybrid, `fuse_ranked_channels`, with Groups (the candidates
--   of one chunk), Ranks (what a chunk is fused by) and Fused; and Retrieval/Hybrid/Lexical,
--   `build_lexical_search_query`. The regular expression is an automaton over the text, with the part
--   of a match that it has read as its state.
-- - modules/documents/ingestion.py: Documents. Chunking is `TokenWindowChunker`; Records the rows of
--   modules/documents/models.py with the calls of modules/documents/repository.py that ingestion makes,
--   over a session that has working and committed rows; Ingestion `DocumentIngestionService`, and
--   Delivery its attempts after errors; Retry `DocumentIngestionCoordinator`.
-- - workers/tasks.py: Documents/Worker, the message that ingests a version and then indexes it, with
--   its configurations and its retries.
-- - modules/documents/indexing.py: Documents/Indexing, with `validate_embeddings` of rag/embeddings.py,
--   over the same session. The components of a vector are the bits of its floats, and what validation
--   tests of them are parameters.
-- - modules/answers: Answers. Records has the rows and the events; Repository `AnswerRepository` over a
--   table of runs, with Lifecycle (the life of a run), Operations (sequences of operations) and Sound
--   (the constraints of modules/answers/models.py) below it; Stream `AnswerService._stream` and
--   `_execute_stream`. The stream takes what the other callers do to the tables before each of its
--   calls, the events and the end of the workflow, and the number of events that the client takes.
-- - The lists of modules/answers, modules/conversations, modules/knowledge_bases and modules/documents:
--   Paging. Base64 and Utf8 are the codecs of the standard library, Cursor `_encode_cursor` and
--   `_decode_cursor`, Keyset the statements of the repositories (filter, order and limit), the page
--   that the services make of them and a reader that follows the cursors. `isoformat`, `fromisoformat`
--   and the text of a UUID are parameters with laws.
-- - modules/conversations and modules/knowledge_bases: Conversations, the operations of both services
--   over their tables, with Owned (the constraints) and Listed (the lists) below it. Deletion is
--   `KnowledgeBaseService.delete` with the files that modules/documents/storage.py stages, ended at any
--   step (`Ending`), and `reconcile_staged_document_deletions` of api/recovery.py.
-- - modules/documents/service.py: Documents/Registration, `register_version` with its three attempts,
--   where other sessions commit versions before each of its five statements (`Schedule`); Sound and
--   Attempts are about the constraints, Stored and Alone about what is returned. Documents/Upload has
--   the upload: `_stage`, the validation, the storage, the registration and the queue; `Turn` says
--   how the disk and the broker behave during one call.
-- - evaluation/harness.py and evaluation/review.py: Evaluation, with Matching
--   (evaluation/evidence_matching.py),
--   Matched (when evidence passes) and Reviewed (what a review leaves) below it.
--   evaluation/citation_diagnostics.py: Evaluation/Citations.
-- - Prelude and Text have what these share: tests, lists, dictionaries in the order of insertion, a
--   stable sort, `str.strip`, `str.split` and `join`.
--
-- How the source is read. A text is the list of its code points. A UUID is the number that its digits
-- spell, so that `str` of it keeps the order; the text of a UUID and `uuid5` are parameters. A score
-- is an element of the interface `Scores`, whose operations are those that the code uses. `casefold`
-- is a parameter. A Python set is a list in the order of insertion, a dictionary an association list.
-- A function that can raise returns a result or runs in the monad above. A service is a function of
-- the number of the call, so it may answer each call differently, raise or ask for cancellation at any
-- of them.
--
-- Fuel. `page_chunks` counts down from the number of tokens, which is never less than the starts that
-- are left. `drive` has fuel: it is LangGraph's recursion limit, the number of nodes that may run.
-- The longest path of the graph has 15 nodes (one supplemental retrieval, one repair, and a support
-- validation before and after it), and the theorems hold for every limit from 15 on; the library's
-- default is 25. `register_loop` counts the attempts that are left, and `send_loop` the sends. `deliver` and `work` count the retries that are left, and `max_retries` is the source's.
--
-- Not modelled: the closing of the model's stream, which nothing in the model observes; the rendering
-- of traces as dictionaries; prompts, HTTP, SQL and the broker; a folder that is removed in part; a
-- commit that fails, but for the deletion of a knowledge base; a client that leaves at another place
-- than a `yield` or the wait for the workflow; the other diagnostics of the evaluation and its runs against
-- real providers.
pub mod Prelude
pub mod Text
pub mod Rag
pub mod Retrieval
pub mod Documents
pub mod Answers
pub mod Paging
pub mod Conversations
pub mod Evaluation
mod Examples
