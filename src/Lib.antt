-- ===== src/Lib.antt =====
-- FAVA Trails keeps the thoughts of agents as Markdown files in a repository. A thought starts as
-- a draft, is proposed and reviewed, and readers see it once it is approved. This library models
-- the core of the program in src/fava_trails.
--
-- Base: lists, dicts, texts, numbers and JSON values.
-- Models: `models.py`. Enums has the source types, statuses and relationships; Thought has the
--   record with its frontmatter; Markdown has its text, over a codec of frontmatters that stands for
--   pydantic and YAML; Hooks has `HookEntry`; Config has `GlobalConfig`, its validators and, in
--   Runtime, what holds of it at startup.
-- Config: `sanitize_scope_path` of `config.py`. The namespaces of that file are in Trail/Paths.
-- Governance: `governance.py`. Visibility has the principal, the view of a caller and what the view
--   allows; Arguments has `visibility_from_arguments`; Index has `record_index`; Reading has
--   `read_snapshot`, where names of files without UTF-8 are an argument; Privilege has the proofs
--   on views.
-- Transactions: `transactions.py`. Disk has the files, the journal and the commits, and a run over a
--   schedule that says of each step whether it is done, raises, or raises after its effect; a
--   process whose schedule is used up is killed. Journal has `_load_journal`, Snapshot has
--   `_snapshot`, and Persist has `_recover` and `persist_governance`.
-- Hooks: Actions and Feedback model `hook_types.py`, Pipeline models `hook_pipeline.py`. A hook is a
--   function of the event that returns actions, raises, or is timed out. It may also change in
--   place the thought that its event holds: a save and a promotion take the function that such
--   changes make of the pipeline's last thought as an argument. Hooks of a recall are taken to
--   leave their event alone. Interpolation and Registry model `hook_manifest.py`.
-- Preflight: `secret_preflight.py`. Coverage has the proofs on what its walk reads.
-- Credentials: `credentials.py`. What `lstat`, `open` and `fstat` say of a path is a record.
-- Decisions: `decisions.py`. Endpoint has the URLs, Client has the request and `ask_noul`, and Answer
--   has `_parse_noul_answer`.
-- Llm: the directory `llm`. Sanitize has the exceptions and their diagnostics, Retry has
--   `async_retry`, Registry has the models and their aliases, Completion has the requests and
--   responses, and Client has the attempts of `LLMClient.chat`, with the whole of it in Chat.
-- Review: `trust_gate.py`. Prompts has `TrustGatePromptCache`, Payload has what is
--   transmitted, Verdict has the reading of a reply, with the proofs on the object it cuts out in
--   Extraction, Oneshot has `review_thought`, over the exceptions in Failures, Decide has
--   `review_thought_decisions`, Address has the redaction of URLs, Egress has the notice of
--   where a review sends a thought, and Promoted has the promotion that follows a review.
-- Trail: `trail.py`. Paths has `_find_thought_path`, Review has the `TrustResult` of `trust_gate.py`
--   and what `propose_truth` writes of it, Promotion has what `propose_truth` decides,
--   Saving has `save_thought`, Updates has `update_thought`, `supersede` and the whole of
--   `propose_truth`, and Recall has `recall` and `recall_multi`, with what a query wants in Filter
--   and the order that hooks select in Order.
-- Tests: runs at concrete inputs.
--
-- The trail reads and writes through the transactions, asks the hooks before it promotes or
-- shows, and shows what the view allows. A thought that is proposed is sent to a reviewer, by
-- the Decisions client or a language model, and the trail writes the result on it. The YAML
-- codec, the glob, the checks for secrets, the rendering of dates, the clock, the ULIDs, the
-- operations of `str` on letters and the messages of commits are arguments, and so are
-- `json.loads`, `repr`, `urlparse`, the search for regular expressions, the HTTP client, the
-- library of the providers and the import of hooks; one that is called again may answer
-- differently, so it is numbered by the call. `float(n)` is an argument that may raise. A loop
-- recurs on a list or a text, or counts down the attempts that are left, so no fuel is needed. A
-- schedule is finite, and it is as long as the steps that are taken.
--
-- Not modelled: negative limits of a recall, the locks but for a read that meets one, the version control and its garbage collection, feedback per task,
-- the calls of the observers after an operation, the fixed texts of a notice, the server, the
-- command line and the protocols. A review that is timed out is not modelled: it is cut off
-- outside of this code.
pub mod Base
pub mod Models
pub mod Transactions
pub mod Governance
pub mod Hooks
pub mod Config
pub mod Trail
pub mod Preflight
pub mod Decisions
pub mod Credentials
pub mod Llm
pub mod Review
pub mod Tests
