-- ===== src/Lib.antt =====
-- The AI legacy modernization platform: a library on the backend (backend/app), a FastAPI service
-- in Python that takes a repository, runs a pipeline of agents over it and serves what they found.
--
-- A client submits a repository (backend/app/api/v1/analyze.py); the submission goes through a
-- RabbitMQ queue to a worker, or to a background task of the same process. The pipeline
-- (backend/app/services/analysis.py) takes the job through detecting, mapping, analyzing, planning
-- and validating; each agent reads and writes tables that the endpoints then serve, and that users
-- change: they stop jobs, review the tasks of a plan, and apply or revert patches.
--
-- The parts and their files:
-- - Pagination: the page arithmetic that every list endpoint repeats (backend/app/api/v1,
--   backend/app/schemas/job.py). Pagination.Cover puts the pages together; Pagination.Ordered says
--   when sorting by a key settles the order of the rows.
-- - Queue: publish and the message handler of backend/app/services/queue/rabbitmq.py, as the lists
--   of messages that they send. Queue.Retry follows a failing message; Queue.Worker joins the
--   submission (_enqueue_or_run_in_background) to the worker
--   (backend/app/workers/pipeline_worker.py).
-- - Archive: the checks and the extraction of an uploaded archive (_extract_archive of
--   backend/app/api/v1/analyze.py); Archive.Admitted says which archives are extracted.
-- - Submission: submit_job and submit_job_from_url of the same file, over working directories and
--   the table of jobs. Submission.Outcome is on what they leave behind.
-- - Job: the job record of backend/app/models/job.py, its stage display, and the stop and cancel
--   operations. Job.Progress describes the display. Job.Logs has the progress log: insert_job_log
--   of backend/app/models/job_log.py, emit_progress of backend/app/agents/base.py, get_job_logs and
--   delete_job of backend/app/api/v1/analyze.py. Job.Logs.Rows is on the rows of one job,
--   Job.Logs.Numbered on sessions that interleave, Job.Logs.Polled on one poll, Job.Logs.Followed
--   on a client that polls while sessions write.
-- - Pipeline: AnalysisService of backend/app/services/analysis.py; one definition for each method,
--   explicit state passing over the loaded object and the row that other sessions see.
--   Pipeline.Outcomes says what a run can come to, Pipeline.Run follows a whole run.
-- - Plans: plans and tasks of backend/app/models/plan.py under the endpoints of
--   backend/app/api/v1/plan.py. Plans.Review is on one review request, Plans.Sequence on any
--   sequence of them, Plans.Versions on regeneration.
-- - Patches: patches and validation results of backend/app/models/patch.py under
--   backend/app/api/v1/patches.py. Patches.Review is on applying and reverting, Patches.Sequence on
--   sequences of these requests, Patches.Views on what the listing, the export and the push select.
-- - Smells: the rules of backend/app/agents/smell_detector.py over the code graph of
--   backend/app/models/ucg.py. Smells.Names has the names of nodes, Smells.Cycles the search for
--   cyclic dependencies with the walks that it is about (Walks), its invariant (Search), its
--   recursion limit (Frames) and its reports (Reported), Smells.Agent the pass through the language
--   model and the insertion, Smells.Detector the whole run; Smells.Rules and Smells.Stored have
--   theorems on the rules and on what is stored.
-- - Inserts: how the agents write rows, all at once and one by one where the database refuses that;
--   Inserts.Refine is what this promises whatever is refused.
-- - Languages: backend/app/agents/language_detector.py. Languages.Totals has sums over the entries,
--   Languages.Counted what the detector counts and writes to the job's row.
-- - Mapper: backend/app/agents/mapper.py. Mapper has the walk, the grouping by language and the
--   batches, Mapper.Store the insertions and the run. Mapper.Files is on the walk, Mapper.Batches
--   on the slices, Mapper.Parsed on the adapters' answers, Mapper.Stored on the tables,
--   Mapper.Tallies on the edges.
-- - PythonAst: backend/app/adapters/python_ast.py, one of the adapters that the mapper calls, over
--   the syntax trees of PythonAst.Syntax and with the nodes of PythonAst.Nodes. PythonAst.Growth,
--   PythonAst.Bodies and PythonAst.Typed are on the nodes and edges that it returns,
--   PythonAst.Unused on what the rule for dead code makes of them.
-- - Validator: backend/app/agents/validator.py over the rows of Patches. Validator has the checks,
--   Validator.Run the verdict and the run; Validator.Verdict is on one patch, Validator.Reported on
--   a run.
-- - Transformer: backend/app/agents/transformer.py, and generate_patches of
--   backend/app/api/v1/patches.py (Transformer.Endpoint). Transformer.Drafts is on one drafted
--   patch, Transformer.Generated on a whole request.
-- - Learner: backend/app/agents/learner.py and the table of embeddings. Learner.Embedded is on the
--   batches, Learner.Written on any run, Learner.Unhindered on a run in which nothing fails.
-- - Push: push_patches of backend/app/api/v1/patches.py and push_patches_to_repo of
--   backend/app/services/vcs.py. Push.Paths is on the test that a path lies below the clone,
--   Push.Written on a whole request.
-- - Triage: the summary of a job's smells and their dismissal, of backend/app/api/v1/smells.py.
--   Triage.Totals has the summary as sums, Triage.Dismissal what a dismissal changes.
-- - Planner: backend/app/agents/planner.py. Planner.Order is on the order and the risk level,
--   Planner.Stored on a run.
-- - Security: API keys and scopes of backend/app/core/security.py over the rows of
--   backend/app/models/api_key.py. Security.Access is on the requests that pass. Security.Keys has
--   the endpoints of backend/app/api/v1/admin.py that create and revoke keys; Security.Life is on
--   what they change, Security.Issued on created keys, Security.Revoked on revoked ones.
-- - Graph: backend/app/api/v1/graph.py. Graph has the subgraph request; Graph.Reach is on the
--   selected edges, Graph.Search on one pass over them, Graph.Depth on the whole search.
--   Graph.Metrics has the metrics, Graph.Coupled what they say; Graph.Listings has the endpoints
--   that list, Graph.Pages is on a walk through their pages.
-- - Report: the statistics and the modernization score of backend/app/api/v1/report.py.
--   Report.Score is on the score's dependence on the smells, Report.Passed on the patches that
--   passed, Report.Counted on all numbers of a report.
-- - Prelude: shared notation, lists, texts and tables. A table is a list of rows with unique keys.
--
-- What the code gets from elsewhere is an argument: whether a call of the broker or of the database
-- raises, the answer of a language model, the outcome of an agent's call in a pipeline run,
-- SQLAlchemy's commit and query, the parser of UUIDs, Python's rounding of a float and its order of
-- traversal of a set, bcrypt's comparison, the answers of the language adapters and of Python's own
-- parser, what the database accepts, what zipfile, tarfile and git find, whether a remote takes a
-- branch, the real path of a file, the order in which a query sorts rows of equal keys, whether the
-- broker forwards rejected messages. Where a theorem relies on documented behaviour of these (a
-- loaded object is not reloaded by the session of the pipeline, a canonical UUID text parses to
-- itself), it has that as a hypothesis, and an example that meets it.
--
-- Loops are structural recursions on lists. Only the search for cyclic dependencies recurses on a
-- number, that of the nested calls for which the interpreter's recursion limit leaves room, and
-- none is a RecursionError: every nested call marks another module as visited, so room for as many
-- calls as there are modules is enough, as a theorem says. Numbers are unbounded natural numbers,
-- as Python's are; hours are counted in tenths and confidences in hundredths, and a quotient of
-- floats is the exact one. Time stamps are numbers.
--
-- Not modelled: the texts of prompts, the recommendations and documents of a report, the listing of
-- smells, the validation, health, metrics and settings endpoints, the other adapters for languages,
-- git and the stored credentials for it, and whatever is only a call of a library: logging,
-- caching, configuration, the clients of language models, the command line. The frontend and the
-- Java parser service are in other languages.
mod Prelude
pub mod Pagination
pub mod PythonAst
pub mod Learner
pub mod Push
pub mod Queue
pub mod Job
pub mod Pipeline
pub mod Plans
pub mod Patches
pub mod Smells
pub mod Planner
pub mod Security
pub mod Graph
pub mod Report
pub mod Archive
pub mod Submission
pub mod Inserts
pub mod Mapper
pub mod Languages
pub mod Validator
pub mod Transformer
pub mod Triage
