-- ===== src/Lib.antt =====
-- BugByters: verification of the decision logic of the CWE-78 study.
--
-- The program runs two static analysers over a repository, lets a language model judge each
-- finding, refines the analysers' rules with what the model says, and scores and audits the
-- outcome against known vulnerable lines. The parts and the files that model them:
--
--   Schemas      auditzoo/agents/cwe78_study/schemas.py: verdicts, findings, classifications
--   Triage       auditzoo/agents/cwe78_study/triage_agent.py: TriageAgent with its two brakes; the
--                model's reply is a parameter `ask`
--   Score        scripts/run_evaluation.py: _snippet_for, _gt_line_match, label_findings
--   Catalog      auditzoo/agents/cwe78_study/catalog_sanitizer.py
--   Joern        auditzoo/agents/cwe78_study/joern_arm.py: the state of JoernArm, its expansions
--                (Joern), and _parse_taint_results (Joern/Records)
--   Pipeline     auditzoo/agents/cwe78_study/pipeline.py: the evidence block (Pipeline/Evidence),
--                verify_sink_wrapper (Pipeline/Gate), the expansion of the catalogs
--                (Pipeline/Refine), the union of the passes (Pipeline/Scan) and the rounds of the
--                Joern arm (Pipeline/Rounds), and _pick_refinement_target (Pipeline/Target)
--   Seeds        splitEvaluations/clean_seed_catalog.py
--   Audit        splitEvaluations/audit_joern_results.py: _cluster_lines (Audit/Clusters),
--                build_aligned_rows (Audit/Rows), _relaxed_score_for_iter (Audit/Relaxed), make_fp_rows
--                and make_fn_rows (Audit/Misses)
--   Reruns       splitEvaluations/pick_rerun_targets.py and merge_semgrep_runs.py
--   Ir           auditzoo/core/ir: model/base.py and facts/base.py (Ir/Model), facts as dicts with
--                facts/unit_facts and facts/relation_facts (Ir/Facts), relations as dicts with
--                model/relation_kinds (Ir/Kinds), the networkx graph as an
--                interface with its laws (Ir/Graph; lists as an instance in Ir/Graph/Plain),
--                backend_api.py as an interface with a state of its own (Ir/Backend), and view.py
--                (Ir/View and its children)
--   Ir/Storage   auditzoo/core/agents/ir_storage_agent.py with protocol/requests.py and responses.py
--   Base         Python's str, lists, paths and integers as far as the program calls them
--   Tests        runs of the theorems at concrete inputs
--
-- The triage agent reads findings, and the scorer reads its verdicts with the same findings; both
-- check the quoted source against the text of the finding (Score/Lockstep). The Joern arm passes
-- every catalog through the sanitizer (Joern/Catalogs). A round of the pipeline scans with the arm's
-- catalogs, stamps the evidence on the findings, has them judged, and expands the catalogs for the
-- next round; Joern, the language model, the files and the exceptions are the fields of `World`. The
-- audit reads the scorer's labels.
--
-- Apart from the study, the storage agent answers requests from one view of a code property graph.
-- The view is a cache: it asks a back end for units, relations and facts, keeps them in a graph, and
-- remembers what it asked for. The back end is a record of operations, each from a state of its own
-- to an answer or an exception. A method of the view is an action on the view and on the back end's
-- state; when it raises, what it had written stays. That a unit that the back end gives has the
-- identifier that it was asked for is the hypothesis FindsById, and the laws of the graph are those
-- of IsMultiDiGraph. The searches of networkx (descendants, shortest paths) are an interface of
-- their own.
--
-- A text is the list of its code points. A Python set is the list of its elements in the order of
-- its iteration, which is left open. A dict is a record where its keys are fixed, and else a list
-- of pairs in order of insertion. Integers that can be negative are ℤ; counters are ℕ. Every loop is
-- over a list or over the number of rounds that are left, so there is no fuel. The classes of
-- characters that stand on the tables of Unicode in a regular expression are parameters.
--
-- Not modelled: floats (confidence, rates, timings), logs, files, processes, the network, the text
-- of prompts and queries, and the libraries. Of the view and the agent also the kinds of units and
-- what a kind asks of the back end, its connection, and what other tasks do while a call is
-- awaited; the check of a payload against a JSON schema is a parameter. What a JSON value is after
-- `str` or `int` is data; that a reply of the language model is a dict, and that no CVE identifier is
-- null, is taken for granted.
pub mod Base
pub mod Schemas
pub mod Triage
pub mod Score
pub mod Catalog
pub mod Ir
pub mod Joern
pub mod Audit
mod Tests
pub mod Pipeline
pub mod Seeds
pub mod Reruns
