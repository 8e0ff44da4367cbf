-- ===== src/Lib.antt =====
-- The flight recorder keeps an append-only ledger of decisions about accounts, of the actions that
-- followed and of their outcomes, and answers questions about them from the ledger alone. This
-- library models the parts of it that compute an answer, and proves what they promise.
--
-- The parts, and where they are modelled:
--   src/flight_recorder/logic/rules.py: Rules. `parse_rule` reads a factor's rule text through the
--     four patterns of Rules/Pattern, tried in the order of the code with `fullmatch`; `matches`
--     tests a preserved value. An exception is a value of `RuleError`.
--   src/flight_recorder/logic/evaluator.py: Evaluator. `evaluate` runs an artifact over a preserved
--     context at a decision boundary, through `index`, `parse_rules`, `evaluate_factors` and
--     `conclude`, the parts of the function of that name in the code.
--   src/flight_recorder/ledger/schema.py: Ledger, one list of rows for each table of schema
--     version 1, in the order of insertion. A nullable column is an option. The queries over them are
--     comprehensions (Attribution/Snapshot). Ledger/Growth says how one event lets a ledger grow.
--   src/flight_recorder/collector/service.py, projections.py and schema.py: Collector, the only writer
--     of the ledger. `ingest` (Collector/Service) answers a redelivery, checks an envelope against what
--     is stored (Collector/References and Collector/Attributed), and writes the event with its
--     projections (Collector/Project); on an exception the ledger stays. Collector/Reachable is the
--     relation of the ledgers that deliveries lead to, and the invariants are inductions on it.
--     Collector/Models and Collector/Contract are the validation in front of it, and
--     Collector/Submitted the ledgers that `ingest_json` leads to.
--   src/flight_recorder/attribution/service.py: Submission. `submit` retries one envelope over a
--     transport that may lose a request or its answer; `run_attribution` is the loop of the command
--     (Submission/Run), and `retry_operation` resubmits a stored operation. What becomes of the attempts
--     of a submission is a list, of which `submit` reads `SUBMIT_ATTEMPTS` entries. An envelope that the
--     command builds goes to `ingest`: the validation in front of it is left out there.
--   src/flight_recorder/attribution/policy.py: Attribution. `attribute` resolves an outcome version at
--     a snapshot cutoff (Attribution/Attribute), by the eligibility rules of Attribution/Claims;
--     Attribution/Selection picks effective outcome versions and effective attributions.
--   src/flight_recorder/replay/reconstruct.py and replay/counterfactual.py: Replay. `reconstruct`
--     verifies the stored artifact (Replay/Verify), reads the sealed context (Replay/Load), evaluates,
--     and compares with the record (Replay/Reconstruct, which also has `replay`); `compare` of
--     Replay/Compare is the structured comparison of the two results.
-- The collector calls the attribution policy, to recompute what is submitted, and the policy reads what
-- the collector wrote. Replay calls the evaluator, and the evaluator the rules. Attribution calls no
-- rule and no evaluation: the two meet in the ledger, where a decision that an evaluation produced is
-- what an action and an outcome refer to.
--
-- Base holds what the parts share: lists, integers over native numbers, texts as code points, dates
-- and instants in microseconds, dicts in insertion order, and results that may be exceptions.
--
-- Parameters: `datetime.fromisoformat` of Python is an argument of the definitions that read stored
-- timestamps, and so are `date.fromisoformat`, `json.loads`, the canonical hash (`json.dumps` and
-- `hashlib`) and the validation of an artifact's text by pydantic in Replay. For the
-- collector they are the fields of `Codec`, and what pydantic reads is in `Reader`. Nothing is assumed
-- of them, but that `json.loads` reads back one stored payload in the theorem on `retry_operation`. The
-- readers of the two later provenance versions of a decision (replay/crm_context.py and
-- collector/provenance.py) are the fields of `LaterVersions`, an interface that Replay takes.
--
-- Bounds and fuel: `int` refuses more than 4,300 digits and `timedelta` more than 999,999,999 days, as
-- Python does; the limits of `date` to the years 1 to 9999 are left out. The loop of
-- `effective_outcome_version` runs on one unit of fuel for each outcome row and one more, which is
-- enough since every round marks another row as seen.
--
-- Not modelled: the texts of exceptions; failures and constraints of the storage; the HTTP
-- layer; the captures of later schema versions (collector/provenance.py, crm_provenance.py,
-- capture_contract.py, operation_contract.py and crm_operations.py) and the readers of their decisions
-- in Replay; the adapters of Salesforce and HubSpot; the insights, the data generator, the web pages
-- and the commands.
pub mod Base
pub mod Rules
pub mod Evaluator
pub mod Ledger
pub mod Attribution
pub mod Replay
pub mod Collector
pub mod Submission
