-- ===== src/Lib.antt =====
-- IP Risk Agent: a model of the control plane, the security gate and the license policy of the Python backend
-- (backend/src/ip_risk_agent, below "the package"), with proofs.
--
-- The program watches the files that a team mounts into a risk workspace. A changed file becomes a
-- change event with one analysis job. A worker takes the two together under a lease, analyses the
-- file, and hands in its results; from them the program opens, confirms and closes risks, appending
-- an event to their history for every step. Reviewers give risks a disposition. Where a license is at
-- stake, the class of a risk comes from a policy table over SPDX expressions, and a changed verdict
-- is put down to a cause by the fingerprints that it carries. Members of a workspace act by their role,
-- and of a file only a bounded part is sent on for analysis.
--
-- Files and code:
-- - Base and its children: Python's str, datetime, exceptions and comprehensions, and
--   core/common.py of the package. A str is a list of code points; lower and upper change ASCII
--   letters only. A datetime is an instant in microseconds, or one without a timezone. A call that
--   may raise gives an Outcome.
-- - Contracts: the enumerations of shared/contracts/python/iprisk_contracts/common.py.
-- - Risk, Risk/Transitions, Risk/Validity, Risk/Lifecycle: core/risk/models.py and transitions.py.
--   `post_init` is `__post_init__`, that is, what the constructor and `dataclasses.replace` return.
-- - Risk/Events, Risk/Exclusion and its children: application/risk_exclusion.py, with the moment and the
--   new ids as arguments: Exclusion for one risk of a loop, Exclusion/Loops for the loops.
-- - Risk/Attribution, Risk/Causes: core/risk/attribution.py.
-- - Workspaces/LicenseProfile, Workspaces/PolicyVersion: core/workspaces/license_profile.py. SHA-256
--   is a parameter, a record with the fact that the digits of a digest are hexadecimal.
-- - Workspaces/Models: core/workspaces/models.py; Workspaces/Ownership with its children, Workspaces/Invitations
--   and Workspaces/Members: the plans of core/workspaces/services.py; Workspaces/Service and its children:
--   application/workspace_admin/service.py, each operation on the state that its unit of work holds, with the ids
--   that it draws and the test for a user as arguments. Service/Owned, Writes and Handover have the invariant of the two
--   tables, Changes, Joining and Founding what the plans give, Frame and Tables what is read and written, Steps and
--   OwnerSteps the operations, Runs the calls one after the other, Authority, Callers, Guests and Permits who may call, and
--   Lasting and Leaving what becomes of a member that is removed.
--   Workspaces/Administration and its children: the transfer of
--   ownership seen on one workspace and its memberships. Audit: core/audit/models.py.
-- - Execution/ChangeEvents: application/process_change/models.py and transitions.py;
--   Execution/AnalysisJobs: application/analysis_jobs/models.py and transitions.py;
--   Execution/Orchestration: application/analysis_jobs/service.py. An operation of the service is a
--   function on the pair of event and job that its unit of work loads and saves, with the reading of
--   the clock as an argument; Reachable has the relation of one such call, and its closure, and Waiting
--   what a call can do while a lease lasts. AnalysisJobs/Soundness says what a job must be apart from the
--   tests of its constructor.
-- - License/Spdx and its children: intelligence/license/spdx.py and spdx_data.py: identifiers, and
--   Parser and Printer for expressions;
--   License/Policy and its children: intelligence/license/policy.py. The tables are complete.
-- - Memberships, Memberships/Authorization: core/memberships/models.py and authorization.py;
--   Memberships/Invitations: core/memberships/models.py and identity.py, with str.casefold as an argument.
-- - Review and its children: application/risk_review/service.py. A call is a function of what its unit
--   of work finds; the comment of the reviewer is left out.
-- - Mounts/Alias and its children, Mounts/Models: a mount and its alias, of core/mounts/models.py;
--   Mounts/Plans: core/mounts/services.py.
-- - Security/Minimization: application/security_gate/minimization.py. A text that is cut to a number of
--   bytes is cut at the last code point that fits, where the code drops bytes until they decode.
-- - Identity and its children: `stable_key` of core/common.py, core/risk/identity.py and
--   core/memberships/identity.py. SHA-256 is the parameter of Workspaces/LicenseProfile;
--   Identity/Json is json.dumps of the standard library on a list of strings.
-- - Notifications: core/notifications/models.py; Artifacts: core/artifacts/models.py; Risk/Evidence:
--   core/risk/models.py.
-- - Exec, Exec/Rules: methods that read and write a state and may raise.
-- - Repositories and its children: application/repositories/in_memory.py. ControlState is what a unit
--   of work holds; Repositories/UnitOfWork has the unit of work and the store over any state, and
--   Serial the relation of the calls that several units of work make on one store;
--   Repositories/Mounts/Pairs, Writes, Unique and Calls: the indexes of the mounts.
-- - Reconcile and its children: application/risk_reconcile/service.py and retention.py. Reconcile has the
--   results that analyses hand in (shared/contracts/python/iprisk_contracts), less the fields that the intake
--   does not read, and in Library the functions that it calls: Unicode tables, redaction patterns, urlsplit.
--   Retention: what of a text, a reference or a metadata mapping is kept; Projections: the candidates as keys
--   and priorities; Recording, EvidenceWrites, History, Notices, Loop: the parts of `_reconcile`;
--   Outcomes, Failures, Aggregation: the outcome of a job; Intake: `_accept_once`, and Intake/Attempts:
--   `accept_analysis_result`, on the stores and clocks that its attempts meet.
--   Frame, Effects, Observing, Closing, Keys, Listing, Closable: what the parts do to the risks of a state;
--   Appending: what they do to the events of one;
--   Intake/Kept: what they leave of a job; Refinement, Reviving, Aggregation/Ends, Intake/Once, Intake/Attempts/Atomic: the theorems;
--   Examples: data for the tests.
-- - Risk/Metadata: JSON values. Identity/Normal: the keys are texts that the constructors keep.
-- - Tests in each part: runs, and the properties at concrete inputs.
--
-- Instants are natural numbers without the upper bound of `datetime`, so the time at which a
-- reclaimed attempt starts, a microsecond later, is always there. The parser of expressions runs on
-- fuel, eight calls for each token and eight more: each of its functions calls the next one, and the
-- seventh spends a token. All other recursion is structural.
--
-- Not modelled: opaque metadata mappings other than those of evidence, sentences for people, the tables of users
-- and sources, the erasers that run after a request to delete a workspace, the guesses at a license from free text, and everything that speaks to a network: the HTTP API, connectors, cloud adapters,
-- language models and the patent search.
pub mod Base
pub mod Exec
pub mod Audit
pub mod Contracts
pub mod Risk
pub mod Workspaces
pub mod Execution
pub mod License
pub mod Memberships
pub mod Security
pub mod Identity
pub mod Notifications
pub mod Artifacts
pub mod Repositories
pub mod Reconcile
pub mod Review
pub mod Mounts
