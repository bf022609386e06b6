-- ===== src/Lib.antt =====
-- A model of the Python tools that decide the CI of this repository, and of what they guarantee
-- together. All paths below are from the repository's root.
--
-- The program's parts and their modules:
--   * .github/scripts/validate-workload-registry.py, in Registry: workloads.json against the
--     repository. Registry.Msrv and Registry.Entry hold the rules of one entry,
--     Registry.Repository those of the whole file. Registry.Sound, Extends, Sorting and Reserved
--     carry the lemmas that Registry.Complete puts together.
--   * discover-workloads.py, discover-msrv-workloads.py and discover-supply-chain-workloads.py of
--     .github/scripts, in Discovery: the projections of an accepted registry that the workflows
--     fan out over. Discovery.Accepted follows one of them into the synthesis.
--   * .github/scripts/run-supply-chain-authority.py, in Discovery.Authority.
--   * .github/scripts/write-shard-result.py, in Shard: the result file of one shard.
--   * .github/scripts/synthesize-msrv-not-applicable.py, in Synthesis and Synthesis.Laws.
--   * .github/scripts/aggregate_verdict.py, in Aggregate: `compute_verdict`; Aggregate.Load reads
--     its inputs and Aggregate.Main is its `main`. Aggregate.Loops, Groups and Exact show what an
--     ok verdict means.
--   * Pipeline puts the writer, the synthesis and the verdict of the MSRV stage together: the
--     files that the first two write are the input of the third. Pipeline.Written runs the writer
--     and the synthesis on the exit codes of the runners, Pipeline.Stage the verdict.
--   * .github/scripts/validate-label-taxonomy.py, in Taxonomy: the canonical labels.
--     Taxonomy.Structural says what an accepted document holds.
--   * .github/scripts/reconcile-labels.py, in Labels, Labels.Loading, Labels.Paths and
--     Labels.Reconciled.
--   * .github/scripts/audit_issue.py, in AuditIssue and AuditIssue.Lifecycle: the issues of the
--     repository are an explicit state that each call changes.
--   * .github/scripts/release-codeql-verdict.py, in Codeql: Codeql.Rules has its tables,
--     Codeql.Coverage the check of the extracted files, Codeql.Findings the rules and results,
--     Codeql.Verdict `check`; Codeql.Reported, Harmless and Accepted say what acceptance
--     means.
--   * .github/scripts/detect-pr-qualification-scope.py, in Scope.
--   * .github/scripts/validate-oxidebatch-provenance.py, in Provenance: the rules on manifests.
--     Provenance.Version has the exact versions, Provenance.Lock the lock files and the fixtures,
--     Provenance.Repository the whole check; Subjects, Published and Accepted say what it accepts.
--   * tools/ci/release_codeql_preflight.py, in Preflight, whose calls act on an explicit state
--     (Preflight.Effects): the requests made so far and the world outside, a parameter.
--     Preflight.Metadata, Checks, Inspect and Discover have the checks on a run and the search
--     for runs, Preflight.Live `verify_live`; Answers says what GitHub and the downloads gave;
--     Reads, Once, Bounded, Verified, Released and Evidence have the proofs.
--   * .github/scripts/validate-evidence.py, in Evidence: the field checks, then the sections of an
--     evidence manifest. Evidence.Closure reads the recorded entries of the semantic closure and
--     selects those of a tree, Evidence.Validated compares both with the history; Selected,
--     Recorded and Represented say what they accept. Evidence.Sections has the producer, the
--     environment and the external artifacts, Records the records, Retention the limits and the
--     verifier, Subject the crates, and Manifest the whole; Safe and Listed say what its paths and
--     records are, Kept and Retained have the proofs, which use those of Registry and Provenance.
--   * postgres-local-partition/ci/validate-recovery.py, in Recovery: the checks on the observations
--     of a crashed run and its continuation. Recovery.Cases has the cases, Recovery.Recovered what
--     an accepted case shows.
--   * .github/scripts/run-hardening-drift-audit.py, in Drift: the readback of the settings of the
--     repository and the comparison with its policy. Drift.Audit has the checks and `main`,
--     Drift.RepositoryFields, Settings and Met say what it means that a setting is as expected,
--     Drift.Clean what an audit without findings means.
--
-- Functions keep the names of the source. An exception is the `err` of a result (Base.Result) and
-- a loop is recursion on the list it runs over. The only fuel is that of the waiting loop of
-- Preflight.Live: one round more than the polls that fit into the timeout, 281 by default, is
-- enough where the clock is what Preflight.Bounded asks of it. A JSON or TOML text is its parsed
-- value (Base.Json), or none where the parser raises; the parser itself is not modelled. A number
-- of JSON is a natural number, a float that equals one, or the literal of any other number;
-- Base.SameJson is Python's `==` on such values. The dicts of Python are association lists in insertion order
-- (Base.Dict), its sets are lists where only membership counts, and Base.Text holds the methods
-- of `str` that are used. The file system is a record of what a script asks of it.
--
-- Messages are constructors that carry the values printed in them. Printing, argument parsing,
-- HTTP requests and their failures are not modelled; a run of cargo-deny, the answers of
-- git, of GitHub and of the clock, SHA-256, `float`, `str.lower`, `fromisoformat` and the regular
-- expressions of the title rules are parameters. The Rust and Java workloads, the benchmark
-- harnesses, the verifiers of retained evidence, and the workflow files are not modelled either.
pub mod Base
pub mod Aggregate
pub mod Shard
pub mod Synthesis
pub mod Pipeline
pub mod Registry
pub mod Discovery
pub mod Labels
pub mod AuditIssue
pub mod Codeql
pub mod Scope
pub mod Evidence
pub mod Taxonomy
pub mod Provenance
pub mod Recovery
pub mod Drift
pub mod Preflight
pub mod Tests
