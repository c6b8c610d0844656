-- ===== src/Lib.antt =====
-- kubepreflight decides whether a Kubernetes cluster can be upgraded: rules check the evidence that
-- collectors gathered, their findings make a report with a verdict, two reports are compared, and a
-- gate turns the comparison into a pass, a failure or a neutral result for CI.
--
-- The parts, each in the file named for it, with the source that it models:
--
-- Base: Boolean tests and equality as an interface, lists with native lengths, signed integers,
-- strict orders and the stable sort (Base/Sorting), which stands for Go's sort package.
--
-- Findings: internal/findings. Types, Context and Execution are the Go string types, each with a
-- constructor `other` for any other text; Reference and Finding are the resource references and the
-- findings with `Validate` and `EffectiveUpgradeGate`; Priority is `AssignPriority`; Filter is
-- `FilterByNamespaceAllowlist`; ApiCompat is `BuildAPICompatibilitySummary`; Readiness is
-- `BuildUpgradeReadinessSummary`; Report is `NewReportWithUpgradeContext`, `SetCoverage`,
-- `IsComplete`, `Result` and `ExitCode`. Mutated structs are records passed on; a Go map literal is
-- the list of its entries.
--
-- Comparison: internal/comparison. Model holds the document, Sort the three `less` functions, Diff is
-- `diffFinding`, Compare is `Compare`, Normalize is `LoadAndNormalize` behind the parser. A map of
-- findings is their list, and the order in which Go's `range` visits it is an argument (`MapOrder`),
-- of which only that it is a permutation is known. One order serves for both maps, so that two equal
-- maps are visited alike. `sort.Slice`, which may reorder equal values, is the stable sort here.
--
-- Coverage: internal/report/evaluation_coverage.go. Status is `BuildEvaluationCoverage`,
-- `BuildOverallCoverage` and the advisories, Rows the table of rule executions. The status type has
-- the four values that the program produces.
--
-- Gate: internal/gate. Evaluate is the policy and `Evaluate`.
--
-- Rules: internal/rules. Evidence is the state of a dependency in a scan, Registry is
-- `RunAllWithExecutions`, FirstError `RunAll`, Gates the contextual gates. What a rule checks is an
-- argument: a function that returns findings, with an error or not, or panics.
--
-- Versions: the Kubernetes versions of internal/findings/report.go and internal/plan/version.go.
-- Decimal is what strconv.Atoi and `%d` do for values of Go's int, Parse is `parseMajorMinor`,
-- `ParseMajorMinor` and `NormalizeKubernetesVersion`, Order is `CompareMinorVersions`, `CompareMinor`
-- and `UpgradeApplicable`, Hops is `GenerateHops` and Path is `UpgradePath`.
--
-- Classify and the other modules of Plan are for internal/plan: Classify is `RulePolicy`, Templates and Action the critical blockers of
-- action_plan.go with its other helpers, Phases is `BuildActionPlan` with its phases, Build is
-- `BuildPlan`, `Verdict` and `OverallExitCode`. How a predicted hop is assessed is the argument that
-- `BuildPlan` takes.
--
-- Rollback: internal/rollback. Types, Reasons and Model are model.go with `Validate`; Recommendation is
-- `ApplyRecommendation`; Texts, Checks, Provenance, Freshness, Families and Operational are operational.go: the
-- helpers on checks and readiness, the three validations of the evidence with their gates, the checks
-- by family, and `ApplyOperationalReadiness`. Eks is internal/rollback/eks: the snapshot that the
-- collector fills, `EvaluateEligibility` and `ApplyRollbackInsights`, and the steps of
-- internal/cli/rollback.go, of which `assess` is the whole chain. A time is its number of
-- nanoseconds, 0 for Go's zero time; the constants of the AWS SDK and what Go prints of a time or a
-- duration are arguments.
--
-- The parts meet in the report: the registry's records and findings go into it, `IsComplete` reads
-- the records, `Compare` reads two reports, coverage and gate read the report and the comparison, a
-- plan carries the report of its first hop, and the rollback engine reads a report as evidence.
--
-- Most loops are over lists, by structural recursion. The two loops that count minor versions,
-- `hops_loop` and `path_loop`, get a number of rounds: the distance between the two minor versions, and
-- two more for the path. That is enough: with more rounds they do the same, since their own condition
-- stops them. Only the path to the greatest int is endless: Go's minor version wraps around there, the
-- rounds run out whatever their number, and `upgrade_path` is `none`, for a call that does not
-- return. A number is printed by recursion on the accessibility of the number of tens. Counts are
-- natural numbers and scores signed integers, far from the bounds of Go's int; the numbers of a
-- version are read within the range of int64, and an overflow is an error as in strconv.
--
-- Not modelled: the hashes behind fingerprints and keys, the text that redacts a rule's error and
-- what `%d` prints of a count in the gate, which are arguments; the single rules, the collectors, the
-- calls of AWS, the renderers, redaction, exemptions, the catalogs, and the flags and files of the
-- command line.
pub mod Base
pub mod Findings
pub mod Comparison
pub mod Coverage
pub mod Gate
pub mod Rules
pub mod Versions
pub mod Plan
pub mod Rollback
pub mod Examples
