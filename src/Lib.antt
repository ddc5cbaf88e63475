-- ===== src/Lib.antt =====
-- frontier-refactor-factory: the factory that turns candidates (functions, modules, packages,
-- repositories) into refactoring tasks with a verifier whose strength has been measured.
--
-- The parts of the program and the files that model them
--
--   frf/core/evidence.py     Evidence, Evidence/Checks: the three outcomes of a check, the
--                            verdict, the battery, and the checks E1 to E9 as functions of the
--                            measurements that they are given.
--   frf/core/pipeline.py     Pipeline/Spec, Corpus, Gates, Run: `_specify`, the gates on a
--   frf/core/scale.py        frozen corpus (`_check_corpus`, `answer_diversity`, adequacy,
--                            timing), the battery, emission and the checks on the written
--                            package, `_run` and `build_one` in the order of the source.
--                            Pipeline/Hooks holds the seam `Hooks` and `Scale`, Pipeline/Batch
--                            the counters of a batch and its summary.
--   frf/core/sourcing.py     Sourcing/Memory (the persisted keys and cursors), Sourcing/Fetch
--                            (a page with its retries), Sourcing/Walk (the walk over an index).
--   frf/core/adequacy.py     Adequacy: reach, floor, the assessment of both, and measuring the
--   frf/observe/call/        floor. Adequacy/Repair: the repair loop with its proposals and
--     stages.py              refreezes, and `audit` of the call seam, which measures once.
--   frf/core/scoring.py      Scoring: the score of a graded submission.
--   frf/core/diversity.py    Diversity: the key of a repository, the policy, and the policies
--                            that the jobs of a scale share.
--   frf/core/checkpoint.py   Checkpoint: writing a record with every way in which the call can
--                            stop, and what the resuming run and the report read.
--   frf/automation.py        Roll: the loop of `run` that sources waves of candidates until
--                            enough tasks are emitted.
--   frf/observe/compare/     Compare: JSON answers against each other, floats under a policy.
--     numeric.py
--   frf/core/timing.py       Timing: ratios of costs, the bootstrap, the noise floor, the worst
--                            shape. Timing/Measure: `_paired_ratios` and `measure`.
--   frf/observe/process/     Process: what a command leaves behind, the distillation of runs into
--     observation.py         an expectation with its masked lines, and grading. Process/Corpus and
--     stages.py              Process/Battery: its score, `_perturb`, the battery. Process/Workload:
--     runner.py              the steps that do enough to be timed. Process/Timing: the choice of
--     workload.py            timed scenarios. Process/Tally and Process/Freeze: `freeze`, from the
--                            observed scenarios to a corpus.
--   frf/observe/call/        Call: answers, digests, the distillation of runs and grading, with
--     observation.py         the comparison under a policy. Call/Session: `call_many` with its
--     stages.py              chunks. Call/Corpus and Call/Freeze: `freeze`, over live or batched
--     runner.py              subjects. Call/Battery: the battery and its scores.
--   frf/core/                SyncGate: the gate at which every call of a model waits, as a
--     rate_limiter.py        relation of steps over the threads that pass it.
--
-- The pipeline calls the checks of Evidence on the package that it emits, and takes a seam's
-- adequacy stage, which repairs or audits, as a hook; the batteries of Process and Call are made
-- of the same checks, on what a seam froze. The walk feeds the pipeline candidates, which
-- Diversity thins out, and each outcome goes to the checkpoint, which the next run reads.
--
-- Exec is what the modelled Python shares: exceptions with their classes, the refusal `Stage`,
-- and computations that read and change a world and end in a value or a raised exception.
-- Exec/Ensures holds the rules by which a postcondition follows a computation.
-- Prelude holds lists over native numbers, Boolean tests, the messages of verdicts, decimal
-- numerals (Decimal), and equality tests as instances with Python's sets (Sets).
-- The files named Laws hold the theorems, and the files named Tests their instances on inputs.
--
-- How the code corresponds to the model
--
-- A function of the source is a definition with its name, less the leading underscore; a loop is
-- a recursion with the loop's body as a helper named for what it does; a `try` statement is the
-- function of the raised exception that its clauses make. The hooks of the pipeline, the
-- indexes, the checks of frf/core/harbor.py, the attestation and the purge of bytecode are
-- arguments: functions that act on a world of any type, and may raise. A walk has as fuel the
-- number of pages it may ask for: past the last row a page is empty, which ends the walk, or it
-- fails, and the third failure in a row ends it too. The repair loop recurses on the repairs that
-- it has left. A roll has as fuel its rounds: a round that does not end it sees a candidate that
-- was not seen before, or asks for more of them, up to the limit on attempts.
--
-- A share that the source compares with a bound (a floor, a spread, a trust rule) is a quotient
-- of two counts, compared as a product: the two agree wherever the counts are below 2^26, where
-- rounding to a double cannot move a quotient across one of the bounds. A measured time is a
-- natural number of picoseconds, a wait one of seconds, and at the gate one of any unit. A score is
-- an exact quotient, where the source rounds to a double, and a finite float of an answer is a
-- multiple of a unit, up to the largest float. `str.lower` and `str.strip` act on the ASCII part of a string.
--
-- The seams take sha256, `json.dumps` and `str.isdigit` as arguments, with the hypothesis that the
-- hash is injective where a theorem needs it, and so they take the deadline, the subject that
-- answers and the sandbox that observes a scenario: computations on a world. A cost is an exact
-- positive quotient or no cost at all; the pseudorandom choices of the bootstrap, which are the
-- same at every call on as many ratios, and the number of draws are arguments. The recursion of
-- `call_many` has as fuel the number of its items, and each round takes at least one.
--
-- A file of the checkpoint is the list of its lines, and `os.replace` is atomic, as POSIX has it;
-- the JSON library is an argument. The replies
-- of a model are arguments, as the values that are read from them.
--
-- What is not modelled: log lines, the JSON and TOML text of files, and everything that talks
-- to the outside (containers, sandboxes, registries, models, compilers, the file system), the
-- command line and the scripts. Of the seams: running a command or a subject over a pipe, the
-- reading of a tree that a command left, the text of an emitted verifier, the reasons that the
-- numeric comparison gives, and the freeze that follows a repair. Of timing: the raw readings that
-- the evidence keeps beside its bounds.
mod Prelude
pub mod Adequacy
pub mod Call
pub mod Checkpoint
pub mod Compare
pub mod Diversity
pub mod Evidence
pub mod Exec
pub mod Pipeline
pub mod Process
pub mod Roll
pub mod Scoring
pub mod Sourcing
pub mod SyncGate
pub mod Timing
