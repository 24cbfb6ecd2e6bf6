-- ===== src/Lib.antt =====
-- A verification library for the solana-audit-toolkit repository.
--
-- The repository has two crates. `crates/parity` is a differential engine: it runs one scenario
-- (accounts, operations, invariants) against a reference model of a lending pool and against a
-- candidate, compares what both show after each operation, checks economic invariants, and cuts the
-- scenario down to a minimal reproduction. `crates/sat` is a static analyser: its rules make
-- findings, and a pipeline behind the rules classifies them, filters them by configuration, by a
-- baseline of accepted findings and by confirmed false positives, compares scans, ranks findings as
-- leads, counts the labels of reviewers, and analyses the account state machines of an Anchor IDL.
-- Its native back end resolves the accounts of programs without Anchor. This library models the
-- engine with its reference model, that pipeline, and the checks that work on data once it has been
-- read off the syntax trees.
--
-- Prelude and its children hold what the parts share: lists and options over native numbers, texts,
-- the string searches of Rust, machine words, and a stable sort.
--
-- The engine, from crates/parity/src:
--   Parity/Scenario    scenario.rs: Role, AccountSpec, Op, Invariant, Scenario, Config, Observables
--                      with `differences`, Trace, TraceStep
--   Parity/Invariants  invariants.rs: `check`, `default_set`
--   Parity/Model       model.rs: the trait ProgramModel as a record of operations, `div_round`, and
--                      LendingModel; `&mut self` is state passing, an error leaves the state
--   Parity/Engine      engine.rs: reports, `minimal_repro`, and what one operation adds to a report
--   Parity/Compare     engine.rs: `compare`, its loop over the operations with both models
--   Parity/Trace       engine.rs: `compare_with_trace`, its loop and the break at a missing step
--   Parity/Candidates  main.rs: `demo_scenario`, and candidates against the reference
-- The children of Parity/Model hold the theorems on division, shares, price, backing and cash; those
-- of Parity/Compare the growth of a report, prefixes, reproductions and agreement.
--
-- The pipeline, from crates/sat/src:
--   Sat/Types          types.rs: Severity, Finding, `confidence`, `affected_accounts`,
--                      `manual_verification_steps`
--   Sat/Json           json.rs: `counts`
--   Sat/Rules          sarif.rs: the ids of the table RULES, `classify_finding_rule`, levels
--   Sat/Watch          watch.rs: signatures, the normalisation of locations, `diff_signatures`
--   Sat/Baseline       baseline.rs: `from_findings`, `retain_new`
--   Sat/Config         config.rs: `apply`, `fail_on`, `fails`
--   Sat/Hunt           hunt.rs: payout classes, scores, `build_leads`
--   Sat/Calibrate      calibrate.rs: labels, `scan_repo` behind the analysis, `aggregate`,
--                      `suggestion`, `apply_suppressions`
--   Sat/Sarif          sarif.rs: `encode_uri`, `location_to_uri_and_line`
--   Sat/TxReport       tx_report.rs: loading a transaction report, and its correlation with the
--                      account structs of Anchor programs and with the model of a native program
--   Sat/Anchor         analyzer.rs: the signer, owner, mut, has_one, reinitialization and discriminator
--                      checks of account structs, and `dedupe_findings`
--   Sat/Cpi            cpi.rs: `compute_max_depth` over the call graph, and its findings
--   Sat/Pda            pda.rs: seeds of an IDL against those of the account structs
--   Sat/Accounting     accounting.rs: the two checks over the events of an instruction
--   Sat/Idl            idl.rs: account states, roles of instructions, the transition graph of an account
--                      state, the tests of the lockout check, the reinitialization and access
--                      control checks
--
-- The native back end, from crates/sat/src/native:
--   Sat/Native/Model         model.rs: programs, instructions, resolved accounts
--   Sat/Native/Kinds         frontend.rs: kinds of accounts from names and types
--   Sat/Native/Resolver      frontend.rs: the account table of `ResolutionState` and every update of
--                            it, `finish_accounts`, `merge_shank_accounts`
--   Sat/Native/Source        frontend.rs: byte literals as source text
--   Sat/Native/Expectations  expectations.rs: the expectations document
--   Sat/Native/Validate      rules/validate.rs: `seed_canonical`, `reachable_canonical`, the union-find
--                            of the chains, `sat031_findings`
--   Sat/Native/Labels        rules/lifecycle.rs: `name_tokens`, `builtin_label`
--   Sat/Native/Callees       rules/cpi.rs: `collect_blocks`, the helpers of a handler
-- Below Validate, UnionFind and Report hold the definitions of the chains; the others prove that roots stand
-- for chains (Roots, Links, Forest, History, Moves, Counts, Joins, Steps, Anchors), that the comparisons keep
-- this (Nodes, Run, Start), and what is reported (Flatten, Reported, Risk, Parents, Reports).
--
-- The front end resolves accounts, the rules read the resolved accounts and the comparisons, and the
-- expectations and the transaction reports read the model alone.
--
-- Conventions. A text is the list of its ASCII codes, so a byte is a character; the few dashes and
-- arrows in messages are one code each. A `u64` or `u128` is a native number, and `+`, `-` and `*`
-- on `u128` wrap at 2 ^ 128 as in a release build; where a theorem needs that nothing wraps, a
-- hypothesis says so. The stores of a `HashMap` that is only read are association lists; a
-- `BTreeMap` is a list of entries by rising key, and where the source visits a `HashMap` in its own
-- order, only its tests are modelled, as in the lockout check, or the order is a parameter. A hash
-- set is the list of its elements, SHA-256 is a parameter, and `sort_by` is a stable insertion sort.
--
-- Loops over lists are recursion on the list. Four functions take fuel: `peel` takes 2, the number of
-- turns of the source's loop; the printing of a number `n` takes `n + 1`, more than its digits;
-- `compute_max_depth` takes 12, since it stops at a depth above ten; and `find` takes as much as there
-- are comparisons, since each joins at most one root to another, which deepens the forest by at most
-- one. The rounds of `reachable_canonical` are the eight of the source's loop, and `collect_blocks`
-- counts the two levels that are left. What is read off syntax trees (comparisons, events, invoke
-- calls, seeds, the blocks of functions) is an argument.
--
-- Not modelled: the files, JSON, TOML, git and the command lines of both crates, the time stamps,
-- the rendering of reports, the code generated for harnesses, fuzzers and proofs of concept, and the
-- syntax analysis behind the findings: the walks of the analyser, of the native front end and of the
-- rules over syn's trees.
mod Prelude
pub mod Parity
pub mod Sat
