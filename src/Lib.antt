-- ===== src/Lib.antt =====
-- Ayran, the audit assistant under skills/ayran/src/ayran: the parts that decide what counts as
-- evidence, what may be done, and what may be released.
--
-- Evidence/Types, Evidence/Actors, Evidence/Edges and Evidence/Machine model evidence/types.py,
-- evidence/actors.py and evidence/state_machine.py: the states of a hypothesis, the table of legal
-- edges, the kinds of actor, the required fields, and `HypothesisStateMachine` (`evaluate`,
-- `require`). Evidence/Payload has the JSON values that these read. Evidence/Trail models
-- `transition` and `_apply_local` of evidence/service.py, which put an accepted decision into the
-- hypothesis record: its status and grade, its history, and the fields that a support or a
-- duplicate adds. Evidence/Severity models `assess_severity` of evidence/severity.py.
-- Evidence/Dedup models `classify_pair` and `check_duplicates` of evidence/dedup.py.
--
-- Gates/GateA models gates/gate_a.py, the validation of a challenger's submission behind its
-- guards. Gates/GateB models gates/gate_b.py, which moves an observed hypothesis on;
-- Gates/Mechanical and Gates/Patch model gates/gate_b_mechanical.py: forged blocks, the executed
-- runs and their classification, and what a candidate patch may touch. Gates/Credentials models
-- gates/credentials.py, the tokens by which a challenger writes: `mint`, `verify`, `revoke`,
-- `consume`; Gates/Credentials/Roles has `mint_session_writer` and `mint_challenger`.
--
-- Policy/Path and Policy/Scope model policy/scope.py, the manifest of roots and rules;
-- Policy/Permissions models policy/permissions.py, which asks the scope and adds the classes of
-- action.
--
-- Router/Lens and Router/Budget model the budget of router/budget.py over the lenses of
-- context/lenses.py, with the second reading of the stored budget there and in router/persist.py;
-- Router/Strikes models `StrikeBook` of router/injection.py.
--
-- Mapping/CellMeta models the text of a coverage cell in mapping/coverage.py, and Mapping/Coverage
-- the grid of these cells. Learning/Release models learning/release.py and learning/rollback.py,
-- the published releases and the current pointer; Learning/Promotion models learning/promote.py
-- with the fixtures, contamination status and ablation that it runs; Learning/Review models the
-- queue and the reviews of learning/quarantine.py and learning/review.py for one subject.
--
-- Graph/Record and Graph/Journal model graph/journal.py: the records of a journal, and `verify` of
-- one segment with the recovery of its tail (Graph/Journal/Tail, Chain and Altered have what
-- follows of it). Graph/Batch models `build_batch` of graph/events.py and `_check_references` of
-- graph/recovery.py. Graph/Projection models the tables of graph/projection.py that commands read,
-- with `apply_batch` and `replay`; Graph/Store models `GraphStore.append` of graph/recovery.py over
-- the journal and the projection, and Graph/Store/InStep the rebuilding of the projection.
--
-- Context/Budget models the trimming of a context pack in context/compiler.py, on fuel: a round for
-- each section, since each round drops one.
--
-- Numbers are native and not negative, except where a spend or a risk may be negative
-- (Prelude/Int). A text that the code compares whole is a native string; one that it looks into is
-- a list of code points. The digits of a number are printed on fuel, the number itself, which is
-- enough since each round divides it by ten. The other loops are structural recursions over the
-- lists that they walk, and need no fuel. An exception is a value, which carries the state where
-- the code has changed it before raising.
--
-- Parameters stand for what is not in the repository's sources: HMAC, JSON and base64 behind a
-- codec with its laws (Gates/Credentials), the hash behind `content_id`, `str.lower`, the
-- comparison of `Decimal` (which may raise), and the text of a value. Arguments stand for parts
-- that are not modelled: the runner of Gate B, whether a text is an injection, whether a candidate
-- overlaps a holdout, whether a manifest meets its contract, the hashes of the journal's records,
-- what `validate_contract` and `validate_body` refuse of an event, the value that is written of an
-- item, and what the typed tables of the projection refuse.
--
-- Not modelled: the `integrity_check` of a rebuilt projection, the limit on the length of a
-- journal's line, the check that timestamps are canonical, the manifests of closed segments,
-- leases, checkpoints and queries of the graph store, the router's engine, the capture of outcomes,
-- the keys that the duplicate check compares, the rest of the context compiler, the knowledge base,
-- the tools and runtime, the bridge, the command line and the benchmark harness.
pub mod Prelude
pub mod Evidence
pub mod Policy
pub mod Router
pub mod Gates
pub mod Mapping
pub mod Learning
pub mod Graph
pub mod Context
pub mod Tests
