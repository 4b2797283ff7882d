-- ===== src/Lib.antt =====
-- ReclaimOS: the recovery of failed subscription charges, modelled from its Python sources
-- under src/reclaimos. Webhooks bring events, which a log keeps once each. A failed payment is
-- diagnosed and explained, an agent decides what to do about it, an
-- executor charges or contacts the customer at most once for each logical action, a ledger
-- keeps what happened in a hash chain, and a harness plays policies against a sealed world.
--
-- The files and the code they model:
--   Prelude and below       shared names and lemmas; texts are lists of code points, `Dict` is
--                           a Python dict in insertion order
--   Store/Canonical         store/canonical.py: payload values, canonical_json, chain_hash
--   Store/Ledger            store/ledger.py over the table of store/db.py: append, head,
--                           count, verify
--   Store/Idempotency       store/idempotency.py: the protocol (`Backend`, with its laws in
--                           Laws) and the SQLite and in-memory backends
--   Store/Events            store/events.py: the deduplicating event log
--   Ingest/Signature        ingest/signature.py: the check of a signature
--   Ingest/Json, Ingest/Webhook       ingest/webhook.py: one delivery of a webhook
--   Domain/Declines, Domain/Models    domain/decline_codes.py, domain/models.py
--   Domain/Real             the floats: an interface, with the laws of their order
--   Diagnose/Classifier     diagnose/classifier.py: the index of error tuples, classify
--   Diagnose/Propensity     diagnose/propensity.py: the factors and score
--   Diagnose/Explainer      diagnose/explainer.py, diagnose/redact.py: explain, its prompts and
--                           the template
--   Live/Receiver           live/webhook_receiver.py: the HTTP handler and its report
--   Live/Recorder           live/recorder.py: the scrubbed transcript of the calls
--   Policy/Mandate          policy/mandate.py and build_charge of policy/executor.py
--   Policy/Gateway          policy/gateway.py: the protocol and the simulated gateway
--   Policy/Executor         policy/executor.py: execute_charge, execute_contact
--   Policy/Review           policy/hitl.py: the review queue
--   Policy/Config           policy/config.py, policy/timing.py, LoopState of eval/policy.py
--   Policy/Agent            policy/agent.py: decide
--   Money                   money.py: rupees, to_rupee_str, format_inr, pct
--   Generator/World         generator/outcome_model.py: success_probability, resolve
--   Generator/Oracle        generator/outcome_model.py: the ceiling, oracle_recovers
--   Generator/Profiles      generator/profiles.py: the weights and the sampling helpers
--   Generator/Population    generator/generate.py and draw_world_record: generate, split_records
--   Eval/Harness            eval/harness.py (run_record), eval/costs.py
--   Eval/Outcomes           eval/harness.py: the rows of a split, run_policy, run_oracle
--   Eval/Statistics, Eval/Metrics     eval/metrics.py: compute, the bootstrap, exceptions
--   Eval/Runner             eval/runner.py: evaluate
--   Eval/Baselines          eval/baselines.py: the four fixed policies
--   Tests                   stand-ins for the parameters, runs on concrete inputs
--
-- How the parts meet: the executor is a client of an idempotency store and of a gateway, both
-- records of operations over a state of their own. Store/Idempotency/Laws says what every store
-- promises and proves it of both backends; the theorems on the executor use the laws alone.
-- A gateway may raise at any call. The agent is the policy that the harness runs, and it
-- submits to the review queue, which is its state.
--
-- State is passed explicitly, an exception is a value of the result: none, for the IndexError of
-- decide on an empty ladder and of resolve on a record without draws, and for a policy of the
-- harness that raises. Each method of a store is
-- one atomic step, as in the code (one INSERT, a transaction, or a lock), so an interleaving of
-- threads is a list of calls.
--
-- Parameters are what Python's library does: SHA-256, HMAC, json.dumps and json.loads,
-- datetime.isoformat, time zones, the clock, uuid4, str.strip, random.Random,
-- regular expressions, and the floats. Amounts are paise as exact
-- integers, instants are microseconds.
--
-- Fuel: the loop of run_record has 9 rounds, one more than the 8 slots of the envelope, and the
-- result on run_record shows that every policy which does not raise ends within them.
-- `decimal n` has the fuel n, which is enough since each round divides by ten. The digit groups of
-- format_inr have a round for each digit.
--
-- Not modelled: the command line and the settings, which read the environment and print; the
-- sockets and the log file of the receiver; the client of the live gateway and the report on
-- what it saw; the files of a dataset and of a run; the Markdown report; the network client of
-- the language model; a RecursionError of json.loads on the body of a webhook; and the texts of
-- exceptions.
pub mod Prelude
pub mod Store
pub mod Ingest
pub mod Domain
pub mod Diagnose
pub mod Policy
pub mod Generator
pub mod Eval
pub mod Tests
pub mod Money
pub mod Live
