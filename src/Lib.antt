-- ===== src/Lib.antt =====
-- Server Resource Guardian: a verification library for the safety core of the guardian.
--
-- The guardian watches a host and may act on one container under an explicit, short-lived
-- authorization. The parts modelled here are the ones that decide whether an action may run and what
-- is said about it afterwards.
--
-- Parts and files. Paths are from the repository's root.
--   Prelude, Result, Value   shared: tests, lists, tables, integers, texts, errors, JSON values.
--   Recovery                 src/guardian_recovery.py: `assess_recovery`; Recovery/Host and
--                            Recovery/Business are the two layers, Recovery/TwoLayer combines them,
--                            and Recovery/Ledger is `CooldownLedger`.
--   Actions                  src/guardian_actions.py: `validate_request`, the adapters and the
--                            allowlist. The process runner is an argument.
--   State                    src/guardian_state.py: `GuardianStateStore`. Each method is a function
--                            from a fault, its arguments and the tables to its result and the new
--                            tables. State/Cooldowns/Refinement relates the durable ledger to the
--                            one of Recovery/Ledger. State/Capabilities, State/Intents, State/Slots, State/Cooldowns
--                            and State/Reconcile have the methods; State/Steps has the writes as a
--                            step relation; State/History has any sequence of calls.
--   Controller               src/guardian_controller.py: `GuardianController.enforce`. Its stretches
--                            are Controller/Reading (the event), Controller/Gates (breaker, cooldown
--                            and request), Controller/Grant (capability and intent),
--                            Controller/Execute (the executor), Controller/Assessment (recovery) and
--                            Controller/Conclusion (what is recorded and answered);
--                            Controller/Enforce composes them. It calls Actions, Recovery and State.
--   Reserve                  src/guardian_reserve_state.py: `ReserveBrokerStateStore`, with its methods
--                            in Reserve/Approvals, Reserve/Claims and Reserve/Finish, and any sequence
--                            of calls in Reserve/Histories.
--   Pressure                 src/guardian_pressure_gate.py: `PressureGate` from the signals on, and
--                            `slim_audit_event` in Pressure/Slimming.
--   Joint                    src/guardian_multirisk.py: `build_joint_decision`, with its two loops in
--                            Joint and its decision in Joint/Decision.
--   Outbox                   src/guardian_notification_outbox.py: `DurableNotificationOutbox`. Its
--                            methods are in Outbox/Payload, Outbox/Audit, Outbox/Enqueue,
--                            Outbox/Deliver, Outbox/Finish, Outbox/Requeue and Outbox/Reading;
--                            Outbox/Moves has the primitive changes they are made of, and
--                            Outbox/Histories any sequence of calls, with processes that die.
--   Risk                     src/guardian_risk.py: `CompositeRiskEvaluator`. Risk has its state and
--                            the quality of a sample, Risk/Signals the thresholds, Risk/Evaluation
--                            `evaluate`, and Risk/Dwell any sequence of samples.
--   Shedding                 src/guardian_emergency_shedding.py: Shedding/Policy is the policy,
--                            Shedding/Reading, Shedding/Identity and Shedding/Entries read risks,
--                            candidates and sets, and `build_emergency_shedding_decision` is the
--                            checks of Shedding/Ranking, the ranking of Shedding/Rows, the choice of
--                            Shedding/Target, and their composition in Shedding/Decide.
--   Revalidation             src/guardian_revalidation.py: `revalidate_observer_event`, whose guards
--                            are the list of Revalidation/Checks in the order of the source.
--   Notices                  src/guardian_notifications.py: the texts read of an event, and in
--                            Notices/Building `build_notification_event`, with `enqueue_event` of
--                            the outbox.
--   Tests                    runs at concrete inputs, and the theorems at inputs that meet their
--                            hypotheses.
--
-- How the state corresponds. A table of the database is a list of rows in the order of insertion, and
-- a row is a record with the columns of the schema. A transaction commits or leaves the tables as
-- they were; `Fault` says whether and where SQLite fails during a call, and each fault has the error
-- of the handler that catches it. Raised exceptions are the `err` of `Result`, with their text. Texts
-- such as states and reason codes are kept as the source spells them.
--
-- Numbers. Instants, durations, percentages and byte counts are integers: counts of one fine fixed
-- unit (Pressure and the default policy of Controller/Assessment name theirs). Differences and
-- comparisons are then exact; NaN, infinities and rounding are not modelled, nor are the texts that
-- UTF-8 cannot encode, and in a stored payload a time is written as its count. Memory in Pressure is
-- a natural number, as the kernel prints it.
--
-- A growth rate of Risk is a fraction, compared by multiplying out.
--
-- The controller's world is the in-memory ledger, the store's tables and the list of the requests
-- handed to the executor so far. Each stretch stops with a result, raises, or goes on with a value
-- (`Gate`), and `next` puts two stretches in sequence.
--
-- The outbox keeps its payloads and its delivered severities as JSON texts; a row has the value that
-- the text encodes, or nothing where the text cannot be decoded. A delivery takes its faults, its
-- clock and its sink from a `Turn`, and the machine around the database lists the payloads that were
-- sent and the pauses. `drain` counts its turns down from `max_items`, which is its fuel as it is in
-- the source. A query without ORDER BY takes the first row in the order of insertion.
--
-- Parameters. The digest `hashlib.sha256` and the id of `uuid.uuid4` are arguments, and so are the
-- process runner, the executor and the recovery probe, Python's texts of lists and mappings, its
-- `int` of a text, the rounding of reported ratios and times, the case mapping of texts, the instant
-- of a text in ISO format, and the start of a hexadecimal digest. `now` is always given, as the
-- callers that use one clock do, but for Shedding, which has the clock beside it.
--
-- Not modelled: file modes and the creation of the database file, the JSON file of the in-memory
-- ledger, the parsers of the /proc texts, the notification dispatcher in memory, the coordinator, and
-- the subsystems that read the host, read the configuration or serve sockets.
pub mod Prelude
pub mod Recovery
pub mod Result
pub mod Actions
pub mod Value
pub mod State
pub mod Controller
pub mod Reserve
pub mod Pressure
pub mod Joint
pub mod Outbox
pub mod Risk
pub mod Shedding
pub mod Revalidation
pub mod Notices
mod Tests
