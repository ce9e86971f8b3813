-- ===== src/Lib.antt =====
-- gemone: a rewards platform whose users earn points for the conversions that offer networks
-- report, and withdraw them as money. This library models the parts that decide about points and
-- money.
--
-- The parts and their files:
--
-- * packages/contracts/src/rewards.ts and
--   apps/api/src/modules/rewards/reward-accounting.service.ts, `RewardAccountingService`, the only
--   writer of `user_balances` and `reward_transactions`, are under Rewards. Rewards/Types has the
--   rows and the movements, Rewards/Store the two tables with `lockBalance` and `write`,
--   Rewards/Operations/Movements what each mutation writes, Rewards/Operations the mutations
--   (openAccount, credit, debit, reverse, mature, lock, releaseLock, settleLock, resolveLock,
--   mutate), Rewards/Reads the reads (getBalance, findBySource, findMaturable, reconcile),
--   Rewards/Status the derived status of a movement and `whereForStatus`. Rewards/Machine has every
--   call as data and the step relation that specifies what a mutation may do to the tables;
--   Refines, Reconcile, History, Once, Reversal, Amounts, Locking and Sound are about that machine,
--   Sweep about the work list of the maturation job, Race about two overlapping transactions,
--   Overdraw about a chargeback of a matured credit. Maturation is
--   apps/api/src/jobs/reward-maturation.processor.ts, `sweep`, and Matured is about it;
--   Reconciliation is apps/api/src/jobs/reconciliation.processor.ts, and Ascending and Visited are
--   about its pages.
-- * apps/api/src/modules/payouts is under Payouts: StateMachine is
--   internal/payout-state-machine.ts, Destination internal/destination.ts, Provider
--   contracts/payout-provider.ts with providers/manual-payout.provider.ts, and Service
--   payouts.service.ts (submit, applyTransition, execute; its tables in Service/Tables), which
--   moves points through the reward ledger inside its own transactions. Invariant says how a
--   withdrawal and its lock belong together, Submission and Transition are about the two operations
--   that write withdrawals (Rows has their lemmas on lists), Machine puts the calls of both parts
--   in one sequence, and Progress is about the transitions that the state machine permits,
--   Acceptance about the requests that `submit` accepts, Settlement about `execute` with the manual
--   provider.
-- * apps/api/src/modules/fraud/internal/rule-engine.ts, with fraud.config.ts and
--   packages/contracts/src/fraud.ts, is under Fraud: Rules has the seven rules and Engine
--   `evaluateRules` and `combineActions`.
-- * apps/api/src/modules/conversions is in two halves. Postbacks is the archive of what the networks
--   deliver: Types has its rows, Capture is internal/request-capture.ts, Replay
--   internal/postback-replay.ts, Intake `receive` of postback-intake.service.ts, Lifecycle its marks
--   on a row. Query and Roundtrip are about capture and replay together, Delivery about the ways in
--   which `receive` ends, Acknowledged and Repeated about the rows that result. Conversions is
--   conversions.service.ts: Types has the rows, Decisions the pure functions (resolveStatus,
--   planCredit, appliedActionOf, toRewardPoints of apps/api/src/modules/offers), Pipeline
--   `attribute` up to `persist`, Persist the transaction, in which the reward ledger moves the
--   points, Process the job on one postback, and Review `resolveHold`. Commit says what a committed
--   transaction wrote, Linked how conversions and postbacks belong together, Settled what a job on a
--   waiting postback did, Once is about jobs one after another, Rules about the decisions, Confirmed
--   and Stuck about an admin's decision and a chargeback after it.
-- * apps/api/src/modules/clicks/clicks.service.ts is under Clicks as far as the pipeline uses it:
--   Attribution has `resolveSubId`, SubId internal/sub-id.ts.
-- * apps/api/src/modules/providers is under Providers as far as intake uses it: Address and Range are
--   internal/ip-range.ts, Range also `isPostbackSourceAllowed` of providers.service.ts. Prefix is about
--   the bits that are compared, Parsed about the addresses that are read, Prefixes about the prefix
--   as it is written, Matched and Allowed about all of them together.
-- * apps/api/src/core/config/configuration.service.ts, with configuration-key.ts, is under Config: Read
--   has `resolve` with the cache and its invalidations, Write `set` and `unset`. Keys is about the keys
--   of the cache, Rows about the rows that a write leaves, Machine puts the reads of a process, the
--   commits of all and the invalidations in any order, Cached and Coherence are about what the cache
--   then holds, Resolved compares `resolve` with the tables, Applied is about `set` and `resolve`
--   together, Audit about the history.
-- * apps/api/src/modules/auth/token.service.ts is under Auth: Types has its rows, Sessions its methods,
--   `rotate` in its check and its transaction, so that two rotations can be interleaved. Rows is about
--   what the writes leave, Linear about the live tokens of a family, Rotation about the ways in which
--   `rotate` ends, Families about the calls one after another, Reuse about a token that is presented
--   twice, Race about one that is presented twice at once. login-throttle.service.ts is Throttle, over a
--   Redis that is a parameter; Admission is about the attempts that it lets through, Mortal about the
--   lifetimes of its counters, Attempts about an attempt and its release.
-- * apps/api/src/core/events/invalidation.bus.ts, over which a process tells the others to drop what they
--   cached, is under Events: Bus has its methods, Link two processes and the channel between them, Sent and
--   Delivered are about the changes that are still to arrive (what Config/Machine calls pending).
--
-- Representation. Ids are numbers, points are integers over the native naturals, a time is a number
-- of milliseconds, a text is its list of code units. A table is a list with the newest row in
-- front. A method that runs in a database transaction is a function from the tables to a result: an
-- error carries no tables, because a throw rolls the transaction back, and a caller's transaction
-- is the sequence in the monad `Tx` of Prelude/Errors. Reads that a method makes before it locks
-- the balance row are separate definitions (`reverse_check`, `mature_check`, `resolve_check`), so
-- that two overlapping transactions can be written as a schedule. The ids that `uuidv7()` returns,
-- the clock and the resolved configuration are arguments; an id that is taken makes the insert
-- fail, as the primary key does. What the JavaScript engine provides (white space, character
-- classes, `toLowerCase`, `toUpperCase`, `Math.round` of a percentage) and the payout provider are
-- parameters. The pipeline takes what it asks of the other services as a record `Services`: the
-- registry of adapters, whose parse returns or throws, the signer's HMAC, the configured rates and
-- fraud settings, the counts of the fraud context, the line that describes an error, and
-- what the write of a mark outside the transaction throws, if it fails; intake takes
-- `IntakeServices` in the same way. A value of JSON keeps a number as its text, and an object's fields
-- in their order. A `Map` is a list of its entries
-- (Prelude/Maps), and Redis, for the login throttle, a parameter with the laws of its commands. Every
-- loop is over a list, but for the jobs by which the reconciliation goes through
-- its pages: they have fuel, and one more than the number of balances is enough.
--
-- Not modelled: overflow of the 32-bit columns, the paged lists for display (getHistory, findMany,
-- the screens of the configuration), logging, HTTP controllers and validation of requests,
-- passwords and the tokens sent by mail, the adapters of the networks, the creation of clicks, the
-- catalogue of offers, notifications, the queue and its other processors, and the web application.
-- A body that is a Buffer or of a type that JSON does not have is not a value of `Json`, and a setting
-- may have JSON's null as its value, which the database client would refuse. The transactions of `set` and `unset` come one after another;
-- two that overlap may both record the value that each of them read.
pub mod Prelude
pub mod Rewards
pub mod Fraud
pub mod Payouts
pub mod Conversions
pub mod Auth
pub mod Clicks
pub mod Config
pub mod Events
pub mod Postbacks
pub mod Providers
