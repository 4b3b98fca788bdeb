-- ===== src/Lib.antt =====
-- Verification library of IRSForge: the auth service, the oracle, the checks of the
-- configuration, the pricing library, and a part of the web application.
--
-- IRSForge is a demonstration platform for interest rate swaps on a Daml ledger. Two services of
-- it, the checks of their configuration, and the pricing library that the oracle and the web
-- application share are modelled here.
--
-- The auth service (auth/src) signs users in, with a password or through an identity provider,
-- and hands out access tokens whose rights the ledger trusts. `main` (auth/src/index.ts) makes
-- three stores in memory and one provider, and sends each request to a handler:
--
--   Auth/HandoffStore    auth/src/auth/handoff-store.ts, one-time codes for access tokens
--   Auth/StateStore      auth/src/auth/state-store.ts, pending authorization requests
--   Auth/RefreshStore    auth/src/tokens/refresh.ts, refresh tokens
--   Auth/Token           auth/src/tokens/issuer.ts, the claims of an access token
--   Auth/Provider        auth/src/providers, BuiltinProvider, OidcProvider, assertOrgMembership
--   Auth/Http            what the handlers share: requests, replies, the monad `Handler`
--   Auth/Session         auth/src/routes: login, callback, handoff, refresh, logout
--   Auth/OauthToken      auth/src/routes/oauth-token.ts and auth/src/service-accounts
--   Auth/Server          auth/src/index.ts, the request listener
--
-- A handler is a function from the state of the stores to a reply, or a throw, and the next
-- state. Requests are handled one after the other: how the handlers of two requests interleave
-- where they wait is not modelled. A reading of the clock or a random value is
-- an argument (`Draws`). bcrypt, jose, the identity provider's answers, and the parsers of the
-- platform (JSON, query, cookies, forms) are parameters or inputs.
--
-- The oracle (oracle/src/services) publishes marks for collateral agreements (CSA) and drives the
-- life cycle of swaps, in passes over the ledger's contracts:
--
--   Oracle/Marks/Formula      mark-publisher/formula.ts and contracts/src/Csa/Math.daml
--   Oracle/Marks/Netting      mark-publisher/netting-set.ts and compute.ts
--   Oracle/Marks/Csa          mark-publisher/decode.ts
--   Oracle/Marks/Publisher    mark-publisher/publisher.ts; Publisher/Tick: index.ts
--   Oracle/Marks/Coalesce     mark-publisher/coalesced-tick.ts
--   Oracle/Replay             mark-publisher/replay.ts, replay-types.ts and replay-decode.ts;
--                             Replay/Context: the context of a snapshot; Replay/Swap: the swap of
--                             a workflow, with replay-decode-irs.ts, -cds.ts and -fpml.ts;
--                             Replay/Snapshot: snapshot.ts
--   Oracle/Lifecycle/Rows     scheduler/effect-discovery.ts, instrument-events.ts, index.ts
--   Oracle/Lifecycle/Trigger  scheduler/trigger-lifecycle.ts
--   Oracle/Lifecycle/Mature   scheduler/mature.ts and instrument-maturity.ts
--   Oracle/Lifecycle/Holdings scheduler/holdings-resolver.ts
--   Oracle/Lifecycle/SettleNet scheduler/settle-net.ts
--
-- A pass is a function of the ledger's rows and of its answers to the commands; it returns the
-- commands that it sent and its counts. Where the source computes with floating point numbers, the
-- amounts of the life cycle are integers in the smallest unit of a currency. Those of the marks
-- are integers in a unit that doubles hold exactly (1 or 2 ^ -10, not 0.01) and are below 2 ^ 53
-- of it, so that sums and products do not round; quotients do, and Base/Double says how
-- (`IsDoubleDivision`: IEEE 754 for operands below 2 ^ 52). Pricing a swap is a parameter there;
-- the replay, which makes what the pricing is given, is over the numbers of the pricing library.
-- The coalesced tick is a step relation: callers trigger and stop, timers fire, ticks end.
--
-- The configuration (shared-config/src) tells both services which orgs there are:
--
--   Config               shared-config/src/schema-orgs.ts and schema-refinements.ts
--   Config/Seeds         schema-bootstrap.ts and schema-service-accounts.ts
--
-- The pricing library (shared-pricing/src) values swaps:
--
--   Pricing/Number       the operations on the platform's numbers, as an interface
--   Pricing/Types        engine/types.ts, and what the platform does with dates
--   Pricing/Dates        addMonths of engine/cashflows.ts
--   Pricing/Schedule     generateScheduleDates of engine/cashflows.ts
--   Pricing/DayCount     engine/day-count.ts
--   Pricing/Curves       engine/curves.ts and strategies/resolve-projection.ts
--   Pricing/Cashflows    the coupons of engine/cashflows.ts
--   Pricing/Strategies   engine/strategies: IRS and basis swaps; Strategies/Products: the others
--   Pricing/Engine       engine/fx.ts and bump-parallel.ts; Engine/Price: engine/price.ts
--   Pricing/Newton       solver/newton.ts
--   Pricing/Horizon      risk/time.ts
--   Pricing/Bump         risk/bump.ts; Pricing/Metrics: risk/metrics.ts, but for the FX deltas
--   Pricing/Fpml         fpml/classify.ts and types.ts; Fpml/Swap: stream-payload.ts and
--                        build-config.ts
--   Pricing/Attribution  attribution/decompose.ts and between.ts
--
-- A number is a value of a type N with the operations that the code calls (`Number`), and no law
-- comes with them: a theorem that needs sums without rounding, say, takes that as a hypothesis,
-- and the integers show that it can hold. A function that throws gives an `Outcome`. A date of a
-- schedule is a day of the local calendar, other dates are times in milliseconds; `Platform` is
-- what the platform does with both. -0, NaN and infinite numbers have no case of their own.
--
-- The web application (app/src) is a user interface; what it decides in two places is modelled:
--
--   App/CallAmount           features/csa/decode.ts and call-amount.ts, the open call that the
--                            drawer of a CSA shows
--   App/Workspace            features/workspace: the state and actions of hooks/use-workspace-reducer
--   App/Workspace/Dates      utils/date-recalc.ts and the tenors of utils/tenor-parser.ts
--   App/Workspace/Defaults   the default legs of constants.ts
--   App/Workspace/Reducer    `workspaceReducer`, a function from a state and an action to a state
--
-- Most loops are structural recursion. The schedule's loop has as fuel the months up to the end
-- and two more: each step moves at least one month on. The search for the power of two in
-- `doubles_for` has the number itself as fuel. Base holds the numbers, maps and
-- list lemmas that the parts share. Laws, Sound and the other child modules hold the theorems,
-- Tests their instances at concrete inputs.
--
-- Not modelled: the rest of the web application, the callers of the root finder and the
-- accruals of the pricing library, the rest of the configuration schemas (among it the
-- routing rules), the Daml contracts but for one helper, start-up, logging, and the oracle's
-- full tick with its set-up and its market data.
pub mod Base
pub mod Auth
pub mod Oracle
pub mod Config
pub mod Pricing
pub mod App
