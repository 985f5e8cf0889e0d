-- ===== src/Lib.antt =====
-- A verification library for the trading platform under src/algo: the core of Strategy 1, a short
-- straddle that is entered once a day, watched, and closed.
--
-- The parts and how they interact. A day has one position with two legs. Its state moves only
-- through the position state machine, which appends an audit row for every move. While the
-- position is open, a tracker combines the prices of the two legs into one premium and holds the
-- levels fixed at entry; the exit decision compares the two. An entry selects the strike, writes
-- its record, sells both legs at the broker, and undoes a lone leg. An exit prepares durable
-- intents, closes each leg at the broker, and writes the outcome. An operator stops trading by
-- flags, which the exit decision reads as its halt; before an entry the risk core runs its
-- checks. What the broker reports of an order, pushed or polled, goes through one function that
-- decides what is written to the order's row. After a crash the reconciliation engine compares
-- the tables with the orders and positions at the broker. Calls of the broker may go through a
-- rate limiter, and those of Kite through a mapper of words, fields and exceptions.
--
-- Files:
-- - Enums.antt, in two children: src/algo/common/enums.py. Models.antt: the rows of
--   src/algo/database/models that the others read and write (position.py,
--   position_state_transition.py, trade.py, order_intent.py, order.py). Result.antt: the
--   exceptions, as values. Action.antt: methods that change an object and may raise, with the
--   unit of work of src/algo/database/session.py; its children are the rules for what an action
--   keeps, returns and leaves.
-- - Position.antt: src/algo/strategy_engine/strategies/strategy_1/state_machine.py and
--   PositionRepository.transition_state. Position/Graph.antt has the state diagram as a relation,
--   Position/Trace.antt runs of requests.
-- - Broker.antt, Broker/Types.antt, Broker/Contract.antt: the types of
--   src/algo/brokers/broker_base.py and exceptions.py, and the class BrokerBase as a record.
-- - Premium/Thresholds.antt, Premium/Tracker.antt:
--   src/algo/strategy_engine/strategies/strategy_1/combined_premium.py.
--   Premium/Tracker/Ticks.antt has histories of calls.
-- - Orders.antt: apply_broker_order_update of src/algo/services/order_update_processor.py and the
--   writes of OrderRepository; Orders/Table.antt: OrderUpdateProcessor.process;
--   Orders/Apply.antt: one snapshot; Orders/Settling.antt: histories of snapshots.
-- - Store.antt: the tables that the entry and the exit of one instance write, with the repository
--   methods over them; Store/Failure.antt: the failure to ERROR that both share, Store/Moves.antt
--   and Store/Frame.antt: what the writes do to the position row. Runtime.antt: the broker as a
--   parameter and the steps of a procedure; Runtime/Recording.antt lists the orders that any
--   broker is sent.
-- - Strike.antt: src/algo/strategy_engine/strategies/strategy_1/strike_selector.py, with
--   InstrumentSpec of src/algo/services/instrument_service.py; Strike/Nearest.antt is about the
--   strike and the contracts.
-- - Entry.antt, Entry/Durable.antt, Entry/Writes.antt, Entry/Procedure.antt:
--   src/algo/strategy_engine/strategies/strategy_1/entry_logic.py. Entry/Procedure/Legs.antt is
--   about the orders of one leg, Fills.antt about its price, Outcome.antt and Settled.antt about
--   how an entry ends.
-- - Simulation.antt, Simulation/Matching.antt, Simulation/Operations.antt:
--   src/algo/brokers/simulation/simulation_broker.py; Matching/Ends.antt, Filled.antt,
--   Balance.antt and Identity.antt are about a matching, Operations/Reads.antt has the calls that
--   only look, Reach.antt, Bounds.antt and Book.antt are about the states that calls reach,
--   Reads/Lost.antt about a lost acknowledgement.
-- - Day.antt: the entry and then the exit.
-- - Reconciliation.antt, Reconciliation/Intents.antt, Orphans.antt, Positions.antt and
--   Engine.antt: src/algo/services/reconciliation_engine.py, over tables of its own, for all
--   instances. Repairs.antt has what every repair keeps to, Intents/Settled.antt which intents
--   stay in doubt, Engine/Report.antt what a whole run comes to.
-- - Limiter.antt: the bucket of src/algo/brokers/rate_limiter.py; Limiter/Window.antt and
--   Limiter/Acquire.antt are about its windows and its waiting. Limiter/Delegate.antt and
--   Limiter/Methods.antt: RateLimitedBroker; Limiter/Refines.antt compares it with the broker
--   inside.
-- - Kite.antt, Kite/Values.antt, Kite/Requests.antt, Kite/Responses.antt, Kite/Faults.antt:
--   src/algo/brokers/kite/mapper.py; Kite/Calls.antt: the calls of the client in kite_broker.py
--   beside it; Kite/RoundTrip.antt is about an order that is sent and read back.
-- - Exit/Decision.antt, Exit/Flow.antt, Exit/Finish.antt, Exit/Procedure.antt:
--   src/algo/strategy_engine/strategies/strategy_1/exit_logic.py. Exit/Finish/Ending.antt and
--   Exit/Procedure/Outcome.antt are about how an exit ends, Guards.antt about its early returns,
--   Adoption.antt about a leg that is closed again after a crash.
-- - Risk/Flags.antt, Risk/KillSwitch.antt: src/algo/risk/kill_switch.py, the repository and the
--   row of its flags, and RiskCore.is_halted of src/algo/risk/risk_core.py.
--   Risk/KillSwitch/History.antt has histories of commands, Halts.antt what a flag halts.
-- - Risk/Checks.antt, Risk/Entry.antt: the rest of src/algo/risk/risk_core.py with the queries it
--   makes of the repositories. Risk/Entry/FailFast.antt is about the order of the checks,
--   Approved.antt about an approved entry, Latch.antt about the daily loss limit.
-- - Base.antt and its children: names of the libraries passed on, Boolean tests, equality by
--   instances, association lists, and integers over the native naturals.
--
-- Conventions. An amount of money is an integer that counts ten-thousandths, the scale of the
-- database columns; a fraction counts ten-thousandths too, and the levels of the tracker, exact
-- products of the two, count units of 10^-8. Instants and dates are natural numbers. A method of
-- an object takes the object and returns it beside its result; a raise keeps what was written
-- before it, and a unit of work rolls it back. What the database answers to a flush or a commit
-- is a Boolean argument (stale, refused, conflict, commit_fails). The broker is a parameter, the
-- record BrokerPort, of any type of state. An idempotency key and a broker tag are kept as the
-- parts that their texts are made of; the limit of 20 characters on a tag is the limit of nine
-- digits on the instance's number that follows from it. The simulated broker takes the quotients
-- of amounts, its clock, prices and random draws as inputs of each call.
--
-- Bounds and fuel. The waiting of the rate limiter has two passes as fuel, and that they are
-- enough on the bucket of any run, where no other thread takes a turn while the one waits, is a
-- theorem; its clock is a parameter, which does not go back and does not wake a sleeper early.
-- The polls for a terminal status and the attempts to place a close are counted: their fuel is
-- the number of attempts that the configuration holds, and running out is what the source does
-- when its attempts are used up. The loop of the simulated broker's matching has as fuel the
-- largest number of rounds that an order has left, and one more to see that none is; that this is
-- enough is a theorem.
--
-- Not modelled: texts of logs and messages beyond fixed words, the columns that record row
-- versions and the instants of writes, the hooks that report a closed trade, waiting between
-- polls, and one reading of the clock in an entry or an exit stands for all of them. The store of
-- an entry and an exit has one position row, which the entry takes to be that of its instance and
-- day, and which the exit looks up by both. The simulated broker's calls are taken one after
-- another, without its matching thread, and so are those of RateLimitedBroker; the clock of the
-- limiter counts whole units. A run of the reconciliation engine reads the clock once, and meets
-- no stale row; the strategy's PositionReconciler is a parameter of it. Of the Kite adapter only
-- the mapper, without margins, quotes and instruments, and the making of calls is modelled; the
-- client library, what Python makes of texts and of an amount as a float, and the order book at
-- Kite are parameters. The scheduler, the monitor and the market data are outside this library;
-- streams, logging, reporting and wiring are input and output.
pub mod Base
pub mod Enums
pub mod Result
pub mod Models
pub mod Kite
pub mod Reconciliation
pub mod Limiter
pub mod Position
pub mod Broker
pub mod Premium
pub mod Orders
pub mod Action
pub mod Store
pub mod Runtime
pub mod Strike
pub mod Simulation
pub mod Entry
pub mod Exit
pub mod Day
pub mod Risk
