-- ===== src/Lib.antt =====
-- Verification of Botik, a trading bot with a desktop shell.
--
-- The program has two halves. The app-service (app-service/src/botik_app_service) is a FastAPI
-- process beside the desktop shell: it starts worker processes as jobs, follows their output and
-- tells its clients of it over an event bus. The trading runtime (src/botik) takes market data,
-- forms order intents, checks them against risk limits, executes them on the exchange or on paper,
-- and protects and reconciles what it holds.
--
-- Base: shared names; dictionaries as association lists (Base/Maps); floats as an instance with the
--   order laws of IEEE 754 as named hypotheses (Base/Float), and a concrete number system that
--   meets them (Base/Fixed), on which the tests and witnesses run.
-- Jobs: app-service/src/botik_app_service/jobs. Jobs/Types has the contracts, Jobs/Bus the
--   `EventPublisher`, Jobs/Store the `JobStore`, Jobs/Supervisor the `JobSupervisor` (Control:
--   `spawn`, `terminate`; Worker: the readers of a worker's output and the wait for its end),
--   Jobs/Manager the `JobManager`. Each coroutine is cut where it waits for a thread, a process or
--   a time limit; a publication never waits, since the queues have no bound. Jobs/Steps has the
--   relation in which clients, workers, readers and time limits take these steps in any order.
--   Lifecycle, Outcome, Progress, Invariant, Delivery and Order prove; LineEffect has the lemma on
--   a line of output. Job ids are numbers, times are arguments, and f-strings are lists of pieces.
-- Risk: src/botik/risk. Risk/Manager has `RiskManager` and the gate of the trading loop in
--   src/botik/main.py (check, submission, registration); the monotonic clock is an argument, in
--   nanoseconds. Risk/Window and Risk/Rate are on the order rate, Risk/Limits on the contract of
--   `check_order`.
--   FuturesRules, FuturesProtection, ExitRules and Position model the files of these names
--   (Position also spot_rules.py); Protection, Plans, Exits and Fills prove. The texts of the
--   rules are lists of code points (Base/Text), lowered as ASCII.
-- Paper: the paper engine of the spot market, src/botik/execution/spot_paper.py, with the policy
--   interface and SimpleExitPolicy of src/botik/position (Paper/Policy). Paper/Rows has its data and
--   the rows that it writes, Paper/Spot the engine; Paper/Replay has its runs, as lists of calls, and
--   what they keep, Ticks what a tick does in a run and after a restart, Stats, Orders and Wins the
--   statistics. What a call takes from outside (whether the database answers, the time, `uuid4`) is
--   an argument.
--   The engine of futures, src/botik/execution/futures_paper.py, is in Paper/Futures and
--   Paper/FuturesStats (its statistics); FuturesTicks is on a tick, FuturesRuns on runs.
--   Paper/Sizer has src/botik/position/sizer.py.
-- Market: the market data that the strategy reads, src/botik/state/state.py (Market/State, on the
--   loops of Market/Series), and the admission of pairs, src/botik/strategy/pair_admission.py
--   (Market/Admission), on the measures that it takes as given, but for the moves by seconds
--   (Market/Moves). Tape is on what the state keeps, Gate on the verdicts over a history of
--   evaluations.
-- Client: the client that stands in for the exchange in paper mode, src/botik/execution/paper.py
--   (Client/Orders). Account is on a placement, Cancel on runs of placements and cancellations.
-- Logs: the log channels of the app-service, app-service/src/botik_app_service/logs/manager.py
--   (Logs/Manager); Buffers is on what a channel keeps, delivers and shows.
-- Strategy: the strategies that the trading loop of src/botik/main.py asks for intents,
--   src/botik/strategy/micro_spread.py (Strategy/Terms, Strategy/Micro), with spread_scanner.py
--   (Strategy/Scanner), and spike_reversal.py (Strategy/Spike). Strategy/Quoting has what they share;
--   Spacing and Pauses are on the pause between the quotes of a symbol.
-- Runners: the processes that join candles, order books, sizing and a paper engine,
--   src/botik/runners/futures_runner.py (Runners/Futures) and spot_runner.py (Runners/Spot), on
--   the signals of Runners/Signals. Once is on the positions of the one, Brackets on the entries of
--   the other.
-- Backtest: src/botik/backtest. Backtest/Engines has the two engines in memory behind one
--   interface, Backtest/Runner the loop over the candles, Backtest/Metrics the statistics and the
--   result. EngineLaws, Sides, Account and Drawdown prove.
-- Feeds: the candles of src/botik/marketdata/ohlcv_worker.py (Feeds/Ohlcv); Backfill is on the loop of
--   `backfill`.
-- Recon: reconciliation with the exchange, src/botik/execution/reconciliation_service.py. Issues has
--   `_issue_once` and the table of issues, Tables the other rows with their statements
--   (src/botik/storage/core_store.py, spot_store.py, futures_store.py), Wallet, Orders, Fills and
--   Positions the four steps, Run the run and the resolution of locks, Locks what src/botik/main.py
--   reads of them. A run is one step: nothing else writes these tables between its waits. What
--   the exchange answers, or that a call raises, is an argument, and so is the statement of the
--   database that raises after the four steps, where some issues may be resolved already; the
--   statements of the steps and of the failure branch do not fail. Ledger, Kept, Resolve and Faults
--   have the lemmas; Sound is on a run, Reports on what it audits, Failing on one that fails, Rows and
--   Repeat on two.
-- Runtime: the runtimes of the app-service, app-service/src/botik_app_service/runtime_control
--   (Runtime/Control) and runtime_status (Runtime/Status). A stop is a chain of waits, of which it is
--   an argument whether each ends in time; a wait whose time is over cancels the task, and a task
--   that was cancelled raises. Stop proves.
--
-- No definition takes fuel but the loop of `backfill`: every other loop of the modelled code
-- runs over a list. The fuel of that loop is the number of its rounds, and one for each
-- millisecond of the range and one more are enough, since each round starts later than the one
-- before it.
--
-- Not modelled: learning, and the strategy of src/botik/strategy/futures_spike_reversal.py,
-- whose signals no process asks for; and, as glue, input and output or numerical code over
-- third-party libraries, HTTP routes, the other SQL statements and the migrations, the clients
-- of the exchange and of Telegram, the other market data feeds and machine learning. The
-- frontend and the desktop shell are in other languages.
pub mod Backtest
pub mod Base
pub mod Client
pub mod Feeds
pub mod Jobs
pub mod Logs
pub mod Market
pub mod Paper
pub mod Recon
pub mod Runners
pub mod Runtime
pub mod Strategy
pub mod Risk
