-- ===== src/Lib.antt =====
-- The Threat Scenario Generator: a model of the pipeline that turns the supporting systems of an
-- asset into reviewed threat scenarios, and the theorems that make it correct.
--
-- The program keeps its whole state in a database. An API creates a session (one active session for
-- each asset), a worker runs three stages for each supporting system (profile, threats, scenarios),
-- a human reviews and accepts, and a periodic reaper finishes what a dead worker left behind. All
-- of them meet in `Subsystem_Stage_State`, whose rows are claimed and locked by compare-and-set
-- statements.
--
-- - Base: Boolean tests, lists, SQL statements over tables as lists of rows, signed numbers.
-- - Enums: app/core/enums.py. Models: app/db/models.py, one record for a row of each table.
-- - Json: decoded JSON values.
-- - Dal: app/db/dal.py. Dal.Sessions has sessions, admission and the idempotency key; Dal.Stages the
--   claim, the `_LOCK` row, the board and the epochs; Dal.Outputs the output tables and their
--   `Superseded` flag; Dal.Library the reads of the threat library; Dal.Contract what a consumer
--   reads of a completed session.
-- - World: the transaction of app/db/engine.py (uncommitted and committed database), the events
--   handed to app/sse/bus.py, the clock and the source of ids.
-- - Python, Failure: the functions of Python on texts, and the two kinds of exception that the
--   pipeline tells apart.
-- - Pipeline.Run, Pipeline.Stages, Pipeline.Scenarios, Pipeline.Session: app/pipeline/tasks.py, the
--   call of the language model, the three stages, and the loop over the supporting systems.
-- - Pipeline.Grounding: app/pipeline/grounding.py. Pipeline.Validation: app/pipeline/validation.py.
-- - Pipeline.Keeps and Pipeline.Yields: the rules by which the theorems walk through a run;
--   Pipeline.Frame and Pipeline.Results apply them to the stages.
-- - Pipeline.Outcome: `decide_session_outcome` of app/pipeline/tasks.py.
-- - Pipeline.Scoping: app/pipeline/scoping.py. Pipeline.Reaper: app/pipeline/reaper.py. Pipeline.Locks:
--   the loops over the lock rows that the reaper and the accept share.
-- - Pipeline.Accept: app/pipeline/accept.py, with the promotion of new threats in Pipeline.Promotion
--   and the inserts into the threat library of app/db/dal.py in Dal.Masters.
-- - Pipeline.Cascade: app/pipeline/cascade.py, with `uuid5` as a parameter.
-- - Api: app/api. Api.Board has the status board and the results, Api.Routes accept and cancel,
--   Api.Regenerate the body that the regenerate routes share, up to the job that it enqueues and
--   that Pipeline.Cascade runs; the routes themselves fail before they reach it.
-- - Startup: app/db/invariants.py, on the answers of the database catalogue; Startup.Profile and
--   Startup.Scenarios set the first and the third stage against it.
-- - Tests: runs on concrete data.
--
-- Conventions. Ids, tenants, users and timestamps are only compared, so they are numbers, and a
-- statement that reads the clock takes the reading as an argument. A column that the modelled code
-- neither reads nor writes is left out. Scores and weights are whole numbers where the source has
-- floats, so fractions and NaN are outside the model. What Python's text
-- conversions do is a parameter. Loops are structural recursion on the list that they walk;
-- `split_into_batches` takes as fuel the number of its items, which is enough since no batch is empty.
--
-- A run of a stage starts from the transaction's database and the committed one, and ends in a value
-- or an exception with both as they are then, so what was written before an exception stays until a
-- rollback. The clock does not move during a run. The language model and the similarity models are
-- functions that may answer anything, or raise; a prompt is the arguments of its builder, and the
-- name lists that the source sorts for it stand in table order. A set of ids is a list that names
-- each once. The rows of a SELECT without ORDER BY come in the order of the list, which the database
-- does not promise, and the theorems on such reads hold up to the order. An IDENTITY value is drawn like a GUID, and texts are equal if they are the same.
--
-- Not modelled: errors that the database raises by itself, logging, configuration, authentication,
-- HTTP routing and the parsing of bodies, the route that creates a session, the joins over the
-- platform's tables that find the context of an asset (app/pipeline/context.py), the texts of prompts,
-- model clients, embeddings and migrations, and the delivery of events.
pub mod Api
pub mod Base
pub mod Enums
pub mod Json
pub mod Python
pub mod Failure
pub mod Models
pub mod Dal
pub mod World
pub mod Pipeline
pub mod Tests
pub mod Startup
