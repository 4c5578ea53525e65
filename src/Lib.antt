-- ===== src/Lib.antt =====
-- LumenHorizon turns night-light granules of the VIIRS satellites into map tiles. Three Rust services
-- work in a line: ingest-svc finds granules in NASA's catalogue, stores their raw bytes and
-- queues a message for each; processing-svc takes the messages, renders and publishes tile sets,
-- and removes old ones; api-gateway serves the tiles to clients. backend/shared holds what they share.
--
-- This library models the services' own logic as functions and proves what they promise.
--
-- The parts, the files that model them, and the code (paths from the repository's root):
--   Prelude, Text, Action   shared helpers: tests and lists over the native numbers, Result with `?` as
--                           bind, texts as lists of code points, and actions on a world that return
--                           a value or an error.
--   Float                   the floating-point operations, as an interface with its laws; Float/Fixed
--                           is an executable instance for examples. One type stands for f64, in which
--                           bounds are computed, and for f32, the type of radiances; no theorem
--                           assumes more than the laws it names.
--   Retry                   backend/shared/src/http_retry.rs. Retry/Delay is RetryConfig::delay_for_attempt;
--                           Retry/Send is send_with_retry; Retry/Operation is retry_async; Retry/History
--                           says what a run of attempts may look like.
--   Tiles                   backend/shared/src/slippy_tiles.rs. Tiles/Coord is validate_tile_coord, Tiles/Paths
--                           the blob paths, Tiles/Range is tile_range_for_bounds, Tiles/Bounds the
--                           bounds of tiles and clipping.
--   Generate                backend/processing-svc/src/generate, render.rs and manifest.rs.
--                           Generate/Planning is planning.rs, Generate/Window is window.rs,
--                           Generate/Jobs and Generate/JoinSet are the jobs of orchestration.rs and the
--                           loop that renders them, Generate/TileSet its two outer functions,
--                           Generate/Samples is rendering.rs (Generate/Images is about it), Generate/Render and Generate/Manifest are
--                           the files of these names. Generate/Enumeration compares the jobs with the
--                           plan; Generate/Sorting, Generate/Completion, Generate/InOrder,
--                           Generate/JoinFailure, Generate/Parallel and Generate/InFlight are about the
--                           loop, and Generate/Complete and Generate/Over about a generation.
--   Process                 backend/processing-svc/src/process/message.rs with the statements of db.rs on
--                           processing_log. Process/Message is process_parsed_message (Process/Gate its
--                           checks), Process/Log the table, Process/TileSetId is tile_set_id_for_message;
--                           Process/Quiet, Process/Rows, Process/Started and Process/Accepted are the
--                           steps of Process/Done.
--   Message                 backend/shared/src/processing_message.rs and backend/ingest-svc/src/models.rs.
--                           Message/Product is the table of products, Message/Tile the scan for
--                           hXXvYY, Message/Validate is ProcessingMessage::new and its parts,
--                           Message/Granule makes the message that ingest-svc sends.
--   Discovery               backend/ingest-svc/src/cmr.rs. Discovery/Entry reads an entry of the catalogue,
--                           Discovery/Search is the search of the products page by page, and Discovery/Paging
--                           compares it with the whole listing.
--   Ingest                  backend/ingest-svc/src/jobs.rs and jobs: Ingest/Tables and Ingest/Statements
--                           are the tables ingest_log and ingest_recovery_outbox with the SQL of
--                           ingest_log.rs, Ingest/World the calls and their fates, Ingest/Pipeline is
--                           process_granule and the loop of run_ingest_inner, Ingest/Run is
--                           run_ingest_inner with its resume points, Ingest/Recovery is recovery.rs,
--                           Ingest/Failures is failures.rs, Ingest/Validation and Ingest/Summary are the
--                           files of these names. Ingest/Keeps, Ingest/JobsKeep, Ingest/RecoveryKeeps
--                           and Ingest/RunKeeps lift what the statements keep to the jobs,
--                           Ingest/Invariant is the tables' invariant, Ingest/Jobs the sequences of
--                           jobs; Ingest/Settled (over Ingest/Rows and Ingest/Taken), Ingest/Outcomes,
--                           Ingest/Enqueued (over Ingest/Sent) and Ingest/RunCounts say how granules and
--                           runs end.
--   RateLimit               backend/api-gateway/src/rate_limit.rs. RateLimit/Policy holds the classes,
--                           RateLimit/Store the three stores behind one interface, RateLimit/Limiter is
--                           RateLimiter::check; RateLimit/Window and RateLimit/Refusal are about the memory store.
--   Worker                  backend/processing-svc/src/process/queue_worker.rs, failure.rs and dispatch.rs.
--                           Worker/Poll is one poll, branch by branch, and the loop as a relation;
--                           Worker/Services lists what it calls and Worker/Laws what it relies on.
--   Science                 backend/processing-svc/src/science and backend/shared/src/dark_sky.rs.
--                           Science/Pixel classifies samples, Science/Summary counts them, Science/DarkSky
--                           picks the class of a radiance.
--   Publish                 backend/processing-svc/src/publish.rs with insert_tile_set and
--                           promote_latest_tile_set of db.rs. Publish/Steps is the publication,
--                           Publish/Triple says what an action establishes; Publish/Stored,
--                           Publish/Uploads, Publish/Promotion and Publish/Order say what a
--                           publication leaves.
--   Retention               backend/processing-svc/src/retention.rs. Retention/Cleanup is the run;
--                           Retention/Safety, Retention/Run and Retention/Survival say what it leaves alone.
--   Each part's Tests file runs it on examples.
--
-- How the parts meet: Ingest/Pipeline sends the message of Message/Granule; a message made by
-- Message/Granule is the one that Worker/Poll parses with Message/Validate; Generate plans with
-- Tiles/Range and renders with Science; Process/Message generates with Generate/TileSet and publishes
-- with Publish/Steps; Retention deletes by the prefixes and paths of Tiles/Paths.
--
-- State and integers. State is passed explicitly; what belongs to PostgreSQL, Azure or Redis is a
-- record of actions over an abstract world, and a theorem that needs something of them names it
-- as a law, with an instance in the Tests file. The tables of the ingest jobs and of a
-- publication are lists of rows; a statement on them, or an upload of a publication, is applied,
-- refused, or applied with its answer lost, as the world decides. A concurrent writer of the same
-- tables is not modelled: jobs run one after the other. Numbers are natural numbers with the
-- wrap-around of u32, u64 and u128 written out; subtraction stops at 0 where the code saturates.
-- Times are nanoseconds of a monotonic clock. Loops recurse on their list; the retry loops
-- recurse on the number of attempts left, which starts at max(max_attempts, 1), so that they
-- always end. The decimal printer runs on fuel n + 1 for n, more than its digits. The catalogue
-- search goes on as long as pages are full, so that it runs on fuel, one unit for each page. The loop
-- over the join set has one unit of fuel for each job, since a round joins one task; which of the
-- running tasks ends next is a function of the count of those that have ended, and is any function.
-- A panic is a value of its own.
--
-- Not modelled: logging and metrics, HTTP, SQL but for the statements of the ingest jobs, of
-- processing_log and of a publication, queue and blob protocols, JSON, XML and date formats, GDAL, PNG encoding,
-- configuration from the environment, the Swift application, the gateway's authentication and
-- routes, and the selections of the retention.
pub mod Prelude
pub mod Action
pub mod Float
pub mod Text
pub mod Tiles
pub mod Generate
pub mod Process
pub mod Message
pub mod Retry
pub mod RateLimit
pub mod Worker
pub mod Publish
pub mod Retention
pub mod Science
pub mod Discovery
pub mod Ingest
