-- ===== src/Lib.antt =====
-- A model of the backend that evaluates CVs and project reports with AI models.
--
-- A request stores two uploads (internal/usecase/upload.go), creates a job and enqueues its
-- evaluation (internal/usecase/evaluate.go), and later asks for the result
-- (internal/usecase/result.go). A worker consumes the queue (internal/adapter/queue/redpanda),
-- evaluates the job, and sends a failed one to be retried or to the dead-letter queue. The AI
-- clients guard each model with a circuit breaker and a table of rate limits, and cache answers
-- (internal/adapter/ai); other calls go through the breakers of internal/adapter/observability and
-- internal/observability.
--
-- The files:
--   Base           names of the libraries, Boolean tests, lists, 64-bit words and times, texts, maps
--   Domain         internal/domain/entities.go: errors, jobs, uploads, results
--   Float          the interface of float64; no float is computed with
--   Retry          internal/domain/retry_entities.go: the policy and the delays
--   Failure        failure_codes.go of the queue, errorCodeFromJobError of internal/usecase/result.go
--   Effects        the ports, the clock and started goroutines, as calls of a state monad
--   RetryManager   retry_manager.go of the queue
--   Evaluation     evaluation_handler.go of the queue: HandleEvaluate
--   Consumer       consumer.go and dlq_consumer.go of the queue: what is done with a record, and the
--                  pool of workers as a sequence of actions (Workers)
--   Usecase        Enqueue, Fetch and Ingest of internal/usecase
--   ModelBreaker   internal/adapter/ai/circuit_breaker.go
--   ModelCache     internal/adapter/ai/model_cache.go
--   RateLimit      internal/adapter/ai/rate_limit_cache.go
--   CallBreaker    internal/adapter/observability/circuit_breaker.go, with its manager
--   ConnectionBreaker, Metrics
--                  circuit_breaker.go and metrics.go of internal/observability
--   AiClient       internal/adapter/ai/real/client.go: Accounts (keys and blocks), Pacing (the least
--                  interval between calls), Selection (the model that ChatJSON chooses), Refusals,
--                  Switching (the models one after the other, over RateLimit), Requests and
--                  GroqRequests (one request for a model, over Accounts and RateLimit), Providers
--                  (ChatJSONWithRetry over Accounts and Switching)
--   EmbedCache     internal/adapter/ai/cache.go, with the client that it wraps as a parameter
--   Observable     adaptive_timeout.go and observable_client.go of internal/observability: Timeout, and
--                  Client over Timeout, Metrics and ConnectionBreaker
--   FreeModels     internal/service/freemodels/service.go: Catalog (which models are free, and their
--                  order) and Service (the list that is kept, over Catalog)
--   Sweeper        internal/app/stuck_jobs.go, over the table of jobs
--   HttpServer     internal/adapter/httpserver: Validation (validation.go), Auth (auth.go) and Handlers
--                  (the public requests of handlers.go over Usecase, responses.go)
--   Examples       the theorems at concrete inputs
--
-- A function keeps its name, in snake case: RecordFailure is `record_failure`. A method on a
-- pointer takes the receiver's record last and returns the new one; each reading of the clock is an
-- argument, and a method that holds a mutex throughout is one step. In the queue and the use cases
-- a call of a port is an entry of a history, and the port's answer is a function of the history so
-- far, so that the theorems hold for every behaviour of the database, the broker, the AI models and
-- the concurrent goroutines.
--
-- Integers are 64-bit words in two's complement: sums wrap, and comparisons read the sign. Times
-- are nanoseconds since the zero time. The loop over the attempts of an evaluation has its three
-- rounds as a numeral, and every other loop recurs on its list or on its count, so no fuel is used,
-- but for the sweep of stuck jobs, which has one unit for each job and one more, as no page starts
-- beyond the last job: the switching tries eight models at most, and the number left is the
-- argument it recurs on. Texts are lists of bytes, and case and white space are those of ASCII.
--
-- A handler is a function of what it reads of the request, in the monad of the ports; its checks
-- before the use case are values that stop with a reply or pass. The retries of the wrapped client
-- recur on the number of attempts that are left.
--
-- The workers of one process share atomics (the last call to a provider) and a counter under a mutex:
-- a run is a list of accesses or of actions in any order.
--
-- Not modelled: HTTP, SQL, Kafka, Redis and the AI providers, which are answers of the environment;
-- logs, traces and Prometheus counters, which change no state that the code reads; SHA-256, HMAC,
-- Argon2, base64, the printing and reading of numbers, the detection of a file's type and the
-- decoding of JSON and of forms, which are parameters, as are the calls of a model and the service
-- of the free models in the AI client; the prompts and the parsing of the evaluation pipeline, the
-- checks of a model's text, the adaptive poller, health checks and the dashboard; configuration and
-- wiring. The iteration order of a Go map is that of an association list.
pub mod Base
pub mod ModelBreaker
pub mod Domain
pub mod Float
pub mod Retry
pub mod Failure
pub mod Effects
pub mod RetryManager
pub mod Sweeper
pub mod Evaluation
pub mod Consumer
pub mod Usecase
pub mod CallBreaker
pub mod ConnectionBreaker
pub mod ModelCache
pub mod RateLimit
pub mod Metrics
pub mod AiClient
pub mod HttpServer
pub mod EmbedCache
pub mod Observable
pub mod FreeModels
pub mod Examples
