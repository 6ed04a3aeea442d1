-- ===== src/Consumer/Workers.antt =====
-- internal/adapter/queue/redpanda/consumer.go: the pool of workers. A run is a sequence of actions:
-- a record arrives, the manager's ticker fires, a worker takes a record, a worker ends one.
-- The counts are those of goroutines and of records, and stay far below a word's bound.
pub mod Leak
pub mod Range
use ai_cv_evaluator.Base.{
  ℕ, zero, suc, ◌+◌, ◌-◌, ◌*◌, ◌/◌, min, max, ap, Bool, ◌&&◌, ◌||◌, List, [], ◌∷◌, ltb, ◌==◌,
  if◌then◌else◌, take, inc, dec,
}

-- `active_workers` is the counter of the program; `idle` and `busy` count the goroutines that run.
pub record Pool : Type 0 where
  pub min_workers : ℕ
  pub max_workers : ℕ
  pub active_workers : ℕ
  pub queue_len : ℕ
  pub idle : ℕ
  pub busy : ℕ

abbrev pub increment_active_workers : Pool → Pool
increment_active_workers p = record p { active_workers = p.active_workers + 1 }

abbrev pub decrement_active_workers : Pool → Pool
decrement_active_workers p =
    if ltb 0 p.active_workers then record p { active_workers = p.active_workers - 1 } else p

abbrev pub min_int : ℕ → ℕ → ℕ
min_int a b = if ltb a b then a else b

-- `go c.worker(...)`: the worker waits for a record.
abbrev start_worker : Pool → Pool
start_worker p = record p { idle = p.idle + 1 }

unfoldable pub start_worker_pool : ℕ → Pool → Pool
start_worker_pool zero p = p
start_worker_pool (suc n) p = start_worker_pool n (start_worker p)

-- What `NewConsumerWithTopic` and `startWorkerPool` leave.
unfoldable pub new_pool : ℕ → ℕ → Pool
new_pool min_workers max_workers = start_worker_pool min_workers (record {
  min_workers = min_workers;
  max_workers = max_workers;
  active_workers = min_workers;
  queue_len = 0;
  idle = 0;
  busy = 0;
})

unfoldable pub add_workers : ℕ → Pool → Pool
add_workers zero p = p
add_workers (suc n) p =
    let added = start_worker (increment_active_workers p) in
    let p' = if ltb p.active_workers p.max_workers then added else p in add_workers n p'

unfoldable pub remove_workers : ℕ → Pool → Pool
remove_workers zero p = p
remove_workers (suc n) p =
    let p' = if ltb p.min_workers p.active_workers then decrement_active_workers p else p in
    remove_workers n p'

-- More workers than the least number, and the queue is empty or shorter than they are.
abbrev pub has_excess : ℕ → ℕ → ℕ → Bool
has_excess min_workers active queue_len =
    ltb min_workers active && (queue_len == 0 || ltb queue_len active)

-- Both parts look at the counter and at the queue as they were at the start.
unfoldable pub scale_workers : Pool → Pool
scale_workers p =
    let active = p.active_workers in
    let queue_len = p.queue_len in
    let to_add = min_int queue_len (p.max_workers - active) in
    let excess = active - p.min_workers in
    let to_remove =
      if ltb 0 queue_len && ltb queue_len active
      then min_int excess (active - queue_len)
      else excess in
    let grown = if ltb 0 queue_len && ltb active p.max_workers then add_workers to_add p else p in
    if has_excess p.min_workers active queue_len then remove_workers to_remove grown else grown

pub data Action : Type 0 where
  arrives scales takes finishes : Action

-- A record that arrives while the queue is empty and a worker waits is handed to that worker; else it
-- enters the queue, where there is room, or is processed by a goroutine of its own outside the pool.
-- A worker that has ended a record leaves when there is an excess, and lowers no counter.
unfoldable pub step : Action → Pool → Pool
step arrives p =
    if ltb 0 p.idle && p.queue_len == 0
    then record p { idle = p.idle - 1; busy = p.busy + 1 }
    else if ltb p.queue_len (p.max_workers * 2)
    then record p { queue_len = p.queue_len + 1 }
    else p
step scales p = scale_workers p
step takes p =
    if ltb 0 p.idle && ltb 0 p.queue_len
    then record p { idle = p.idle - 1; busy = p.busy + 1; queue_len = p.queue_len - 1 }
    else p
step finishes p =
    if ltb 0 p.busy
    then if has_excess p.min_workers p.active_workers p.queue_len
      then record p { busy = p.busy - 1 }
      else record p { busy = p.busy - 1; idle = p.idle + 1 }
    else p

unfoldable pub run : List Action → Pool → Pool
run [] p = p
run (a ∷ as') p = run as' (step a p)
