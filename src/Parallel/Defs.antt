-- ===== src/Parallel/Defs.antt =====
-- include/engine/parallel.h: the state of `ThreadPool`, and each stretch of code between two waits as a
-- step. A call of `body_` is an entry of `bodies`; worker `i` is the thread of index `i`, from 1. A wait
-- is a step that its predicate allows; the notifications of the condition variables are left out.
use llm_engine.Base.{
  ℕ, ◌+◌, ◌-◌, ◌*◌, ◌/◌, min, Bool, true, false, List, [], ◌∷◌, Option, none, some, if◌then◌else◌,
  ltb, ◌==◌, ◌&&◌, ◌||◌, update, ◌≡◌,
}

-- The range of part `idx`; `none` if it is empty.
unfoldable pub part : ℕ → ℕ → ℕ → Option (ℕ × ℕ)
part n count idx =
    let per = (count + n - 1) / n in
    let begin = per * idx in
    let end = min count (begin + per) in if ltb begin end then some (begin, end) else none

-- Where a worker is: at its wait, past it with `seen` set, past its part, or returned.
pub data WorkerPhase : Type 0 where
  sleeping awake ran stopped : WorkerPhase

-- Where the caller is: outside, before its own part, or at its wait.
pub data CallerPhase : Type 0 where
  outside forked waiting : CallerPhase

pub record ThreadPool : Type 0 where
  pub n : ℕ
  pub generation : ℕ
  pub remaining : ℕ
  pub stop : Bool
  pub count : ℕ
  pub caller : CallerPhase
  pub seen : ℕ → ℕ
  pub phase : ℕ → WorkerPhase
  pub bodies : List (ℕ × ℕ)

-- The constructor.
unfoldable pub make : ℕ → ThreadPool
make threads = record {
  n = if ltb 1 threads then threads else 1;
  generation = 0;
  remaining = 0;
  stop = false;
  count = 0;
  caller = CallerPhase.outside;
  seen = λ i. 0;
  phase = λ i. WorkerPhase.sleeping;
  bodies = [];
}

-- `(*body_)(begin, end)`, unless the part is empty.
unfoldable pub call_body : Option (ℕ × ℕ) → List (ℕ × ℕ) → List (ℕ × ℕ)
call_body none bodies = bodies
call_body (some r) bodies = r ∷ bodies

abbrev pub run_part : ThreadPool → ℕ → ThreadPool
run_part t idx = record t { bodies = call_body (part t.n t.count idx) t.bodies }

-- The entry of `parallel_for`, up to `run_part(0)`.
unfoldable pub parallel_for : ThreadPool → ℕ → ThreadPool
parallel_for t count =
    if count == 0
    then record t { bodies = [] }
    else if t.n == 1 || count == 1
    then record t { bodies = (0, count) ∷ [] }
    else record t {
      count = count;
      remaining = t.n - 1;
      generation = t.generation + 1;
      caller = CallerPhase.forked;
      bodies = [];
    }

-- The caller takes the first part.
abbrev pub run_first : ThreadPool → ThreadPool
run_first t = record (run_part t 0) { caller = CallerPhase.waiting }

-- A worker past its wait.
unfoldable pub wake : ThreadPool → ℕ → ThreadPool
wake t i = record t {
  seen = update t.seen i t.generation;
  phase = update t.phase i (if t.stop then WorkerPhase.stopped else WorkerPhase.awake);
}

abbrev pub run_own : ThreadPool → ℕ → ThreadPool
run_own t i = record (run_part t i) { phase = update t.phase i WorkerPhase.ran }

abbrev pub finish : ThreadPool → ℕ → ThreadPool
finish t i = record t { remaining = t.remaining - 1; phase = update t.phase i WorkerPhase.sleeping }

-- The steps of the threads in any order, each where its thread stands and its wait lets it through.
-- The destructor, which sets `stop_`, is no step: it runs after the last call.
pub data Step (t : ThreadPool) : ThreadPool → Type 0 where
  call : (count : ℕ) → t.caller ≡ CallerPhase.outside → Step t (parallel_for t count)
  first : t.caller ≡ CallerPhase.forked → Step t (run_first t)
  leave :
      t.caller ≡ CallerPhase.waiting
      → t.remaining ≡ 0
      → Step t (record t { caller = CallerPhase.outside })
  waken :
      (i : ℕ)
      → ltb 0 i && ltb i t.n ≡ true
      → t.phase i ≡ WorkerPhase.sleeping
      → (t.generation == t.seen i) ≡ false
      → Step t (wake t i)
  work :
      (i : ℕ) → ltb 0 i && ltb i t.n ≡ true → t.phase i ≡ WorkerPhase.awake → Step t (run_own t i)
  done : (i : ℕ) → ltb 0 i && ltb i t.n ≡ true → t.phase i ≡ WorkerPhase.ran → Step t (finish t i)

pub data Runs (t : ThreadPool) : ThreadPool → Type 0 where
  here : Runs t t
  next : {u v : ThreadPool} → Runs t u → Step u v → Runs t v
