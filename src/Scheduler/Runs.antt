-- ===== src/Scheduler/Runs.antt =====
-- Runs of src/scheduler/scheduler.cpp: requests arrive and are cancelled, and steps are planned
-- and applied, in any order.
use llm_engine.Base.{
  ℕ, ◌+◌, ◌≤◌, ◌<◌, ◌≡◌, refl, sym, subst, ◌∙◌, inl, inr, Bool, true, List, [], ◌∷◌, Checked, ok,
  ◌>>=◌, ◌==◌, length, count, count-append, arith, Bool-cases,
}
use llm_engine.KvCache.{
  KvCacheManager, empty_table, is_empty, fresh_pool, make-Inv, Inv-cong, entries,
  empty_table-IsTable,
}
use llm_engine.Sequence.{Sequence, SeqStatus, StepInput, num_tokens}
use llm_engine.Scheduler.Defs.{Scheduler, SchedulerConfig, SchedulerStats, add, abort}
use llm_engine.Scheduler.Step.{schedule}
use llm_engine.Scheduler.Done.{on_step_done}
use llm_engine.Scheduler.Pool.{Known, IsPool-same, tables_of}
use llm_engine.Scheduler.Sound.{Sound, update_ne}
use llm_engine.Scheduler.Evict.{abort-Sound}
use llm_engine.Scheduler.Settle.{iteration-Sound}

abbrev pub no_counts : SchedulerStats
no_counts = record {
  steps = 0;
  preemptions = 0;
  admitted = 0;
  finished = 0;
  timed_out = 0;
  recomputed_tokens = 0;
  max_wait_steps = 0;
}

-- The constructor of the scheduler, with an unused pool behind it.
unfoldable pub start : SchedulerConfig → KvCacheManager → (ℕ → Sequence) → Scheduler
start cfg kv seqs = record {
  cfg = cfg;
  kv = kv;
  seqs = seqs;
  waiting = [];
  running = [];
  static_batch_open = true;
  stats = no_counts;
  events = [];
}

-- A request that was not scheduled yet.
abbrev pub Untouched : Sequence → Type 0
Untouched q = (q.block_table ≡ empty_table) × (q.num_computed ≡ 0) × (0 < num_tokens q)

tables_of-Untouched :
    (live : List ℕ) (seqs : ℕ → Sequence)
    → ((p : ℕ) → Untouched (seqs p))
    → (b h : ℕ) → tables_of live seqs b h ≡ 0
unfolding tables_of entries
tables_of-Untouched [] seqs u b h = refl
tables_of-Untouched (p ∷ ps) seqs u b h =
    rw (u p).0 (omega (arith, tables_of-Untouched ps seqs u b h))

-- A scheduler that starts with an unused pool of positive size and positive block size, for distinct
-- requests with no block, no computed token and a prompt that is not empty, is sound.
pub start-Sound :
    (live : List ℕ) (cfg : SchedulerConfig) (num_blocks block_size : ℕ) (caching : Bool)
    (seqs : ℕ → Sequence)
    → 0 < num_blocks
    → 0 < block_size
    → ((p : ℕ) → count p live ≤ 1)
    → ((p : ℕ) → Untouched (seqs p))
    → Sound live block_size (start cfg (fresh_pool num_blocks block_size caching) seqs)
unfolding start fresh_pool
start-Sound live cfg n bs caching seqs hn hb unique u = record {
  pool = record {
    inv =
        Inv-cong _ _ (λ b h. sym (tables_of-Untouched live seqs u b h))
          (make-Inv n bs caching hn hb).1;
    tables = λ p k. rw (u p).0 empty_table-IsTable;
    sized = hb;
    unique = unique;
  };
  size = refl;
  distinct = λ p. omega arith;
  known = λ p k. absurd (omega arith);
  computed = λ p k. let (_, c, pos) = u p in (omega (arith, c), pos);
  waits = λ p k. absurd (omega arith);
  runs = λ p k. absurd (omega arith);
}

-- What happens to a scheduler: `sample` stands for the model and the sampler.
pub data Act : Type 0 where
  submit : ℕ → ℕ → Act
  cancel : ℕ → ℕ → Act
  iterate : ℕ → ℕ → (StepInput → List ℕ) → Act

pub perform : Scheduler → Act → Checked Scheduler
perform s (submit now p) = ok (add s now p)
perform s (cancel now id) = abort s now id
perform s (iterate now later sample) =
    schedule now s >>= λ (step, planned). on_step_done later step (sample step) planned

-- A request is submitted once, with no blocks, and the model gives a token for each logit row.
abbrev pub Fair : List ℕ → Scheduler → Act → Type 0
Fair live s (submit now p) =
    Known live p
    × (count p s.waiting + count p s.running ≡ 0)
    × (is_empty (s.seqs p).block_table ≡ true)
Fair live s (cancel now id) = Unit
Fair live s (iterate now later sample) = (step : StepInput) → length (sample step) ≡ step.num_logits

pub add-Sound :
    {live : List ℕ} {bs : ℕ} (now p : ℕ) (s : Scheduler)
    → Sound live bs s
    → Known live p
    → count p s.waiting + count p s.running ≡ 0
    → is_empty (s.seqs p).block_table ≡ true
    → Sound live bs (add s now p)
unfolding add
add-Sound now p s h known off blank =
    let q = record (s.seqs p) { status = SeqStatus.waiting; t_arrival = now } in
    let counts = λ (r : ℕ). count-append r s.waiting (p ∷ []) in
    record {
      pool = IsPool-same h.pool p known q refl;
      size = h.size;
      distinct = λ r. ground (arith, h.distinct r, counts r, off);
      known = λ r k. elim (Bool-cases (r == p)) [
        | inl hit ↦ let e : r ≡ p = ground arith in rw e known
        | inr miss ↦ h.known r (ground (arith, k, counts r))
      ];
      computed = λ r k. elim (Bool-cases (r == p)) [
        | inl hit ↦ rw hit (h.computed p known)
        | inr miss ↦ rw miss (h.computed r k)
      ];
      waits = λ r k. elim (Bool-cases (r == p)) [
        | inl hit ↦ rw hit (λ e. absurd (ground arith))
        | inr miss ↦ rw miss (h.waits r (ground (arith, k, counts r)))
      ];
      runs = λ r k. rw (update_ne s.seqs p r q (λ e. absurd (ground (arith, off)))) (h.runs r k);
    }

-- From a sound scheduler every fair act (a submission, a cancellation, or a step planned and
-- applied) succeeds and leaves a sound scheduler.
pub perform-Sound :
    {live : List ℕ} {bs : ℕ} (s : Scheduler) (a : Act)
    → Sound live bs s
    → Fair live s a
    → (s' : Scheduler) × (perform s a ≡ ok s') × Sound live bs s'
unfolding perform
perform-Sound s (submit now p) h (known, off, blank) =
    (add s now p, refl, add-Sound now p s h known off blank)
perform-Sound {live} {bs} s (cancel now id) h f = abort-Sound live bs s now id h
perform-Sound s (iterate now later sample) h f =
    let (s', done, h', _) = iteration-Sound now later s sample h f in (s', done, h')

-- The schedulers that a run of fair acts leads to.
pub data Run (live : List ℕ) (s : Scheduler) : Scheduler → Type 0 where
  begin : Run live s s
  then_act :
      {t u : Scheduler}
      → Run live s t
      → (a : Act) → Fair live t a
      → perform t a ≡ ok u
      → Run live s u

ok-same : (s t : Scheduler) → ok s ≡ ok t → s ≡ t
ok-same s t e = cc

-- From a sound scheduler, every scheduler that a run of fair acts leads to is sound: requests are
-- submitted and cancelled and steps are planned and applied in any order, each request is submitted
-- while it stands in no queue and holds no block, and the model gives one token for each row of
-- logits. Sound means: the pool's reference counts, free list, LRU list and hash map are exact for
-- the block tables of all requests, a request stands in one queue at most, and each resident request
-- has the blocks of its tokens, but for one at most, and a token to compute unless it is finished.
pub Run-Sound :
    {live : List ℕ} {bs : ℕ} {s t : Scheduler} → Sound live bs s → Run live s t → Sound live bs t
Run-Sound h begin = h
Run-Sound {live} {bs} h (then_act {t} {u} r a fair e) =
    let (u', e', sound) = perform-Sound t a (Run-Sound h r) fair in
    subst (Sound live bs) (ok-same u' u (sym e' ∙ e)) sound
