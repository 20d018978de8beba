-- ===== src/Scheduler/Waiting.antt =====
-- src/scheduler/scheduler.cpp, step 4 of `schedule`: the changes to waiting requests.
use llm_engine.Base.{
  ℕ, ◌+◌, ◌≤◌, ◌<◌, ◌≡◌, refl, ap, ◌∙◌, inl, inr, false, List, [], ◌∷◌, ok, ◌==◌, update, count,
  arith, Bool-cases,
}
use llm_engine.KvCache.{KvCacheManager, SamePool}
use llm_engine.Sequence.{Sequence, FinishReason, num_tokens}
use llm_engine.Scheduler.Defs.{Scheduler, retire}
use llm_engine.Scheduler.Step.{
  count_timeout, expired, patient, retire_expired, abandon_expired, age,
}
use llm_engine.Scheduler.Pool.{Known, IsPool, IsPool-cong}
use llm_engine.Scheduler.Sound.{
  Sound, Sound-view, Sound-less, QueuedOk, Later, Later-refl, Later-trans, retire-GivesUp,
  update_ne,
}

-- The outcome of a change to the waiting requests.
pub record Waits (live : List ℕ) (bs : ℕ) (s s' : Scheduler) : Type 0 where
  pub sound : Sound live bs s'
  pub later : Later s s'
  pub running : s'.running ≡ s.running

pub Waits-trans :
    {live : List ℕ} {bs : ℕ} {s t u : Scheduler}
    → Waits live bs s t
    → Waits live bs t u
    → Waits live bs s u
Waits-trans a b = record {
  sound = b.sound;
  later = Later-trans a.later b.later;
  running = b.running ∙ a.running;
}

-- A request that leaves the queue for good.
pub retire-Waits :
    {live : List ℕ} {bs : ℕ} {s : Scheduler}
    → Sound live bs s
    → (now p : ℕ) (r : FinishReason) → Known live p
    → count p s.waiting + count p s.running ≡ 0
    → (s' : Scheduler) × (retire s now p r ≡ ok s') × Waits live bs s s' × (s'.waiting ≡ s.waiting)
retire-Waits h now p r known off =
    let (s', done, g) = retire-GivesUp h p known off now r in
    (
      s',
      done,
      record {
        sound = g.sound;
        later = record {
          cfg = g.cfg;
          stays = λ q k. (rw g.running k, g.others q (λ e. ground arith));
        };
        running = g.running;
      },
      g.waiting,
    )

retire_expired-Waits :
    {live : List ℕ} {bs : ℕ} (ps : List ℕ) (now : ℕ) (s : Scheduler)
    → Sound live bs s
    → ((p : ℕ) → 0 < count p ps → Known live p × (count p s.waiting + count p s.running ≡ 0))
    → (s' : Scheduler) × (retire_expired ps now s ≡ ok s') × Waits live bs s s'
unfolding retire_expired
retire_expired-Waits [] now s h off =
    (s, refl, record { sound = h; later = Later-refl s; running = refl })
retire_expired-Waits (p ∷ ps) now s h off =
    let (known, out) = off p (ground arith) in
    let counted = Sound-view (count_timeout s) refl refl refl refl h in
    let (s', done, w, same) = retire-Waits counted now p FinishReason.timeout known out in
    let (s'', done', w') =
      retire_expired-Waits ps now s' w.sound
        (λ r k. let (k', o) = off r (omega arith) in (k', rw (same, w.running) o)) in
    (
      s'',
      rw done done',
      Waits-trans
          (record {
            sound = w.sound;
            later = record { cfg = w.later.cfg; stays = w.later.stays };
            running = w.running;
          })
          w',
    )

count-expired :
    (s : Scheduler) (now p : ℕ) (ps : List ℕ)
    → count p (expired s now ps) + count p (patient s now ps) ≡ count p ps
unfolding expired patient
count-expired s now p [] = refl
count-expired s now p (x ∷ ps) = ground (arith, count-expired s now p ps)

-- From a sound scheduler, dropping the requests that waited past the deadline succeeds and leaves a
-- sound scheduler with the same configuration, where every resident sequence is untouched.
pub abandon_expired-Waits :
    {live : List ℕ} {bs : ℕ} (now : ℕ) (s : Scheduler)
    → Sound live bs s
    → (s' : Scheduler) × (abandon_expired now s ≡ ok s') × Waits live bs s s'
unfolding abandon_expired
abandon_expired-Waits now s h = elim (Bool-cases (s.cfg.max_queue_wait == 0)) [
  | inl off ↦
      (s, rw (off, abandon_expired), record { sound = h; later = Later-refl s; running = refl })
  | inr on ↦
      let kept = patient s now s.waiting in
      let less =
        Sound-less h kept s.running (λ r. omega (arith, count-expired s now r s.waiting))
          (λ r. omega arith) in
      let (s', done, w) =
        retire_expired-Waits (expired s now s.waiting) now (record s { waiting = kept }) less
          (λ p k. (h.known p (omega (arith, count-expired s now p s.waiting)), expired_off p k)) in
      (
        s',
        rw (on, abandon_expired) done,
        record {
          sound = w.sound;
          later = record { cfg = w.later.cfg; stays = w.later.stays };
          running = w.running;
        },
      )
]
  where
    expired_off :
        (p : ℕ)
        → 0 < count p (expired s now s.waiting)
        → count p (patient s now s.waiting) + count p s.running ≡ 0
    expired_off p k = omega (arith, count-expired s now p s.waiting, h.distinct p)

abbrev aged : ℕ → Sequence → Sequence
aged n q = record q { wait_steps = n }

aged-update :
    (n m : ℕ) (seqs : ℕ → Sequence) (p r : ℕ)
    → aged n (update seqs p (aged m (seqs p)) r) ≡ aged n (seqs r)
aged-update n m seqs p r = elim (Bool-cases (r == p)) [
  | inl hit ↦ let e : p ≡ r = ground arith in rw hit (ap (λ j. aged n (seqs j)) e)
  | inr miss ↦ rw miss
]

-- Only the waiting rounds of the requests in the list change.
age-aged : (ps : List ℕ) (seqs : ℕ → Sequence) (r : ℕ) → (n : ℕ) × (age ps seqs r ≡ aged n (seqs r))
unfolding age
age-aged [] seqs r = ((seqs r).wait_steps, refl)
age-aged (p ∷ ps) seqs r =
    let m = (seqs p).wait_steps + 1 in
    let (n, e) = age-aged ps (update seqs p (aged m (seqs p))) r in
    (n, e ∙ aged-update n m seqs p r)

age-absent : (ps : List ℕ) (seqs : ℕ → Sequence) (r : ℕ) → count r ps ≡ 0 → age ps seqs r ≡ seqs r
unfolding age
age-absent [] seqs r z = refl
age-absent (p ∷ ps) seqs r z =
    age-absent ps _ r (omega arith) ∙ update_ne seqs p r _ (λ e. ground arith)

pub age-Waits :
    {live : List ℕ} {bs : ℕ} (s : Scheduler)
    → Sound live bs s
    → Waits live bs s (record s { seqs = age s.waiting s.seqs })
age-Waits {live} {bs} s h =
    let same = λ (p : ℕ). age-aged s.waiting s.seqs p in
    record {
      sound = record {
        pool = IsPool-cong h.pool (λ p. ap (λ q. q.block_table) (same p).1);
        size = h.size;
        distinct = h.distinct;
        known = h.known;
        computed = λ p k. rw ((same p).1) (h.computed p k);
        waits = λ p k. rw ((same p).1) (h.waits p k);
        runs = λ p k.
            let ok_it = h.runs p k in
            rw ((same p).1) (record {
              resident = ok_it.resident;
              slack = ok_it.slack;
              covers = ok_it.covers;
              pending = ok_it.pending;
            });
      };
      later = record {
        cfg = refl;
        stays = λ p k. (k, age-absent s.waiting s.seqs p (omega (arith, h.distinct p)));
      };
      running = refl;
    }

-- A new state of one waiting request.
pub put_waiting-Waits :
    {live : List ℕ} {bs : ℕ} {s : Scheduler}
    → Sound live bs s
    → (p : ℕ) (kv : KvCacheManager) (q : Sequence) → 0 < count p s.waiting
    → IsPool live kv (update s.seqs p q)
    → SamePool s.kv kv
    → (q.num_computed ≤ num_tokens q) × (0 < num_tokens q)
    → QueuedOk bs q
    → Waits live bs s (record s { kv = kv; seqs = update s.seqs p q })
put_waiting-Waits {s} h p kv q here pool same fine queued = record {
  sound = record {
    pool = pool;
    size = same.block_size ∙ h.size;
    distinct = h.distinct;
    known = h.known;
    computed = λ r k. elim (Bool-cases (r == p)) [
      | inl hit ↦ rw hit fine
      | inr miss ↦ rw miss (h.computed r k)
    ];
    waits = λ r k. elim (Bool-cases (r == p)) [
      | inl hit ↦ rw hit queued
      | inr miss ↦ rw miss (h.waits r k)
    ];
    runs = λ r k. rw (apart r k) (h.runs r k);
  };
  later = record { cfg = refl; stays = λ r k. (k, rw (apart r k)) };
  running = refl;
}
  where
    apart : (r : ℕ) → 0 < count r s.running → (r == p) ≡ false
    apart r k = elim (Bool-cases (r == p)) [
      | inl hit ↦ absurd (ground (arith, h.distinct r))
      | inr miss ↦ miss
    ]
