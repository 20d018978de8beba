-- ===== src/Scheduler/Slices.antt =====
-- src/scheduler/scheduler.cpp, steps 1 and 3 of `schedule`: the slices of the resident sequences.
use llm_engine.Base.{
  ℕ, ◌+◌, ◌-◌, ◌≤◌, ◌<◌, ◌≡◌, refl, ◌∙◌, inl, inr, true, false, List, [], ◌∷◌, ◌++◌, if◌then◌else◌,
  ◌==◌, count, arith, Bool-cases, All,
}
use llm_engine.Sequence.{StepSlice, StepInput, num_tokens, prefill_done, empty_step}
use llm_engine.Scheduler.Defs.{Scheduler, prefill_slice, add_prefill_slice, bool_num}
use llm_engine.Scheduler.Admit.{Progress, chunk_len}
use llm_engine.Scheduler.Step.{Candidates, add_chunk, add_chunks, build}
use llm_engine.Scheduler.Sound.{Sound, Later}
use llm_engine.Scheduler.Place.{Ready, IsCovered}
use llm_engine.Scheduler.Queues.{Sub-count}

-- A slice starts where the sequence's cache ends, stays within its tokens, asks for logits exactly
-- where it ends at the last token, and has blocks for all that it writes.
pub record SliceOk (bs : ℕ) (s : Scheduler) (sl : StepSlice) : Type 0 where
  pub resident : 0 < count sl.seq s.running
  pub starts : sl.start ≡ (s.seqs sl.seq).num_computed
  pub nonempty : 0 < sl.len
  pub within : sl.start + sl.len ≤ num_tokens (s.seqs sl.seq)
  pub logits : sl.needs_logits ≡ (sl.start + sl.len == num_tokens (s.seqs sl.seq))
  pub covered : sl.needs_logits ≡ true → IsCovered bs (s.seqs sl.seq)

pub SliceOk-Later :
    (bs : ℕ) {s s' : Scheduler} (sl : StepSlice) → Later s s' → SliceOk bs s sl → SliceOk bs s' sl
SliceOk-Later bs {s} {s'} sl l o =
    let (here, e) = l.stays sl.seq o.resident in
    record {
      resident = here;
      starts = rw e o.starts;
      nonempty = o.nonempty;
      within = rw e o.within;
      logits = rw e o.logits;
      covered = λ k. rw e (o.covered k);
    }

unfoldable pub slice_count : ℕ → List StepSlice → ℕ
slice_count p [] = 0
slice_count p (sl ∷ sls) = (if sl.seq == p then 1 else 0) + slice_count p sls

unfoldable pub total_len : List StepSlice → ℕ
total_len [] = 0
total_len (sl ∷ sls) = sl.len + total_len sls

unfoldable pub total_logits : List StepSlice → ℕ
total_logits [] = 0
total_logits (sl ∷ sls) = bool_num sl.needs_logits + total_logits sls

-- The counters of a step are the totals of its slices.
pub record Counted (step : StepInput) : Type 0 where
  pub tokens : total_len step.slices ≡ step.num_prefill_tokens + step.num_decode_tokens
  pub logits : total_logits step.slices ≡ step.num_logits

-- A step under construction, with room kept for the sequences in `decode`.
pub record Building (live : List ℕ) (bs : ℕ) (decode : List ℕ) (w : Progress) : Type 0 where
  pub sound : Sound live bs w.sched
  pub slices : All (SliceOk bs w.sched) w.step.slices
  pub prefills :
      All (λ sl. (sl.is_prefill ≡ true) × (sl.len ≤ w.sched.cfg.prefill_chunk_size)) w.step.slices
  pub counted : Counted w.step
  pub single : (p : ℕ) → count p decode + slice_count p w.step.slices ≤ 1
  pub reserve :
      (p : ℕ)
      → 0 < count p decode
      → (0 < count p w.sched.running)
        × IsCovered bs (w.sched.seqs p)
        × (prefill_done (w.sched.seqs p) ≡ true)
        × ((w.sched.seqs p).num_computed < num_tokens (w.sched.seqs p))
  pub no_decode : w.step.num_decode_tokens ≡ 0

pub slice_count-append :
    (p : ℕ) (xs ys : List StepSlice)
    → slice_count p (xs ++ ys) ≡ slice_count p xs + slice_count p ys
unfolding slice_count
slice_count-append p [] ys = omega arith
slice_count-append p (x ∷ xs) ys = omega (arith, slice_count-append p xs ys)

pub total_len-append : (xs ys : List StepSlice) → total_len (xs ++ ys) ≡ total_len xs + total_len ys
unfolding total_len
total_len-append [] ys = omega arith
total_len-append (x ∷ xs) ys = omega (arith, total_len-append xs ys)

pub total_logits-append :
    (xs ys : List StepSlice) → total_logits (xs ++ ys) ≡ total_logits xs + total_logits ys
unfolding total_logits
total_logits-append [] ys = omega arith
total_logits-append (x ∷ xs) ys = omega (arith, total_logits-append xs ys)

pub All-append {κ} :
    (P : StepSlice → Type κ) (xs ys : List StepSlice) → All P xs → All P ys → All P (xs ++ ys)
All-append P [] ys a b = b
All-append P (x ∷ xs) ys a b = (a.0, All-append P xs ys a.1 b)

pub All-map {κ μ} :
    (P : StepSlice → Type κ) (Q : StepSlice → Type μ) (xs : List StepSlice)
    → ((x : StepSlice) → P x → Q x)
    → All P xs
    → All Q xs
All-map P Q [] f a = tt
All-map P Q (x ∷ xs) f a = (f x a.0, All-map P Q xs f a.1)

-- A resident sequence with tokens to compute gets a chunk within the budget.
pub add_prefill_slice-Building :
    {live : List ℕ} {bs : ℕ} {decode : List ℕ} (w : Progress) (p len budget : ℕ)
    → Building live bs decode w
    → 0 < count p w.sched.running
    → 0 < len
    → (w.sched.seqs p).num_computed + len ≤ num_tokens (w.sched.seqs p)
    → len ≤ w.sched.cfg.prefill_chunk_size
    → IsCovered bs (w.sched.seqs p)
    → count p decode + slice_count p w.step.slices ≡ 0
    → Building live bs decode
        (record w { step = add_prefill_slice w.sched w.step p len; budget = budget })
unfolding add_prefill_slice slice_count total_len total_logits
add_prefill_slice-Building w p len budget b here pos fits small covers new =
    let added = prefill_slice (w.sched.seqs p) p len ∷ [] in
    record {
      sound = b.sound;
      slices = All-append _ w.step.slices _ b.slices (
        record {
          resident = here;
          starts = refl;
          nonempty = pos;
          within = fits;
          logits = refl;
          covered = λ _. covers;
        },
        tt,
      );
      prefills = All-append _ w.step.slices _ b.prefills ((refl, small), tt);
      counted = record {
        tokens = omega (arith, total_len-append w.step.slices added, b.counted.tokens);
        logits = omega (arith, total_logits-append w.step.slices added, b.counted.logits);
      };
      single = λ q. ground (arith, b.single q, slice_count-append q w.step.slices added);
      reserve = b.reserve;
      no_decode = b.no_decode;
    }

add_chunk-Building :
    {live : List ℕ} {bs : ℕ} {decode : List ℕ} (w : Progress) (p : ℕ)
    → Building live bs decode w
    → 0 < count p w.sched.running
    → prefill_done (w.sched.seqs p) ≡ false
    → count p decode + slice_count p w.step.slices ≡ 0
    → Building live bs decode (add_chunk w p)
      × ((add_chunk w p).sched ≡ w.sched)
      × ((add_chunk w p).step.num_prefill_tokens + (add_chunk w p).budget
          ≡ w.step.num_prefill_tokens + w.budget)
      × ((r : ℕ)
          → slice_count r (add_chunk w p).step.slices
            ≤ slice_count r w.step.slices + (if p == r then 1 else 0))
unfolding add_chunk
add_chunk-Building w p b here busy new = elim (Bool-cases (chunk_len w p == 0)) [
  | inl none_left ↦ rw none_left (b, refl, refl, (λ r. omega arith))
  | inr some_left ↦
      let fine = b.sound.runs p here in
      let step = add_prefill_slice w.sched w.step p (chunk_len w p) in
      rw some_left (
        add_prefill_slice-Building w p (chunk_len w p) (w.budget - chunk_len w p) b here
            (ground arith) (ground arith) (omega arith) (fine.covers busy) new,
        refl,
        (unfold add_prefill_slice in omega arith),
        (λ r.
            unfold add_prefill_slice slice_count in
            (omega (
              arith,
              slice_count-append r w.step.slices
                  (prefill_slice (w.sched.seqs p) p (chunk_len w p) ∷ []),
            ))),
      )
]

-- Step 3: a chunk for each sequence that is part-way through its prompt, as far as the budget goes.
add_chunks-Building :
    (ps : List ℕ) {live : List ℕ} {bs : ℕ} {decode : List ℕ} (w : Progress)
    → Building live bs decode w
    → ((p : ℕ)
        → 0 < count p ps
        → (0 < count p w.sched.running) × (prefill_done (w.sched.seqs p) ≡ false))
    → ((p : ℕ) → count p ps + count p decode + slice_count p w.step.slices ≤ 1)
    → Building live bs decode (add_chunks ps w)
      × ((add_chunks ps w).sched ≡ w.sched)
      × ((add_chunks ps w).step.num_prefill_tokens + (add_chunks ps w).budget
          ≡ w.step.num_prefill_tokens + w.budget)
unfolding add_chunks
add_chunks-Building [] w b g u = (b, refl, refl)
add_chunks-Building (p ∷ ps) w b g u =
    let (here, busy) = g p (ground arith) in
    let (b', same, sum, more) = add_chunk-Building w p b here busy (ground (arith, u p)) in
    let (b'', same', sum') =
      add_chunks-Building ps (add_chunk w p) b'
        (λ r k. let (here', busy') = g r (omega arith) in (rw same here', rw same busy'))
        (λ r. omega (arith, u r, more r)) in
    (b'', same' ∙ same, sum' ∙ sum)

-- A step with no slice yet, and room for the candidates that decode.
start-Building :
    {live : List ℕ} {bs : ℕ} (c : Candidates) (n : ℕ)
    → Ready live bs c
    → ((p : ℕ) → 0 < count p c.decode → IsCovered bs (c.sched.seqs p))
    → Building live bs c.decode (record { sched = c.sched; step = empty_step; budget = n })
unfolding slice_count total_len total_logits
start-Building c n r all = record {
  sound = r.sound;
  slices = tt;
  prefills = tt;
  counted = record { tokens = refl; logits = refl };
  single = λ p. omega (arith, r.apart p);
  reserve = λ p k.
      let here : 0 < count p c.sched.running = omega (arith, k, Sub-count r.in_order p) in
      (here, all p k, (r.decoding p k).0, (r.sound.runs p here).pending ((r.decoding p k).1));
  no_decode = refl;
}

pub build-Building :
    {live : List ℕ} {bs : ℕ} (c : Candidates)
    → Ready live bs c
    → ((p : ℕ) → 0 < count p c.decode → IsCovered bs (c.sched.seqs p))
    → Building live bs c.decode (build c)
      × ((build c).sched ≡ c.sched)
      × ((build c).step.num_prefill_tokens + (build c).budget ≡ c.sched.cfg.max_num_batched_tokens)
unfolding build slice_count
build-Building c r all =
    let (b, same, sum) =
      add_chunks-Building c.prefill _ (start-Building c c.sched.cfg.max_num_batched_tokens r all)
        r.prefilling (λ p. omega (arith, r.apart p)) in
    (b, same, omega (arith, sum))
