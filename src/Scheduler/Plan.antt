-- ===== src/Scheduler/Plan.antt =====
-- src/scheduler/scheduler.cpp, `Scheduler::schedule`: the step it returns.
use llm_engine.Base.{
  ℕ, suc, ◌+◌, ◌-◌, ◌≤◌, ◌<◌, ◌≡◌, refl, ap, ◌∙◌, inl, inr, true, false, List, [], ◌∷◌, ◌++◌, ok,
  ◌==◌, not, ◌&&◌, ◌||◌, length, take, length-take, count, arith, Bool-cases, All,
}
use llm_engine.Sequence.{Sequence, StepSlice, StepInput, num_tokens, prefill_done}
use llm_engine.Scheduler.Defs.{Scheduler}
use llm_engine.Scheduler.Admit.{Progress}
use llm_engine.Scheduler.Step.{
  Candidates, place_all, split_resident, build, reopen, count_step, decode_slice, add_decodes,
  schedule,
}
use llm_engine.Scheduler.Queues.{count-take-le}
use llm_engine.Scheduler.Sound.{Sound, Sound-view}
use llm_engine.Scheduler.Place.{IsCovered, place_all-Ready}
use llm_engine.Scheduler.Split.{split_resident-Ready}
use llm_engine.Scheduler.Slices.{
  SliceOk, slice_count, total_len, total_logits, slice_count-append, total_len-append,
  total_logits-append, Counted, Building, All-append, build-Building,
}
use llm_engine.Scheduler.Admission.{Filled}
use llm_engine.Scheduler.Rejects.{admit-Filled}

-- What `schedule` returns, from scheduler `s`: `s'` is the scheduler it leaves.
pub record Planned (live : List ℕ) (bs : ℕ) (s : Scheduler) (step : StepInput) (s' : Scheduler)
    : Type 0 where
  pub sound : Sound live bs s'
  pub cfg : s'.cfg ≡ s.cfg
  -- each slice can be computed and none is given twice
  pub slices : All (SliceOk bs s') step.slices
  pub single : (p : ℕ) → slice_count p step.slices ≤ 1
  pub counted : Counted step
  -- the prefill chunks stand before the decode tokens
  pub prefills : List StepSlice
  pub decodes : List StepSlice
  pub order : step.slices ≡ prefills ++ decodes
  pub chunks : All (λ sl. (sl.is_prefill ≡ true) × (sl.len ≤ s'.cfg.prefill_chunk_size)) prefills
  pub tokens : All (λ sl. (sl.is_prefill ≡ false) × (sl.len ≡ 1)) decodes
  pub budget : step.num_prefill_tokens + step.num_decode_tokens ≤ s.cfg.max_num_batched_tokens
  pub bounded : length s.running ≤ s.cfg.max_num_seqs → length s'.running ≤ s'.cfg.max_num_seqs

decode_slices : (ℕ → Sequence) → List ℕ → List StepSlice
decode_slices seqs [] = []
decode_slices seqs (p ∷ ps) = decode_slice (seqs p) p ∷ decode_slices seqs ps

assoc : (xs ys zs : List StepSlice) → (xs ++ ys) ++ zs ≡ xs ++ (ys ++ zs)
assoc [] ys zs = refl
assoc (x ∷ xs) ys zs = ap (λ l. x ∷ l) (assoc xs ys zs)

add_decodes-slices :
    (seqs : ℕ → Sequence) (ps : List ℕ) (step : StepInput)
    → ((add_decodes seqs ps step).slices ≡ step.slices ++ decode_slices seqs ps)
      × ((add_decodes seqs ps step).num_prefill_tokens ≡ step.num_prefill_tokens)
      × ((add_decodes seqs ps step).num_decode_tokens ≡ step.num_decode_tokens + length ps)
      × ((add_decodes seqs ps step).num_logits ≡ step.num_logits + length ps)
unfolding add_decodes decode_slices
add_decodes-slices seqs [] step = (append_nil step.slices, refl, omega arith, omega arith)
  where
    append_nil : (xs : List StepSlice) → xs ≡ xs ++ []
    append_nil [] = refl
    append_nil (x ∷ xs) = ap (λ l. x ∷ l) (append_nil xs)
add_decodes-slices seqs (p ∷ ps) step =
    let (a, b, c, d) = add_decodes-slices seqs ps _ in
    (
      a ∙ assoc step.slices (decode_slice (seqs p) p ∷ []) (decode_slices seqs ps),
      b,
      omega (arith, c),
      omega (arith, d),
    )

-- The totals of the decode slices.
decode_slices-totals :
    (seqs : ℕ → Sequence) (ps : List ℕ)
    → ((p : ℕ) → slice_count p (decode_slices seqs ps) ≡ count p ps)
      × (total_len (decode_slices seqs ps) ≡ length ps)
      × (total_logits (decode_slices seqs ps) ≡ length ps)
      × All (λ sl. (sl.is_prefill ≡ false) × (sl.len ≡ 1)) (decode_slices seqs ps)
unfolding decode_slices slice_count total_len total_logits
decode_slices-totals seqs [] = ((λ p. refl), refl, refl, tt)
decode_slices-totals seqs (x ∷ ps) =
    let (a, b, c, d) = decode_slices-totals seqs ps in
    ((λ p. omega (arith, a p)), omega (arith, b), omega (arith, c), ((refl, refl), d))

decode_slices-SliceOk :
    (bs : ℕ) (s : Scheduler) (ps : List ℕ)
    → ((p : ℕ)
        → 0 < count p ps
        → (0 < count p s.running)
          × IsCovered bs (s.seqs p)
          × (prefill_done (s.seqs p) ≡ true)
          × ((s.seqs p).num_computed < num_tokens (s.seqs p)))
    → All (SliceOk bs s) (decode_slices s.seqs ps)
unfolding decode_slices
decode_slices-SliceOk bs s [] g = tt
decode_slices-SliceOk bs s (p ∷ ps) g =
    let (here, covers, done, left) = g p (ground arith) in
    (
      record {
        resident = here;
        starts = refl;
        nonempty = omega arith;
        within = omega (arith, left);
        logits = ground (arith, left, done);
        covered = λ _. covers;
      },
      decode_slices-SliceOk bs s ps (λ r k. g r (omega (arith, k))),
    )

-- As many decode candidates as the budget has tokens for.
Building-take :
    {live : List ℕ} {bs : ℕ} {decode : List ℕ} (w : Progress) (n budget : ℕ)
    → Building live bs decode w
    → Building live bs (take n decode) (record w { budget = budget })
Building-take {decode = decode} w n budget b = record {
  sound = b.sound;
  slices = b.slices;
  prefills = b.prefills;
  counted = b.counted;
  single = λ p. omega (arith, b.single p, count-take-le p n decode);
  reserve = λ p k. b.reserve p (omega (arith, k, count-take-le p n decode));
  no_decode = b.no_decode;
}

-- The decode slices complete the step.
finish-Planned :
    {live : List ℕ} {bs : ℕ} {decode : List ℕ} (s : Scheduler) (w w' : Progress)
    → Filled live bs decode w w'
    → w.sched.cfg ≡ s.cfg
    → length w.sched.running ≤ length s.running
    → w.step.num_prefill_tokens + w.budget + length decode ≤ s.cfg.max_num_batched_tokens
    → Planned live bs s (add_decodes w'.sched.seqs decode w'.step) w'.sched
finish-Planned {live} {bs} {decode} s w w' f same fewer room =
    let b = f.building in
    let xs = w'.step.slices in
    let ys = decode_slices w'.sched.seqs decode in
    let (slices, prefill, tokens, logits) = add_decodes-slices w'.sched.seqs decode w'.step in
    let (counts, len, wanted, ones) = decode_slices-totals w'.sched.seqs decode in
    record {
      sound = b.sound;
      cfg = f.cfg ∙ same;
      slices =
          rw slices
            (All-append _ xs ys b.slices (decode_slices-SliceOk bs w'.sched decode b.reserve));
      single = λ p. rw slices (omega (arith, b.single p, counts p, slice_count-append p xs ys));
      counted = record {
        tokens =
            rw slices
              (omega (arith, prefill, tokens, len, total_len-append xs ys, b.counted.tokens));
        logits =
            rw slices (omega (arith, logits, wanted, total_logits-append xs ys, b.counted.logits));
      };
      prefills = xs;
      decodes = ys;
      order = slices;
      chunks = b.prefills;
      tokens = ones;
      budget = omega (arith, prefill, tokens, f.spent, b.no_decode, room);
      bounded = λ k. f.bounded (rw same (omega (arith, fewer, k)));
    }

split_resident-sched : (s : Scheduler) → (split_resident s).sched ≡ s
unfolding split_resident
split_resident-sched s = refl

-- Steps 1 to 3: the slices of the resident sequences.
resident-Building :
    {live : List ℕ} {bs : ℕ} (s : Scheduler)
    → Sound live bs s
    → (c : Candidates) × (place_all
          (suc (length (split_resident s).decode + length s.running))
          0
          (split_resident s)
        ≡ ok c)
      × Building live bs c.decode (build c)
      × ((build c).sched.cfg ≡ s.cfg)
      × (length (build c).sched.running ≤ length s.running)
      × ((build c).step.num_prefill_tokens + (build c).budget ≡ s.cfg.max_num_batched_tokens)
resident-Building s h =
    let split = split_resident s in
    let whole = split_resident-sched s in
    let (c, placed, r, covers, cfg, fewer) =
      place_all-Ready (suc (length split.decode + length s.running)) 0 split
        (split_resident-Ready s h) (λ p k. absurd (omega (arith, k)))
        (omega (arith, ap (λ t. length t.running) whole)) in
    let (b, kept, sum) = build-Building c r covers in
    let config = cfg ∙ ap (λ t. t.cfg) whole in
    (
      c,
      placed,
      b,
      ap (λ t. t.cfg) kept ∙ config,
      omega (arith, fewer, ap (λ t. length t.running) kept, ap (λ t. length t.running) whole),
      sum ∙ ap (λ t. t.max_num_batched_tokens) config,
    )

reopen-same :
    (s : Scheduler)
    → ((reopen s).kv ≡ s.kv)
      × ((reopen s).seqs ≡ s.seqs)
      × ((reopen s).waiting ≡ s.waiting)
      × ((reopen s).running ≡ s.running)
      × ((reopen s).cfg ≡ s.cfg)
reopen-same s = elim (Bool-cases (not s.cfg.continuous && length s.running == 0)) [
  | inl drained ↦ rw drained (refl, refl, refl, refl, refl)
  | inr not_yet ↦ rw not_yet (refl, refl, refl, refl, refl)
]

-- From a sound scheduler `schedule` returns, with no failed assertion and both its loops within
-- their fuel, a step and a sound scheduler. Each slice is of a resident sequence, starts where its
-- cache ends, stays within its tokens, asks for logits exactly if it ends at the last token, and
-- then its blocks cover all tokens; no sequence has two slices; the counters are the totals of the
-- slices; prefill chunks of at most the chunk size stand before decode tokens; the step stays within
-- the token budget; and the batch stays within its limit if it was.
pub schedule-Planned :
    {live : List ℕ} {bs : ℕ} (now : ℕ) (s : Scheduler)
    → Sound live bs s
    → (step : StepInput) × (s' : Scheduler) × (schedule now s ≡ ok (step, s'))
      × Planned live bs s step s'
unfolding schedule
schedule-Planned now s h =
    let opened = reopen (count_step s) in
    let (kv, seqs, waiting, running, config) = reopen-same (count_step s) in
    let (c, placed, b, cfg, fewer, sum) =
      resident-Building opened (Sound-view opened kv seqs waiting running h) in
    let w = build c in
    let decode = take w.budget c.decode in
    let rest = w.budget - length decode in
    let may = opened.cfg.continuous || opened.static_batch_open in
    let (w', admitted, f) =
      admit-Filled now may (length decode == 0) (record w { budget = rest })
        (Building-take w w.budget rest b) in
    (
      add_decodes w'.sched.seqs decode w'.step,
      w'.sched,
      rw (placed, admitted, schedule),
      finish-Planned s (record w { budget = rest }) w' f (cfg ∙ config)
          (omega (arith, fewer, ap (λ ps. length ps) running))
          (omega
            (arith, sum, length-take w.budget c.decode, ap (λ k. k.max_num_batched_tokens) config)),
    )
