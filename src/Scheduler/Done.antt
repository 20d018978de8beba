-- ===== src/Scheduler/Done.antt =====
-- src/scheduler/scheduler.cpp, `Scheduler::on_step_done` and `Scheduler::kv_waste_fraction`.
use llm_engine.Base.{
  ℕ, ◌+◌, ◌*◌, Bool, true, false, List, [], ◌∷◌, ◌++◌, Option, none, some, Checked, ok,
  assert_failed, ◌>>=◌, if◌then◌else◌, leb, ◌==◌, not, ◌&&◌, ◌||◌, length,
}
use llm_engine.KvCache.{commit_computed}
use llm_engine.Sequence.{
  Sequence, FinishReason, StepInput, StepSlice, num_tokens, num_generated, is_finished,
}
use llm_engine.Scheduler.Defs.{
  Scheduler, put_seq, put_table, notify, mark_finished, free_table, count_finished, retire,
}

-- The scheduler, the sampled tokens that are left, and the sequences to retire.
pub record Applied : Type 0 where
  pub sched : Scheduler
  pub sampled : List ℕ
  pub done : List ℕ

unfoldable pub contains : List ℕ → ℕ → Bool
contains [] t = false
contains (x ∷ xs) t = x == t || contains xs t

-- `std::find_if` and `erase` on `running_`: `none` if the sequence is not resident.
unfoldable pub take_running : ℕ → List ℕ → Option (List ℕ)
take_running p [] = none
take_running p (q ∷ qs) =
    let rest = take_running p qs in
    if q == p then some qs else elim rest [ none ↦ none | some qs' ↦ some (q ∷ qs') ]

abbrev pub is_stop : Sequence → ℕ → Bool
is_stop q tok = not q.params.ignore_eos && contains q.params.stop_ids tok

-- Why the sequence ends with the token that it just got, if it does.
unfoldable pub finish_reason : Sequence → ℕ → FinishReason
finish_reason q tok =
    if is_stop q tok
    then FinishReason.stop
    else if leb q.params.max_tokens (num_generated q)
    then FinishReason.length_cap
    else FinishReason.unfinished

-- The fields that a new token sets.
abbrev pub push_token : Sequence → ℕ → ℕ → Sequence
push_token q now tok = record q {
  tokens = q.tokens ++ (tok ∷ []);
  token_times = q.token_times ++ (now ∷ []);
  t_first_token = if q.t_first_token == 0 then now else q.t_first_token;
}

-- A sequence that got its last token leaves a continuous batch, to be retired after the loop; in a
-- static one it stays, marked. Erasing a sequence that is not resident is taken for a failed assertion.
unfoldable pub finish_seq : Applied → ℕ → ℕ → FinishReason → Checked Applied
finish_seq a now p r =
    let s = put_seq a.sched p (record (a.sched.seqs p) { finish = r }) in
    if s.cfg.continuous
    then elim (take_running p s.running) [
      | some rest ↦ ok (record a { sched = record s { running = rest }; done = a.done ++ (p ∷ []) })
      | none ↦ assert_failed
    ]
    else ok (record a { sched = notify (put_seq s p (mark_finished (s.seqs p) now r)) p none r })

-- A sampled token for a live sequence; a stop token is not emitted.
unfoldable pub apply_token : Applied → ℕ → ℕ → ℕ → Checked Applied
apply_token a now p tok =
    let s = put_seq a.sched p (push_token (a.sched.seqs p) now tok) in
    let q = s.seqs p in
    let told = if is_stop q tok then s else notify s p (some tok) FinishReason.unfinished in
    elim (finish_reason q tok) [
      | FinishReason.unfinished ↦ ok (record a { sched = told })
      | r ↦ finish_seq (record a { sched = told }) now p r
    ]

-- `sampled[k++]`; a finished member of a static batch discards its token.
unfoldable pub take_token : Applied → ℕ → ℕ → Checked Applied
take_token a now p = elim a.sampled [
  | [] ↦ assert_failed
  | tok ∷ rest ↦
      let a' = record a { sampled = rest } in
      if is_finished (a.sched.seqs p) then ok a' else apply_token a' now p tok
]

-- `s.num_computed += sl.len; kv_.commit_computed(...)`
unfoldable pub commit_slice : Scheduler → StepSlice → Checked Scheduler
commit_slice s sl = do
  let q = s.seqs sl.seq
  let computed = q.num_computed + sl.len
  (kv, bt) ← commit_computed s.kv q.block_table q.tokens computed
  ok (put_table (put_seq s sl.seq (record q { num_computed = computed })) sl.seq kv bt)

-- The body of the loop over the slices.
unfoldable pub apply_slice : ℕ → Applied → StepSlice → Checked Applied
apply_slice now a sl = do
  s ← commit_slice a.sched sl
  let a' = record a { sched = s }
  if sl.needs_logits then take_token a' now sl.seq else ok a'

unfoldable pub apply_slices : ℕ → List StepSlice → Applied → Checked Applied
apply_slices now [] a = ok a
apply_slices now (sl ∷ sls) a = do a' ← apply_slice now a sl; apply_slices now sls a'

unfoldable pub retire_all : ℕ → List ℕ → Scheduler → Checked Scheduler
retire_all now [] s = ok s
retire_all now (p ∷ ps) s = do s' ← retire s now p (s.seqs p).finish; retire_all now ps s'

unfoldable pub all_finished : (ℕ → Sequence) → List ℕ → Bool
all_finished seqs [] = true
all_finished seqs (p ∷ ps) = is_finished (seqs p) && all_finished seqs ps

-- The members of a drained static batch give back their blocks.
unfoldable pub free_batch : List ℕ → Scheduler → Checked Scheduler
free_batch [] s = ok s
free_batch (p ∷ ps) s = do s' ← free_table s p; free_batch ps (count_finished s')

unfoldable pub drain_batch : Scheduler → Checked Scheduler
drain_batch s =
    if not s.cfg.continuous && not (length s.running == 0) && all_finished s.seqs s.running
    then (free_batch s.running s >>= λ s'.
        ok (record s' { running = []; static_batch_open = true }))
    else ok s

unfoldable pub on_step_done : ℕ → StepInput → List ℕ → Scheduler → Checked Scheduler
on_step_done now step sampled s = do
  a ← apply_slices now step.slices (record { sched = s; sampled = sampled; done = [] })
  s' ← retire_all now a.done a.sched
  drain_batch s'

-- Allocated slots, and those that hold a token, over the resident sequences.
unfoldable pub slots_of : Scheduler → List ℕ → ℕ × ℕ
slots_of s [] = (0, 0)
slots_of s (p ∷ ps) =
    let (allocated, used) = slots_of s ps in
    (
      length (s.seqs p).block_table.blocks * s.kv.block_size + allocated,
      num_tokens (s.seqs p) + used,
    )
