-- ===== src/Bench/Contiguous.antt =====
-- bench/kv_waste.cpp, `run_contiguous`: an allocator that gives each sequence one region for its whole
-- life. A sum of fractions is kept as the list of its fractions.
use llm_engine.Base.{
  ℕ, zero, suc, ◌+◌, ◌-◌, Bool, true, false, List, [], ◌∷◌, ◌++◌, Option, none, some, if◌then◌else◌,
  ltb, leb, ◌&&◌, ◌||◌, not, length,
}

-- A request's entries of `prompt_len` and `output_len`.
pub record Request : Type 0 where
  pub prompt : ℕ
  pub output : ℕ

-- The parameters, and what the workload says of all requests.
pub record Policy : Type 0 where
  pub max_output : ℕ
  pub max_model_len : ℕ
  pub reserve_max_model_len : Bool
  pub max_num_seqs : ℕ
  pub static_batching : Bool

pub record Live : Type 0 where
  pub reserved : ℕ
  pub len : ℕ
  pub remaining : ℕ

-- The variables of the function; `pending` are the requests from `next` on.
pub record Sim : Type 0 where
  pub live : List Live
  pub pending : List Request
  pub free_slots : ℕ
  -- `used` and `allocated` of each step
  pub util : List (ℕ × ℕ)
  pub resident_sum : ℕ
  pub active_sum : ℕ
  pub peak_resident : ℕ
  pub steps : ℕ

abbrev pub reservation_for : Policy → ℕ → ℕ
reservation_for c prompt =
    if c.reserve_max_model_len then c.max_model_len else prompt + c.max_output

abbrev pub new_live : Policy → Request → Live
new_live c r = record {
  reserved = reservation_for c r.prompt;
  len = r.prompt;
  remaining = r.output;
}

-- The inner loop: the requests that are left, who is live, and the slots that are free.
unfoldable pub admit_pending :
    Policy → List Request → List Live → ℕ → List Request × (List Live × ℕ)
admit_pending c [] live free_slots = ([], (live, free_slots))
admit_pending c (r ∷ rs) live free_slots =
    let need = reservation_for c r.prompt in
    let further = admit_pending c rs (live ++ (new_live c r ∷ [])) (free_slots - need) in
    if ltb (length live) c.max_num_seqs && leb need free_slots
    then further
    else (r ∷ rs, (live, free_slots))

abbrev pub none_left : {A : Type 0} → List A → Bool
none_left [] = true
none_left (x ∷ xs) = false

-- `if (may_admit)`.
unfoldable pub refill : Policy → Sim → Sim
refill c s =
    let (pending, (live, free_slots)) = admit_pending c s.pending s.live s.free_slots in
    if not c.static_batching || none_left s.live
    then record s { pending = pending; live = live; free_slots = free_slots }
    else s

unfoldable pub sum_by : (Live → ℕ) → List Live → ℕ
sum_by f [] = 0
sum_by f (l ∷ ls) = f l + sum_by f ls

unfoldable pub measure : Sim → Sim
measure s =
    let n = length s.live in
    record s {
      util = s.util ++ ((sum_by (λ l. l.len) s.live, sum_by (λ l. l.reserved) s.live) ∷ []);
      resident_sum = s.resident_sum + n;
      active_sum = s.active_sum + sum_by (λ l. if ltb 0 l.remaining then 1 else 0) s.live;
      peak_resident = if ltb s.peak_resident n then n else s.peak_resident;
      steps = suc s.steps;
    }

unfoldable pub grow_one : Live → Live
grow_one l =
    if ltb 0 l.remaining then record l { len = suc l.len; remaining = l.remaining - 1 } else l

unfoldable pub grow_all : List Live → List Live
grow_all [] = []
grow_all (l ∷ ls) = grow_one l ∷ grow_all ls

-- The loop that erases finished sequences: who stays, and the slots that are given back.
unfoldable pub erase_finished : List Live → List Live × ℕ
erase_finished [] = ([], 0)
erase_finished (l ∷ ls) =
    let (kept, freed) = erase_finished ls in
    if leb l.remaining 0 then (kept, l.reserved + freed) else (l ∷ kept, freed)

unfoldable pub all_done : List Live → Bool
all_done [] = true
all_done (l ∷ ls) = let rest = all_done ls in leb l.remaining 0 && rest

-- Everything after the statistics of a step.
unfoldable pub advance : Policy → Sim → Sim
advance c s =
    let live = grow_all s.live in
    let (kept, freed) = erase_finished live in
    if not c.static_batching
    then record s { live = kept; free_slots = s.free_slots + freed }
    else if all_done live
    then record s { live = []; free_slots = s.free_slots + sum_by (λ l. l.reserved) live }
    else record s { live = live }

-- The loop; it is out of fuel at `none`.
unfoldable pub simulate : ℕ → Policy → Sim → Option Sim
simulate zero c s = none
simulate (suc fuel) c s =
    let s' = refill c s in
    let rest = simulate fuel c (advance c (measure s')) in
    if none_left s.pending && none_left s.live
    then some s
    else if none_left s'.live
    then some s'
    else rest

-- The work that is left.
unfoldable pub live_work : List Live → ℕ
live_work [] = 0
live_work (l ∷ ls) = suc l.remaining + live_work ls

unfoldable pub pending_work : List Request → ℕ
pending_work [] = 0
pending_work (r ∷ rs) = suc r.output + pending_work rs

unfoldable pub run_contiguous : List Request → Policy → ℕ → Option Sim
run_contiguous requests c total_slots = simulate (suc (pending_work requests)) c record {
  live = [];
  pending = requests;
  free_slots = total_slots;
  util = [];
  resident_sum = 0;
  active_sum = 0;
  peak_resident = 0;
  steps = 0;
}
