-- ===== src/Bench/Regions.antt =====
-- bench/kv_waste.cpp, `run_contiguous`: what each part of a round does to the regions and to the work that is
-- left.
use llm_engine.Base.{
  ℕ, suc, ◌+◌, ◌-◌, ◌≤◌, ◌<◌, ◌≡◌, refl, sym, ◌∙◌, ◌⊎◌, true, false, List, [], ◌∷◌, ◌++◌, ltb, leb,
  ◌&&◌, length, arith, Bool-cases, inl, inr,
}
use mathlib.Core.Bool.{true≢false}
use llm_engine.Bench.Contiguous.{
  Request, Policy, Live, reservation_for, new_live, admit_pending, none_left, sum_by, grow_one,
  grow_all, erase_finished, all_done, live_work, pending_work,
}

abbrev pub reserved_by : List Live → ℕ
reserved_by ls = sum_by (λ l. l.reserved) ls

pub reserved-snoc :
    (ls : List Live) (l : Live) → reserved_by (ls ++ (l ∷ [])) ≡ reserved_by ls + l.reserved
unfolding sum_by
reserved-snoc [] l = omega arith
reserved-snoc (x ∷ ls) l = omega (arith, reserved-snoc ls l)

pub live_work-snoc :
    (ls : List Live) (l : Live) → live_work (ls ++ (l ∷ [])) ≡ live_work ls + suc l.remaining
unfolding live_work
live_work-snoc [] l = omega arith
live_work-snoc (x ∷ ls) l = omega (arith, live_work-snoc ls l)

pub length-snoc : (ls : List Live) (l : Live) → length (ls ++ (l ∷ [])) ≡ suc (length ls)
length-snoc [] l = refl
length-snoc (x ∷ ls) l = omega (arith, length-snoc ls l)

-- A pool of this size has no room for the first of the requests.
pub data Refused (c : Policy) (total : ℕ) : List Request → Type 0 where
  head_too_large :
      {r : Request} {rs : List Request}
      → total < reservation_for c r.prompt
      → Refused c total (r ∷ rs)

pub none_left-snoc : (ls : List Live) (l : Live) → none_left (ls ++ (l ∷ [])) ≡ false
none_left-snoc [] l = refl
none_left-snoc (x ∷ ls) l = refl

pub empty-length : (ls : List Live) → none_left ls ≡ true → length ls ≡ 0
empty-length [] e = refl
empty-length (x ∷ ls) e = absurd (true≢false (sym e))

pub nonempty-length : (ls : List Live) → none_left ls ≡ false → 0 < length ls
nonempty-length [] e = absurd (true≢false e)
nonempty-length (x ∷ ls) e = omega arith

-- What the admission loop does to who is live and what is free.
pub record Admits (c : Policy) (rs : List Request) (live : List Live) (free : ℕ)
    (a : List Request × (List Live × ℕ)) : Type 0 where
  pub slots : reserved_by a.1.0 + a.1.1 ≡ reserved_by live + free
  pub work : live_work a.1.0 + pending_work a.0 ≡ live_work live + pending_work rs
  pub bounded : length live ≤ c.max_num_seqs → length a.1.0 ≤ c.max_num_seqs
  pub nobody :
      none_left a.1.0 ≡ true
      → 0 < c.max_num_seqs
      → none_left live ≡ true × ((a.0 ≡ []) ⊎ Refused c free a.0)

pub admit_pending-Admits :
    (c : Policy) (rs : List Request) (live : List Live) (free : ℕ)
    → Admits c rs live free (admit_pending c rs live free)
unfolding admit_pending pending_work
admit_pending-Admits c [] live free = record {
  slots = refl;
  work = refl;
  bounded = λ h. h;
  nobody = λ e h. (e, inl refl);
}
admit_pending-Admits c (r ∷ rs) live free =
    let need = reservation_for c r.prompt in
    elim (Bool-cases (ltb (length live) c.max_num_seqs && leb need free)) [
      | inl room ↦
          let a = admit_pending-Admits c rs (live ++ (new_live c r ∷ [])) (free - need) in
          let below : length live < c.max_num_seqs = ground (arith, room) in
          let fits : need ≤ free = ground (arith, room) in
          rw room record {
            slots = omega (arith, a.slots, reserved-snoc live (new_live c r));
            work = omega (arith, a.work, live_work-snoc live (new_live c r));
            bounded = λ h. a.bounded (omega (arith, length-snoc live (new_live c r)));
            nobody = λ e h.
                absurd (true≢false (sym ((a.nobody e h).0) ∙ none_left-snoc live (new_live c r)));
          }
      | inr full ↦ rw full record {
        slots = refl;
        work = refl;
        bounded = λ h. h;
        nobody = λ e h. (e, inr (head_too_large ground (arith, full, empty-length live e)));
      }
    ]

pub length-grow_all : (ls : List Live) → length (grow_all ls) ≡ length ls
unfolding grow_all
length-grow_all [] = refl
length-grow_all (l ∷ ls) = omega (arith, length-grow_all ls)

pub reserved-grow_one : (l : Live) → (grow_one l).reserved ≡ l.reserved
unfolding grow_one
reserved-grow_one l = elim (Bool-cases (ltb 0 l.remaining)) [
  | inl e ↦ simp e refl
  | inr e ↦ simp e refl
]

pub remaining-grow_one : (l : Live) → (grow_one l).remaining ≡ l.remaining - 1
unfolding grow_one
remaining-grow_one l = elim (Bool-cases (ltb 0 l.remaining)) [
  | inl e ↦ simp e refl
  | inr e ↦ simp e (ground (arith, e))
]

pub reserved-grow_all : (ls : List Live) → reserved_by (grow_all ls) ≡ reserved_by ls
unfolding grow_all sum_by
reserved-grow_all [] = refl
reserved-grow_all (l ∷ ls) = omega (arith, reserved-grow_all ls, reserved-grow_one l)

pub live_work-grow_all : (ls : List Live) → live_work (grow_all ls) ≤ live_work ls
unfolding grow_all live_work
live_work-grow_all [] = omega arith
live_work-grow_all (l ∷ ls) = omega (arith, live_work-grow_all ls, remaining-grow_one l)

-- As long as one sequence is not done, growing is progress.
pub live_work-grow_less :
    (ls : List Live) → all_done (grow_all ls) ≡ false → live_work (grow_all ls) < live_work ls
unfolding grow_all live_work all_done
live_work-grow_less [] e = absurd (true≢false e)
live_work-grow_less (l ∷ ls) e = elim (Bool-cases (leb (grow_one l).remaining 0)) [
  | inl done ↦ omega (arith, live_work-grow_less ls (rw done at e), remaining-grow_one l)
  | inr on ↦
      let more : 0 < (grow_one l).remaining = ground (arith, on) in
      omega (arith, live_work-grow_all ls, remaining-grow_one l, more)
]

pub reserved-erase_finished :
    (ls : List Live) → reserved_by (erase_finished ls).0 + (erase_finished ls).1 ≡ reserved_by ls
unfolding erase_finished sum_by
reserved-erase_finished [] = refl
reserved-erase_finished (l ∷ ls) = elim (Bool-cases (leb l.remaining 0)) [
  | inl done ↦ rw done (omega (arith, reserved-erase_finished ls))
  | inr on ↦ rw on (omega (arith, reserved-erase_finished ls))
]

pub length-erase_finished : (ls : List Live) → length (erase_finished ls).0 ≤ length ls
unfolding erase_finished
length-erase_finished [] = omega arith
length-erase_finished (l ∷ ls) = elim (Bool-cases (leb l.remaining 0)) [
  | inl done ↦ rw done (omega (arith, length-erase_finished ls))
  | inr on ↦ rw on (omega (arith, length-erase_finished ls))
]

-- Every sequence either grows or is erased.
pub live_work-erase_finished :
    (ls : List Live) → live_work (erase_finished (grow_all ls)).0 + length ls ≤ live_work ls
unfolding erase_finished live_work grow_all
live_work-erase_finished [] = omega arith
live_work-erase_finished (l ∷ ls) = elim (Bool-cases (leb (grow_one l).remaining 0)) [
  | inl done ↦ rw done (omega (arith, live_work-erase_finished ls))
  | inr on ↦
      let more : 0 < (grow_one l).remaining = ground (arith, on) in
      rw on (omega (arith, live_work-erase_finished ls, remaining-grow_one l, more))
]
