-- ===== src/Scheduler/Apply.antt =====
-- src/scheduler/scheduler.cpp, `on_step_done`: one slice, from the cache commit to the new token.
use llm_engine.Base.{
  ℕ, ◌+◌, ◌≤◌, ◌<◌, ◌≡◌, ◌≢◌, refl, sym, ap, subst, inl, inr, List, [], ◌∷◌, ◌++◌, none, some, ok,
  if◌then◌else◌, ◌==◌, length, length-append, count, count-append, arith, Bool-cases,
}
use llm_engine.KvCache.{blocks_needed}
use llm_engine.Sequence.{FinishReason, StepSlice, num_tokens, is_finished}
use llm_engine.Scheduler.Defs.{Scheduler, put_seq, notify, mark_finished, bool_num}
use llm_engine.Scheduler.Done.{
  Applied, take_running, is_stop, finish_reason, push_token, finish_seq, apply_token, take_token,
  apply_slice,
}
use llm_engine.Scheduler.Pool.{Known}
use llm_engine.Scheduler.Sound.{Sound, Sound-less}
use llm_engine.Scheduler.Slices.{SliceOk}
use llm_engine.Scheduler.Touch.{
  Touches, Touches-put, Touches-notify, Touches-Sound, blocks_needed-suc, commit_slice-Touches,
}

take_running-some :
    (p : ℕ) (ps : List ℕ)
    → 0 < count p ps
    → (rest : List ℕ) × (take_running p ps ≡ some rest)
      × ((r : ℕ) → count r rest + (if p == r then 1 else 0) ≡ count r ps)
unfolding take_running
take_running-some p [] h = absurd (omega arith)
take_running-some p (q ∷ qs) h = elim (Bool-cases (q == p)) [
  | inl hit ↦ let e : q ≡ p = ground arith in (qs, rw hit, (λ r. rw e (omega arith)))
  | inr miss ↦
      let (rest, e, c) = take_running-some p qs (ground arith) in
      (q ∷ rest, rw (miss, e), (λ r. omega (arith, c r)))
]

-- What one slice of sequence `p` changes: at most that sequence, which may move from the resident
-- ones to those that are done.
pub record Settles (live : List ℕ) (bs p used : ℕ) (a a' : Applied) : Type 0 where
  pub sound : Sound live bs a'.sched
  pub cfg : a'.sched.cfg ≡ a.sched.cfg
  pub waiting : a'.sched.waiting ≡ a.sched.waiting
  pub others : (r : ℕ) → r ≢ p → a'.sched.seqs r ≡ a.sched.seqs r
  pub stay : (r : ℕ) → r ≢ p → count r a'.sched.running ≡ count r a.sched.running
  pub moves :
      (r : ℕ)
      → count r a'.done + count r a'.sched.running ≡ count r a.done + count r a.sched.running
  pub sampled : length a'.sampled + used ≡ length a.sampled

-- The sequence stays, with its new state.
stays-Settles :
    {live : List ℕ} {bs p n c m used : ℕ} {a : Applied} (s : Scheduler) (sampled : List ℕ)
    → Sound live bs s
    → Touches live a.sched p n c m s
    → length sampled + used ≡ length a.sampled
    → Settles live bs p used a (record { sched = s; sampled = sampled; done = a.done })
stays-Settles s sampled h t k = record {
  sound = h;
  cfg = t.cfg;
  waiting = t.waiting;
  others = t.others;
  stay = λ r ne. ap (count r) t.running;
  moves = λ r. omega (arith, ap (count r) t.running);
  sampled = k;
}

module _ {live : List ℕ} {bs : ℕ} (a : Applied) (h : Sound live bs a.sched) (p n c m : ℕ)
    (here : 0 < count p a.sched.running) where
  known : Known live p
  known = h.known p (omega (arith, here))

  -- The sequence has its blocks and a token that is not computed.
  abbrev Open : Scheduler → Type 0
  Open s = Touches live a.sched p n c m s × (n ≡ c + 1) × (0 < m) × (blocks_needed n bs ≤ m + 1)

  Open-Sound : (s : Scheduler) → Open s → Sound live bs s
  Open-Sound s (t, last, pos, slack) =
      Touches-Sound h here t
        (record {
          resident = omega (arith, t.blocks, pos);
          slack = rw (t.blocks, t.tokens) slack;
          covers = λ e. absurd (ground (arith, t.tokens, t.computed, last));
          pending = λ _. omega (arith, t.tokens, t.computed, last);
        })
        (omega (arith, last)) (omega (arith, last))

  -- A sequence that ended leaves the batch, or stays as a padded member.
  finish_seq-Settles :
      (now : ℕ) (r : FinishReason) (s : Scheduler) (sampled : List ℕ) (used : ℕ)
      → Open s
      → length sampled + used ≡ length a.sampled
      → (a' : Applied) × (finish_seq
            (record { sched = s; sampled = sampled; done = a.done })
            now
            p
            r
          ≡ ok a')
        × Settles live bs p used a a'
  unfolding finish_seq
  finish_seq-Settles now r s sampled used o k =
      let (t, last, pos, slack) = o in
      let s1 = put_seq s p (record (s.seqs p) { finish = r }) in
      let t1 = Touches-put t known (record (s.seqs p) { finish = r }) refl t.tokens t.computed in
      elim (Bool-cases s.cfg.continuous) [
        | inl continuous ↦
            let (rest, e, counts) = take_running-some p s.running (rw t.running here) in
            let sound = Open-Sound s1 (t1, last, pos, slack) in
            (
              record {
                sched = record s1 { running = rest };
                sampled = sampled;
                done = a.done ++ (p ∷ []);
              },
              simp (continuous, e, finish_seq),
              record {
                sound =
                    Sound-less sound s.waiting rest (λ q. omega arith)
                      (λ q. omega (arith, counts q));
                cfg = t1.cfg;
                waiting = t1.waiting;
                others = t1.others;
                stay = λ q ne. ground (arith, counts q, ap (count q) t.running);
                moves = λ q.
                    omega (arith, counts q, count-append q a.done (p ∷ []), ap (count q) t.running);
                sampled = k;
              },
            )
        | inr static ↦
            let q = mark_finished (s1.seqs p) now r in
            let t2 = Touches-notify (Touches-put t1 known q refl t1.tokens t1.computed) none r in
            (
              record { sched = notify (put_seq s1 p q) p none r; sampled = sampled; done = a.done },
              simp (static, finish_seq),
              stays-Settles _ sampled (Open-Sound _ (t2, last, pos, slack)) t2 k,
            )
      ]

  -- The state after `tok` is pushed, and sent unless it is a stop token.
  abbrev told : Scheduler → ℕ → ℕ → Scheduler
  told s now tok =
      let s1 = put_seq s p (push_token (s.seqs p) now tok) in
      if is_stop (s1.seqs p) tok then s1 else notify s1 p (some tok) FinishReason.unfinished

  told-Touches :
      (now tok : ℕ) (s : Scheduler)
      → Touches live a.sched p n c m s
      → Touches live a.sched p (n + 1) c m (told s now tok)
  told-Touches now tok s t =
      let q = push_token (s.seqs p) now tok in
      let t1 =
        Touches-put t known q refl
          (omega (arith, length-append (s.seqs p).tokens (tok ∷ []), t.tokens)) t.computed in
      elim (Bool-cases (is_stop ((put_seq s p q).seqs p) tok)) [
        | inl stop ↦ rw stop t1
        | inr live_on ↦ rw live_on (Touches-notify t1 (some tok) FinishReason.unfinished)
      ]

-- The token of a slice that ends at the last token of its sequence.
apply_token-Settles :
    {live : List ℕ} {bs : ℕ} (a : Applied) (h : Sound live bs a.sched) (p n m : ℕ)
    (here : 0 < count p a.sched.running) (now tok : ℕ) (s : Scheduler) (sampled : List ℕ) (used : ℕ)
    → Touches live a.sched p n n m s
    → 0 < m
    → blocks_needed n bs ≤ m
    → length sampled + used ≡ length a.sampled
    → (a' : Applied) × (apply_token
          (record { sched = s; sampled = sampled; done = a.done })
          now
          p
          tok
        ≡ ok a')
      × Settles live bs p used a a'
unfolding apply_token
apply_token-Settles {live} {bs} a h p n m here now tok s sampled used t pos covers k =
    let t1 = told-Touches a h p n n m here now tok s t in
    let size : 0 < bs = omega (arith, h.pool.sized, h.size) in
    let slack : blocks_needed (n + 1) bs ≤ m + 1 =
      omega (arith, covers, blocks_needed-suc n bs size) in
    go (finish_reason ((put_seq s p (push_token (s.seqs p) now tok)).seqs p) tok) refl
      (t1, refl, pos, slack)
  where
    go :
        (r : FinishReason)
        → finish_reason ((put_seq s p (push_token (s.seqs p) now tok)).seqs p) tok ≡ r
        → Open a h p (n + 1) n m here (told a h p n n m here s now tok)
        → (a' : Applied) × (apply_token
              (record { sched = s; sampled = sampled; done = a.done })
              now
              p
              tok
            ≡ ok a')
          × Settles live bs p used a a'
    go FinishReason.unfinished e o = (
      record { sched = told a h p n n m here s now tok; sampled = sampled; done = a.done },
      rw (e, apply_token),
      stays-Settles _ sampled (Open-Sound a h p (n + 1) n m here _ o) o.0 k,
    )
    go r e o =
        let (a', done, settled) =
          finish_seq-Settles a h p (n + 1) n m here now r _ sampled used o k in
        (a', rw (e, apply_token) done, settled)

-- The logits of a slice that ends at the last token of its sequence.
sampled_token :
    {live : List ℕ} {bs : ℕ} (now : ℕ) (a : Applied) (sl : StepSlice) (h : Sound live bs a.sched)
    (here : 0 < count sl.seq a.sched.running) {n m : ℕ} (s : Scheduler)
    → Touches live a.sched sl.seq n n m s
    → 0 < m
    → blocks_needed n bs ≤ m
    → 0 < n
    → 0 < length a.sampled
    → (a' : Applied) × (take_token (record a { sched = s }) now sl.seq ≡ ok a')
      × Settles live bs sl.seq 1 a a'
unfolding take_token
sampled_token {live} {bs} now a sl h here {n} {m} s t pos covers some_tokens enough =
    go a.sampled refl
  where
    go :
        (sampled : List ℕ)
        → a.sampled ≡ sampled
        → (a' : Applied) × (take_token (record a { sched = s }) now sl.seq ≡ ok a')
          × Settles live bs sl.seq 1 a a'
    go [] e = absurd (ground (arith, enough))
    go (tok ∷ rest) e = elim (Bool-cases (is_finished (s.seqs sl.seq))) [
      | inl over ↦
          let covers' : blocks_needed (num_tokens (s.seqs sl.seq)) bs
              ≤ length (s.seqs sl.seq).block_table.blocks =
            rw (t.blocks, t.tokens) covers in
          let sound =
            Touches-Sound h here t
              (record {
                resident = omega (arith, t.blocks, pos);
                slack = omega (arith, covers');
                covers = λ _. covers';
                pending = λ f. cc;
              })
              (omega arith) some_tokens in
          (
            record { sched = s; sampled = rest; done = a.done },
            simp (e, over, take_token),
            stays-Settles s rest sound t (ground arith),
          )
      | inr not_over ↦
          let (a', done, settled) =
            apply_token-Settles a h sl.seq n m here now tok s rest 1 t pos covers (ground arith) in
          (a', simp (e, not_over, take_token) done, settled)
    ]

-- Each slice of a planned step can be applied when its token is at hand.
pub apply_slice-Settles :
    {live : List ℕ} {bs : ℕ} (now : ℕ) (a : Applied) (sl : StepSlice)
    → Sound live bs a.sched
    → SliceOk bs a.sched sl
    → bool_num sl.needs_logits ≤ length a.sampled
    → (a' : Applied) × (apply_slice now a sl ≡ ok a')
      × Settles live bs sl.seq (bool_num sl.needs_logits) a a'
unfolding apply_slice take_token
apply_slice-Settles {live} {bs} now a sl h o enough =
    let p = sl.seq in
    let q = a.sched.seqs p in
    let n = num_tokens q in
    let c = q.num_computed + sl.len in
    let m = length q.block_table.blocks in
    let fits : c ≤ n = omega (arith, o.within, o.starts) in
    let some_tokens = (h.computed p (h.known p (omega (arith, o.resident)))).1 in
    let fine = h.runs p o.resident in
    let (s, done, t, status) = commit_slice-Touches a.sched sl h o.resident fits in
    elim (Bool-cases sl.needs_logits) [
      | inr no_logits ↦
          let before : c < n = ground (arith, fits, o.logits, o.starts) in
          let sound =
            Touches-Sound h o.resident t
              (record {
                resident = omega (arith, t.blocks, fine.resident);
                slack = rw (t.blocks, t.tokens) fine.slack;
                covers = λ e.
                    rw (t.blocks, t.tokens) (fine.covers (ground (arith, t.tokens, t.computed)));
                pending = λ _. omega (arith, t.tokens, t.computed, before);
              })
              fits some_tokens in
          (
            record a { sched = s },
            simp (done, no_logits, apply_slice),
            subst (λ k. Settles live bs p k a (record a { sched = s }))
                (sym (ap bool_num no_logits)) (stays-Settles s a.sampled sound t (omega arith)),
          )
      | inl logits ↦
          let ends : c ≡ n = ground (arith, fits, o.logits, o.starts) in
          let covers = o.covered logits in
          let (a', done', settled) =
            sampled_token now a sl h o.resident s
              (subst (λ k. Touches live a.sched p n k m s) ends t) fine.resident covers some_tokens
              (rw logits at enough) in
          (
            a',
            simp (done, logits, apply_slice) done',
            subst (λ k. Settles live bs p k a a') (sym (ap bool_num logits)) settled,
          )
    ]
