-- ===== src/ProdCons/System/Moves.antt =====
-- The steps of the threads of prodcons4.c, and the balance.
use interprocess_comm.Prelude.{
  ℕ, ◌+◌, ap, ◌∙◌, put, ◌==◌, ◌⊎◌, ==_iff, ltb, ◌≤◌, ◌≡◌, refl, subst, sym, arith, weigh, leb, true,
  false, Bool-cases, inl, inr,
}
use interprocess_comm.ProdCons.{
  Shared, Thread, wants_empty, has_empty, producing, stored_one, leaving_empty, leaving_mutex,
  produced, wants_stored, has_stored, consuming, freed_one, stopping, consumed, produce_locked,
  consume_locked, store, fetch,
}
use interprocess_comm.ProdCons.System.{
  System, At, moves, Step, wait_empty, lock_producer, produce, post_stored, leave_empty,
  leave_mutex, wait_stored, lock_consumer, consume, post_empty, stop, Reach, start, later,
}
use interprocess_comm.ProdCons.System.Balance.{
  locks, empties, stores, extras, finishes, makes, Balanced, IsSound, change, recount,
  store-Balanced, fetch-Balanced,
}

produce-leaves :
    (nitems : ℕ) (sh : Shared)
    → leb nitems sh.nput ≡ true
    → produce_locked nitems sh ≡ (leaving_empty, record sh { nstored = sh.nstored + 1 })
unfolding produce_locked
produce-leaves nitems sh h = rw h refl

produce-stores :
    (nitems : ℕ) (sh : Shared)
    → leb nitems sh.nput ≡ false
    → let t = store sh in produce_locked nitems sh ≡ (stored_one, record t { mutex = t.mutex + 1 })
unfolding produce_locked
produce-stores nitems sh h = rw h refl

consume-stops :
    (nitems : ℕ) (sh : Shared)
    → leb nitems sh.nget ≡ true
    → consume_locked nitems sh ≡ (stopping, record sh { nstored = sh.nstored + 1 })
unfolding consume_locked
consume-stops nitems sh h = rw h refl

consume-fetches :
    (nitems : ℕ) (sh : Shared)
    → leb nitems sh.nget ≡ false
    → let t = fetch sh in consume_locked nitems sh ≡ (freed_one, record t { mutex = t.mutex + 1 })
unfolding consume_locked
consume-fetches nitems sh h = rw h refl

module _ {nitems np n : ℕ} {s : System} (v : IsSound nitems np n s) {i : ℕ} {o : Thread}
    (a : At n s i o) where
  abbrev sh : Shared
  sh = s.shared

  abbrev b :
      Balanced nitems
        (weigh locks n s.threads)
        (weigh empties n s.threads)
        (weigh stores n s.threads)
        (weigh extras n s.threads)
        (weigh finishes n s.threads)
        sh
  b = v.balanced

  -- The thread goes on to `t`, and still produces or still consumes.
  advance :
      (t : Thread) (sh' : Shared)
      → makes t ≡ makes o
      → (let f = put s.threads i t in
          Balanced nitems
            (weigh locks n f)
            (weigh empties n f)
            (weigh stores n f)
            (weigh extras n f)
            (weigh finishes n f)
            sh')
      → IsSound nitems np n (moves s i (t, sh'))
  advance t sh' k b' = record {
    balanced = b';
    kinds = λ j. elim (Bool-cases (j == i)) [
      | inl same ↦
          rw same (
            k ∙ sym (ap makes a.state) ∙ v.kinds i ∙ ap (λ m. ltb m np) (sym ((==_iff j i).0 same)))
      | inr other ↦ rw other (v.kinds j)
    ];
  }

  -- A step that changes semaphores only, by what the thread has before and after it.
  semaphores :
      (t : Thread) (mutex nempty nstored : ℕ)
      → makes t ≡ makes o
      → mutex + locks t ≡ sh.mutex + locks o
      → nempty + empties t ≡ sh.nempty + empties o
      → nstored + stores t + extras o ≡ sh.nstored + stores o + extras t
      → (extras t ≡ extras o) ⊎ (nitems ≤ sh.nput)
      → (finishes t ≡ finishes o) ⊎ (nitems ≤ sh.nget)
      → IsSound nitems np n
          (moves s i (t, record sh { mutex = mutex; nempty = nempty; nstored = nstored }))
  semaphores t mutex nempty nstored k p q r f g =
      let c = change t a in
      advance t _ k (
        recount mutex nempty nstored b (omega (arith, b.mutex, p)) (omega (arith, b.nempty, q))
          (omega (arith, b.nstored, r))
          (λ h. elim f [ inl same ↦ b.full (omega arith) | inr full ↦ full ])
          (λ h. elim g [ inl same ↦ b.finished (omega arith) | inr all ↦ all ]))

module _ {nitems np n : ℕ} {s : System} (v : IsSound nitems np n s) (i : ℕ) where
  produce-IsSound :
      At n s i producing → IsSound nitems np n (moves s i (produce_locked nitems s.shared))
  produce-IsSound a = elim (Bool-cases (leb nitems s.shared.nput)) [
    | inl enough ↦
        subst (λ p. IsSound nitems np n (moves s i p)) (sym (produce-leaves nitems s.shared enough))
          (semaphores v a leaving_empty s.shared.mutex s.shared.nempty (s.shared.nstored + 1) refl
            refl refl (omega arith) (inr (ground arith)) (inl refl))
    | inr more ↦
        let b = v.balanced in
        let c = change stored_one a in
        subst (λ p. IsSound nitems np n (moves s i p)) (sym (produce-stores nitems s.shared more))
          (advance v a stored_one _ refl (
            store-Balanced b (omega arith) (ground arith) (omega (arith, b.mutex)) (omega arith)
              (omega arith) (omega arith) (omega arith)))
  ]

  consume-IsSound :
      At n s i consuming → IsSound nitems np n (moves s i (consume_locked nitems s.shared))
  consume-IsSound a = elim (Bool-cases (leb nitems s.shared.nget)) [
    | inl enough ↦
        subst (λ p. IsSound nitems np n (moves s i p)) (sym (consume-stops nitems s.shared enough))
          (semaphores v a stopping s.shared.mutex s.shared.nempty (s.shared.nstored + 1) refl refl
            refl (omega arith) (inl refl) (inr (ground arith)))
    | inr more ↦
        let b = v.balanced in
        let c = change freed_one a in
        subst (λ p. IsSound nitems np n (moves s i p)) (sym (consume-fetches nitems s.shared more))
          (advance v a freed_one _ refl (
            fetch-Balanced b (omega arith) (ground arith) (omega (arith, b.mutex)) (omega arith)
              (omega arith) (omega arith) (omega arith)))
  ]

pub Step-IsSound :
    {nitems np n : ℕ} {s t : System}
    → IsSound nitems np n s
    → Step nitems n s t
    → IsSound nitems np n t
Step-IsSound {s = s} v (wait_empty i k a q) =
    semaphores v a has_empty s.shared.mutex k s.shared.nstored refl refl (omega arith) refl
      (inl refl) (inl refl)
Step-IsSound {s = s} v (lock_producer i k a q) =
    semaphores v a producing k s.shared.nempty s.shared.nstored refl (omega arith) refl refl
      (inl refl) (inl refl)
Step-IsSound v (produce i a) = produce-IsSound v i a
Step-IsSound {s = s} v (post_stored i a) =
    semaphores v a wants_empty s.shared.mutex s.shared.nempty (s.shared.nstored + 1) refl refl refl
      (omega arith) (inl refl) (inl refl)
Step-IsSound {s = s} v (leave_empty i a) =
    semaphores v a leaving_mutex s.shared.mutex (s.shared.nempty + 1) s.shared.nstored refl refl
      (omega arith) refl (inl refl) (inl refl)
Step-IsSound {s = s} v (leave_mutex i a) =
    semaphores v a produced (s.shared.mutex + 1) s.shared.nempty s.shared.nstored refl (omega arith)
      refl refl (inl refl) (inl refl)
Step-IsSound {s = s} v (wait_stored i k a q) =
    semaphores v a has_stored s.shared.mutex s.shared.nempty k refl refl refl (omega arith)
      (inl refl) (inl refl)
Step-IsSound {s = s} v (lock_consumer i k a q) =
    semaphores v a consuming k s.shared.nempty s.shared.nstored refl (omega arith) refl refl
      (inl refl) (inl refl)
Step-IsSound v (consume i a) = consume-IsSound v i a
Step-IsSound {s = s} v (post_empty i a) =
    semaphores v a wants_stored s.shared.mutex (s.shared.nempty + 1) s.shared.nstored refl refl
      (omega arith) refl (inl refl) (inl refl)
Step-IsSound {s = s} v (stop i a) =
    semaphores v a consumed (s.shared.mutex + 1) s.shared.nempty s.shared.nstored refl (omega arith)
      refl refl (inl refl) (inl refl)

pub Reach-IsSound :
    {nitems np n : ℕ} {s t : System}
    → IsSound nitems np n s
    → Reach nitems n s t
    → IsSound nitems np n t
Reach-IsSound v start = v
Reach-IsSound v (later r st) = Step-IsSound (Reach-IsSound v r) st
