-- ===== src/Mqueue/System/Safety.antt =====
-- The states that threads with one queue file reach.
use interprocess_comm.Prelude.{
  ℕ, ◌+◌, ◌-◌, ◌≤◌, ◌<◌, ◌≡◌, ap, subst, List, arith, put, weigh, weigh-put, length, inl, inr, ◌==◌,
  Bool-cases, ◌≢◌,
}
use interprocess_comm.Posix.{out_of_fuel}
use interprocess_comm.Mqueue.{MqHdr, MqInfo}
use interprocess_comm.Mqueue.Send.{mq_send, send_resume}
use interprocess_comm.Mqueue.System.{
  Thread, outside, sending, receiving, System, Enters, Step, send, send_blocks, send_wakes,
  send_sleeps, receive, receive_blocks, receive_wakes, receive_sleeps, notify, Reach, start, later,
}
use interprocess_comm.Mqueue.System.Keeps.{
  InOrder, Keeps, send-Keeps, resume_send-Keeps, receive-Keeps, resume_receive-Keeps, blocked-fits,
  notify-Keeps,
}

abbrev pub is_receiving : Thread → ℕ
is_receiving (receiving _) = 1
is_receiving _ = 0

-- A waiting sender has passed the test of its length.
abbrev pub Fits : ℕ → Thread → Type 0
Fits msgsize (sending ptr len prio) = (len ≤ msgsize) × (len ≤ length ptr)
Fits msgsize _ = Unit

-- The file is in order, its mutex free, and `mqh_nwait` is the number of waiting receivers.
pub record IsSound (n msgsize : ℕ) (s : System) : Type 0 where
  pub order : InOrder msgsize (weigh is_receiving n s.threads) s.hdr
  pub fits : (i : ℕ) → Fits msgsize (s.threads i)

module _ {n k : ℕ} {s : System} (v : IsSound n k s) where
  same_threads :
      (h : MqHdr)
      → InOrder k (weigh is_receiving n s.threads) h
      → IsSound n k (record { hdr = h; threads = s.threads })
  same_threads h o = record { order = o; fits = v.fits }

  moved :
      (i : ℕ) (t : Thread) (h : MqHdr) (w : ℕ)
      → i < n
      → Fits k t
      → InOrder k w h
      → w + is_receiving (s.threads i) ≡ weigh is_receiving n s.threads + is_receiving t
      → IsSound n k (record { hdr = h; threads = put s.threads i t })
  moved i t h w lt f o e = record {
    order = subst (λ m. InOrder k m h) (omega (arith, weigh-put is_receiving n s.threads i t lt)) o;
    fits =
        λ j. elim (Bool-cases (j == i)) [ inl same ↦ rw same f | inr other ↦ rw other (v.fits j) ];
  }

  Enters-weight :
      (i : ℕ) (t : Thread) → Enters n s i t → is_receiving (s.threads i) ≡ is_receiving t
  Enters-weight i t en = ap is_receiving en.state

  Enters-Fits : (i : ℕ) (t : Thread) → Enters n s i t → Fits k t
  Enters-Fits i t en = subst (Fits k) en.state (v.fits i)

abbrev waiting : ℕ → System → ℕ
waiting n s = weigh is_receiving n s.threads

-- A waiting receiver is one of those that are counted.
waiting-pos :
    (n i : ℕ) (f : ℕ → Thread)
    → i < n
    → is_receiving (f i) ≡ 1
    → weigh is_receiving n f - 1 + 1 ≡ weigh is_receiving n f
waiting-pos n i f lt e = omega (arith, weigh-put is_receiving n f i outside lt)

pub Step-IsSound : {n k : ℕ} {s t : System} → IsSound n k s → Step n s t → IsSound n k t
Step-IsSound {n} {k} {s} v (send i k' len prio ptr info en enough e) =
    same_threads v _ (
      subst (Keeps k (waiting n s) (waiting n s)) e
        (send-Keeps v.order k' info ptr len prio enough))
Step-IsSound {n} {k} {s} v (send_blocks i k' len prio ptr info en enough e) =
    moved v i (sending ptr len prio) _ _ en.present
      (blocked-fits v.order k' info ptr len prio _ enough e, enough)
      (subst (Keeps k (waiting n s) (waiting n s)) e
        (send-Keeps v.order k' info ptr len prio enough))
      (omega (arith, Enters-weight v i outside en))
Step-IsSound {n} {k} {s} v (send_wakes i len prio ptr en e) =
    let f = Enters-Fits v i (sending ptr len prio) en in
    moved v i outside _ _ en.present tt
      (subst (Keeps k (waiting n s) (waiting n s)) e
        (resume_send-Keeps v.order ptr len prio f.0 f.1))
      (omega (arith, Enters-weight v i (sending ptr len prio) en))
Step-IsSound {n} {k} {s} v (send_sleeps i len prio ptr en e) =
    let f = Enters-Fits v i (sending ptr len prio) en in
    same_threads v _ (
      subst (Keeps k (waiting n s) (waiting n s)) e
        (resume_send-Keeps v.order ptr len prio f.0 f.1))
Step-IsSound {n} {k} {s} v (receive i k' maxlen want_prio info en e) = same_threads v _ (
    subst (Keeps k (waiting n s) (waiting n s + 1)) e
      (receive-Keeps v.order k' info maxlen want_prio))
Step-IsSound {n} {k} {s} v (receive_blocks i k' maxlen want_prio info en e) =
    moved v i (receiving want_prio) _ _ en.present tt
      (subst (Keeps k (waiting n s) (waiting n s + 1)) e
        (receive-Keeps v.order k' info maxlen want_prio))
      (omega (arith, Enters-weight v i outside en))
Step-IsSound {n} {k} {s} v (receive_wakes i want_prio en e) =
    moved v i outside _ _ en.present tt
      (subst (Keeps k (waiting n s - 1) (waiting n s)) e (resume_receive-Keeps v.order want_prio))
      (omega (
        arith,
        Enters-weight v i (receiving want_prio) en,
        waiting-pos n i s.threads en.present (Enters-weight v i (receiving want_prio) en),
      ))
Step-IsSound {n} {k} {s} v (receive_sleeps i want_prio en e) =
    same_threads v _
      (subst (Keeps k (waiting n s - 1) (waiting n s)) e (resume_receive-Keeps v.order want_prio))
Step-IsSound {n} {k} {s} v (notify i k' pid kill info e' en e) =
    same_threads v _
      (subst (Keeps k (waiting n s) (waiting n s)) e (notify-Keeps v.order k' pid kill info e'))

-- From a queue file in order, with its waiting receivers counted, the threads reach only such
-- states: the file is in order, the mutex is free between the stretches, and `mqh_nwait` is the
-- number of threads that wait in `mq_receive`.
pub Reach-IsSound : {n k : ℕ} {s t : System} → IsSound n k s → Reach n s t → IsSound n k t
Reach-IsSound v start = v
Reach-IsSound v (later r st) = Step-IsSound (Reach-IsSound v r) st

-- From a queue file in order, with its waiting receivers counted, in every state that the threads
-- reach: each call of `mq_send` on at least `len` bytes, and each that goes on after a wait, comes
-- to its return or to its wait; no search for the message's place runs on for ever.
pub Reach-ends :
    {n k : ℕ} {s t : System}
    → IsSound n k s
    → Reach n s t
    → ((j len prio : ℕ) (ptr : List ℕ) (info : MqInfo)
        → len ≤ length ptr
        → mq_send j info ptr len prio t.hdr ≢ out_of_fuel)
      × ((i len prio : ℕ) (ptr : List ℕ)
          → Enters n t i (sending ptr len prio)
          → send_resume ptr len prio t.hdr ≢ out_of_fuel)
Reach-ends {n} {k} {s} {t} v r =
    let o = Reach-IsSound v r in
    (
      λ j len prio ptr info enough e.
          subst (Keeps k (waiting n t) (waiting n t)) e
            (send-Keeps o.order j info ptr len prio enough),
      λ i len prio ptr en e.
          let f = Enters-Fits o i (sending ptr len prio) en in
          subst (Keeps k (waiting n t) (waiting n t)) e
            (resume_send-Keeps o.order ptr len prio f.0 f.1),
    )
