-- ===== src/Mutex/Polled/Safety.antt =====
-- mutex/prodcons2.c and mutex/prodcons3.c: what the consumer sees, and what the producers count.
use interprocess_comm.Prelude.{ℕ, ◌≤◌, ◌<◌, ◌≡◌, refl, ap, [], arith, weigh, Bool, true, false}
use interprocess_comm.Mutex.Polled.{wants_lock, System, Joined, Reach, start, later}
use interprocess_comm.Prelude.{weigh-zero}
use interprocess_comm.Mutex.{
  itself, least, least-le, least-some, maxnitems, maxnthreads, no_items-IsFilled,
}
use interprocess_comm.Mutex.Polled.{start_system, first_consumer, Runs}
use interprocess_comm.Mutex.Polled.Balance.{
  locks, uncounted, returns, looks, Sees, IsSound, next-Sees, next-looks,
}
use interprocess_comm.Mutex.Polled.Moves.{Step-IsSound, Joined-full}

first-looks : (polls : Bool) (nitems : ℕ) → looks (first_consumer polls nitems) ≡ 0
unfolding first_consumer
first-looks true nitems = next-looks true nitems 0
first-looks false nitems = refl

first-Sees : (polls : Bool) (nitems : ℕ) → Sees polls nitems 0 (first_consumer polls nitems)
unfolding first_consumer
first-Sees true nitems = next-Sees true nitems 0 0 λ e. absurd (ground arith)
first-Sees false nitems = tt

start-IsSound : (polls : Bool) (nitems n : ℕ) → IsSound polls nitems n (start_system polls nitems)
start-IsSound polls nitems n = record {
  filled = no_items-IsFilled nitems;
  mutex =
      omega (arith, weigh-zero locks n (λ i. wants_lock) (λ i h. refl), first-looks polls nitems);
  counted = omega (
    arith,
    weigh-zero uncounted n (λ i. wants_lock) (λ i h. refl),
    weigh-zero itself n (λ i. 0) λ i h. refl,
  );
  full = λ e. absurd (omega (arith, weigh-zero returns n (λ i. wants_lock) λ i h. refl));
  sees = first-Sees polls nitems;
  printed = refl;
}

Reach-IsSound :
    (polls : Bool) (nitems n : ℕ) {s t : System}
    → 0 < n
    → IsSound polls nitems n s
    → Reach polls nitems n s t
    → IsSound polls nitems n t
Reach-IsSound polls nitems n some v start = v
Reach-IsSound polls nitems n some v (later r st) =
    Step-IsSound polls nitems n some (Reach-IsSound polls nitems n some v r) st

Runs-IsSound :
    (polls : Bool) (items threads : ℕ) {s : System}
    → 0 < threads
    → Runs polls items threads s
    → IsSound polls (least items maxnitems) (least threads maxnthreads) s
Runs-IsSound polls items threads some r =
    let nitems = least items maxnitems in
    let n = least threads maxnthreads in
    Reach-IsSound polls nitems n (least-some threads maxnthreads some (omega arith))
      (start-IsSound polls nitems n) r

-- With a producer at least, and however the threads are interleaved: the consumer, whether it asks for
-- each item or starts when all producers have returned, finds each item equal to its index and prints
-- nothing; and no more items are stored than asked for, and no more than the array holds.
pub compares_equal :
    (polls : Bool) (items threads : ℕ) {s : System}
    → 0 < threads
    → Runs polls items threads s
    → (s.printed ≡ []) × (s.items.nput ≤ items) × (s.items.nput ≤ 1000000)
compares_equal polls items threads some r =
    let v = Runs-IsSound polls items threads some r in
    let least = least-le items maxnitems in
    (v.printed, omega (arith, v.filled.within), omega (arith, v.filled.within))

-- When all producers have returned, what they have counted adds up to the number of items: none was
-- counted twice, and none was stored over another.
pub counts_all :
    (polls : Bool) (items threads : ℕ) {s : System}
    → 0 < threads
    → Runs polls items threads s
    → Joined (least threads maxnthreads) s
    → weigh itself (least threads maxnthreads) s.count ≡ least items maxnitems
counts_all polls items threads {s} some_thread r joined =
    let nitems = least items maxnitems in
    let n = least threads maxnthreads in
    let some = least-some threads maxnthreads some_thread (omega arith) in
    let v = Runs-IsSound polls items threads some_thread r in
    omega (
      arith,
      v.counted,
      v.filled.within,
      Joined-full polls nitems n v some joined,
      weigh-zero uncounted n s.producers λ i h. ap uncounted (joined i h),
    )
