-- ===== src/Mutex.antt =====
-- mutex: producers that fill an array under a mutex, and a consumer that looks at it.
pub mod Polled
pub mod Ready
use interprocess_comm.Prelude.{
  ℕ, zero, suc, ◌+◌, ◌≤◌, ◌<◌, ◌≡◌, refl, ltb, leb, ◌==◌, if◌then◌else◌, Bool-cases, inl, inr,
  arith,
}

-- #define MAXNITEMS 1000000, #define MAXNTHREADS 100
abbrev pub maxnitems : ℕ
maxnitems = 1000000

abbrev pub maxnthreads : ℕ
maxnthreads = 100

-- The weight of a count.
abbrev pub itself : ℕ → ℕ
itself n = n

-- MIN(x, y), with the macro's (x > y) ? y : x
unfoldable pub least : (x y : ℕ) → ℕ
least x y = if ltb y x then y else x

-- The array, the index of the next item in it and the value of that item.
pub record Items : Type 0 where
  pub buff : ℕ → ℕ
  pub nput : ℕ
  pub nval : ℕ

-- The objects are static.
abbrev pub no_items : Items
no_items = record { buff = λ i. 0; nput = 0; nval = 0 }

-- buff[nput] = nval; nput++; nval++
abbrev pub store : Items → Items
store s = record s {
  buff = λ i. if i == s.nput then s.nval else s.buff i;
  nput = s.nput + 1;
  nval = s.nval + 1;
}

-- Each item that has been stored is its own index, and no more than `nitems` are.
pub record IsFilled (nitems : ℕ) (s : Items) : Type 0 where
  pub within : s.nput ≤ nitems
  pub nval : s.nval ≡ s.nput
  pub buff : (j : ℕ) → j < s.nput → s.buff j ≡ j

pub no_items-IsFilled : (nitems : ℕ) → IsFilled nitems no_items
no_items-IsFilled nitems = record {
  within = omega arith;
  nval = refl;
  buff = λ j h. absurd (omega arith);
}

pub store-IsFilled :
    {nitems : ℕ} {s : Items} → IsFilled nitems s → s.nput < nitems → IsFilled nitems (store s)
store-IsFilled {s = s} f more = record {
  within = omega arith;
  nval = omega (arith, f.nval);
  buff = λ j h. elim (Bool-cases (j == s.nput)) [
    | inl last ↦ ground (arith, f.nval)
    | inr other ↦ ground (arith, f.buff j)
  ];
}

pub least-le : (x y : ℕ) → (least x y ≤ x) × (least x y ≤ y)
unfolding least
least-le x y = elim (Bool-cases (ltb y x)) [
  | inl more ↦ rw more (ground arith, omega arith)
  | inr less ↦ rw less (omega arith, ground arith)
]

pub least-some : (x y : ℕ) → 0 < x → 0 < y → 0 < least x y
unfolding least
least-some x y p q = elim (Bool-cases (ltb y x)) [ inl more ↦ rw more q | inr less ↦ rw less p ]
