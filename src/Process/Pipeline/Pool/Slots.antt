-- ===== src/Process/Pipeline/Pool/Slots.antt =====
-- What stays true of each worker and of its channel, and sums over the workers.
use mathlib.Core.Path.{subst}
use ta2mongo.Prelude.{
  ℕ, zero, suc, ◌+◌, ◌<◌, ◌≡◌, refl, sym, String, Bool, true, false, List, [], ◌∷◌, ◌++◌, arith,
  length, nat_eq, nat_eq_iff, Bool-cases, inl, inr, ◌==◌, if◌then◌else◌,
}
use ta2mongo.Prelude.Int.{ℤ}
use ta2mongo.Process.Uploads.Trace.{Act}
use ta2mongo.Process.Pipeline.Worker.Flushes.{Running, IsSmall}
use ta2mongo.Process.Pipeline.Worker.Runs.{IsComplete}
use ta2mongo.Process.Pipeline.Pool.{Slot, set}

-- A worker that runs has written what its batches do not hold, and one that returned has written
-- the models of all lines that it received.
abbrev StateIsSound : ℤ → Slot (List Act) → Bool → Type 0
StateIsSound max s true = Running max (length s.taken) s.batches s.own × IsSmall max s.batches
StateIsSound max s false = IsComplete max (length s.taken) s.own

abbrev pub SlotIsSound : ℤ → Slot (List Act) → Type 0
SlotIsSound max s = StateIsSound max s s.running

pub running-SlotIsSound :
    (max : ℤ) (s : Slot (List Act))
    → SlotIsSound max s
    → s.running ≡ true
    → Running max (length s.taken) s.batches s.own × IsSmall max s.batches
running-SlotIsSound max s h r = subst (λ (b : Bool). StateIsSound max s b) r h

pub SlotIsSound-running :
    (max : ℤ) (s : Slot (List Act))
    → s.running ≡ true
    → Running max (length s.taken) s.batches s.own × IsSmall max s.batches
    → SlotIsSound max s
SlotIsSound-running max s r h = subst (λ (b : Bool). StateIsSound max s b) (sym r) h

pub returned-IsComplete :
    (max : ℤ) (s : Slot (List Act))
    → SlotIsSound max s
    → s.running ≡ false
    → IsComplete max (length s.taken) s.own
returned-IsComplete max s h r = subst (λ (b : Bool). StateIsSound max s b) r h

-- How often a line is in a list.
abbrev pub count : String → List String → ℕ
count x [] = 0
count x (y ∷ l) = (if y == x then 1 else 0) + count x l

pub count-append : (x : String) (l m : List String) → count x (l ++ m) ≡ count x l + count x m
count-append x [] m = omega arith
count-append x (y ∷ l) m = omega (arith, count-append x l m)

-- How often a worker received a line or has it in its channel.
abbrev pub held : {L : Type 0} → String → Slot L → ℕ
held x s = count x s.taken + count x s.queue

-- The sum over the workers below a number.
abbrev pub total : ℕ → (ℕ → ℕ) → ℕ
total zero f = 0
total (suc n) f = total n f + f n

pub total_same : (n : ℕ) {f g : ℕ → ℕ} → ((i : ℕ) → f i ≡ g i) → total n f ≡ total n g
total_same n h = λ i. total n (λ j. h j i)

total_below : (n : ℕ) (f g : ℕ → ℕ) → ((j : ℕ) → j < n → g j ≡ f j) → total n g ≡ total n f
total_below zero f g h = refl
total_below (suc n) f g h =
    let ih = total_below n f g (λ j k. h j (omega (arith, k))) in
    let last : g n ≡ f n = h n (omega arith) in omega (arith, ih, last)

pub total_zero : (n : ℕ) (f : ℕ → ℕ) → ((i : ℕ) → i < n → f i ≡ 0) → total n f ≡ 0
total_zero zero f h = refl
total_zero (suc n) f h =
    let ih = total_zero n f (λ j k. h j (omega (arith, k))) in
    let last : f n ≡ 0 = h n (omega arith) in omega (arith, ih, last)

pub total_sum : (n : ℕ) (f g : ℕ → ℕ) → total n (λ i. f i + g i) ≡ total n f + total n g
total_sum zero f g = refl
total_sum (suc n) f g = omega (arith, total_sum n f g)

-- One of the summands grows.
pub total_grown :
    (n i k : ℕ) (f g : ℕ → ℕ)
    → i < n
    → g i ≡ f i + k
    → ((j : ℕ) → nat_eq i j ≡ false → g j ≡ f j)
    → total n g ≡ total n f + k
total_grown zero i k f g below grown others = absurd (ground arith)
total_grown (suc n) i k f g below grown others = elim (Bool-cases (nat_eq i n)) [
  | inl e ↦
      let same : i ≡ n = (nat_eq_iff i n).0 e in
      let last : g n ≡ f n + k = subst (λ (m : ℕ). g m ≡ f m + k) same grown in
      let rest : total n g ≡ total n f =
        total_below n f g (λ j h. others j (ground (arith, h, same))) in
      omega (arith, last, rest)
  | inr e ↦
      let ih = total_grown n i k f g (ground (arith, below, e)) grown others in
      let last = others n e in omega (arith, ih, last)
]

module _ {L : Type 0} (P : Slot L → Type 0) where
  pub set_all :
      (i : ℕ) (s : Slot L) (slots : ℕ → Slot L)
      → P s
      → ((j : ℕ) → P (slots j))
      → (j : ℕ) → P (set i s slots j)
  set_all i s slots h rest j = elim (Bool-cases (nat_eq i j)) [
    | inl e ↦ rw e h
    | inr e ↦ rw e (rest j)
  ]

module _ {L : Type 0} (f : Slot L → ℕ) where
  pub total-set_same :
      (n i : ℕ) (s : Slot L) (slots : ℕ → Slot L)
      → f s ≡ f (slots i)
      → total n (λ j. f (set i s slots j)) ≡ total n (λ j. f (slots j))
  total-set_same n i s slots h = total_same n (λ j. elim (Bool-cases (nat_eq i j)) [
    | inl e ↦ rw e (subst (λ (m : ℕ). f s ≡ f (slots m)) ((nat_eq_iff i j).0 e) h)
    | inr e ↦ rw e refl
  ])

  pub total-set_grown :
      (n i k : ℕ) (s : Slot L) (slots : ℕ → Slot L)
      → i < n
      → f s ≡ f (slots i) + k
      → total n (λ j. f (set i s slots j)) ≡ total n (λ j. f (slots j)) + k
  total-set_grown n i k s slots below h =
      let own : nat_eq i i ≡ true = ground arith in
      total_grown n i k (λ j. f (slots j)) (λ j. f (set i s slots j)) below (rw own h)
        (λ j e. rw e refl)
