-- ===== src/Process/Pipeline/Pool/Sound.antt =====
-- What stays true of the pool as a whole, when a worker changes and when a line is put into a
-- channel.
use ta2mongo.Prelude.{
  ℕ, zero, suc, ◌+◌, ◌<◌, ◌≡◌, refl, ap, ◌∙◌, String, Bool, true, false, Option, none, some, List,
  [], ◌∷◌, ◌++◌, arith,
}
use ta2mongo.Process.Uploads.Trace.{Act}
use ta2mongo.Process.Pipeline.Config.{Config, max_batch_size}
use ta2mongo.Process.Pipeline.Pool.{Slot, Pool, set, push}
use ta2mongo.Process.Pipeline.Pool.Slots.{
  SlotIsSound, count, count-append, held, total, set_all, total-set_same, total-set_grown,
}

abbrev pub pending : String → Option String → ℕ
pending x none = 0
pending x (some line) = count x (line ∷ [])

-- What holds of a worker that returned while the context was not done.
abbrev pub IsDrained : {L : Type 0} → Bool → Bool → Slot L → Type 0
IsDrained closed done s = s.running ≡ false → done ≡ false → (s.queue ≡ []) × (closed ≡ true)

-- What stays true of a pool of `n` workers after the dispatcher has taken some lines.
pub record Sound {W : Type 0} (cfg : Config) (n : ℕ) (lines : List String) (p : Pool W (List Act))
    : Type 0 where
  pub workers : (i : ℕ) → SlotIsSound (max_batch_size cfg) (p.slots i)
  pub counted :
      (x : String) → total n (λ i. held x (p.slots i)) + pending x p.blocked ≡ count x lines
  pub drained : (i : ℕ) → IsDrained p.closed p.done (p.slots i)
  pub gate : p.closed ≡ true → p.done ≡ false → p.blocked ≡ none

pub not_both : {b : Bool} → b ≡ false → b ≡ true → ⊥
not_both h k = ground (arith, h, k)

pub zero_total : (n : ℕ) → total n (λ i. 0) ≡ 0
zero_total zero = refl
zero_total (suc n) = omega (arith, zero_total n)

module _ {W : Type 0} (cfg : Config) (n : ℕ) {lines : List String} (p : Pool W (List Act)) where
  -- A worker changes, but not how often it holds a line.
  pub replaced-Sound :
      (w : W) (i : ℕ) (s : Slot (List Act))
      → Sound cfg n lines p
      → SlotIsSound (max_batch_size cfg) s
      → ((x : String) → held x s ≡ held x (p.slots i))
      → IsDrained p.closed p.done s
      → Sound cfg n lines (record p { world = w; slots = set i s p.slots })
  replaced-Sound w i s h sound same drained = record {
    workers = set_all (SlotIsSound (max_batch_size cfg)) i s p.slots sound h.workers;
    counted = λ x.
        ap (λ (m : ℕ). m + pending x p.blocked) (total-set_same (held x) n i s p.slots (same x))
        ∙ h.counted x;
    drained = set_all (IsDrained p.closed p.done) i s p.slots drained h.drained;
    gate = h.gate;
  }

  -- A line goes into a channel, from the source or from the dispatcher's hands.
  pub push-Sound :
      (line : String) (i : ℕ) (lines' : List String) (left : Option String)
      → i < n
      → p.closed ≡ false
      → Sound cfg n lines p
      → ((x : String)
          → count x lines + (count x (line ∷ []) + pending x left)
            ≡ count x lines' + pending x p.blocked)
      → Sound cfg n lines' (record (push i line p) { blocked = left })
  unfolding push
  push-Sound line i lines' left below opened h balance =
      let s = p.slots i in
      let s' : Slot (List Act) = record s { queue = s.queue ++ line ∷ [] } in
      record {
        workers = set_all (SlotIsSound (max_batch_size cfg)) i s' p.slots (h.workers i) h.workers;
        counted = λ x.
            let grown : held x s' ≡ held x s + count x (line ∷ []) =
              omega (arith, count-append x s.queue (line ∷ [])) in
            let sum = total-set_grown (held x) n i (count x (line ∷ [])) s' p.slots below grown in
            omega (arith, sum, h.counted x, balance x);
        drained =
            set_all (IsDrained p.closed p.done) i s' p.slots
              (λ r d. absurd (not_both opened (h.drained i r d).1)) h.drained;
        gate = λ c d. absurd (not_both opened c);
      }
