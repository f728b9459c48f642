-- ===== src/Cfgsync/Config.antt =====
-- config.go: the settings of the watcher. Durations are in nanoseconds.
use ta2mongo.Prelude.{
  ◌≡◌, ◌⊎◌, String, Bool, false, ◌||◌, Result, ok, err, ◌==◌, inl, inr, Bool-cases, arith, refl,
  if◌then◌else◌,
}
use ta2mongo.Prelude.Int.{ℤ, pos, ◌<ℤ◌, leb_ℤ}

pub record Config : Type 0 where
  pub enabled : Bool
  pub backend : String
  pub document_id : String
  pub poll_interval : ℤ
  pub reconcile_interval : ℤ
  pub collection : String

-- if s == "" { s = d }
abbrev pub text_default : String → String → String
text_default d s = if s == "" then d else s

-- if v <= 0 { v = d }
abbrev pub int_default : ℤ → ℤ → ℤ
int_default d v = if leb_ℤ v (pos 0) then d else v

unfoldable pub apply_defaults : Config → Config
apply_defaults c = record {
  enabled = c.enabled;
  backend = text_default "poll" c.backend;
  document_id = text_default "filter" c.document_id;
  poll_interval = int_default (pos 5000000000) c.poll_interval;
  reconcile_interval = int_default (pos 60000000000) c.reconcile_interval;
  collection = text_default "_tango_config" c.collection;
}

-- The error of `Validate` names the backend.
unfoldable pub validate : Config → Result String (Unit {0})
validate c = if c.backend == "poll" || c.backend == "changestream" then ok tt else err c.backend

-- A collection and a document are named and the intervals are positive.
pub record IsComplete (c : Config) : Type 0 where
  pub collection : c.collection == "" ≡ false
  pub document : c.document_id == "" ≡ false
  pub poll : pos 0 <ℤ c.poll_interval
  pub reconcile : pos 0 <ℤ c.reconcile_interval

filled : (d s : String) → d == "" ≡ false → text_default d s == "" ≡ false
filled d s h = elim (Bool-cases (s == "")) [ inl e ↦ rw e h | inr e ↦ rw (e, e) refl ]

raised : (d v : ℤ) → pos 0 <ℤ d → pos 0 <ℤ int_default d v
raised d v h = ground arith

-- With no backend, or with one that is known, the defaults make settings that the validation
-- accepts, that name a collection and a document and have positive intervals.
pub apply_defaults-IsComplete :
    (c : Config)
    → (c.backend ≡ "") ⊎ ((c.backend ≡ "poll") ⊎ (c.backend ≡ "changestream"))
    → (validate (apply_defaults c) ≡ ok tt) × IsComplete (apply_defaults c)
unfolding apply_defaults validate
apply_defaults-IsComplete c h =
    let complete : IsComplete (apply_defaults c) =
      unfold apply_defaults in
      record {
        collection = filled "_tango_config" c.collection refl;
        document = filled "filter" c.document_id refl;
        poll = raised (pos 5000000000) c.poll_interval (omega arith);
        reconcile = raised (pos 60000000000) c.reconcile_interval (omega arith);
      } in
    elim h [
      | inl e ↦ (rw e refl, complete)
      | inr (inl e) ↦ (rw e refl, complete)
      | inr (inr e) ↦ (rw e refl, complete)
    ]
