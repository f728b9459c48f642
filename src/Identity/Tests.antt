-- ===== src/Identity/Tests.antt =====
-- Runs of the resolver on the collection in memory, and its theorem at a concrete input.
mod Agreement
use ta2mongo.Prelude.{◌≡◌, refl, String, List, [], ◌∷◌, ok, eq_iff, arith, Bool-cases, inl, inr}
use ta2mongo.Prelude.Int.{pos}
use ta2mongo.Identity.Mapping.{IdMapping}
use ta2mongo.Identity.Memory.{Memory, memory, find, has_account}
use ta2mongo.Identity.Resolver.{Resolver}
use ta2mongo.Identity.Resolve.{resolve_from_db, resolve_with_both, resolve}

pub found_account :
    (a : String) (rows : List IdMapping) (m : IdMapping)
    → find (has_account a) rows ≡ ok m
    → m.account_id ≡ a
unfolding find
found_account a [] m h = absurd (ground arith)
found_account a (r ∷ rows) m h = elim (Bool-cases (has_account a r)) [
  | inl t ↦
      let same : r ≡ m = ground (arith, t, h) in
      rw (← same) ((eq_iff r.account_id a).0 (ground (arith, t)))
  | inr f ↦ found_account a rows m (ground (arith, f, h))
]

abbrev pub pod : Resolver Memory
pod = record {
  db = record {
    rows = record { user_id = pos 7; account_id = "x"; distinct_ids = "d" ∷ [] } ∷ [];
    seq = pos 7;
  };
  account_cache = [];
  distinct_cache = [];
}

-- The account of a new distinct id, and a new account, are bound.
resolve_runs :
    ((resolve memory "x" "e" pod).0 ≡ ok (pos 7))
    × (((resolve memory "" "d" pod).0 ≡ ok (pos 7)) × ((resolve memory "y" "f" pod).0 ≡ ok (pos 8)))
unfolding resolve resolve_from_db find resolve_with_both
resolve_runs = (refl, (refl, refl))
