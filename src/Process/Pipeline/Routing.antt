-- ===== src/Process/Pipeline/Routing.antt =====
-- routing.go: the key of a line and the worker that it is routed to.
use ta2mongo.Prelude.{
  ℕ, zero, suc, ◌+◌, ◌*◌, ◌/◌, ◌%◌, ◌^◌, ◌<◌, String, Bool, true, false, ◌||◌, Option, none, some,
  List, [], ◌∷◌, nat_eq, ◌==◌, or_else, codes, arith, if◌then◌else◌,
}
use ta2mongo.Prelude.Int.{ℤ, pos, pos_part, leb_ℤ}
use ta2mongo.Talog.{envelope_keys}

-- The exclusive or of two numbers, the second below 2 ^ n.
unfoldable pub xor : ℕ → ℕ → ℕ → ℕ
xor zero a b = a
xor (suc n) a b = (a % 2 + b % 2) % 2 + 2 * xor n (a / 2) (b / 2)

abbrev pub fnv_offset : ℕ
fnv_offset = 2166136261

abbrev pub fnv_prime : ℕ
fnv_prime = 16777619

-- FNV-1a, 32 bits wide: the hash after the bytes of a key.
unfoldable pub fnv_write : ℕ → List ℕ → ℕ
unfolding xor
fnv_write h [] = h
fnv_write h (b ∷ bytes) = fnv_write (xor 8 h b * fnv_prime % 2 ^ 32) bytes

abbrev pub no_bytes : List ℕ → Bool
no_bytes [] = true
no_bytes l = false

-- `RouteIndex` on the bytes of a key. The int that holds the hash is of 64 bits.
unfoldable pub route_index : List ℕ → ℤ → ℕ
unfolding fnv_write
route_index key n =
    if no_bytes key || leb_ℤ n (pos 0) then 0 else fnv_write fnv_offset key % pos_part n

-- github.com/tidwall/gjson: the value at a path of a text, if it exists, as a string.
module _ (gjson : String → String → Option String) where
  -- v.Exists() && v.String() != ""
  abbrev pub non_empty : Option String → Option String
  non_empty none = none
  non_empty (some v) = if v == "" then none else some v

  -- The key of one object.
  unfoldable pub own_key : String → Option String
  own_key line =
      or_else (non_empty (gjson line "#account_id")) (non_empty (gjson line "#distinct_id"))

  -- `.String()` of a value that does not exist is empty.
  abbrev pub text_of : Option String → String
  text_of none = ""
  text_of (some v) = v

  -- len(inner) < 2 || inner[0] != '{', by the code points: two of them are two bytes, and one
  -- that is '{' and has no more is one byte
  abbrev pub is_object : List ℕ → Bool
  is_object (c ∷ d ∷ cs) = nat_eq c 123
  is_object cs = false

  -- The loop over the envelopes of a line.
  unfoldable pub envelope_key : String → List String → String
  unfolding own_key
  envelope_key line [] = ""
  envelope_key line (envelope ∷ envelopes) =
      let inner = text_of (gjson line envelope) in
      let rest = envelope_key line envelopes in
      if is_object (codes inner) then elim (own_key inner) [ none ↦ rest | some k ↦ k ] else rest

  unfoldable pub extract_routing_key : String → String
  unfolding own_key envelope_key
  extract_routing_key line = elim (own_key line) [
    | none ↦ envelope_key line envelope_keys
    | some k ↦ k
  ]

-- The index is that of a worker.
pub route_index_lt : (key : List ℕ) (n : ℕ) → 0 < n → route_index key (pos n) < n
unfolding route_index
route_index_lt key n h = ground arith
