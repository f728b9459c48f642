-- ===== src/Cfgsync/Registry.antt =====
-- registry.go, filter.go and `SwapFilter` of internal/parser/parser.go: a document's subtrees go to
-- the appliers that are registered for them.
pub mod Filters
use ta2mongo.Prelude.{
  String, Bool, Option, none, some, List, [], ◌∷◌, Result, ok, err, is_some, or_else, ◌==◌, wrap,
  ◌>>=◌, if◌then◌else◌,
}
use ta2mongo.Value.{Value, Fields, end, field, get_or_null}
use ta2mongo.Filter
use ta2mongo.Filter.{ExprLang, Filter, Config, build}
use ta2mongo.Cfgsync.Document.{
  is_reserved, subtree_filter, SliceError, to_string_slice, as_sub_document,
}

-- The errors of `Apply` and of the filter's applier.
pub data ApplyError : Type 0 where
  not_allowed : String → ApplyError
  not_a_document : String → Value → ApplyError
  bad_include bad_exclude : SliceError → ApplyError
  not_compiled : Filter.Error → ApplyError

-- An applier changes the live state `S`, or leaves it and answers an error.
abbrev pub Applier : Type 0 → Type 0
Applier S = Fields → S → Option ApplyError × S

abbrev pub Registry : Type 0 → Type 0
Registry S = List (String × Applier S)

module _ {S : Type 0} where
  unfoldable pub register : String → Applier S → Registry S → Registry S
  register subtree fn [] = (subtree, fn) ∷ []
  register subtree fn ((k, f) ∷ reg) =
      let rest = register subtree fn reg in if k == subtree then (k, fn) ∷ reg else (k, f) ∷ rest

  unfoldable pub applier_of : String → Registry S → Option (Applier S)
  applier_of key [] = none
  applier_of key ((k, f) ∷ reg) = if k == key then some f else applier_of key reg

  unfoldable pub allows : String → Registry S → Bool
  unfolding applier_of
  allows subtree reg = is_some (applier_of subtree reg)

  -- The handling of one field by `Apply`: its error and the state.
  unfoldable pub apply_field : Registry S → String → Value → S → Option ApplyError × S
  unfolding applier_of as_sub_document
  apply_field reg key val s =
      let routed : Option ApplyError × S = elim (applier_of key reg) [
        | none ↦ (some (not_allowed key), s)
        | some fn ↦ elim (as_sub_document val) [
          | none ↦ (some (not_a_document key val), s)
          | some sub ↦ fn sub s
        ]
      ] in
      if is_reserved key then (none, s) else routed

  -- The loop of `Apply` over a document, with the first error so far.
  unfoldable pub apply_from : Registry S → Fields → Option ApplyError → S → Option ApplyError × S
  unfolding apply_field
  apply_from reg end first s = (first, s)
  apply_from reg (field key val doc) first s =
      let (e, s') = apply_field reg key val s in apply_from reg doc (or_else first e) s'

  unfoldable pub apply : Registry S → Fields → S → Option ApplyError × S
  unfolding apply_from
  apply reg doc s = apply_from reg doc none s

module _ (lang : ExprLang) where
  open lang use {Program}

  -- The live filter of a parser's holder.
  abbrev pub Live : Type 0
  Live = Option (Filter Program)

  unfoldable pub swap_filter : List String → List String → Live → Option ApplyError × Live
  swap_filter inc exc live = elim (build lang (some (record { include = inc; exclude = exc }))) [
    | err e ↦ (some (not_compiled e), live)
    | ok flt ↦ (none, some flt)
  ]

  -- The applier that `RegisterFilter` registers.
  unfoldable pub apply_filter : Fields → Live → Option ApplyError × Live
  unfolding to_string_slice get_or_null swap_filter
  apply_filter sub live = elim (to_string_slice (get_or_null "include" sub)) [
    | err e ↦ (some (bad_include e), live)
    | ok inc ↦ elim (to_string_slice (get_or_null "exclude" sub)) [
      | err e ↦ (some (bad_exclude e), live)
      | ok exc ↦ swap_filter inc exc live
    ]
  ]

  unfoldable pub register_filter : Registry Live → Registry Live
  unfolding apply_filter register
  register_filter reg = register subtree_filter apply_filter reg
