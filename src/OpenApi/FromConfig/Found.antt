-- ===== src/OpenApi/FromConfig/Found.antt =====
-- Which operation stands in an exported document under a path and a method (internal/openapi/export.go).
use aastro.Prelude.{
  Bool, true, ◌&&◌, List, [], ◌∷◌, Option, none, some, String, str_eq, str_eq_iff, contains, lookup,
  insert, lookup-insert, if◌then◌else◌, ◌≡◌, refl, sym, ap, ◌∙◌, subst, inl, inr, arith, Bool-cases,
}
use aastro.Prelude.Sorting.{
  or_else, or_else-none, or_else_assoc, find, sort_entries, find-sort_entries,
}
use aastro.Aggregator.{Distinct}
use aastro.Config.{FlowConfig}
use aastro.OpenApi.{Durations}
use aastro.OpenApi.Document.{Operation, PathItem, no_operations, operations_of, methods}
use aastro.OpenApi.Export.Operations.{build_operation}
use aastro.OpenApi.FromConfig.{
  get_slot, attach_at, attach_operation, item_or_new, Written, write_flow, write_flows,
  nothing_written, tags_of, first_path_segment,
}
use aastro.OpenApi.FromConfig.Slots.{get_slot-set_slot, lookup-operations_of}

-- The first flow with a path and a method.
unfoldable pub find_flow : String → String → List FlowConfig → Option FlowConfig
find_flow path method [] = none
find_flow path method (f ∷ fs) =
    let rest = find_flow path method fs in
    if str_eq f.path path && str_eq f.method method then some f else rest

abbrev pub of_item : String → Option PathItem → Option Operation
of_item method item = lookup method (operations_of item)

abbrev of_entry : String → Option (Option PathItem) → Option Operation
of_entry method none = none
of_entry method (some item) = of_item method item

pub operation_at : String → String → List (String × Option PathItem) → Option Operation
operation_at path method paths = of_entry method (lookup path paths)

module _ (m : String) (known : contains methods m ≡ true) where
  of_entry-item_or_new : (o : Option (Option PathItem)) → of_entry m o ≡ get_slot m (item_or_new o)
  unfolding operations_of lookup
  of_entry-item_or_new none = lookup-operations_of m no_operations known
  of_entry-item_or_new (some none) = lookup-operations_of m no_operations known
  of_entry-item_or_new (some (some i)) = lookup-operations_of m i known

  get_slot-attach_at :
      (n : String) (op : Operation) (i : PathItem) (o : Option Operation)
      → get_slot n i ≡ o
      → get_slot m (attach_at n op i o).0
        ≡ or_else (get_slot m i) (if str_eq n m then some op else none)
  get_slot-attach_at n op i none free = elim (Bool-cases (str_eq n m)) [
    | inl e ↦
        get_slot-set_slot m n op i known
        ∙ rw e (rw (ap (λ k. get_slot k i) (sym ((str_eq_iff n m).0 e)) ∙ free) refl)
    | inr e ↦ get_slot-set_slot m n op i known ∙ rw e (sym (or_else-none (get_slot m i)))
  ]
  get_slot-attach_at n op i (some taken) there = elim (Bool-cases (str_eq n m)) [
    | inl e ↦ rw (ap (λ k. get_slot k i) (sym ((str_eq_iff n m).0 e)) ∙ there) refl
    | inr e ↦ rw e (sym (or_else-none (get_slot m i)))
  ]

  get_slot-attach_operation :
      (n : String) (op : Operation) (i : PathItem)
      → get_slot m (attach_operation n op i).0
        ≡ or_else (get_slot m i) (if str_eq n m then some op else none)
  unfolding attach_operation
  get_slot-attach_operation n op i = elim (Bool-cases (contains methods n)) [
    | inl e ↦ rw e (get_slot-attach_at n op i (get_slot n i) refl)
    | inr e ↦ elim (Bool-cases (str_eq n m)) [
      | inl same ↦
          absurd (ground (arith, e, known, ap (contains methods) ((str_eq_iff n m).0 same)))
      | inr other ↦ rw (e, other) (sym (or_else-none (get_slot m i)))
    ]
  ]

module _ (durations : Durations) (limited extensions : Bool) where
  -- The operation that a flow becomes.
  unfoldable pub operation_of : FlowConfig → Operation
  operation_of f = record (build_operation durations f limited extensions) {
    tags = tags_of (first_path_segment f.path);
  }

  abbrev pub operations_of_flow : Option FlowConfig → Option Operation
  operations_of_flow none = none
  operations_of_flow (some f) = some (operation_of f)

  module _ (p m : String) (known : contains methods m ≡ true) where
    operation_at-write_flow :
        (f : FlowConfig) (w : Written)
        → operation_at p m (write_flow durations limited extensions f w).paths
          ≡ or_else
              (operation_at p m w.paths)
              (if str_eq f.path p && str_eq f.method m then some (operation_of f) else none)
    unfolding operation_at write_flow operation_of
    operation_at-write_flow f w =
        let attached =
          (attach_operation f.method (operation_of f) (item_or_new (lookup f.path w.paths))).0 in
        ap (of_entry m) (lookup-insert f.path p (some attached) w.paths)
        ∙ elim (Bool-cases (str_eq f.path p)) [
          | inl e ↦ rw e (
              lookup-operations_of m attached known
              ∙ get_slot-attach_operation m known f.method (operation_of f)
                  (item_or_new (lookup f.path w.paths))
              ∙ rw (← of_entry-item_or_new m known (lookup f.path w.paths))
                  (rw ((str_eq_iff f.path p).0 e) refl))
          | inr e ↦ rw e (sym (or_else-none (of_entry m (lookup p w.paths))))
        ]

    pub operation_at-write_flows :
        (fs : List FlowConfig) (w : Written)
        → operation_at p m (write_flows durations limited extensions fs w).paths
          ≡ or_else (operation_at p m w.paths) (operations_of_flow (find_flow p m fs))
    unfolding write_flows find_flow
    operation_at-write_flows [] w = sym (or_else-none (operation_at p m w.paths))
    operation_at-write_flows (f ∷ fs) w =
        operation_at-write_flows fs (write_flow durations limited extensions f w)
        ∙ ap (λ o. or_else o (operations_of_flow (find_flow p m fs))) (operation_at-write_flow f w)
        ∙ or_else_assoc (operation_at p m w.paths) _ (operations_of_flow (find_flow p m fs))
        ∙ ap (or_else (operation_at p m w.paths))
            (elim (Bool-cases (str_eq f.path p && str_eq f.method m)) [
              | inl e ↦ rw e refl
              | inr e ↦ rw e refl
            ])

Distinct-insert :
    {V : Type 0} (k : String) (v : V) (m : List (String × V)) → Distinct m → Distinct (insert k v m)
unfolding insert lookup
Distinct-insert k v [] d = (refl, tt)
Distinct-insert k v ((at, old) ∷ m) (fresh, d) = elim (Bool-cases (str_eq at k)) [
  | inl e ↦ rw e (subst (λ j. lookup j m ≡ none) ((str_eq_iff at k).0 e) fresh, d)
  | inr e ↦ rw e (
      (
        ground (arith, lookup-insert k at v m, fresh, e, str_eq_iff at k, str_eq_iff k at),
        Distinct-insert k v m d,
      ))
]

module _ (p m : String) where
  find-lookup :
      (paths : List (String × Option PathItem))
      → Distinct paths
      → find (of_item m) p paths ≡ of_entry m (lookup p paths)
  unfolding find lookup
  find-lookup [] d = refl
  find-lookup ((k, item) ∷ paths) (fresh, d) = elim (Bool-cases (str_eq k p)) [
    | inl e ↦ rw e (
        rw (find-lookup paths d, subst (λ j. lookup j paths ≡ none) ((str_eq_iff k p).0 e) fresh)
          (or_else-none (of_item m item)))
    | inr e ↦ rw e (find-lookup paths d)
  ]

module _ (durations : Durations) (limited extensions : Bool) where
  Distinct-write_flows :
      (fs : List FlowConfig) (w : Written)
      → Distinct w.paths
      → Distinct (write_flows durations limited extensions fs w).paths
  unfolding write_flows write_flow
  Distinct-write_flows [] w d = d
  Distinct-write_flows (f ∷ fs) w d =
      Distinct-write_flows fs (write_flow durations limited extensions f w)
        (Distinct-insert f.path _ w.paths d)

  -- Under a path and a method that has a slot, the import meets the operation of the first flow with them.
  pub find-write_flows :
      (p m : String) (fs : List FlowConfig)
      → contains methods m ≡ true
      → find
          (of_item m)
          p
          (sort_entries (write_flows durations limited extensions fs nothing_written).paths)
        ≡ operations_of_flow durations limited extensions (find_flow p m fs)
  unfolding operation_at lookup
  find-write_flows p m fs known =
      let paths = (write_flows durations limited extensions fs nothing_written).paths in
      find-sort_entries (of_item m) p paths
      ∙ find-lookup p m paths (Distinct-write_flows fs nothing_written tt)
      ∙ operation_at-write_flows durations limited extensions p m known fs nothing_written
