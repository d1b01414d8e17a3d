-- ===== src/OpenApi/ToConfig/Found.antt =====
-- Which flow an import makes for a path and a method (internal/openapi/import.go).
use aastro.Prelude.{
  ◌&&◌, List, [], ◌∷◌, ◌++◌, Option, none, some, String, str_eq, str_eq_iff, lookup, if◌then◌else◌,
  ◌≡◌, refl, sym, ap, ◌∙◌, inl, inr, Bool-cases,
}
use aastro.Prelude.Sorting.{or_else, or_else-none, or_else_assoc, find}
use aastro.Config.{FlowConfig}
use aastro.OpenApi.{Durations, FlowExtension}
use aastro.OpenApi.Document.{Operation, PathItem, Document, operations_of}
use aastro.OpenApi.Import.{reconstruct_flow}
use aastro.OpenApi.Scaffold.{ImportMode, scaffold_flow}
use aastro.OpenApi.ToConfig.{Gathered, convert_operation, handle, handle_all, handle_paths}
use aastro.OpenApi.FromConfig.Found.{find_flow, of_item}

find_flow-append :
    (p m : String) (fs gs : List FlowConfig)
    → find_flow p m (fs ++ gs) ≡ or_else (find_flow p m fs) (find_flow p m gs)
unfolding find_flow
find_flow-append p m [] gs = refl
find_flow-append p m (f ∷ fs) gs = elim (Bool-cases (str_eq f.path p && str_eq f.method m)) [
  | inl e ↦ rw e refl
  | inr e ↦ rw e (find_flow-append p m fs gs)
]

module _ (durations : Durations) (doc : Document) (default_host : String) (mode : ImportMode) where
  unfoldable pub flow_for : String → String → Operation → FlowConfig
  flow_for path method op =
      (convert_operation durations doc default_host mode path method op op.x_aastro).0

  abbrev pub flow_for_option : String → String → Option Operation → Option FlowConfig
  flow_for_option path method none = none
  flow_for_option path method (some op) = some (flow_for path method op)

  convert_operation-keeps :
      (path method : String) (op : Operation) (ext : Option FlowExtension)
      → ((convert_operation durations doc default_host mode path method op ext).0.path ≡ path)
        × ((convert_operation durations doc default_host mode path method op ext).0.method ≡ method)
  unfolding convert_operation reconstruct_flow scaffold_flow
  convert_operation-keeps path method op none = (refl, refl)
  convert_operation-keeps path method op (some ext) = (refl, refl)

  find_flow-flow_for :
      (p m path method : String) (op : Operation)
      → find_flow p m (flow_for path method op ∷ [])
        ≡ (if str_eq path p && str_eq method m then some (flow_for p m op) else none)
  unfolding find_flow flow_for
  find_flow-flow_for p m path method op =
      let (path_kept, method_kept) = convert_operation-keeps path method op op.x_aastro in
      simp (path_kept, method_kept)
        (elim (Bool-cases (str_eq path p)) [
          | inl e ↦ elim (Bool-cases (str_eq method m)) [
            | inl e' ↦ simp ((str_eq_iff path p).0 e, (str_eq_iff method m).0 e') refl
            | inr e' ↦ rw (e, e') refl
          ]
          | inr e ↦ rw e refl
        ])

  flow_for_option-or_else :
      (p m : String) (a b : Option Operation)
      → or_else (flow_for_option p m a) (flow_for_option p m b) ≡ flow_for_option p m (or_else a b)
  flow_for_option-or_else p m none b = refl
  flow_for_option-or_else p m (some op) b = refl

  find_flow-handle :
      (p m path method : String) (op : Operation) (g : Gathered)
      → find_flow p m (handle durations doc default_host mode path method op g).flows
        ≡ or_else
            (find_flow p m g.flows)
            (if str_eq path p && str_eq method m then some (flow_for p m op) else none)
  unfolding handle flow_for
  find_flow-handle p m path method op g =
      find_flow-append p m g.flows (flow_for path method op ∷ [])
      ∙ ap (or_else (find_flow p m g.flows)) (find_flow-flow_for p m path method op)

  find_flow-handle_all :
      (p m path : String) (ops : List (String × Operation)) (g : Gathered)
      → find_flow p m (handle_all durations doc default_host mode path ops g).flows
        ≡ or_else
            (find_flow p m g.flows)
            (if str_eq path p then flow_for_option p m (lookup m ops) else none)
  unfolding handle_all lookup
  find_flow-handle_all p m path [] g = elim (Bool-cases (str_eq path p)) [
    | inl e ↦ rw e (sym (or_else-none (find_flow p m g.flows)))
    | inr e ↦ rw e (sym (or_else-none (find_flow p m g.flows)))
  ]
  find_flow-handle_all p m path ((method, op) ∷ ops) g =
      let rest = if str_eq path p then flow_for_option p m (lookup m ops) else none in
      find_flow-handle_all p m path ops (handle durations doc default_host mode path method op g)
      ∙ ap (λ o. or_else o rest) (find_flow-handle p m path method op g)
      ∙ or_else_assoc (find_flow p m g.flows) _ rest
      ∙ ap (or_else (find_flow p m g.flows)) (elim (Bool-cases (str_eq path p)) [
        | inl e ↦ elim (Bool-cases (str_eq method m)) [
          | inl e' ↦ rw (e, e') refl
          | inr e' ↦ rw (e, e') refl
        ]
        | inr e ↦ rw e refl
      ])

  pub find_flow-handle_paths :
      (p m : String) (entries : List (String × Option PathItem)) (g : Gathered)
      → find_flow p m (handle_paths durations doc default_host mode entries g).flows
        ≡ or_else (find_flow p m g.flows) (flow_for_option p m (find (of_item m) p entries))
  unfolding handle_paths find
  find_flow-handle_paths p m [] g = sym (or_else-none (find_flow p m g.flows))
  find_flow-handle_paths p m ((path, item) ∷ rest) g =
      let further = flow_for_option p m (find (of_item m) p rest) in
      find_flow-handle_paths p m rest
        (handle_all durations doc default_host mode path (operations_of item) g)
      ∙ ap (λ o. or_else o further) (find_flow-handle_all p m path (operations_of item) g)
      ∙ or_else_assoc (find_flow p m g.flows) _ further
      ∙ ap (or_else (find_flow p m g.flows)) (elim (Bool-cases (str_eq path p)) [
        | inl e ↦
            rw e (
              flow_for_option-or_else p m (lookup m (operations_of item)) (find (of_item m) p rest))
        | inr e ↦ rw e refl
      ])
