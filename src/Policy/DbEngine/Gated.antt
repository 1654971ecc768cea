-- ===== src/Policy/DbEngine/Gated.antt =====
-- What the role gates and the visibility of a tool demand, row by row.
use compliance_framework.Prelude.{
  arith, inl, inr, ◌⊎◌, Bool-cases, refl, [], ◌∷◌, String, ◌<>◌, true, ◌≡◌, ◌↔◌, ◌==◌, eq_iff, In,
  All, Some, All-iff, Some-iff, filter, List, map, some, lookup,
}
use compliance_framework.Models.{Value, not_none, str_value, ToolRequest}
use compliance_framework.Runtime.{Runtime}
use compliance_framework.Policy.Gates.{partition}
use compliance_framework.Policy.Checks.Laws.{HasOneOf, IsOpen}
use compliance_framework.Policy.DbRules.{Db, GateRow, VisibilityRow, role_gates, visibility_roles}
use compliance_framework.Policy.StaticEngine.Exact.{IsVisible}
use compliance_framework.Policy.DbRules.Queries.{Some-query_iff, All-query_iff}
use compliance_framework.Policy.DbRules.Groups.{items_of, group-All_iff}

-- The text under which a gate is grouped, and which the engine takes apart at its first `=`.
abbrev pub gate_of : GateRow → String
gate_of row = row.param_name <> "=" <> row.param_value

-- A row for this tool and this gate, with a role of the context.
abbrev pub Opens : List String → String → String → GateRow → Type 0
Opens roles tool gate row =
    (row.tool_name ≡ tool) × ((gate_of row ≡ gate) × In row.required_role roles)

-- If the request gives the parameter of the row's gate the gate's value, some row of the gate has a
-- role of the context.
abbrev pub Gated : Runtime → Db → List String → ToolRequest → GateRow → Type 0
Gated py store roles request row =
    row.tool_name ≡ request.tool_name
    → (v : Value) → not_none (lookup (partition (gate_of row)).0 request.parameters) ≡ some v
    → str_value py.repr v ≡ (partition (gate_of row)).1
    → Some (Opens roles request.tool_name (gate_of row)) store.parameter_role_gates

module _ (roles : List String) (tool : String) (gates : List GateRow) where
  abbrev named : List (String × String)
  named =
      map (λ (r : GateRow). (gate_of r, r.required_role)) (filter (λ r. r.tool_name == tool) gates)

  HasOneOf-iff :
      (gate : String) → HasOneOf roles (items_of gate named) ↔ Some (Opens roles tool gate) gates
  HasOneOf-iff gate =
      let inner =
        Some-query_iff (λ (r : String × String). r.0 == gate) (λ r. r.1) (λ role. In role roles)
          named in
      let outer =
        Some-query_iff (λ (r : GateRow). r.tool_name == tool) (λ r. (gate_of r, r.required_role))
          (λ (r : String × String). ((r.0 == gate) ≡ true) × In r.1 roles) gates in
      let tests =
        Some-iff
          (λ (r : GateRow).
            ((r.tool_name == tool) ≡ true)
            × (((gate_of r == gate) ≡ true) × In r.required_role roles))
          (Opens roles tool gate)
          (λ r. (
            λ h. ((eq_iff _ _).0 h.0, ((eq_iff _ _).0 h.1.0, h.1.1)),
            λ h. ((eq_iff _ _).1 h.0, ((eq_iff _ _).1 h.1.0, h.1.1)),
          ))
          gates in
      (λ h. tests.0 (outer.0 (inner.0 h)), λ h. inner.1 (outer.1 (tests.1 h)))

pub IsOpen-iff :
    (py : Runtime) (store : Db) (roles : List String) (request : ToolRequest)
    → All (IsOpen py roles request.parameters) (role_gates store request.tool_name)
      ↔ All (Gated py store roles request) store.parameter_role_gates
unfolding role_gates
IsOpen-iff py store roles request =
    let tool = request.tool_name in
    let gates = store.parameter_role_gates in
    let rows = named roles tool gates in
    let grouped = group-All_iff (IsOpen py roles request.parameters) rows in
    let each =
      All-query_iff (λ (r : GateRow). r.tool_name == tool) gate_of (λ r. r.required_role)
        (λ row. IsOpen py roles request.parameters (row.0, items_of row.0 rows)) gates in
    let tests =
      All-iff
        (λ (r : GateRow).
          (r.tool_name == tool) ≡ true
          → IsOpen py roles request.parameters (gate_of r, items_of (gate_of r) rows))
        (Gated py store roles request)
        (λ r. (
          λ h e v found same.
              (HasOneOf-iff roles tool gates (gate_of r)).0 (h ((eq_iff _ _).1 e) v found same),
          λ h e v found same.
              (HasOneOf-iff roles tool gates (gate_of r)).1 (h ((eq_iff _ _).0 e) v found same),
        ))
        gates in
    (λ h. tests.0 (each.0 (grouped.0 h)), λ h. grouped.1 (each.1 (tests.1 h)))

-- No row of the tool restricts who sees it, or some row does with a role of the context.
abbrev pub IsSeen : List String → String → List VisibilityRow → Type 0
IsSeen roles tool rows =
    All (λ r. ¬ (r.tool_name ≡ tool)) rows
    ⊎ Some (λ r. (r.tool_name ≡ tool) × In r.role_name roles) rows

unrestricted_iff :
    (tool : String) (rows : List VisibilityRow)
    → (map (λ (r : VisibilityRow). r.role_name) (filter (λ r. r.tool_name == tool) rows) ≡ [])
      ↔ All (λ r. ¬ (r.tool_name ≡ tool)) rows
unrestricted_iff tool [] = (λ h. tt, λ h. refl)
unrestricted_iff tool (r ∷ rows) =
    let ih = unrestricted_iff tool rows in
    elim (Bool-cases (r.tool_name == tool)) [
      | inl same ↦
          let e = (eq_iff r.tool_name tool).0 same in
          (λ h. absurd (ground arith), λ h. absurd (h.0 e))
      | inr other ↦
          let apart : ¬ (r.tool_name ≡ tool) =
            λ e. let same = (eq_iff r.tool_name tool).1 e in ground (arith, same) in
          (λ h. (apart, ih.0 (ground arith)), λ h. let none_left = ih.1 h.1 in ground arith)
    ]

pub IsVisible-iff :
    (db : Db) (roles : List String) (tool : String)
    → IsVisible roles (visibility_roles db tool) ↔ IsSeen roles tool db.tool_visibility_roles
unfolding visibility_roles
IsVisible-iff db roles tool =
    let rows = db.tool_visibility_roles in
    let named =
      Some-query_iff (λ (r : VisibilityRow). r.tool_name == tool) (λ r. r.role_name)
        (λ role. In role roles) rows in
    let tests =
      Some-iff (λ (r : VisibilityRow). ((r.tool_name == tool) ≡ true) × In r.role_name roles)
        (λ r. (r.tool_name ≡ tool) × In r.role_name roles)
        (λ r. (λ h. ((eq_iff _ _).0 h.0, h.1), λ h. ((eq_iff _ _).1 h.0, h.1))) rows in
    let free = unrestricted_iff tool rows in
    (
      elim [ inl e ↦ inl (free.0 e) | inr h ↦ inr (tests.0 (named.0 h)) ],
      elim [ inl h ↦ inl (free.1 h) | inr h ↦ inr (named.1 (tests.1 h)) ],
    )
