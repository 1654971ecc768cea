-- ===== src/Policy/DbRules/Queries.antt =====
-- What the queries of `DbRuleStore` find, row by row.
use compliance_framework.Prelude.{
  String, Bool, true, ◌≡◌, ◌↔◌, inl, inr, ◌==◌, eq_iff, In, All, Some, any_iff, Bool-cases, filter,
  List, [], ◌∷◌, ◌++◌, map, Dict, arith, eqb, All-iff, Some-iff,
}
use compliance_framework.Policy.DbRules.{
  RoleRow, FunctionRow, PatternRow, Db, append_at, group, active_roles, tool_exists,
  allowed_functions, deny_patterns,
}

module _ {A B : Type 0} (p : A → Bool) (f : A → B) where
  -- "SELECT f FROM rows WHERE p" returns the f of the rows with p.
  pub Some-query_iff :
      (P : B → Type 0) (rows : List A)
      → Some P (map f (filter p rows)) ↔ Some (λ row. (p row ≡ true) × P (f row)) rows
  Some-query_iff P [] = (λ h. h, λ h. h)
  Some-query_iff P (r ∷ rows) = ground (arith, Some-query_iff P rows)

module _ {A : Type 0} (p : A → Bool) (key item : A → String) where
  pub All-query_iff :
      (P : String × String → Type 0) (rows : List A)
      → All P (map (λ row. (key row, item row)) (filter p rows))
        ↔ All (λ row. p row ≡ true → P (key row, item row)) rows
  All-query_iff P [] = (λ h. h, λ h. h)
  All-query_iff P (r ∷ rows) = ground (arith, All-query_iff P rows)

pub tool_exists_iff : (db : Db) (tool : String) → (tool_exists db tool ≡ true) ↔ In tool db.tools
unfolding tool_exists
tool_exists_iff db tool = any_iff (λ t. t ≡ tool) (λ t. t == tool) (λ t. eq_iff t tool) db.tools

-- Each item of each group, under its key.
abbrev pub AllItems : (String → String → Type 0) → Dict (List String) → Type 0
AllItems P d = All (λ entry. All (P entry.0) entry.1) d

module _ (P : String → String → Type 0) where
  All-concat_iff :
      (k : String) (xs : List String) (x : String)
      → All (P k) (xs ++ x ∷ []) ↔ (All (P k) xs × P k x)
  All-concat_iff k [] x = (λ h. (tt, h.0), λ h. (h.1, tt))
  All-concat_iff k (y ∷ ys) x =
      let ih = All-concat_iff k ys x in
      (λ h. ((h.0, (ih.0 h.1).0), (ih.0 h.1).1), λ h. (h.0.0, ih.1 (h.0.1, h.1)))

  append_at-AllItems_iff :
      (key item : String) (d : Dict (List String))
      → AllItems P (append_at key item d) ↔ (AllItems P d × P key item)
  unfolding append_at
  append_at-AllItems_iff key item [] = (λ h. (tt, h.0.0), λ h. ((h.1, tt), tt))
  append_at-AllItems_iff key item ((j, items) ∷ d) =
      let ih = append_at-AllItems_iff key item d in
      elim (Bool-cases (j == key)) [
        | inl same ↦
            let e = (eq_iff j key).0 same in
            let here = All-concat_iff j items item in
            rw same (
              rw (← e)
                (λ h. ((((here.0 h.0).0, h.1)), (here.0 h.0).1), λ h. (here.1 (h.0.0, h.1), h.0.1)))
        | inr other ↦
            rw other (λ h. ((h.0, (ih.0 h.1).0), (ih.0 h.1).1), λ h. (h.0.0, ih.1 (h.0.1, h.1)))
      ]

  -- Grouping loses no row and invents none.
  pub group-AllItems_iff :
      (d : Dict (List String)) (rows : List (String × String))
      → AllItems P (group d rows) ↔ (AllItems P d × All (λ row. P row.0 row.1) rows)
  unfolding group
  group-AllItems_iff d [] = (λ h. (h, tt), λ h. h.0)
  group-AllItems_iff d ((k, x) ∷ rows) =
      let ih = group-AllItems_iff (append_at k x d) rows in
      let one = append_at-AllItems_iff k x d in
      (
        λ h. ((one.0 (ih.0 h).0).0, ((one.0 (ih.0 h).0).1, (ih.0 h).1)),
        λ h. ih.1 (one.1 (h.0, h.1.0), h.1.1),
      )

  -- Over the deny-patterns of a tool: over the rows that name it.
  pub deny_patterns-AllItems_iff :
      (db : Db) (tool : String)
      → AllItems P (deny_patterns db tool)
        ↔ All
            (λ row. row.tool_name ≡ tool → P row.param_name row.pattern)
            db.parameter_deny_patterns
  unfolding deny_patterns
  deny_patterns-AllItems_iff db tool =
      let rows = db.parameter_deny_patterns in
      let named =
        All-query_iff (λ (r : PatternRow). r.tool_name == tool) (λ r. r.param_name) (λ r. r.pattern)
          (λ entry. P entry.0 entry.1) rows in
      let grouped = group-AllItems_iff [] (
        map (λ (r : PatternRow). (r.param_name, r.pattern))
          (filter (λ r. r.tool_name == tool) rows)) in
      let tests =
        All-iff (λ (r : PatternRow). (r.tool_name == tool) ≡ true → P r.param_name r.pattern)
          (λ r. r.tool_name ≡ tool → P r.param_name r.pattern)
          (λ r. (λ h e. h ((eq_iff _ _).1 e), λ h e. h ((eq_iff _ _).0 e))) rows in
      (λ h. tests.0 (named.0 (grouped.0 h).1), λ h. grouped.1 (tt, named.1 (tests.1 h)))

abbrev pub Allows : String → String → FunctionRow → Type 0
Allows tool function row = (row.tool_name ≡ tool) × (row.function_name ≡ function)

-- The functions of a tool: those of the rows that name it.
pub allowed_functions_iff :
    (db : Db) (tool function : String)
    → In function (allowed_functions db tool) ↔ Some (Allows tool function) db.tool_functions
unfolding allowed_functions
allowed_functions_iff db tool function =
    let named =
      Some-query_iff (λ (r : FunctionRow). r.tool_name == tool) (λ r. r.function_name)
        (λ name. name ≡ function) db.tool_functions in
    let tests =
      Some-iff (λ (r : FunctionRow). ((r.tool_name == tool) ≡ true) × (r.function_name ≡ function))
        (Allows tool function)
        (λ r. (λ h. ((eq_iff _ _).0 h.0, h.1), λ h. ((eq_iff _ _).1 h.0, h.1))) db.tool_functions in
    (λ h. tests.0 (named.0 h), λ h. named.1 (tests.1 h))

abbrev pub IsActive : List String → RoleRow → Type 0
IsActive roles row = (row.active ≡ 1) × In row.role_name roles

-- Some role of the context is active in the store.
pub active_roles_iff :
    (db : Db) (roles : List String)
    → Some (λ role. In role roles) (active_roles db) ↔ Some (IsActive roles) db.roles
unfolding active_roles
active_roles_iff db roles =
    let named =
      Some-query_iff (λ (r : RoleRow). eqb r.active 1) (λ r. r.role_name) (λ role. In role roles)
        db.roles in
    let tests =
      Some-iff (λ (r : RoleRow). (eqb r.active 1 ≡ true) × In r.role_name roles) (IsActive roles)
        (λ r. (λ h. (ground arith, h.1), λ h. (ground arith, h.1))) db.roles in
    (λ h. tests.0 (named.0 h), λ h. named.1 (tests.1 h))
