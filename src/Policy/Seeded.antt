-- ===== src/Policy/Seeded.antt =====
-- The store that `seed_example` fills mirrors the example configuration.
use compliance_framework.Prelude.{
  String, false, ◌≡◌, refl, subst, ◌⊎◌, inl, inr, ◌==◌, eq_iff, Bool-cases, member, lookup, ok, pos,
  arith,
}
use compliance_framework.Runtime.{Runtime}
use compliance_framework.Policy.Rules.{ToolRule}
use compliance_framework.Policy.DbRules.{
  Db, seed_example, append_at, group, tool_exists, visibility_roles, allowed_functions,
  requires_approval, deny_patterns, role_gates, rate_limit_per_session,
}
use compliance_framework.Policy.Example.{search_rule, sql_rule, deploy_rule, example_rules}
use compliance_framework.Policy.Parity.{ToolMirrors, NeitherKnows, Mirrors}

module _ (old : Db) where
  seeded_search : ToolMirrors (seed_example old) example_rules "search_tool" search_rule
  unfolding seed_example append_at group tool_exists visibility_roles allowed_functions
      requires_approval deny_patterns role_gates member lookup
  seeded_search = record {
    listed = inl refl;
    ruled = refl;
    exists = refl;
    visible = refl;
    functions = refl;
    patterns = refl;
    gates = refl;
    approvals = λ f i. ground (arith, eq_iff "query" f);
  }

  seeded_sql : ToolMirrors (seed_example old) example_rules "sql_tool" sql_rule
  unfolding seed_example append_at group tool_exists visibility_roles allowed_functions
      requires_approval deny_patterns role_gates member lookup
  seeded_sql = record {
    listed = inr (inl refl);
    ruled = refl;
    exists = refl;
    visible = refl;
    functions = refl;
    patterns = refl;
    gates = refl;
    approvals =
        λ f i. ground (arith, eq_iff "ExecuteReadOnlyQuery" f, eq_iff "UpdateCustomerRecord" f);
  }

  seeded_deploy : ToolMirrors (seed_example old) example_rules "deploy_tool" deploy_rule
  unfolding seed_example append_at group tool_exists visibility_roles allowed_functions
      requires_approval deny_patterns role_gates member lookup
  seeded_deploy = record {
    listed = inr (inr (inl refl));
    ruled = refl;
    exists = refl;
    visible = refl;
    functions = refl;
    patterns = refl;
    gates = refl;
    approvals = λ f i. ground (arith, eq_iff "deploy" f);
  }

  seeded_other :
      (tool : String)
      → ("search_tool" == tool) ≡ false
      → ("sql_tool" == tool) ≡ false
      → ("deploy_tool" == tool) ≡ false
      → NeitherKnows (seed_example old) example_rules tool
  unfolding seed_example tool_exists member
  seeded_other tool a b c = record { absent = rw (a, b, c); unruled = inl (rw (a, b, c)) }

  seeded_tool :
      (tool : String)
      → NeitherKnows (seed_example old) example_rules tool
        ⊎ ((rule : ToolRule) × ToolMirrors (seed_example old) example_rules tool rule)
  seeded_tool tool =
      let Known =
        λ (t : String). (rule : ToolRule) × ToolMirrors (seed_example old) example_rules t rule in
      elim (Bool-cases ("search_tool" == tool)) [
        | inl e ↦ inr (subst Known ((eq_iff _ _).0 e) (search_rule, seeded_search))
        | inr a ↦ elim (Bool-cases ("sql_tool" == tool)) [
          | inl e ↦ inr (subst Known ((eq_iff _ _).0 e) (sql_rule, seeded_sql))
          | inr b ↦ elim (Bool-cases ("deploy_tool" == tool)) [
            | inl e ↦ inr (subst Known ((eq_iff _ _).0 e) (deploy_rule, seeded_deploy))
            | inr c ↦ inl (seeded_other tool a b c)
          ]
        ]
      ]

  -- Whatever the database held before, after `seed_example` it mirrors the example configuration, if
  -- `int("50")` is 50.
  pub seed_example-Mirrors :
      (py : Runtime) → py.int_of "50" ≡ ok (pos 50) → Mirrors py (seed_example old) example_rules
  unfolding seed_example rate_limit_per_session lookup
  seed_example-Mirrors py h = record { fields = refl; limit = h; tools = seeded_tool }
