-- ===== src/Agents/Permissions/Filtered.antt =====
-- What a sub-agent's registry holds.
use neuralhub.Base.{
  ◌≡◌, refl, sym, ap, ◌∙◌, ◌≢◌, inl, inr, true, false, not, ◌&&◌, ◌||◌, some, List, [], ◌∷◌, arith,
  Bool-cases, Option-cases, Text, codes, text_eq, text_eq_iff, has, get, put, get-put, ok, raise,
  ok-injective, some-injective, Result-cases,
}
use neuralhub.Types.{ToolDefinition}
use neuralhub.Tools.Registry.{ToolRegistry, empty, register, lookup_tool, list_definitions}
use neuralhub.Agents.Stages.{PermissionLevel, readonly, readwrite}
use neuralhub.Agents.Permissions.{
  readonly_bash, direct, IsolatedRegistryConfig, IsolatedExecutor, recursive_tool_names,
  write_tool_names, is_readonly, isolated, resolve_allowed_tools, filter_from,
  build_isolated_registry,
}

-- The tool may be used under the configuration, and its executor is the parent's, guarded if needed.
pub record IsGranted {X : Type 0} (config : IsolatedRegistryConfig) (parent : ToolRegistry X)
    (name : Text) (executor : IsolatedExecutor X) : Type 0 where
  pub not_recursive : has name recursive_tool_names ≡ false
  pub allowed : has name (resolve_allowed_tools config) ≡ true
  pub writes_nothing :
      is_readonly config.permission_level ≡ true → has name write_tool_names ≡ false
  pub of_parent :
      (entry : ToolDefinition × X) × (lookup_tool name parent ≡ ok (some entry))
      × (config.permission_level ≡ readonly
          → name ≡ codes "Bash"
          → executor ≡ readonly_bash entry.1)
      × (config.permission_level ≡ readwrite → executor ≡ direct entry.1)
      × (name ≢ codes "Bash" → executor ≡ direct entry.1)

other-direct :
    {X : Type 0} (level : PermissionLevel) (name : Text) (x : X)
    → name ≢ codes "Bash"
    → isolated level name x ≡ direct x
other-direct level name x n = elim (Bool-cases (text_eq name (codes "Bash"))) [
  | inl e ↦ absurd (n ((text_eq_iff name (codes "Bash")).0 e))
  | inr e ↦ elim (Bool-cases (is_readonly level)) [ inl r ↦ rw (r, e) refl | inr r ↦ rw r refl ]
]

module _ {X : Type 0} (config : IsolatedRegistryConfig) (parent : ToolRegistry X) where
  AllGranted : ToolRegistry (IsolatedExecutor X) → Type 0
  AllGranted child =
      (k : Text) (x : IsolatedExecutor X)
      → get k child.executors ≡ some x
      → IsGranted config parent k x

  register-executors :
      (d : ToolDefinition) (x : IsolatedExecutor X) (r r' : ToolRegistry (IsolatedExecutor X))
      → register d x r ≡ ok r'
      → r'.executors ≡ put d.name x r.executors
  unfolding register
  register-executors d x r r' e = ground arith

  register-AllGranted :
      (d : ToolDefinition) (x : IsolatedExecutor X) (r r' : ToolRegistry (IsolatedExecutor X))
      → AllGranted r
      → IsGranted config parent d.name x
      → register d x r ≡ ok r'
      → AllGranted r'
  unfolding AllGranted
  register-AllGranted d x r r' all_granted g e k y f =
      let q = get-put d.name k x r.executors in
      elim (Bool-cases (text_eq d.name k)) [
        | inl same ↦
            let eq : x ≡ y =
              some-injective
                (sym (q ∙ rw same refl) ∙ (ap (get k) (sym (register-executors d x r r' e)) ∙ f)) in
            rw (← (text_eq_iff d.name k).0 same) (rw (← eq) g)
        | inr other_name ↦
            all_granted k y (
              sym (q ∙ rw other_name refl) ∙ (ap (get k) (sym (register-executors d x r r' e)) ∙ f))
      ]

  granted :
      (d : ToolDefinition) (entry : ToolDefinition × X)
      → (has d.name recursive_tool_names || not (has d.name (resolve_allowed_tools config))) ≡ false
      → lookup_tool d.name parent ≡ ok (some entry)
      → (is_readonly config.permission_level && has d.name write_tool_names) ≡ false
      → IsGranted config parent d.name (isolated config.permission_level d.name entry.1)
  unfolding text_eq
  granted d entry a l w = record {
    not_recursive = ground arith;
    allowed = ground arith;
    writes_nothing = λ r. ground arith;
    of_parent = (
      entry,
      l,
      λ r b. rw (r, b) refl,
      λ r. rw r refl,
      λ n. other-direct config.permission_level d.name entry.1 n,
    );
  }

  filter-AllGranted :
      (ds : List ToolDefinition) (child child' : ToolRegistry (IsolatedExecutor X))
      → AllGranted child
      → filter_from config parent (resolve_allowed_tools config) ds child ≡ ok child'
      → AllGranted child'
  unfolding filter_from
  filter-AllGranted [] child child' g e = rw (← ok-injective e) g
  filter-AllGranted (d ∷ ds) child child' g e =
      elim (Bool-cases
        (has d.name recursive_tool_names || not (has d.name (resolve_allowed_tools config)))) [
          | inl skip ↦ filter-AllGranted ds child child' g (rw (filter_from, skip) at e)
          | inr pass ↦ elim (Result-cases (lookup_tool d.name parent)) [
            | inr (x, l) ↦ let c : raise x ≡ ok child' = rw (filter_from, pass, l) at e in cc
            | inl (found, l) ↦ elim (Option-cases found) [
              | inl n ↦
                  let l' = l ∙ ap ok n in
                  filter-AllGranted ds child child' g (rw (filter_from, pass, l') at e)
              | inr (entry, n) ↦
                  let l' = l ∙ ap ok n in
                  elim (Bool-cases
                    (is_readonly config.permission_level && has d.name write_tool_names)) [
                      | inl w ↦
                          filter-AllGranted ds child child' g (rw (filter_from, pass, l', w) at e)
                      | inr w ↦
                          let x = isolated config.permission_level d.name entry.1 in
                          elim (Result-cases (register d x child)) [
                            | inr (y, r) ↦
                                let c : raise y ≡ ok child' =
                                  rw (filter_from, pass, l', w, r) at e in
                                cc
                            | inl (next, r) ↦
                                filter-AllGranted ds next child'
                                  (register-AllGranted d x child next g (granted d entry pass l' w)
                                    r)
                                  (rw (filter_from, pass, l', w, r) at e)
                          ]
                    ]
            ]
          ]
        ]

  empty-AllGranted : AllGranted empty
  unfolding AllGranted empty get
  empty-AllGranted k x e = cc

  -- Every tool that a sub-agent can call is one that the configuration allows, and not
  -- `dispatch_agent` or `orchestrate_agents`; for a read-only agent it is not `Write`, `str_replace`
  -- or `file_edit` either. Its executor is the parent's for this name: behind the guard for `Bash` of
  -- a read-only agent, and unchanged for every other name and for every agent that may write.
  pub build-IsGranted :
      (child : ToolRegistry (IsolatedExecutor X)) (k : Text) (x : IsolatedExecutor X)
      → build_isolated_registry parent config ≡ ok child
      → get k child.executors ≡ some x
      → IsGranted config parent k x
  unfolding build_isolated_registry AllGranted
  build-IsGranted child k x e f =
      filter-AllGranted (list_definitions parent) empty child empty-AllGranted e k x f
