-- ===== src/Outputs/Jira/Types.antt =====
-- What a field of an issue is set to, type by type, independently of the code that does it.
use Prim.Native.String.{◌++◌}
use postee.Prelude.{
  String, Bool, true, false, Option, none, some, List, [], ◌∷◌, Result, ok, err, ◌≡◌, ◌≢◌, ◌∙◌, sym,
  subst, ap, refl, inl, inr, arith, eq_iff, eqb, ◌==◌, if◌then◌else◌, Bool-cases, Option-cases,
  Result-cases, ℕ,
}
use postee.Prelude.Text.{split, to_lower, atoi}
use postee.Outputs.Records.{Transport}
use postee.Outputs.Jira.{
  FieldValue, component, options, number, texts, text, project, priority, user, issue_type,
  option_value, MetaProject, MetaIssueType, IssueServices, Step, sets, skips, stops, first_user,
  sprint_or_text, array_of, users_named, value_of_type, find_user_on_jira_server, field_step,
}

abbrev status_of : Result (ℕ × List String) → ℕ
status_of (ok (status, accounts)) = status
status_of (err e) = 0

module _ (services : IssueServices) (client : Transport) (url : String) (use_srv_api : Bool)
    (meta_project : MetaProject) (meta : MetaIssueType) where
  -- The account is the first that Jira's search for users answers, with status 200.
  pub data FindsUser (value account : String) : Type 0 where
    on_server :
        {rest : List String}
        → use_srv_api ≡ true
        → services.get_users client url "GET" ("/rest/api/2/user/search?username=" ++ value)
          ≡ ok (200, account ∷ rest)
        → FindsUser value account
    in_cloud :
        {rest : List String}
        → use_srv_api ≡ false
        → services.find_users client url value ≡ ok (200, account ∷ rest)
        → FindsUser value account

  -- A field with a type, in lower case, and a configured value is set to a value, or left out.
  pub data Makes (key value jira_key : String) : String → Option FieldValue → Type 0 where
    component_items :
        meta.string_at (jira_key ++ "/schema/items") ≡ ok "component"
        → Makes key value jira_key "array" (some (component value))
    option_items :
        meta.string_at (jira_key ++ "/schema/items") ≡ ok "option"
        → Makes key value jira_key "array" (some (options (split value b',')))
    sprint :
        {items : String}
        → meta.string_at (jira_key ++ "/schema/items") ≡ ok items
        → items ≢ "component"
        → items ≢ "option"
        → key ≡ "Sprint"
        → (atoi value).1 ≡ none
        → Makes key value jira_key "array" (some (number (atoi value).0))
    other_items :
        {items : String}
        → meta.string_at (jira_key ++ "/schema/items") ≡ ok items
        → items ≢ "component"
        → items ≢ "option"
        → key ≢ "Sprint"
        → Makes key value jira_key "array" (some (texts (value ∷ [])))
    a_number : Makes key value jira_key "number" (some (number (atoi value).0))
    a_string : Makes key value jira_key "string" (some (text value))
    a_date : Makes key value jira_key "date" (some (text value))
    a_datetime : Makes key value jira_key "datetime" (some (text value))
    anything : Makes key value jira_key "any" (some (text value))
    a_project :
        Makes key value jira_key "project" (some (project meta_project.name meta_project.id))
    a_priority : Makes key value jira_key "priority" (some (priority value))
    a_user :
        {account : String}
        → FindsUser value account
        → Makes key value jira_key "user" (some (user account))
    no_user :
        ((account : String) → ¬ FindsUser value account) → Makes key value jira_key "user" none
    an_issue_type : Makes key value jira_key "issuetype" (some (issue_type value))
    an_option : Makes key value jira_key "option" (some (option_value value))

  module _ (key value jira_key : String) where
    abbrev Made : String → Step → Type 0
    Made t (sets v) = Makes key value jira_key t (some v)
    Made t skips = Makes key value jira_key t none
    Made t (stops e) = Unit

    if-Made :
        (t name : String) (s rest : Step)
        → Made name s
        → (t ≢ name → Made t rest)
        → Made t (if t == name then s else rest)
    if-Made t name s rest m r = elim (Bool-cases (t == name)) [
      | inl e ↦ rw e (subst (λ n. Made n s) (sym ((eq_iff t name).0 e)) m)
      | inr n ↦ rw n (r (λ e. ground (arith, n, (eq_iff t name).1 e)))
    ]

    sprint_or_text-Made :
        (items : String)
        → meta.string_at (jira_key ++ "/schema/items") ≡ ok items
        → items ≢ "component"
        → items ≢ "option"
        → Made "array" (sprint_or_text key value)
    sprint_or_text-Made items e c o = elim (Bool-cases (key == "Sprint")) [
      | inl k ↦ elim (Option-cases (atoi value).1) [
        | inl n ↦ rw (k, n) (sprint e c o ((eq_iff key "Sprint").0 k) n)
        | inr (x, n) ↦ rw (k, n) tt
      ]
      | inr k ↦ rw k (other_items e c o (λ h. ground (arith, k, (eq_iff key "Sprint").1 h)))
    ]

    array_of-Made :
        (r : Result String)
        → meta.string_at (jira_key ++ "/schema/items") ≡ r
        → Made "array" (array_of key value r)
    array_of-Made (err x) e = tt
    array_of-Made (ok items) e = elim (Bool-cases (items == "component")) [
      | inl c ↦ rw c (component_items (e ∙ ap ok ((eq_iff items "component").0 c)))
      | inr c ↦ elim (Bool-cases (items == "option")) [
        | inl o ↦ rw (c, o) (option_items (e ∙ ap ok ((eq_iff items "option").0 o)))
        | inr o ↦
            rw (c, o)
              (sprint_or_text-Made items e (λ h. ground (arith, c, (eq_iff items "component").1 h))
                (λ h. ground (arith, o, (eq_iff items "option").1 h)))
      ]
    ]

    first_user-Made :
        (r : Result (ℕ × List String))
        → ((account : String) (rest : List String)
            → r ≡ ok (200, account ∷ rest)
            → FindsUser value account)
        → ((account : String)
            → FindsUser value account
            → (rest : List String) × (r ≡ ok (200, account ∷ rest)))
        → Made "user" (first_user r)
    first_user-Made (err x) finds found = no_user (λ a f. let (rest, e) = found a f in absurd (cc))
    first_user-Made (ok (status, [])) finds found =
        no_user (λ a f. let (rest, e) = found a f in absurd (cc))
    first_user-Made (ok (status, account ∷ rest)) finds found = elim (Bool-cases (eqb status 200)) [
      | inl e ↦
          rw e (a_user (finds account rest (ap (λ n. ok (n, account ∷ rest)) (ground (arith, e)))))
      | inr e ↦ rw e (
          no_user (λ a f.
            let (others, g) = found a f in
            let same : status ≡ 200 = ap status_of g in absurd (ground (arith, e, same))))
    ]

    finds_named :
        (account : String) (rest : List String)
        → users_named services client url use_srv_api meta_project meta value
          ≡ ok (200, account ∷ rest)
        → FindsUser value account
    unfolding find_user_on_jira_server
    finds_named account rest e = elim (Bool-cases use_srv_api) [
      | inl server ↦ on_server server (rw server at e)
      | inr cloud ↦ in_cloud cloud (rw cloud at e)
    ]

    named_finds :
        (account : String)
        → FindsUser value account
        → (rest : List String) × (users_named services client url use_srv_api meta_project meta
              value
            ≡ ok (200, account ∷ rest))
    unfolding find_user_on_jira_server
    named_finds account (on_server {rest} server e) = (rest, rw server e)
    named_finds account (in_cloud {rest} cloud e) = (rest, rw cloud e)

    value_of_type-Made :
        (t written : String)
        → Made t (
            value_of_type services client url use_srv_api meta_project meta key value jira_key t
              written)
    unfolding value_of_type
    value_of_type-Made t written = if-Made t "array" _ _ (array_of-Made _ refl) λ n1.
        if-Made t "number" _ _ a_number λ n2. if-Made t "string" _ _ a_string λ n3.
          if-Made t "date" _ _ a_date λ n4. if-Made t "datetime" _ _ a_datetime λ n5.
            if-Made t "any" _ _ anything λ n6. if-Made t "project" _ _ a_project λ n7.
              if-Made t "priority" _ _ a_priority λ n8.
                if-Made t "user" _ _ (first_user-Made _ finds_named named_finds) λ n9.
                  if-Made t "issuetype" _ _ an_issue_type
                    λ n10. if-Made t "option" _ _ an_option λ n11. tt

    -- The value of a field by its type, as Jira describes it.
    pub record IsTyped (made : Option FieldValue) : Type 0 where
      pub written : String
      pub type_is : meta.string_at (jira_key ++ "/schema/type") ≡ ok written
      pub makes : Makes key value jira_key (to_lower written) made

    abbrev pub Stepped : Step → Type 0
    Stepped (sets v) = IsTyped (some v)
    Stepped skips = IsTyped none
    Stepped (stops e) = Unit

    Made-Stepped :
        (written : String) (s : Step)
        → meta.string_at (jira_key ++ "/schema/type") ≡ ok written
        → Made (to_lower written) s
        → Stepped s
    Made-Stepped written (sets v) e m = record { written = written; type_is = e; makes = m }
    Made-Stepped written skips e m = record { written = written; type_is = e; makes = m }
    Made-Stepped written (stops x) e m = tt

    pub field_step-Stepped :
        Stepped (field_step services client url use_srv_api meta_project meta key value jira_key)
    unfolding field_step
    field_step-Stepped = elim (Result-cases (meta.string_at (jira_key ++ "/schema/type"))) [
      | inl (written, e) ↦
          rw (e, field_step)
            (Made-Stepped written _ e (value_of_type-Made (to_lower written) written))
      | inr (x, e) ↦ rw (e, field_step) tt
    ]
