-- ===== src/Outputs/Jira/Filling.antt =====
-- What the fields of an issue hold.
use postee.Prelude.{
  String, Bool, Option, none, some, [], ◌∷◌, ◌≡◌, ◌≢◌, ◌∙◌, refl, sym, ap, arith, eq_iff, eq_refl,
  Dict, lookup, insert, lookup-insert, All, Result, ok, err,
}
use postee.Outputs.Records.{Transport}
use postee.Outputs.Jira.Types.{IsTyped, Stepped, field_step-Stepped}
use postee.Outputs.Jira.{
  FieldValue, MetaProject, MetaIssueType, IssueServices, Step, sets, skips, stops, field_step,
  continued, round_of, fill_fields, init_issue,
}

err-ne-ok : {A : Type 0} {e : String} {a : A} → err e ≡ ok a → ⊥
err-ne-ok h = cc

module _ (services : IssueServices) (client : Transport) (url : String) (use_srv_api : Bool)
    (meta_project : MetaProject) (meta : MetaIssueType) where
  -- No later field goes by the same key of Jira.
  abbrev pub Apart : Dict String → Type 0
  Apart [] = Unit
  Apart ((key, value) ∷ rest) =
      All (λ e. lookup e.0 meta.all_fields ≢ lookup key meta.all_fields) rest × Apart rest

  -- The field has a key of Jira and a type, and under the key is what the type makes of the value: it
  -- is set to it, or stays unset.
  pub record IsFilled (unknowns : Dict FieldValue) (key value : String) : Type 0 where
    pub jira_key : String
    pub found : lookup key meta.all_fields ≡ some jira_key
    pub made : Option FieldValue
    pub typed : IsTyped services client url use_srv_api meta_project meta key value jira_key made
    pub holds : lookup jira_key unknowns ≡ made

  abbrev fill : Dict String → Dict FieldValue → Result (Dict FieldValue)
  fill = fill_fields services client url use_srv_api meta_project meta

  abbrev step_of : (key value jira_key : String) → Step
  step_of = field_step services client url use_srv_api meta_project meta

  -- What the fields that follow keep of an earlier value.
  abbrev Keeps : Dict String → Dict FieldValue → String → Type 0
  Keeps rest after j = (u : Dict FieldValue) → fill rest u ≡ ok after → lookup j after ≡ lookup j u

  continued-Keeps :
      (k : String) (s : Step) (rest : Dict String) (unknowns after : Dict FieldValue) (j : String)
      → continued services client url use_srv_api meta_project meta k s unknowns (fill rest)
        ≡ ok after
      → k ≢ j
      → Keeps rest after j
      → lookup j after ≡ lookup j unknowns
  continued-Keeps k (sets v) rest unknowns after j e n ih =
      ih (insert k v unknowns) e ∙ ground (arith, lookup-insert k j v unknowns, eq_iff k j, n)
  continued-Keeps k skips rest unknowns after j e n ih = ih unknowns e
  continued-Keeps k (stops x) rest unknowns after j e n ih = cc

  round_of-Keeps :
      (key value : String) (o : Option String) (rest : Dict String)
      (unknowns after : Dict FieldValue) (j : String)
      → round_of services client url use_srv_api meta_project meta key value o unknowns (fill rest)
        ≡ ok after
      → o ≢ some j
      → Keeps rest after j
      → lookup j after ≡ lookup j unknowns
  round_of-Keeps key value none rest unknowns after j e n ih = cc
  round_of-Keeps key value (some k) rest unknowns after j e n ih =
      continued-Keeps k (step_of key value k) rest unknowns after j e (λ f. n (ap some f)) ih

  -- Fields with other keys leave the value of a key as it is.
  fill-Keeps :
      (config : Dict String) (unknowns after : Dict FieldValue) (j : String)
      → fill config unknowns ≡ ok after
      → All (λ e. lookup e.0 meta.all_fields ≢ some j) config
      → lookup j after ≡ lookup j unknowns
  unfolding fill_fields
  fill-Keeps [] unknowns after j e h = let same : unknowns ≡ after = cc in ap (lookup j) (sym same)
  fill-Keeps ((key, value) ∷ rest) unknowns after j e (n, h) =
      round_of-Keeps key value (lookup key meta.all_fields) rest unknowns after j e n
        (λ u f. fill-Keeps rest u after j f h)

  abbrev Filled : Dict FieldValue → Dict String → Type 0
  Filled after config = All (λ e. IsFilled after e.0 e.1) config

  -- None of the fields is set yet.
  abbrev Unset : Dict FieldValue → Dict String → Type 0
  Unset unknowns config =
      All
        (λ (e : String × String).
          (j : String) → lookup e.0 meta.all_fields ≡ some j → lookup j unknowns ≡ none)
        config

  Unset-nil : (config : Dict String) → Unset [] config
  unfolding lookup
  Unset-nil [] = tt
  Unset-nil (e ∷ config) = ((λ j f. refl), Unset-nil config)

  Unset-insert :
      (config : Dict String) (unknowns : Dict FieldValue) (k : String) (v : FieldValue)
      → All (λ e. lookup e.0 meta.all_fields ≢ some k) config
      → Unset unknowns config
      → Unset (insert k v unknowns) config
  Unset-insert [] unknowns k v a h = tt
  Unset-insert (e ∷ config) unknowns k v (n, a) (p, h) = (
    (λ j f.
        let free : lookup j unknowns ≡ none = p j f in
        let apart : k ≢ j = (λ g. n (f ∙ ap some (sym g))) in
        ground (arith, lookup-insert k j v unknowns, eq_iff k j, apart, free)),
    Unset-insert config unknowns k v a h,
  )

  continued-Filled :
      (key value k : String) (s : Step) (rest : Dict String) (unknowns after : Dict FieldValue)
      → lookup key meta.all_fields ≡ some k
      → Stepped services client url use_srv_api meta_project meta key value k s
      → continued services client url use_srv_api meta_project meta k s unknowns (fill rest)
        ≡ ok after
      → Keeps rest after k
      → lookup k unknowns ≡ none
      → All (λ e. lookup e.0 meta.all_fields ≢ some k) rest
      → Unset unknowns rest
      → ((u : Dict FieldValue) → fill rest u ≡ ok after → Unset u rest → Filled after rest)
      → Filled after ((key, value) ∷ rest)
  continued-Filled key value k (sets v) rest unknowns after l t e keeps free a unset tail = (
    record {
      jira_key = k;
      found = l;
      made = some v;
      typed = t;
      holds =
          keeps (insert k v unknowns) e ∙ (ground (arith, lookup-insert k k v unknowns, eq_refl k));
    },
    tail (insert k v unknowns) e (Unset-insert rest unknowns k v a unset),
  )
  continued-Filled key value k skips rest unknowns after l t e keeps free a unset tail = (
    record { jira_key = k; found = l; made = none; typed = t; holds = keeps unknowns e ∙ free },
    tail unknowns e unset,
  )
  continued-Filled key value k (stops x) rest unknowns after l t e keeps free a unset tail = cc

  round_of-Filled :
      (key value : String) (o : Option String) (rest : Dict String)
      (unknowns after : Dict FieldValue)
      → lookup key meta.all_fields ≡ o
      → round_of services client url use_srv_api meta_project meta key value o unknowns (fill rest)
        ≡ ok after
      → All (λ e. lookup e.0 meta.all_fields ≢ o) rest
      → Unset unknowns ((key, value) ∷ rest)
      → ((u : Dict FieldValue) → fill rest u ≡ ok after → Unset u rest → Filled after rest)
      → Filled after ((key, value) ∷ rest)
  round_of-Filled key value none rest unknowns after l e a unset tail = absurd (err-ne-ok e)
  round_of-Filled key value (some k) rest unknowns after l e a (free, unset) tail =
      continued-Filled key value k (step_of key value k) rest unknowns after l
        (field_step-Stepped services client url use_srv_api meta_project meta key value k) e
        (λ u f. fill-Keeps rest u after k f a) (free k l) a unset tail

  fill-Filled :
      (config : Dict String) (unknowns after : Dict FieldValue)
      → fill config unknowns ≡ ok after
      → Apart config
      → Unset unknowns config
      → Filled after config
  unfolding fill_fields
  fill-Filled [] unknowns after e h unset = tt
  fill-Filled ((key, value) ∷ rest) unknowns after e (a, h) unset =
      round_of-Filled key value (lookup key meta.all_fields) rest unknowns after refl e a unset
        (λ u f free. fill-Filled rest u after f h free)

  -- Where InitIssue gives fields, each configured field has a key of Jira and a type of those that are
  -- known, and the key holds the value that the type makes of the configured one; only a user whom the
  -- search does not find is left unset. This is so in whichever order Go goes through the fields, where
  -- no two configured fields go by one key.
  pub init_issue-IsFilled :
      (config : Dict String) (unknowns : Dict FieldValue)
      → init_issue services client url use_srv_api meta_project meta config ≡ ok unknowns
      → Apart config
      → All (λ e. IsFilled unknowns e.0 e.1) config
  unfolding init_issue
  init_issue-IsFilled config unknowns e a = fill-Filled config [] unknowns e a (Unset-nil config)
