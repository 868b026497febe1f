-- ===== src/Outputs/Recipients.antt =====
-- outputs/plugin.go: the recipients, with the owners of the application scope put in.
use postee.Prelude.{
  String, Option, none, some, List, [], ◌∷◌, ◌++◌, ◌==◌, if◌then◌else◌, lookup, ◌≡◌, ◌≢◌, refl,
  arith, eq_iff, All, All-append, Bool-cases, inl, inr,
}
use postee.Prelude.Text.{split}
use postee.Db.Aggregator.{Content}

abbrev pub application_scope_owner : String
application_scope_owner = "<%application_scope_owner%>"

-- The error of `getAppScopeOwners` is a key that is missing.
unfoldable pub get_app_scope_owners : Content → Option (List String)
get_app_scope_owners content = elim (lookup "owners" content) [
  | none ↦ none
  | some owners ↦ some (split owners b';')
]

abbrev put_owners : Option (List String) → List String → List String
put_owners none rest = rest
put_owners (some owners) rest = owners ++ rest

unfoldable pub get_handled_recipients : List String → Content → List String
unfolding get_app_scope_owners
get_handled_recipients [] content = []
get_handled_recipients (r ∷ rs) content =
    let rest = get_handled_recipients rs content in
    if r == application_scope_owner
    then put_owners (get_app_scope_owners content) rest
    else r ∷ rest

put_owners-All :
    {P : String → Type 0} (o : Option (List String)) (rest : List String)
    → ((l : List String) → o ≡ some l → All P l)
    → All P rest
    → All P (put_owners o rest)
put_owners-All none rest h r = r
put_owners-All (some l) rest h r = All-append _ l rest (h l refl) r

-- Nobody is written to but the recipients of the configuration other than the placeholder, and the
-- owners that the message names: what holds of these holds of each address.
pub get_handled_recipients-All :
    {P : String → Type 0} (recipients : List String) (content : Content)
    → All (λ r. r ≢ application_scope_owner → P r) recipients
    → ((owners : List String) → get_app_scope_owners content ≡ some owners → All P owners)
    → All P (get_handled_recipients recipients content)
unfolding get_handled_recipients
get_handled_recipients-All [] content h o = tt
get_handled_recipients-All {P} (r ∷ rs) content (p, h) o =
    let rest = get_handled_recipients-All rs content h o in
    elim (Bool-cases (r == application_scope_owner)) [
      | inl e ↦ rw e (put_owners-All _ _ o rest)
      | inr e ↦ rw e (p (λ f. ground (arith, e, f, eq_iff r application_scope_owner)), rest)
    ]
