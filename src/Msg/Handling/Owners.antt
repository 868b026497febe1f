-- ===== src/Msg/Handling/Owners.antt =====
-- The owners of a message, from its fields to the recipients of an output.
use postee.Prelude.{
  String, false, some, List, [], ◌∷◌, ◌≡◌, ◌≢◌, ◌∙◌, refl, ap, arith, eq_iff, ◌==◌, lookup,
  lookup-insert, insert, All, done,
}
use postee.Prelude.Text.{split, join, Lacks, split-join}
use postee.Db.Aggregator.{Content}
use postee.Msg.Value.{str, arr, Items, no_items, item, Fields, get_field, a_map}
use postee.Msg.Handling.{owner_texts, join_owners, application_scope_owners, with_owners}
use postee.Outputs.Recipients.{get_app_scope_owners}

-- A list of texts as it stands in a message.
abbrev pub texts : List String → Items
texts [] = no_items
texts (s ∷ rest) = item (str s) (texts rest)

owner_texts-texts : (owners : List String) → owner_texts (texts owners) ≡ done owners
owner_texts-texts [] = refl
owner_texts-texts (s ∷ owners) = rw (owner_texts-texts owners) refl

owners_found :
    (content : Content) (text : String)
    → lookup "owners" content ≡ some text
    → get_app_scope_owners content ≡ some (split text b';')
unfolding get_app_scope_owners
owners_found content text e = rw (e, get_app_scope_owners) refl

-- The owners that a message names are the owners that its content gives to an output, in their order;
-- where there are some, none has a semicolon, and they are not one empty text.
pub get_app_scope_owners-with_owners :
    (fs : Fields) (owner : String) (owners : List String) (content : Content)
    → get_field "application_scope_owners" fs ≡ some (arr (texts (owner ∷ owners)))
    → All (Lacks b';') (owner ∷ owners)
    → join (owner ∷ owners) ";" ≢ ""
    → (text : String) × (application_scope_owners (a_map fs) ≡ done text)
      × (get_app_scope_owners (with_owners text content) ≡ some (owner ∷ owners))
unfolding application_scope_owners
get_app_scope_owners-with_owners fs owner owners content e l n =
    let text = join (owner ∷ owners) ";" in
    let given : (text == "") ≡ false = ground (arith, eq_iff text "") in
    (
      text,
      rw e (ap join_owners (owner_texts-texts (owner ∷ owners))),
      rw given (
          owners_found (insert "owners" text content) text
            (lookup-insert "owners" "owners" text content)
          ∙ ap some (split-join owner owners ";" l)),
    )
