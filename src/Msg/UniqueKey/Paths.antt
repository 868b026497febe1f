-- ===== src/Msg/UniqueKey/Paths.antt =====
-- What a property path of the configuration selects in a message.
use postee.Prelude.{
  String, none, some, List, [], ◌∷◌, ◌≡◌, subst, ◌⊎◌, inl, inr, refl, done, Option-cases,
}
use postee.Msg.Value.{
  Value, null, bool, num, str, arr, maps, obj, no_maps, one_map, Maps, Fields, get_field,
}
use postee.Msg.UniqueKey.{descend, get_single_value}

-- The path selects the value: the last part names it, and each part before names a map, or a list of maps
-- of which the first is meant. A list that encoding/json decoded is no list of maps, and is not gone into.
pub data Selects : Fields → List String → Value → Type 0 where
  last :
      {o : Fields} {part : String} {v : Value} → get_field part o ≡ some v → Selects o (part ∷ []) v
  in_map :
      {o : Fields} {part next : String} {parts : List String} {v : Value} {fs : Fields}
      → get_field part o ≡ some (obj fs)
      → Selects fs (next ∷ parts) v
      → Selects o (part ∷ next ∷ parts) v
  in_first :
      {o : Fields} {part next : String} {parts : List String} {v : Value} {fs : Fields}
      {rest : Maps}
      → get_field part o ≡ some (maps (one_map fs rest))
      → Selects fs (next ∷ parts) v
      → Selects o (part ∷ next ∷ parts) v

module _ (show : Value → String) where
  last_value :
      {o : Fields} {part : String} {v : Value} → Selects o (part ∷ []) v → get_field part o ≡ some v
  last_value (last e) = e

  -- Where a path goes on, by the value that its first part names.
  abbrev GoesOn : Value → String → List String → Value → Type 0
  GoesOn v next parts (obj fs) = Selects fs (next ∷ parts) v
  GoesOn v next parts (maps (one_map fs rest)) = Selects fs (next ∷ parts) v
  GoesOn v next parts _ = ⊥

  first_value :
      {o : Fields} {part next : String} {parts : List String} {v : Value}
      → Selects o (part ∷ next ∷ parts) v
      → (u : Value) × (get_field part o ≡ some u) × GoesOn v next parts u
  first_value (in_map {fs} e s) = (obj fs, e, s)
  first_value (in_first {fs} {rest} e s) = (maps (one_map fs rest), e, s)

  on_from :
      {o : Fields} {part next : String} {parts : List String} {u v : Value}
      → get_field part o ≡ some u
      → Selects o (part ∷ next ∷ parts) v
      → GoesOn v next parts u
  on_from {next} {parts} {u} {v} e s =
      let (w, g, d) = first_value s in let same : w ≡ u = cc in subst (GoesOn v next parts) same d

  -- The text of the value that the path selects, or the empty text where it selects none.
  abbrev Answers : Fields → List String → Type 0
  Answers o parts =
      ((v : Value) × Selects o parts v × (get_single_value show o parts ≡ done (show v)))
      ⊎ (((v : Value) → ¬ Selects o parts v) × (get_single_value show o parts ≡ done ""))

  step_into :
      (o : Fields) (part next : String) (parts : List String) {u : Value} {fs : Fields}
      → get_field part o ≡ some u
      → descend u ≡ some fs
      → ((v : Value) → Selects fs (next ∷ parts) v → Selects o (part ∷ next ∷ parts) v)
      → ((v : Value) → Selects o (part ∷ next ∷ parts) v → Selects fs (next ∷ parts) v)
      → Answers fs (next ∷ parts)
      → Answers o (part ∷ next ∷ parts)
  unfolding get_single_value
  step_into o part next parts e d further back (inl (v, s, g)) =
      inl (v, further v s, rw (e, get_single_value) (rw d g))
  step_into o part next parts e d further back (inr (n, g)) =
      inr (λ v s. n v (back v s), rw (e, get_single_value) (rw d g))

  stops_at :
      (o : Fields) (part next : String) (parts : List String) {u : Value}
      → get_field part o ≡ some u
      → descend u ≡ none
      → ((v : Value) → ¬ Selects o (part ∷ next ∷ parts) v)
      → Answers o (part ∷ next ∷ parts)
  unfolding get_single_value
  stops_at o part next parts e d n = inr (n, rw (e, get_single_value) (rw d refl))

  -- By the value of the first part: only a map and a list of maps that is not empty are gone into.
  by_value :
      (o : Fields) (part next : String) (parts : List String) (u : Value)
      → get_field part o ≡ some u
      → ((fs : Fields) → Answers fs (next ∷ parts))
      → Answers o (part ∷ next ∷ parts)
  by_value o part next parts (obj fs) e ih =
      step_into o part next parts e refl (λ v s. in_map e s) (λ v s. on_from e s) (ih fs)
  by_value o part next parts (maps (one_map fs rest)) e ih =
      step_into o part next parts e refl (λ v s. in_first e s) (λ v s. on_from e s) (ih fs)
  by_value o part next parts (maps no_maps) e ih =
      stops_at o part next parts e refl (λ v s. on_from e s)
  by_value o part next parts null e ih = stops_at o part next parts e refl (λ v s. on_from e s)
  by_value o part next parts (bool b) e ih = stops_at o part next parts e refl (λ v s. on_from e s)
  by_value o part next parts (num t) e ih = stops_at o part next parts e refl (λ v s. on_from e s)
  by_value o part next parts (str t) e ih = stops_at o part next parts e refl (λ v s. on_from e s)
  by_value o part next parts (arr l) e ih = stops_at o part next parts e refl (λ v s. on_from e s)

  -- A path that is not empty gives the text of the value that it selects, or the empty text where it
  -- selects none; it never panics. It goes into a map, and into the first of a list of maps; into no
  -- list that encoding/json decoded.
  pub get_single_value_lem :
      (o : Fields) (part : String) (parts : List String)
      → ((v : Value) × Selects o (part ∷ parts) v
          × (get_single_value show o (part ∷ parts) ≡ done (show v)))
        ⊎ (((v : Value) → ¬ Selects o (part ∷ parts) v)
            × (get_single_value show o (part ∷ parts) ≡ done ""))
  unfolding get_single_value
  get_single_value_lem o part [] = elim (Option-cases (get_field part o)) [
    | inl e ↦ inr (λ v s. cc (last_value s), rw (e, get_single_value))
    | inr (v, e) ↦ inl (v, last e, rw (e, get_single_value))
  ]
  get_single_value_lem o part (next ∷ parts) = elim (Option-cases (get_field part o)) [
    | inl e ↦ inr (λ v s. let (u, g, d) = first_value s in cc, rw (e, get_single_value))
    | inr (u, e) ↦ by_value o part next parts u e (λ fs. get_single_value_lem fs next parts)
  ]
