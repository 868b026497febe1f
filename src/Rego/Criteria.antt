-- ===== src/Rego/Criteria.antt =====
-- regoservice/regocheck.go: whether a message meets the criteria of a route.
use postee.Prelude.{
  String, Bool, true, false, not, Option, none, some, List, [], ◌∷◌, map, ◌≡◌, ◌⊎◌, ◌∙◌, sym, ap,
  refl, arith, eq_iff, Result, ok, err, ◌==◌, ◌&&◌, if◌then◌else◌, Bool-cases, inl, inr,
}
use postee.Prelude.Text.{has_prefix}
use postee.Msg.Value.{Value, null, bool, num, str, arr, maps, obj, Decoded}

-- What is loaded into the engine: files by their paths, or the module made of a rule.
pub data Loaded : Type 0 where
  files_at : List String → Loaded
  rule_module : String → Loaded

-- The engine prepares the query `x = data.postee.allow` and evaluates it: for each result the binding
-- of x, if there is one. `join_path` stands for `filepath.Join`.
pub record Criteria : Type 1 where
  pub Query : Type 0
  pub prepare : Loaded → Result Query
  pub eval : Query → Decoded → Result (List (Option Value))
  pub rego_filters_path : String
  pub join_path : String → String → String

abbrev pub path_to_rego_filters : String → String
path_to_rego_filters env = if env == "" then "./rego-filters" else env

unfoldable pub is_used_rego_files : List String → Bool
is_used_rego_files [] = false
is_used_rego_files (file ∷ files) = not (file == "")

module _ (services : Criteria) where
  abbrev with_path : String → String
  with_path file =
      if has_prefix file (path_to_rego_filters services.rego_filters_path)
      then file
      else services.join_path (path_to_rego_filters services.rego_filters_path) file

  unfoldable pub get_files_with_path_to_rego_filters : List String → List String
  get_files_with_path_to_rego_filters files = map with_path files

  unfoldable pub build_rego_loader : List String → String → Loaded
  unfolding get_files_with_path_to_rego_filters
  build_rego_loader files rule =
      if is_used_rego_files files
      then files_at (get_files_with_path_to_rego_filters files)
      else rule_module rule

  abbrev allowed : List (Option Value) → Bool
  allowed (some (bool b) ∷ rs) = b
  allowed _ = false

  abbrev answer : Result (List (Option Value)) → Result Bool
  answer (ok rs) = ok (allowed rs)
  answer (err e) = err e

  abbrev ask : Result services.Query → Decoded → Result Bool
  ask (ok query) input = answer (services.eval query input)
  ask (err e) input = err e

  unfoldable pub does_match_rego_criteria : Decoded → List String → String → Result Bool
  unfolding build_rego_loader
  does_match_rego_criteria input files rule =
      if not (is_used_rego_files files) && rule == ""
      then ok true
      else ask (services.prepare (build_rego_loader files rule)) input

  allowed_lem :
      (rs : List (Option Value))
      → allowed rs ≡ true
      → (rest : List (Option Value)) × (rs ≡ some (bool true) ∷ rest)
  allowed_lem [] h = cc
  allowed_lem (some (bool true) ∷ rs) h = (rs, refl)
  allowed_lem (some (bool false) ∷ rs) h = cc
  allowed_lem (some null ∷ rs) h = cc
  allowed_lem (some (num n) ∷ rs) h = cc
  allowed_lem (some (str s) ∷ rs) h = cc
  allowed_lem (some (arr l) ∷ rs) h = cc
  allowed_lem (some (maps l) ∷ rs) h = cc
  allowed_lem (some (obj l) ∷ rs) h = cc
  allowed_lem (none ∷ rs) h = cc

  ok_allowed : {b : Bool} → ok b ≡ ok true → b ≡ true
  ok_allowed e = cc

  answer_lem :
      (r : Result (List (Option Value)))
      → answer r ≡ ok true
      → (rest : List (Option Value)) × (r ≡ ok (some (bool true) ∷ rest))
  answer_lem (ok rs) h = let (rest, e) = allowed_lem rs (ok_allowed h) in (rest, ap ok e)
  answer_lem (err e) h = cc

  ask_lem :
      (r : Result services.Query) (input : Decoded)
      → ask r input ≡ ok true
      → (query : services.Query) × (rest : List (Option Value)) × (r ≡ ok query)
        × (services.eval query input ≡ ok (some (bool true) ∷ rest))
  ask_lem (ok query) input h =
      let (rest, e) = answer_lem (services.eval query input) h in (query, rest, refl, e)
  ask_lem (err e) input h = cc

  -- Criteria are met only where there are none, or where the engine prepares them, evaluates them on
  -- the message and binds x of the first result to true.
  pub does_match_rego_criteria_lem :
      (input : Decoded) (files : List String) (rule : String)
      → does_match_rego_criteria input files rule ≡ ok true
      → ((is_used_rego_files files ≡ false) × (rule ≡ ""))
        ⊎ ((query : services.Query) × (rest : List (Option Value)) × (services.prepare
                (build_rego_loader files rule)
              ≡ ok query)
            × (services.eval query input ≡ ok (some (bool true) ∷ rest)))
  unfolding does_match_rego_criteria
  does_match_rego_criteria_lem input files rule h =
      elim (Bool-cases (not (is_used_rego_files files) && rule == "")) [
        | inl e ↦ inl (ground (arith, eq_iff rule ""))
        | inr e ↦
            inr (
              ask_lem (services.prepare (build_rego_loader files rule)) input (sym (rw e refl) ∙ h))
      ]
