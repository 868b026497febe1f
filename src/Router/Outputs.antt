-- ===== src/Router/Outputs.antt =====
-- Which outputs the settings make.
use postee.Prelude.{
  String, Bool, true, false, Option, none, some, List, [], ◌∷◌, ◌≡◌, ◌∙◌, sym, subst, inl, inr,
  refl, arith, ◌==◌, if◌then◌else◌, Bool-cases, Result, ok, err,
}
use postee.Outputs.Records.{
  Output, JiraApi, JiraServices, Board, jira, email, slack, teams, service_now, webhook, splunk,
  stdout, get_name, init, init_jira, take_board, take_found, with_client, named_board,
  with_password, fetch_board_id, create_client, Transport,
}
use postee.Router.Settings.{OutputSettings}
use postee.Router.Builders.{
  build_output, build_and_init_otpt, build_jira_output, build_email_output, build_slack_output,
  build_teams_output, build_service_now, build_webhook_output, build_splunk_output,
  build_stdout_output, resolved, init_some, lacks_authorization, lacks_jira_credentials,
}

module _ (services : JiraServices) where
  take_board-name :
      (board_name : String) (boards : List Board) (ctx : JiraApi)
      → (take_board services board_name boards ctx).name ≡ ctx.name
  unfolding take_board
  take_board-name board_name [] ctx = refl
  take_board-name board_name (board ∷ boards) ctx = elim (Bool-cases (board.name == board_name)) [
    | inl e ↦ take_board-name board_name boards _ ∙ rw e refl
    | inr e ↦ take_board-name board_name boards _ ∙ rw e refl
  ]

  take_found-name :
      (board_name : String) (ctx : JiraApi) (r : Result (List Board))
      → (take_found services board_name ctx r).name ≡ ctx.name
  take_found-name board_name ctx (err e) = refl
  take_found-name board_name ctx (ok boards) = take_board-name board_name boards ctx

  with_client-name :
      (board_name : String) (ctx : JiraApi) (r : Result Transport)
      → (with_client services board_name ctx r).name ≡ ctx.name
  with_client-name board_name ctx (err e) = refl
  with_client-name board_name ctx (ok client) = take_found-name board_name ctx _

  fetch_board_id-name :
      (board_name : String) (ctx : JiraApi)
      → (fetch_board_id services board_name ctx).name ≡ ctx.name
  unfolding fetch_board_id
  fetch_board_id-name board_name ctx = with_client-name board_name ctx (create_client services ctx)

  named_board-name : (ctx : JiraApi) → (named_board services ctx).name ≡ ctx.name
  named_board-name ctx = ground arith

  with_password-name : (ctx : JiraApi) → (with_password services ctx).name ≡ ctx.name
  with_password-name ctx = ground arith

  get_name-init : (o : Output) → get_name (init services o) ≡ get_name o
  unfolding get_name init init_jira
  get_name-init (jira ctx) =
      with_password-name _ ∙ fetch_board_id-name _ (named_board services ctx) ∙ named_board-name ctx
  get_name-init (email o) = ground arith
  get_name-init (slack o) = refl
  get_name-init (teams o) = refl
  get_name-init (service_now o) = refl
  get_name-init (webhook o) = refl
  get_name-init (splunk o) = refl
  get_name-init (stdout o) = refl

abbrev IsNamed : String → Option Output → Type 0
IsNamed name p = (o : Output) → p ≡ some o → get_name o ≡ name

IsNamed-none : (name : String) → IsNamed name none
IsNamed-none name o e = cc

IsNamed-some : (name : String) (o : Output) → get_name o ≡ name → IsNamed name (some o)
IsNamed-some name o h o' e = let same : o ≡ o' = cc in rw (← same) h

IsNamed-if :
    (name : String) (b : Bool) (p q : Option Output)
    → IsNamed name p
    → IsNamed name q
    → IsNamed name (if b then p else q)
IsNamed-if name true p q h k = h
IsNamed-if name false p q h k = k

build_output-IsNamed :
    (s : OutputSettings) (server : String) → IsNamed s.name (build_output s server)
unfolding get_name build_output build_jira_output build_email_output build_slack_output
    build_teams_output build_service_now build_webhook_output build_splunk_output
    build_stdout_output
build_output-IsNamed s server = IsNamed-if _ (s.type == "jira") _ _ (IsNamed-some _ _ refl) (
    IsNamed-if _ (s.type == "email") _ _ (IsNamed-some _ _ refl) (
      IsNamed-if _ (s.type == "slack") _ _ (IsNamed-some _ _ refl) (
        IsNamed-if _ (s.type == "teams") _ _ (IsNamed-some _ _ refl) (
          IsNamed-if _ (s.type == "serviceNow") _ _ (IsNamed-some _ _ refl) (
            IsNamed-if _ (s.type == "webhook") _ _ (IsNamed-some _ _ refl) (
              IsNamed-if _ (s.type == "splunk") _ _ (IsNamed-some _ _ refl) (
                IsNamed-if _ (s.type == "stdout") _ _ (IsNamed-some _ _ refl)
                  (IsNamed-none _))))))))

init_some-IsNamed :
    (services : JiraServices) (name : String) (p : Option Output)
    → IsNamed name p
    → IsNamed name (init_some (λ s. s) services p)
init_some-IsNamed services name none h = IsNamed-none name
init_some-IsNamed services name (some q) h =
    IsNamed-some name (init services q) (get_name-init services q ∙ h q refl)

module _ (getenv : String → String) (services : JiraServices) where
  -- An output keeps the name of its settings, whichever its type, so that its calls are counted and it is
  -- found under that name.
  pub get_name-build_and_init_otpt :
      (settings : OutputSettings) (server : String) (o : Output)
      → build_and_init_otpt getenv services settings server ≡ some o
      → get_name o ≡ settings.name
  unfolding build_and_init_otpt
  get_name-build_and_init_otpt settings server =
      let s : OutputSettings = resolved getenv services settings in
      IsNamed-if _ (lacks_authorization getenv services s) _ _ (IsNamed-none _) (
        IsNamed-if _ (lacks_jira_credentials getenv services s) _ _ (IsNamed-none _)
          (init_some-IsNamed services _ (build_output s server) (build_output-IsNamed s server)))

  -- An output of ServiceNow is made also where the user and the password are empty.
  pub build_and_init_otpt-service_now :
      (settings : OutputSettings) (server : String)
      → settings.type ≡ "serviceNow"
      → (o : Output) × (build_and_init_otpt getenv services settings server ≡ some o)
  unfolding build_and_init_otpt build_output
  build_and_init_otpt-service_now settings server e =
      let differs = λ (t : String) (h : ("serviceNow" == t) ≡ false).
        subst (λ (x : String). (x == t) ≡ false) (sym e) h in
      let a : (settings.type == "servicenow") ≡ false = differs "servicenow" refl in
      let b : (settings.type == "jira") ≡ false = differs "jira" refl in
      let c : (settings.type == "email") ≡ false = differs "email" refl in
      let d : (settings.type == "slack") ≡ false = differs "slack" refl in
      let f : (settings.type == "teams") ≡ false = differs "teams" refl in
      let g : (settings.type == "serviceNow") ≡ true =
        subst (λ (x : String). (x == "serviceNow") ≡ true) (sym e) refl in
      (
        init services (service_now (build_service_now (resolved getenv services settings))),
        ground (arith, a, b, c, d, f, g),
      )
