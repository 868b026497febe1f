-- ===== src/Rego/Build.antt =====
-- regoservice/eval.go and formatting/eval.go: how a template is prepared.
use postee.Prelude.{
  String, Bool, true, false, Option, none, some, Result, ok, err, Outcome, done, failed, panicked,
  ◌==◌, if◌then◌else◌,
}
use postee.Outputs.Records.{Layout, html, slack_mrkdwn, jira_layout}
use postee.Msg.Value.{Value, null, str, obj, no_fields, get_field}
use postee.Rego.Eval.{Engine, RegoEvaluator, first_value}

-- The query and the modules that are loaded beside the common ones.
pub data Source : Type 0 where
  bundled : String → Source
  module_file : (filename body : String) → Source

pub data Evaluator (engine : Engine) : Type 0 where
  legacy : Layout → Evaluator engine
  rego : RegoEvaluator engine → Evaluator engine

abbrev pub build_legacy_scn_evaluator : {engine : Engine} → String → Outcome (Evaluator engine)
build_legacy_scn_evaluator layout_type =
    if layout_type == "slack"
    then done (legacy slack_mrkdwn)
    else if layout_type == "html"
    then done (legacy html)
    else if layout_type == "jira"
    then done (legacy jira_layout)
    else failed "unknown layout type"

module _ (engine : Engine) (prepare : Source → Result engine.Query) where
  abbrev build_bundled_rego_for_package : String → Result engine.Query
  build_bundled_rego_for_package rego_package = prepare (bundled rego_package)

  abbrev some_query : Result engine.Query → Outcome (Option engine.Query)
  some_query (ok query) = done (some query)
  some_query (err e) = failed e

  -- `aggregation_pkg_val.(string)` panics on what is neither nil nor a text.
  abbrev aggregation_query : Option Value → Outcome (Option engine.Query)
  aggregation_query none = done none
  aggregation_query (some null) = done none
  aggregation_query (some (str name)) = some_query (build_bundled_rego_for_package name)
  aggregation_query (some _) = panicked

  -- The query is run on the empty map; any error of the run shows as no results.
  abbrev aggregation_in : Result Value → Outcome (Option engine.Query)
  aggregation_in (ok (obj fs)) = aggregation_query (get_field "aggregation_pkg" fs)
  aggregation_in (ok _) = panicked
  aggregation_in (err e) = failed "no results"

  unfoldable pub build_aggregated_rego : engine.Query → Outcome (Option engine.Query)
  build_aggregated_rego query =
      aggregation_in (first_value engine (engine.eval query (obj no_fields)))

  abbrev with_aggregation :
      Bool → engine.Query → Outcome (Option engine.Query) → Outcome (Evaluator engine)
  with_aggregation defined query (done aggr) =
      done (rego (record { prep_query = query; aggr_query = aggr; is_package_defined = defined }))
  with_aggregation defined query (failed e) = failed e
  with_aggregation defined query panicked = panicked

  abbrev built : Bool → Result engine.Query → Outcome (Evaluator engine)
  built defined (ok query) = with_aggregation defined query (build_aggregated_rego query)
  built defined (err e) = failed e

  unfoldable pub build_bundled_rego_evaluator : String → Outcome (Evaluator engine)
  unfolding build_aggregated_rego
  build_bundled_rego_evaluator rego_package =
      built true (build_bundled_rego_for_package rego_package)

  unfoldable pub build_external_rego_evaluator : String → String → Outcome (Evaluator engine)
  unfolding build_aggregated_rego
  build_external_rego_evaluator filename body = built false (prepare (module_file filename body))
