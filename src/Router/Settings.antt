-- ===== src/Router/Settings.antt =====
-- router/integrations.go, template.go, tenants.go, anonymizer.go: the settings and what is logged of them.
use postee.Prelude.{String, Bool, List, ◌==◌, if◌then◌else◌, Dict, ◌≡◌, refl, arith, eq_iff}
use postee.Prelude.Int.{ℤ}
use postee.Routes.{InputRoute}

pub record OutputSettings : Type 0 where
  pub name : String
  pub type : String
  pub enable : Bool
  pub url : String
  pub user : String
  pub password : String
  pub tls_verify : Bool
  pub project_key : String
  pub issue_type : String
  pub board_name : String
  pub priority : String
  pub assignee : List String
  pub summary : String
  pub fix_versions : List String
  pub affects_versions : List String
  pub labels : List String
  pub sprint : String
  pub unknowns : Dict String
  pub host : String
  pub port : ℤ
  pub recipients : List String
  pub sender : String
  pub token : String
  pub use_mx : Bool
  pub instance_name : String
  pub size_limit : ℤ

pub record Template : Type 0 where
  pub name : String
  pub body : String
  pub rego_package : String
  pub legacy_scan_renderer : String
  pub url : String

pub record TenantSettings : Type 0 where
  pub aqua_server : String
  pub db_max_size : ℤ
  pub db_remove_old_data : ℤ
  pub db_test_interval : ℤ
  pub outputs : List OutputSettings
  pub input_routes : List InputRoute
  pub templates : List Template

abbrev pub anonymize_replacement : String
anonymize_replacement = "<hidden>"

abbrev hide : String → String
hide prop = if prop == "" then prop else anonymize_replacement

unfoldable pub anonymize_settings : OutputSettings → OutputSettings
anonymize_settings settings = record settings {
  user = hide settings.user;
  password = hide settings.password;
  url = hide settings.url;
  instance_name = hide settings.instance_name;
}

hide-same : (s t : String) → (s == "") ≡ (t == "") → hide s ≡ hide t
hide-same s t e = ground (arith, e, eq_iff s "", eq_iff t "")

-- Of two settings that differ in the user, the password, the URL and the instance name alone, each of
-- them empty in both or in neither, the router makes the same settings for its debug log.
pub anonymize_settings-hides :
    (settings : OutputSettings) (user password url instance_name : String)
    → (user == "") ≡ (settings.user == "")
    → (password == "") ≡ (settings.password == "")
    → (url == "") ≡ (settings.url == "")
    → (instance_name == "") ≡ (settings.instance_name == "")
    → anonymize_settings (record settings {
      user = user;
      password = password;
      url = url;
      instance_name = instance_name;
    })
      ≡ anonymize_settings settings
unfolding anonymize_settings
anonymize_settings-hides settings user password url instance_name u p l i =
    rw (hide-same user settings.user u) (
      rw (hide-same password settings.password p) (
        rw (hide-same url settings.url l)
          (rw (hide-same instance_name settings.instance_name i) refl)))
