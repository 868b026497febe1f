-- ===== src/Data.antt =====
-- data: the scan of an image as a template reads it, and the blocks of Slack.
use Prim.Native.Char.{code}
use Prim.Native.String.{[], ◌∷◌}
use postee.Prelude.{ℕ, String, Bool, Option, List, if◌then◌else◌, ltb, eqb, ◌||◌}
use postee.Prelude.Int.{ℤ}

pub record SensitiveData : Type 0 where
  pub filename : String
  pub path : String
  pub type : String
  pub hash : String

pub record MalwareData : Type 0 where
  pub malware : String
  pub path : String
  pub hash : String

pub record ControlCheck : Type 0 where
  pub control : String
  pub policy_name : String
  pub failed : Bool

pub record Vulnerability : Type 0 where
  pub name : String
  pub version : String
  pub fix_version : String
  pub severity : String

pub record InfoResources : Type 0 where
  pub vulnerabilities : List Vulnerability
  pub name : String
  pub version : String

-- The embedded structs are spread out: `disallowed` and `checks_performed` are those of
-- ImageAssuranceResults, `total` to `malware` of VulnerabilitySummary, the next two of ScanOptions.
pub record ScanImageInfo : Type 0 where
  pub image : String
  pub registry : String
  pub digest : String
  pub previous_digest : String
  pub disallowed : Bool
  pub checks_performed : List ControlCheck
  pub total : ℤ
  pub critical : ℤ
  pub high : ℤ
  pub medium : ℤ
  pub low : ℤ
  pub negligible : ℤ
  pub sensitive : ℤ
  pub malware : ℤ
  pub scan_sensitive_data : Bool
  pub scan_malware : Bool
  pub resources : List InfoResources
  pub application_scope_owners : List String
  pub malwares : List MalwareData
  pub sensitive_data : List SensitiveData

pub record SlackTextBlock : Type 0 where
  pub type_field : String
  pub text_field : String

-- A nil slice of fields is left out of the JSON, as an empty one is.
pub record SlackBlock : Type 0 where
  pub type_field : String
  pub text_field : Option SlackTextBlock
  pub fields : List SlackTextBlock

-- Control characters and U+FFFD.
abbrev is_cleared : ℕ → Bool
is_cleared n = ltb n 32 || eqb n 127 || eqb n 65533

unfoldable pub clear_field : String → String
clear_field [] = []
clear_field (c ∷ source) =
    let rest = clear_field source in if is_cleared (code c) then rest else c ∷ rest
