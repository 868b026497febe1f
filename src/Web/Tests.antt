-- ===== src/Web/Tests.antt =====
-- The guard of the reload with small keys.
use Prim.Native.String.{◌++◌}
use postee.Web.Answers.{scan_response, ping_response}
use postee.Prelude.{
  String, true, false, [], ◌∷◌, Result, ok, err, refl, ◌≡◌, ◌≢◌, ◌⊎◌, arith, eq_iff,
}
use postee.Web.{with_api_key, with_api_key-guards}

key_is_set : ◌≢◌ {A = String} "secret" ""
key_is_set e = ground (arith, e, eq_iff "secret" "")

with_api_key-guards_example :
    (((with_api_key (ok "secret") "guess").reached ≡ true) × (◌≡◌ {A = String} "guess" "secret"))
    ⊎ (((with_api_key (ok "secret") "guess").reached ≡ false)
        × (◌≢◌ {A = String} "guess" "secret")
        × ((with_api_key (ok "secret") "guess").statuses ≡ 401 ∷ []))
with_api_key-guards_example = with_api_key-guards "secret" "guess" key_is_set

abbrev quoted : String → Result String
quoted text = ok ("\"" ++ (text ++ "\""))

-- An error is a value whose fields encoding/json does not see.
abbrev no_fields : String → Result String
no_fields e = ok "{}"

alive : ping_response quoted no_fields ≡ record {
  status = 200;
  content_type = "application/json; charset=UTF-8";
  body = "\"Postee alive!\"";
}
unfolding ping_response
alive = refl

unread_scan : (scan_response quoted no_fields (err "unexpected EOF")).body ≡ "{}"
unfolding scan_response
unread_scan = refl
