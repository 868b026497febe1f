-- ===== src/Outputs/Splunk.antt =====
-- outputs/splunk.go: a scan as an event, cut down until it is below the limit.
use Prim.Native.String.{◌++◌, len}
use postee.Prelude.{
  ℕ, zero, suc, ◌+◌, ◌-◌, ◌≤◌, ◌<◌, String, Bool, true, Option, none, some, [], Result, ok, err,
  Error, if◌then◌else◌, value_of, is_empty, ◌≡◌, ◌⊎◌, inl, inr, refl, arith, ltb, Bool-cases,
  Result-cases, subst,
}
use postee.Prelude.Int.{ℤ, pos, ltb_ℤ, eqb_ℤ, wrap_int, neg, ◌+ℤ◌}
use postee.Prelude.Text.{has_suffix}
use postee.Db.Aggregator.{Content}
use postee.Data.{ScanImageInfo}
use postee.Outputs.Records.{SplunkOutput}

-- encoding/json and the HTTP call: the status of the answer.
pub record SplunkServices : Type 0 where
  pub unmarshal : String → Result (ScanImageInfo)
  pub marshal : ScanImageInfo → Result String
  pub post : (url token body : String) → Result ℕ

abbrev pub default_size_limit : ℤ
default_size_limit = pos 10000

abbrev event_format : String
event_format = "{\"sourcetype\": \"_json\", \"event\": "

-- How many parts a scan has to cut.
abbrev pub parts : ScanImageInfo → ℕ
parts s =
    (if is_empty s.resources then 0 else 1)
    + ((if is_empty s.malwares then 0 else 1) + (if is_empty s.sensitive_data then 0 else 1))

module _ (services : SplunkServices) where
  -- Resources go first, then malware, then sensitive data.
  unfoldable pub cut : ScanImageInfo → Option (ScanImageInfo)
  cut s =
      if is_empty s.resources
      then (if is_empty s.malwares
          then (if is_empty s.sensitive_data then none else some (record s { sensitive_data = [] }))
          else some (record s { malwares = [] }))
      else some (record s { resources = [] })

  abbrev pub fits : ℤ → String → Bool
  fits limit fields = ltb_ℤ (pos (len fields)) (wrap_int (limit +ℤ neg (len event_format - 1)))

  -- The loop, on fuel; none when the fuel ends.
  unfoldable pub shrink : ℕ → ℤ → ScanImageInfo → Option (Result String)
  unfolding cut
  shrink zero limit s = none
  shrink (suc n) limit s = elim (services.marshal s) [
    | err e ↦ some (err e)
    | ok fields ↦ if fits limit fields then some (ok fields) else elim (cut s) [
      | none ↦ some (err "the scan result is large")
      | some s' ↦ shrink n limit s'
    ]
  ]

  abbrev pub limit_of : ℤ → ℤ
  limit_of event_limit = if eqb_ℤ event_limit (pos 0) then default_size_limit else event_limit

  abbrev url_of : String → String
  url_of url = if has_suffix url "/" then url else url ++ "/"

  abbrev answered : Result ℕ → Option Error
  answered (err e) = some e
  answered (ok status) =
      if ltb 200 status
      then some "failed response status"
      else if ltb status 200
      then some "failed response status"
      else none

  abbrev post_event : SplunkOutput → Option (Result String) → Option Error
  post_event o none = some ""
  post_event o (some (err e)) = some e
  post_event o (some (ok fields)) = answered (
      services.post (url_of o.url ++ "services/collector") ("Splunk " ++ o.token)
        (event_format ++ (fields ++ "}")))

  abbrev send_scan : SplunkOutput → Result (ScanImageInfo) → Option Error
  send_scan o (err e) = some e
  send_scan o (ok s) = post_event o (shrink 4 (limit_of o.event_limit) s)

  -- The scan is read from `src`; the limit and the URL that Send puts right are kept in the output.
  unfoldable pub send_splunk : SplunkOutput → Content → Option Error × SplunkOutput
  unfolding shrink
  send_splunk o content = (
    send_scan o (services.unmarshal (value_of "src" content)),
    record o { event_limit = limit_of o.event_limit; url = url_of o.url },
  )

  cut-cases :
      (s : ScanImageInfo)
      → (cut s ≡ none) ⊎ ((s' : ScanImageInfo) × (cut s ≡ some s') × (parts s' + 1 ≡ parts s))
  unfolding cut
  cut-cases s = elim (Bool-cases (is_empty s.resources)) [
    | inr e ↦ inr (record s { resources = [] }, rw e refl, ground (arith, e))
    | inl e ↦ elim (Bool-cases (is_empty s.malwares)) [
      | inr f ↦ inr (record s { malwares = [] }, rw e (rw f refl), ground (arith, e, f))
      | inl f ↦ elim (Bool-cases (is_empty s.sensitive_data)) [
        | inr g ↦
            inr (record s { sensitive_data = [] }, rw e (rw f (rw g refl)), ground (arith, e, f, g))
        | inl g ↦ inl (rw e (rw f (rw g refl)))
      ]
    ]
  ]

  parts-le-three : (s : ScanImageInfo) → parts s ≤ 3
  parts-le-three s = ground arith

  abbrev Shrunk : ℤ → Option (Result String) → Type 0
  Shrunk limit o =
      (r : Result String) × (o ≡ some r)
      × ((fields : String) → r ≡ ok fields → fits limit fields ≡ true)

  shrink-Shrunk :
      (n : ℕ) (limit : ℤ) (s : ScanImageInfo) → parts s < n → Shrunk limit (shrink n limit s)
  unfolding shrink
  shrink-Shrunk zero limit s h = absurd (omega (arith, h))
  shrink-Shrunk (suc n) limit s h = elim (Result-cases (services.marshal s)) [
    | inr (e, m) ↦ (err e, rw (m, shrink) refl, λ fields g. cc)
    | inl (text, m) ↦ elim (Bool-cases (fits limit text)) [
      | inl f ↦ (
        ok text,
        rw (m, shrink) (rw f refl),
        λ fields g.
            let same : text ≡ fields = cc in subst (λ (x : String). fits limit x ≡ true) same f,
      )
      | inr f ↦ elim (cut-cases s) [
        | inl c ↦
            (err "the scan result is large", rw (m, shrink) (rw f (rw c refl)), λ fields g. cc)
        | inr (s', c, p) ↦
            rw (m, shrink) (rw f (rw c (shrink-Shrunk n limit s' (omega (arith, p, h)))))
      ]
    ]
  ]

  -- The loop ends: a scan has at most three parts to cut, so that four rounds always give a result, an
  -- error or a text; and a text is below the limit.
  pub shrink_lem :
      (limit : ℤ) (s : ScanImageInfo)
      → (r : Result String) × (shrink 4 limit s ≡ some r)
        × ((fields : String) → r ≡ ok fields → fits limit fields ≡ true)
  shrink_lem limit s = shrink-Shrunk 4 limit s (omega (arith, parts-le-three s))
