-- ===== src/Layout/Legacy/Batch.antt =====
-- What an output reads back from the content of a batch.
use Prim.Native.String
use Prim.Native.String.{String}
use postee.Prelude.{
  false, List, [], ◌∷◌, ◌≡◌, ◌≢◌, ◌∙◌, refl, sym, ap, arith, eq_iff, ◌==◌, lookup, value_of, All,
  map,
}
use text.Mathlib.TextLemmas.{append_assoc, nil-append, cons-append, cons-ne-nil}
use postee.Prelude.Text.{split, join, Lacks, split-join}
use postee.Db.Aggregator.{Content}
use postee.Layout.Provider.{LayoutProvider}
use postee.Layout.Legacy.{LegacyServices, Gathered, gather_scan, gather, legacy_aggregated_content}

join-fuse :
    (a b : String) (ws : List String) (sep : String)
    → join (String.◌++◌ a (String.◌++◌ sep b) ∷ ws) sep ≡ join (a ∷ b ∷ ws) sep
unfolding join
join-fuse a b [] sep = refl
join-fuse a b (w ∷ ws) sep = rw append_assoc (rw append_assoc refl)

append-ne-empty : (s t : String) → t ≢ "" → String.◌++◌ s t ≢ ""
append-ne-empty String.[] t n e = n (sym (nil-append t) ∙ e)
append-ne-empty (String.◌∷◌ c s) t n e =
    cons-ne-nil c (String.◌++◌ s t) (sym (cons-append c s t) ∙ e)

module _ (services : LegacyServices) (provider : LayoutProvider) where
  urls-gather_scan :
      (scan : Content) (g : Gathered)
      → g.urls ≢ ""
      → (gather_scan services provider scan g).urls
        ≡ String.◌++◌ g.urls (String.◌++◌ "\n" (value_of "url" scan))
  unfolding gather_scan
  urls-gather_scan scan g n =
      let filled : (g.urls == "") ≡ false = ground (arith, eq_iff g.urls "") in
      rw filled (append_assoc g.urls "\n" (value_of "url" scan))

  urls-gather :
      (scans : List Content) (g : Gathered)
      → g.urls ≢ ""
      → All (λ scan. value_of "url" scan ≢ "") scans
      → (gather services provider scans g).urls ≡ join (g.urls ∷ map (value_of "url") scans) "\n"
  unfolding gather join
  urls-gather [] g n h = refl
  urls-gather (scan ∷ scans) g n (k, h) =
      let u = value_of "url" scan in
      urls-gather scans (gather_scan services provider scan g)
        (λ e.
          append-ne-empty g.urls (String.◌++◌ "\n" u) (append-ne-empty "\n" u k)
            (sym (urls-gather_scan scan g n) ∙ e))
        h
      ∙ (rw (urls-gather_scan scan g n) (join-fuse g.urls u (map (value_of "url") scans) "\n"))

  -- An output that splits the URLs of a batch at the line breaks, as the short message does, has the URL
  -- of each scan, in order; where no URL is empty or has a line break.
  pub split-legacy_aggregated_content :
      (scan : Content) (scans : List Content)
      → All (λ s. value_of "url" s ≢ "") (scan ∷ scans)
      → All (λ s. Lacks b'\n' s) (map (value_of "url") (scan ∷ scans))
      → split (value_of "url" (legacy_aggregated_content services provider (scan ∷ scans))) b'\n'
        ≡ map (value_of "url") (scan ∷ scans)
  unfolding legacy_aggregated_content value_of lookup gather gather_scan
  split-legacy_aggregated_content scan scans (k, h) l =
      let first : Gathered =
        gather_scan services provider scan (record { descr = ""; urls = ""; owners = [] }) in
      let same : first.urls ≡ value_of "url" scan = nil-append (value_of "url" scan) in
      let all = urls-gather scans first (λ e. k (sym same ∙ e)) h in
      ap (λ text. split text b'\n')
        (all ∙ ap (λ u. join (u ∷ map (value_of "url") scans) "\n") same)
      ∙ split-join (value_of "url" scan) (map (value_of "url") scans) "\n" l
