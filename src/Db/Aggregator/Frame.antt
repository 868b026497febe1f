-- ===== src/Db/Aggregator/Frame.antt =====
-- The buckets that AggregateScans leaves alone.
use postee.Prelude.{
  String, Bool, false, List, ◌≡◌, ◌==◌, ◌||◌, refl, arith, inl, inr, Outcome, lift, ◌>>=◌, length,
  Bool-cases, Result-cases,
}
use postee.Prelude.Int.{ℤ, pos, ltb_ℤ}
use postee.Db.Bolt.{Bolt, BoltLaws}
use postee.Db.Access.{bucket_aggregator, Written, open_then, init_then, insert_then, select_then}
use postee.Db.Aggregator.{
  Content, Codec, decode, with_current, save, release, save_or_release, check_capacity,
  aggregate_scans,
}

module _ {bolt : Bolt} (laws : BoltLaws bolt) (codec : Codec) (f : bolt.File) (m j : String)
    (other : (bucket_aggregator == m) ≡ false) where
  open bolt use {File, get}

  abbrev Same : {A : Type 0} → Outcome A × File → Type 0
  Same r = get r.1 m j ≡ get f m j

  Same-Written :
      (key value : String) (g g' : File)
      → get g m j ≡ get f m j
      → Written bolt bucket_aggregator key value g g'
      → get g' m j ≡ get f m j
  Same-Written key value g g' s w = ground (arith, w.at m j, other, s)

  save_or_release_frame :
      (output : String) (n : ℤ) (ignore : Bool) (scans : List Content) (g : File)
      → get g m j ≡ get f m j
      → Same (save_or_release bolt codec output n ignore scans g)
  unfolding save_or_release save release
  save_or_release_frame output n ignore scans g s =
      elim (Bool-cases (ignore || ltb_ℤ (pos (length scans)) n)) [
        | inl small ↦ rw small (elim (Result-cases (codec.marshal scans)) [
          | inl (text, c) ↦
              rw (c, save)
                (insert_then laws Same bucket_aggregator output text _ g (λ e. s)
                  λ g' w. Same-Written output text g g' s w)
          | inr (x, c) ↦ rw (c, save) s
        ])
        | inr large ↦ rw large (
            insert_then laws Same bucket_aggregator output "" _ g (λ e. s)
              λ g' w. Same-Written output "" g g' s w)
      ]

  decode_frame :
      (output : String) (current : Content) (n : ℤ) (ignore : Bool) (g : File)
      → get g m j ≡ get f m j
      → Same (
          (lift (decode codec (get g bucket_aggregator output)) >>= λ q.
          save_or_release bolt codec output n ignore (with_current current q))
            g)
  decode_frame output current n ignore g s =
      elim (Result-cases (decode codec (get g bucket_aggregator output))) [
        | inl (q, d) ↦ rw d (save_or_release_frame output n ignore _ g s)
        | inr (x, d) ↦ rw d s
      ]

  -- The values of another bucket stay, whatever fails.
  pub aggregate_scans_frame :
      (output : String) (current : Content) (n : ℤ) (ignore : Bool)
      → get (aggregate_scans bolt codec output current n ignore f).1 m j ≡ get f m j
  unfolding aggregate_scans check_capacity
  aggregate_scans_frame output current n ignore =
      open_then laws Same _ f (λ e. refl)
        (init_then laws Same bucket_aggregator _ f (λ e. refl)
          λ g c. elim (Bool-cases (ltb_ℤ n (pos 0))) [
            | inl bad ↦ rw bad (c.same.at m j)
            | inr good ↦ rw good (
                select_then laws Same bucket_aggregator output _ g
                  (ground (arith, c.has bucket_aggregator))
                  (decode_frame output current n ignore g (c.same.at m j)))
          ])
