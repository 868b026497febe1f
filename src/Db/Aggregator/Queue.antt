-- ===== src/Db/Aggregator/Queue.antt =====
-- AggregateScans as a queue of scans.

use postee.Prelude.{
  String, Bool, true, false, some, List, [], ◌||◌, ◌&&◌, ◌==◌, ◌≡◌, refl, arith, inl, inr, eq_iff,
  eq_refl, ok, Error, Outcome, done, failed, panicked, lift, ◌>>=◌, length, if◌then◌else◌,
  Bool-cases, Result-cases,
}
use postee.Prelude.Int.{ℤ, pos, ltb_ℤ}
use postee.Db.Bolt.{Bolt, BoltLaws}
use postee.Db.Access.{
  bucket_aggregator, SameValues, SameValues-refl, Written, open_then, init_then, insert_then,
  select_then,
}
use postee.Db.Aggregator.{
  Content, Codec, CodecLaws, decode, with_current, save, release, save_or_release, check_capacity,
  aggregate_scans,
}

module _ (bolt : Bolt) (codec : Codec) (output : String) where
  open bolt use {File, get}

  -- The queue of the output is stored in the file.
  abbrev pub HasQueue : File → List Content → Type 0
  HasQueue f q = decode codec (get f bucket_aggregator output) ≡ ok q

  -- All but the queue of the output is as before.
  abbrev pub KeepsOthers : File → File → Type 0
  KeepsOthers f f' =
      (m j : String)
      → get f' m j ≡ (if bucket_aggregator == m && output == j then get f' m j else get f m j)

  -- How a call may end.
  pub data Turns (current : Content) (n : ℤ) (ignore : Bool) (f f' : File)
      : Outcome (List Content) → Type 0 where
    broken : (e : Error) → SameValues bolt f f' → Turns current n ignore f f' (failed e)
    refused : ltb_ℤ n (pos 0) ≡ true → SameValues bolt f f' → Turns current n ignore f f' panicked
    queued :
        (q : List Content)
        → HasQueue f q
        → (ignore || ltb_ℤ (pos (length (with_current current q))) n) ≡ true
        → HasQueue f' (with_current current q)
        → KeepsOthers f f'
        → Turns current n ignore f f' (done [])
    released :
        (q : List Content)
        → HasQueue f q
        → (ignore || ltb_ℤ (pos (length (with_current current q))) n) ≡ false
        → HasQueue f' []
        → KeepsOthers f f'
        → Turns current n ignore f f' (done (with_current current q))

module _ {bolt : Bolt} (laws : BoltLaws bolt) {codec : Codec} (codec_laws : CodecLaws codec) where
  open bolt use {File, get}

  module _ (output : String) (current : Content) (n : ℤ) (ignore : Bool) (f : File) where
    abbrev Q : Outcome (List Content) × File → Type 0
    Q r = Turns bolt codec output current n ignore f r.1 r.0

    Written-HasQueue :
        (g g' : File) (text : String) (q : List Content)
        → SameValues bolt f g
        → Written bolt bucket_aggregator output text g g'
        → decode codec (some text) ≡ ok q
        → HasQueue bolt codec output g' q × KeepsOthers bolt codec output f g'
    Written-HasQueue g g' text q s w d =
        (rw (w.at bucket_aggregator output, eq_refl) d, λ m j. ground (arith, w.at m j, s.at m j))

    decode-marshal :
        (scans : List Content) (text : String)
        → codec.marshal scans ≡ ok text
        → decode codec (some text) ≡ ok scans
    unfolding decode
    decode-marshal scans text m =
        let (back, filled) = codec_laws.unmarshal-marshal scans text m in
        ground (arith, back, filled, eq_iff text "")

    save_or_release_lem :
        (g : File) (q : List Content)
        → SameValues bolt f g
        → HasQueue bolt codec output f q
        → Q (save_or_release bolt codec output n ignore (with_current current q) g)
    unfolding save_or_release save release decode
    save_or_release_lem g q s h =
        let all = with_current current q in
        elim (Bool-cases (ignore || ltb_ℤ (pos (length all)) n)) [
          | inl small ↦ rw small (elim (Result-cases (codec.marshal all)) [
            | inl (text, m) ↦
                rw (m, save)
                  (insert_then laws Q bucket_aggregator output text _ g (λ e. broken e s)
                    λ g' w.
                      let (here, others) =
                        Written-HasQueue g g' text all s w (decode-marshal all text m) in
                      queued q h small here others)
            | inr (x, m) ↦ rw (m, save) (broken x s)
          ])
          | inr large ↦ rw large (
              insert_then laws Q bucket_aggregator output "" _ g (λ e. broken e s)
                λ g' w.
                  let (here, others) = Written-HasQueue g g' "" [] s w refl in
                  released q h large here others)
        ]

    decode_then :
        (g : File)
        → SameValues bolt f g
        → Q (
            (lift (decode codec (get g bucket_aggregator output)) >>= λ q.
            save_or_release bolt codec output n ignore (with_current current q))
              g)
    decode_then g s = elim (Result-cases (decode codec (get g bucket_aggregator output))) [
      | inl (q, d) ↦ rw d (save_or_release_lem g q s (rw (s.at bucket_aggregator output) at d))
      | inr (x, d) ↦ rw d (broken x s)
    ]

    -- A call of AggregateScans ends in one of the four ways of `Turns`, whatever fails.
    pub aggregate_scans-Turns :
        Turns bolt codec output current n ignore f
          (aggregate_scans bolt codec output current n ignore f).1
          (aggregate_scans bolt codec output current n ignore f).0
    unfolding aggregate_scans check_capacity
    aggregate_scans-Turns =
        open_then laws Q _ f (λ e. broken e (SameValues-refl bolt f))
          (init_then laws Q bucket_aggregator _ f (λ e. broken e (SameValues-refl bolt f))
            λ g c. elim (Bool-cases (ltb_ℤ n (pos 0))) [
              | inl bad ↦ rw bad (refused bad c.same)
              | inr good ↦ rw good (
                  select_then laws Q bucket_aggregator output _ g
                    (ground (arith, c.has bucket_aggregator)) (decode_then g c.same))
            ])
