-- ===== src/Db/Aggregator/Conservation.antt =====
-- The queue of an output over any sequence of calls of AggregateScans, and the size of a batch.
use mathlib.Core.List.{Perm, append-nil, append_assoc, perm_append_comm}
use mathlib.Core.List.Perm
use postee.Prelude.{
  ℕ, ◌+◌, ◌<◌, ◌≢◌, String, Bool, true, false, List, [], ◌∷◌, ◌++◌, ◌≡◌, ◌⊎◌, ◌∙◌, sym, refl, ap,
  arith, inl, inr, Outcome, done, if◌then◌else◌, length, Bool-cases,
}
use postee.Prelude.Int.{ℤ, pos}
use postee.Db.Bolt.{Bolt, BoltLaws}
use postee.Db.Access.{bucket_aggregator}
use postee.Db.Aggregator.{Content, Codec, CodecLaws, with_current, aggregate_scans}
use postee.Db.Aggregator.Queue.{
  HasQueue, Turns, broken, refused, queued, released, aggregate_scans-Turns,
}

-- The arguments of one call, for an output that is fixed.
pub record Arrival : Type 0 where
  pub scan : Content
  pub per_ticket : ℤ
  pub ignore : Bool

abbrev pub handed : Outcome (List Content) → List Content
handed (done scans) = scans
handed _ = []

abbrev pub taken : Outcome (List Content) → Bool
taken (done scans) = true
taken _ = false

module _ (bolt : Bolt) (codec : Codec) (output : String) where
  open bolt use {File}

  abbrev pub arrive : Arrival → File → Outcome (List Content) × File
  arrive a f = aggregate_scans bolt codec output a.scan a.per_ticket a.ignore f

  -- The file after the calls, and all the scans that they returned.
  abbrev pub file_after : List Arrival → File → File
  file_after [] f = f
  file_after (a ∷ more) f = file_after more (arrive a f).1

  abbrev pub handed_out : List Arrival → File → List Content
  handed_out [] f = []
  handed_out (a ∷ more) f = handed (arrive a f).0 ++ handed_out more (arrive a f).1

  -- The scans of the calls that succeeded, in front of those that were there.
  abbrev pub entered : List Arrival → File → List Content → List Content
  entered [] f q = q
  entered (a ∷ more) f q =
      entered more (arrive a f).1 (if taken (arrive a f).0 then with_current a.scan q else q)

  with_current-append : (c : Content) (q : List Content) → with_current c q ≡ with_current c [] ++ q
  with_current-append [] q = refl
  with_current-append (x ∷ c) q = refl

  entered-append :
      (calls : List Arrival) (f : File) (q : List Content)
      → entered calls f q ≡ entered calls f [] ++ q
  entered-append [] f q = refl
  entered-append (a ∷ more) f q = elim (Bool-cases (taken (arrive a f).0)) [
    | inl t ↦ rw t (
        entered-append more (arrive a f).1 (with_current a.scan q)
        ∙ rw (with_current-append a.scan q)
            (sym (append_assoc (entered more (arrive a f).1 []) (with_current a.scan []) q))
        ∙ ap (λ l. l ++ q) (sym (entered-append more (arrive a f).1 (with_current a.scan []))))
    | inr t ↦ rw t (entered-append more (arrive a f).1 q)
  ]

-- The step of the induction on the calls, for lists alone.
regroup :
    (hand later q' p : List Content) (out : List Content → List Content)
    → ((q : List Content) → out q ≡ out [] ++ q)
    → Perm (later ++ q') (out p)
    → Perm ((hand ++ later) ++ q') (out (hand ++ p))
regroup hand later q' p out h same =
    rw (h (hand ++ p), append_assoc)
      (Perm.trans (Perm.append_left hand (rw (h p) at same)) (
        rw (← append_assoc hand (out []) p, ← append_assoc (out []) hand p)
          (Perm.append_right p (perm_append_comm hand (out [])))))

module _ {bolt : Bolt} (laws : BoltLaws bolt) {codec : Codec} (codec_laws : CodecLaws codec)
    (output : String) where
  open bolt use {File, get}

  -- What one call returns and leaves is what it found and was given.
  pub data Balanced (a : Arrival) (q : List Content) (f : File) (r : Outcome (List Content) × File)
      : Type 0 where
    balanced :
        (q' : List Content)
        → HasQueue bolt codec output r.1 q'
        → handed r.0 ++ q' ≡ (if taken r.0 then with_current a.scan q else q)
        → Balanced a q f r

  HasQueue-unique :
      (f : File) (p q : List Content)
      → HasQueue bolt codec output f p
      → HasQueue bolt codec output f q
      → p ≡ q
  HasQueue-unique f p q h k = cc

  balance :
      (a : Arrival) (q : List Content) (f f' : File) (o : Outcome (List Content))
      → HasQueue bolt codec output f q
      → Turns bolt codec output a.scan a.per_ticket a.ignore f f' o
      → Balanced a q f (o, f')
  balance a q f f' o h (broken e s) = balanced q (rw (s.at bucket_aggregator output) h) refl
  balance a q f f' o h (refused e s) = balanced q (rw (s.at bucket_aggregator output) h) refl
  balance a q f f' o h (queued p k small h' others) =
      balanced (with_current a.scan q) (rw (HasQueue-unique f q p h k) h') refl
  balance a q f f' o h (released p k large h' others) =
      balanced [] h' (rw (HasQueue-unique f q p h k) (append-nil _))

  batch :
      (n : ℕ) (scan : Content) (q : List Content) (f f' : File) (o : Outcome (List Content))
      (scans : List Content)
      → HasQueue bolt codec output f q
      → length q < n
      → scan ≢ []
      → o ≡ done scans
      → Turns bolt codec output scan (pos n) false f f' o
      → ((scans ≡ []) × (length q + 1 < n) × HasQueue bolt codec output f' (scan ∷ q))
        ⊎ ((length scans ≡ n) × (length q + 1 ≡ n) × HasQueue bolt codec output f' [])
  batch n [] q f f' o scans h few filled e t = absurd (filled refl)
  batch n (x ∷ c) q f f' o scans h few filled e (broken d s) = absurd (cc)
  batch n (x ∷ c) q f f' o scans h few filled e (refused d s) = absurd (cc)
  batch n (x ∷ c) q f f' o scans h few filled e (queued p k small h' others) =
      let same = HasQueue-unique f q p h k in inl (cc, ground (arith, ap length same), rw same h')
  batch n (x ∷ c) q f f' o scans h few filled e (released p k large h' others) =
      let same = HasQueue-unique f q p h k in
      inr (ground (arith, ap length same), ground (arith, ap length same), h')

  -- Whatever the calls and their failures, the scans returned together with those still queued are
  -- the scans that were queued at the start and those of the calls that succeeded, each as often.
  pub handed_out-Perm :
      (calls : List Arrival) (f : File) (q : List Content)
      → HasQueue bolt codec output f q
      → (q' : List Content) × HasQueue bolt codec output (file_after bolt codec output calls f) q'
        × Perm (handed_out bolt codec output calls f ++ q') (entered bolt codec output calls f q)
  handed_out-Perm [] f q h = (q, h, Perm.refl q)
  handed_out-Perm (a ∷ more) f q h =
      elim (balance a q f (arrive bolt codec output a f).1 (arrive bolt codec output a f).0 h
        (aggregate_scans-Turns laws codec_laws output a.scan a.per_ticket a.ignore f)) [
          | balanced p k e ↦
              let g = (arrive bolt codec output a f).1 in
              let (q', k', same) = handed_out-Perm more g p k in
              (
                q',
                k',
                rw (← e) (
                    regroup _ _ _ _ (entered bolt codec output more g)
                      (entered-append bolt codec output more g) same),
              )
        ]

  -- With a positive number of scans per ticket and fewer than that queued, a call for a scan that
  -- holds something either only queues it, or returns exactly that number and empties the queue.
  pub aggregate_scans-length :
      (n : ℕ) (scan : Content) (q : List Content) (f : File) (scans : List Content)
      → HasQueue bolt codec output f q
      → length q < n
      → scan ≢ []
      → (aggregate_scans bolt codec output scan (pos n) false f).0 ≡ done scans
      → ((scans ≡ [])
          × (length q + 1 < n)
          × HasQueue bolt codec output
              (aggregate_scans bolt codec output scan (pos n) false f).1
              (scan ∷ q))
        ⊎ ((length scans ≡ n)
            × (length q + 1 ≡ n)
            × HasQueue bolt codec output
                (aggregate_scans bolt codec output scan (pos n) false f).1
                [])
  aggregate_scans-length n scan q f scans h few filled e =
      batch n scan q f _ _ scans h few filled e
        (aggregate_scans-Turns laws codec_laws output scan (pos n) false f)
