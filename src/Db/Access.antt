-- ===== src/Db/Access.antt =====
-- dbservice/dbparam.go, init.go, insert.go, select.go and delete.go: the bucket names and the four
-- ways in which the service reads and writes the file.
use postee.Prelude.{
  String, Option, none, some, List, [], ◌∷◌, ◌≡◌, ◌==◌, ◌&&◌, ◌||◌, ◌⊎◌, inl, inr, refl, arith,
  Error, Result, ok, err, Outcome, done, failed, panicked, Action, if◌then◌else◌, Option-cases,
  Result-cases, ◌∙◌, true, ◌>>=◌, ◌>>◌,
}
use postee.Db.Bolt.{Bolt, BoltLaws}

abbrev pub bucket_name : String
bucket_name = "WebhookBucket"

abbrev pub bucket_aggregator : String
bucket_aggregator = "WebhookAggregator"

abbrev pub bucket_expiry_dates : String
bucket_expiry_dates = "WebookExpiryDates"

abbrev pub bucket_output_stats : String
bucket_output_stats = "WebhookOutputStats"

abbrev pub bucket_shared_config : String
bucket_shared_config = "WebhookSharedConfig"

module _ (bolt : Bolt) where
  open bolt use {File, open_file, commit, has_bucket, get, create_bucket, put, delete}

  -- The end of `db.Update`: an error of the function or of the commit rolls everything back.
  abbrev finish : File → Result File → Outcome (Unit {0}) × File
  finish f (err e) = (failed e, f)
  finish f (ok f') = elim (commit f') [ none ↦ (done tt, f') | some e ↦ (failed e, f) ]

  abbrev pub update : (File → Result File) → Action File (Unit {0})
  update fn f = finish f (fn f)

  unfoldable pub open_db : Action File (Unit {0})
  open_db f = elim (open_file f) [ none ↦ (done tt, f) | some e ↦ (failed e, f) ]

  unfoldable pub init : String → Action File (Unit {0})
  init bucket = update (λ f. create_bucket f bucket)

  abbrev create_and_put : String → String → String → File → Result File
  create_and_put bucket key value f = elim (create_bucket f bucket) [
    | err e ↦ err e
    | ok f' ↦ put f' bucket key value
  ]

  unfoldable pub db_insert : String → String → String → Action File (Unit {0})
  db_insert bucket key value = update (create_and_put bucket key value)

  -- Without the bucket, `b.Get` is a call on a nil pointer.
  unfoldable pub db_select : String → String → Action File (Option String)
  db_select bucket key f =
      if has_bucket f bucket then (done (get f bucket key), f) else (panicked, f)

  unfoldable pub delete_keys : String → List String → File → Result File
  delete_keys bucket [] f = ok f
  delete_keys bucket (key ∷ keys) f = elim (delete f bucket key) [
    | err e ↦ err e
    | ok f' ↦ delete_keys bucket keys f'
  ]

  unfoldable pub db_delete : String → List String → Action File (Unit {0})
  unfolding delete_keys
  db_delete bucket keys =
      update (λ f. if has_bucket f bucket then delete_keys bucket keys f else ok f)

  -- Two files that hold the same values under the same keys.
  pub record SameValues (f f' : File) : Type 0 where
    pub at : (m j : String) → get f' m j ≡ get f m j

  pub SameValues-refl : (f : File) → SameValues f f
  SameValues-refl f = record { at = λ m j. refl }

  pub SameValues-trans : {f g h : File} → SameValues f g → SameValues g h → SameValues f h
  SameValues-trans a b = record { at = λ m j. b.at m j ∙ a.at m j }

  -- What a successful creation of a bucket, or write of a value, has done.
  pub record Created (bucket : String) (f f' : File) : Type 0 where
    pub same : SameValues f f'
    pub has : (m : String) → has_bucket f' m ≡ (bucket == m || has_bucket f m)

  pub record Written (bucket key value : String) (f f' : File) : Type 0 where
    pub at :
        (m j : String) → get f' m j ≡ (if bucket == m && key == j then some value else get f m j)
    pub has : (m : String) → has_bucket f' m ≡ (bucket == m || has_bucket f m)

  -- A call either does its work, or fails and leaves the file as it was.
  abbrev pub DoneOrFailed : (File → File → Type 0) → Action File (Unit {0}) → File → Type 0
  DoneOrFailed P m f =
      ((f' : File) × (m f ≡ (done tt, f')) × P f f') ⊎ ((e : Error) × (m f ≡ (failed e, f)))

  pub open_db_cases : (f : File) → DoneOrFailed (λ a b. a ≡ b) open_db f
  unfolding open_db
  open_db_cases f = elim (Option-cases (open_file f)) [
    | inl e ↦ inl (f, rw (e, open_db), refl)
    | inr (x, e) ↦ inr (x, rw (e, open_db))
  ]

module _ {bolt : Bolt} (laws : BoltLaws bolt) where
  open bolt use {File, commit, has_bucket, get, create_bucket, put}

  pub update_cases :
      (P : File → File → Type 0) (fn : File → Result File) (f : File)
      → ((f' : File) → fn f ≡ ok f' → P f f')
      → DoneOrFailed bolt P (update bolt fn) f
  update_cases P fn f h = elim (Result-cases (fn f)) [
    | inl (f', e) ↦ elim (Option-cases (commit f')) [
      | inl c ↦ inl (f', rw e (rw (c, finish)), h f' e)
      | inr (x, c) ↦ inr (x, rw e (rw (c, finish)))
    ]
    | inr (x, e) ↦ inr (x, rw e)
  ]

  pub init_cases :
      (bucket : String) (f : File) → DoneOrFailed bolt (Created bolt bucket) (init bolt bucket) f
  unfolding init
  init_cases bucket f =
      update_cases (Created bolt bucket) (λ g. create_bucket g bucket) f
        λ f' e. record {
          same = record { at = λ m j. laws.get-create f f' bucket m j e };
          has = λ m. laws.has-create f f' bucket m e;
        }

  create_and_put-Written :
      (bucket key value : String) (f f' : File)
      → create_and_put bolt bucket key value f ≡ ok f'
      → Written bolt bucket key value f f'
  create_and_put-Written bucket key value f f' e = elim (Result-cases (create_bucket f bucket)) [
    | inl (g, c) ↦
        let p : put g bucket key value ≡ ok f' = rw (← e) (rw (c, create_and_put)) in
        record {
          at = λ m j.
              laws.get-put g f' bucket key value m j p ∙ rw (laws.get-create f g bucket m j c);
          has = λ m. laws.has-put g f' bucket key value m p ∙ laws.has-create f g bucket m c;
        }
    | inr (x, c) ↦ absurd (ground (arith, c, e))
  ]

  pub db_insert_cases :
      (bucket key value : String) (f : File)
      → DoneOrFailed bolt (Written bolt bucket key value) (db_insert bolt bucket key value) f
  unfolding db_insert
  db_insert_cases bucket key value f =
      update_cases (Written bolt bucket key value) (create_and_put bolt bucket key value) f
        (create_and_put-Written bucket key value f)

  -- The rules of a block that opens the file, creates a bucket, or writes a value, and goes on:
  -- what is to hold of its end holds where the step fails, and after the step.
  module _ {A : Type 0} (Q : Outcome A × File → Type 0) where
    pub open_then :
        (k : Action File A) (f : File)
        → ((e : Error) → Q (failed e, f))
        → Q (k f)
        → Q ((open_db bolt >> k) f)
    open_then k f h q = elim (open_db_cases bolt f) [
      | inl (f', e, same) ↦ rw (e, ← same) q
      | inr (x, e) ↦ rw e (h x)
    ]

    pub init_then :
        (bucket : String) (k : Action File A) (f : File)
        → ((e : Error) → Q (failed e, f))
        → ((g : File) → Created bolt bucket f g → Q (k g))
        → Q ((init bolt bucket >> k) f)
    init_then bucket k f h q = elim (init_cases bucket f) [
      | inl (g, e, c) ↦ rw e (q g c)
      | inr (x, e) ↦ rw e (h x)
    ]

    pub insert_then :
        (bucket key value : String) (k : Action File A) (f : File)
        → ((e : Error) → Q (failed e, f))
        → ((g : File) → Written bolt bucket key value f g → Q (k g))
        → Q ((db_insert bolt bucket key value >> k) f)
    insert_then bucket key value k f h q = elim (db_insert_cases bucket key value f) [
      | inl (g, e, w) ↦ rw e (q g w)
      | inr (x, e) ↦ rw e (h x)
    ]

    pub run_then :
        (P : File → File → Type 0) (m : Action File (Unit {0})) (k : Action File A) (f : File)
        → DoneOrFailed bolt P m f
        → ((e : Error) → Q (failed e, f))
        → ((g : File) → P f g → Q (k g))
        → Q ((m >> k) f)
    run_then P m k f c h q = elim c [ inl (g, e, p) ↦ rw e (q g p) | inr (x, e) ↦ rw e (h x) ]

    -- The bucket is there: the value is read, and nothing is written.
    pub select_then :
        (bucket key : String) (k : Option String → Action File A) (f : File)
        → has_bucket f bucket ≡ true
        → Q (k (get f bucket key) f)
        → Q ((db_select bolt bucket key >>= k) f)
    unfolding db_select
    select_then bucket key k f h q = rw (h, db_select) q
