-- ===== src/Db/Messages/Behaviour.antt =====
-- What MayBeStoreMessage does on every branch, in terms of the values in the file.
use postee.Prelude.{
  String, Bool, true, false, Option, none, some, ◌≡◌, ◌==◌, ◌&&◌, ◌∙◌, sym, refl, arith, eq_iff,
  Error, Outcome, done, failed, if◌then◌else◌,
}
use postee.Prelude.Int.{ℤ}
use postee.Db.Bolt.{Bolt, BoltLaws}
use postee.Db.Access.{
  bucket_name, bucket_expiry_dates, SameValues, SameValues-refl, SameValues-trans, open_then,
  init_then, insert_then, select_then,
}
use postee.Db.Messages.{store_expiry, store_new, store_unless, may_be_store_message}

module _ (bolt : Bolt) (date_fmt : ℤ → String) where
  open bolt use {File, get}

  -- The values after the message and the expiry date, if there is one, were written.
  abbrev expiry_or : Option ℤ → String → String → Option String → Option String
  expiry_or none key j old = old
  expiry_or (some t) key j old = if date_fmt t == j then some key else old

  abbrev pub stored_value : String → String → Option ℤ → File → String → String → Option String
  stored_value message key expired f m j =
      if bucket_expiry_dates == m
      then expiry_or expired key j (get f m j)
      else if bucket_name == m && key == j
      then some message
      else get f m j

  -- How a call may end, and the file that it leaves.
  pub data Ends (message key : String) (expired : Option ℤ) (f : File) (f' : File)
      : Outcome Bool → Type 0 where
    -- Nothing was written.
    broken : (e : Error) → SameValues bolt f f' → Ends message key expired f f' (failed e)
    -- The key is known: the file keeps its values.
    known :
        (old : String)
        → get f bucket_name key ≡ some old
        → SameValues bolt f f'
        → Ends message key expired f f' (done false)
    -- The key is new, and the message is stored with its expiry date.
    stored :
        get f bucket_name key ≡ none
        → ((m j : String) → get f' m j ≡ stored_value message key expired f m j)
        → Ends message key expired f f' (done true)
    -- The message was stored, and the write of its expiry date failed.
    half :
        (e : Error)
        → get f bucket_name key ≡ none
        → ((m j : String) → get f' m j ≡ stored_value message key none f m j)
        → Ends message key expired f f' (failed e)

module _ {bolt : Bolt} (laws : BoltLaws bolt) (date_fmt : ℤ → String) where
  open bolt use {File, get, has_bucket}

  distinct_buckets : (m : String) → (bucket_expiry_dates == m && bucket_name == m) ≡ false
  distinct_buckets m = ground (
    arith,
    eq_iff bucket_expiry_dates m,
    eq_iff bucket_name m,
    eq_iff bucket_expiry_dates bucket_name,
  )

  abbrev EndsAs : String → String → Option ℤ → File → Outcome Bool × File → Type 0
  EndsAs message key expired f r = Ends bolt date_fmt message key expired f r.1 r.0

  store_new_lem :
      (message key : String) (expired : Option ℤ) (f : File)
      → get f bucket_name key ≡ none
      → EndsAs message key expired f (store_new bolt date_fmt message key expired f)
  unfolding store_new store_expiry
  store_new_lem message key none f new =
      insert_then laws (EndsAs message key none f) bucket_name key message _ f
        (λ e. broken e (SameValues-refl bolt f))
        λ g w. stored new (λ m j. ground (arith, w.at m j, distinct_buckets m))
  store_new_lem message key (some t) f new =
      insert_then laws (EndsAs message key (some t) f) bucket_name key message _ f
        (λ e. broken e (SameValues-refl bolt f))
        λ g w.
          insert_then laws (EndsAs message key (some t) f) bucket_expiry_dates (date_fmt t) key _ g
            (λ e. half e new (λ m j. ground (arith, w.at m j, distinct_buckets m)))
            λ h v. stored new (λ m j. ground (arith, w.at m j, v.at m j, distinct_buckets m))

  store_unless_lem :
      (message key : String) (expired : Option ℤ) (f : File) (current : Option String)
      → get f bucket_name key ≡ current
      → EndsAs message key expired f (store_unless bolt date_fmt message key expired current f)
  unfolding store_unless
  store_unless_lem message key expired f none e = store_new_lem message key expired f e
  store_unless_lem message key expired f (some old) e = known old e (SameValues-refl bolt f)

  -- The end is the same as seen from a file with the same values.
  Ends-SameValues :
      {message key : String} {expired : Option ℤ} {f g f' : File} {o : Outcome Bool}
      → SameValues bolt f g
      → Ends bolt date_fmt message key expired g f' o
      → Ends bolt date_fmt message key expired f f' o
  Ends-SameValues s (broken e t) = broken e (SameValues-trans bolt s t)
  Ends-SameValues {key} s (known old e t) =
      known old (sym (s.at bucket_name key) ∙ e) (SameValues-trans bolt s t)
  Ends-SameValues {key} s (stored e h) =
      stored (sym (s.at bucket_name key) ∙ e) (λ m j. rw (s.at m j) at (h m j))
  Ends-SameValues {key} s (half x e h) =
      half x (sym (s.at bucket_name key) ∙ e) (λ m j. rw (s.at m j) at (h m j))

  -- Whatever the file and the message, the call ends in one of the four ways of `Ends`: it returns
  -- or fails, and never panics.
  pub may_be_store_message-Ends :
      (message key : String) (expired : Option ℤ) (f : File)
      → Ends bolt date_fmt message key expired f
          (may_be_store_message bolt date_fmt message key expired f).1
          (may_be_store_message bolt date_fmt message key expired f).0
  unfolding may_be_store_message
  may_be_store_message-Ends message key expired f =
      let Q = EndsAs message key expired f in
      open_then laws Q _ f (λ e. broken e (SameValues-refl bolt f))
        (init_then laws Q bucket_name _ f (λ e. broken e (SameValues-refl bolt f))
          λ g c.
            init_then laws Q bucket_expiry_dates _ g (λ e. broken e c.same)
              λ h d.
                select_then laws Q bucket_name key _ h
                  (ground (arith, c.has bucket_name, d.has bucket_name))
                  (Ends-SameValues (SameValues-trans bolt c.same d.same)
                    (store_unless_lem message key expired h (get h bucket_name key) refl)))
