-- ===== src/Db/Expiry/Due.antt =====
-- Which dates and messages CheckExpiredData drops.
use postee.Prelude.{
  String, Bool, true, false, Option, none, List, [], ◌∷◌, ◌≡◌, ◌==◌, ◌&&◌, ◌∙◌, sym, ap, not, map,
  refl, arith, eq_iff, inl, inr, ◌⊎◌, Error, ok, Outcome, done, failed, if◌then◌else◌, any, All,
  take_while, keep, Result-cases, Bool-cases,
}
use postee.Prelude.Text.{ltb_text, ltb_text_trans}
use postee.Prelude.Int.{ℤ}
use postee.Db.Bolt.{Bolt, BoltLaws, find, Ascending}
use postee.Db.Access.{
  SameValues, SameValues-refl, open_then, bucket_name, bucket_expiry_dates, delete_keys, db_delete,
  DoneOrFailed, update_cases,
}
use postee.Db.Expiry.{due, get_expired, remove_expired}

abbrev pub is_among : String → List String → Bool
is_among k ks = any (λ j. j == k) ks

find-above :
    (m d : String) (l : List (String × String))
    → All (λ e. ltb_text m e.0 ≡ true) l
    → ltb_text m d ≡ false
    → find d l ≡ none
find-above m d [] a h = refl
find-above m d ((k, v) ∷ l) (b, a) h = ground (arith, eq_iff k d, find-above m d l a h)

above_trans :
    (m k : String) (l : List (String × String))
    → ltb_text m k ≡ true
    → All (λ e. ltb_text k e.0 ≡ true) l
    → All (λ e. ltb_text m e.0 ≡ true) l
above_trans m k [] h a = tt
above_trans m k ((j, w) ∷ l) h (b, a) = (ltb_text_trans m k j h b, above_trans m k l h a)

abbrev pub has_passed : String → String × String → Bool
has_passed max e = not (ltb_text max e.0)

-- The cursor stops at the first date to come: what it has seen are all the dates that have passed.
keep-above :
    (m : String) (l : List (String × String))
    → All (λ e. ltb_text m e.0 ≡ true) l
    → keep (has_passed m) l ≡ []
keep-above m [] a = refl
keep-above m (e ∷ l) (b, a) = rw b (keep-above m l a)

take_while-Ascending :
    (max : String) (l : List (String × String))
    → Ascending l
    → take_while (has_passed max) l ≡ keep (has_passed max) l
take_while-Ascending max [] s = refl
take_while-Ascending max ((k, v) ∷ l) (a, s) = elim (Bool-cases (ltb_text max k)) [
  | inl later ↦ rw later (sym (keep-above max l (above_trans max k l later a)))
  | inr passed ↦ rw passed (ap (λ r. (k, v) ∷ r) (take_while-Ascending max l s))
]

not-among_later :
    (max d : String) (l : List (String × String))
    → ltb_text max d ≡ true
    → is_among d (map (λ e. e.0) (keep (has_passed max) l)) ≡ false
not-among_later max d [] h = refl
not-among_later max d ((k, v) ∷ l) h = elim (Bool-cases (ltb_text max k)) [
  | inl later ↦ rw later (not-among_later max d l h)
  | inr passed ↦ rw passed (ground (arith, eq_iff k d, passed, not-among_later max d l h))
]

is_among-has_passed :
    (max d : String) (l : List (String × String))
    → (if is_among d (map (λ e. e.0) (keep (has_passed max) l)) then none else find d l)
      ≡ (if ltb_text max d then find d l else none)
is_among-has_passed max d [] = ground arith
is_among-has_passed max d ((k, v) ∷ l) = elim (Bool-cases (ltb_text max k)) [
  | inl later ↦
      rw later
        (ground (arith, eq_iff k d, later, not-among_later max d l, is_among-has_passed max d l))
  | inr passed ↦ rw passed (ground (arith, eq_iff k d, passed, is_among-has_passed max d l))
]

module _ {bolt : Bolt} (laws : BoltLaws bolt) where
  open bolt use {File, has_bucket, get, entries, delete}

  -- What `dbDelete` has done where it succeeds: the keys are gone, all else is as before.
  pub record Removed (bucket : String) (keys : List String) (f f' : File) : Type 0 where
    pub at :
        (m j : String) → get f' m j ≡ (if bucket == m && is_among j keys then none else get f m j)

  delete_keys_lem :
      (bucket : String) (keys : List String) (f f' : File) (m j : String)
      → delete_keys bolt bucket keys f ≡ ok f'
      → get f' m j ≡ (if bucket == m && is_among j keys then none else get f m j)
  unfolding delete_keys
  delete_keys_lem bucket [] f f' m j e = ground arith
  delete_keys_lem bucket (key ∷ keys) f f' m j e = elim (Result-cases (delete f bucket key)) [
    | inl (g, d) ↦ ground (
      arith,
      d,
      laws.get-delete f g bucket key m j d,
      delete_keys_lem bucket keys g f' m j (rw (d, delete_keys) at e),
    )
    | inr (x, d) ↦ absurd (ground (arith, d))
  ]

  pub db_delete_cases :
      (bucket : String) (keys : List String) (f : File)
      → DoneOrFailed bolt (Removed bucket keys) (db_delete bolt bucket keys) f
  unfolding db_delete
  db_delete_cases bucket keys f =
      update_cases laws (Removed bucket keys)
        (λ g. if has_bucket g bucket then delete_keys bolt bucket keys g else ok g) f
        λ g e. record {
          at = λ m j. elim (Bool-cases (has_bucket f bucket)) [
            | inl h ↦ delete_keys_lem bucket keys f g m j (rw h at e)
            | inr h ↦ ground (arith, rw h at e, laws.get-no_bucket f bucket j h, eq_iff bucket m)
          ];
        }

module _ {bolt : Bolt} (laws : BoltLaws bolt) (date_fmt : ℤ → String) (now : ℤ) where
  open bolt use {File, has_bucket, get, entries}

  -- The keys of the messages whose date is not after the present one.
  abbrev pub overdue : File → List String
  overdue f = map (λ e. e.1) (keep (has_passed (date_fmt now)) (entries f bucket_expiry_dates))

  -- The values that are left after the expired ones are gone.
  abbrev pub left_value : File → String → String → Option String
  left_value f m j =
      if bucket_expiry_dates == m
      then (if ltb_text (date_fmt now) j then get f m j else none)
      else if bucket_name == m && is_among j (overdue f)
      then none
      else get f m j

  due_lem :
      (f : File)
      → has_bucket f bucket_expiry_dates ≡ true
      → due bolt date_fmt now f ≡ keep (has_passed (date_fmt now)) (entries f bucket_expiry_dates)
  unfolding due
  due_lem f h = rw h (
      take_while-Ascending (date_fmt now) (entries f bucket_expiry_dates)
        (laws.entries-Ascending f bucket_expiry_dates))

  pub data Purges (f f' : File) : Outcome (Unit {0}) → Type 0 where
    -- Nothing was dropped.
    broken : (e : Error) → SameValues bolt f f' → Purges f f' (failed e)
    -- The dates were dropped, and the messages were not.
    half :
        (e : Error)
        → ((j : String) → get f' bucket_name j ≡ get f bucket_name j)
        → ((j : String) → get f' bucket_expiry_dates j ≡ left_value f bucket_expiry_dates j)
        → Purges f f' (failed e)
    purged : ((m j : String) → get f' m j ≡ left_value f m j) → Purges f f' (done tt)

  abbrev passed_dates : File → List String
  passed_dates f = map (λ e. e.0) (keep (has_passed (date_fmt now)) (entries f bucket_expiry_dates))

  get_expired_cases :
      (f : File)
      → has_bucket f bucket_expiry_dates ≡ true
      → ((g : File) × (get_expired bolt date_fmt now f ≡ (done (overdue f), g))
          × Removed laws bucket_expiry_dates (passed_dates f) f g)
        ⊎ ((e : Error) × (get_expired bolt date_fmt now f ≡ (failed e, f)))
  unfolding get_expired
  get_expired_cases f h =
      rw (due_lem f h, get_expired)
        (elim (db_delete_cases laws bucket_expiry_dates (passed_dates f) f) [
          | inl (g, e, r) ↦ inl (g, rw e, r)
          | inr (x, e) ↦ inr (x, rw e)
        ])

  left_value_dates :
      (f g : File) (j : String)
      → Removed laws bucket_expiry_dates (passed_dates f) f g
      → get g bucket_expiry_dates j ≡ left_value f bucket_expiry_dates j
  left_value_dates f g j r = ground (
    arith,
    r.at bucket_expiry_dates j,
    laws.get-entries f bucket_expiry_dates j,
    is_among-has_passed (date_fmt now) j (entries f bucket_expiry_dates),
  )

  purged_values :
      (f g f' : File) (m j : String)
      → Removed laws bucket_expiry_dates (passed_dates f) f g
      → Removed laws bucket_name (overdue f) g f'
      → get f' m j ≡ left_value f m j
  purged_values f g f' m j r s = elim (Bool-cases (bucket_expiry_dates == m)) [
    | inl e ↦
        let same : bucket_expiry_dates ≡ m = (eq_iff bucket_expiry_dates m).0 e in
        rw (← same) (s.at bucket_expiry_dates j ∙ left_value_dates f g j r)
    | inr e ↦ rw e (ground (arith, e, s.at m j, r.at m j))
  ]

  -- With the bucket of dates there, `remove_expired` drops exactly the dates that are not after the
  -- present one, and exactly the messages that these dates name; or it fails.
  pub remove_expired-Purges :
      (f : File)
      → has_bucket f bucket_expiry_dates ≡ true
      → Purges f (remove_expired bolt date_fmt now f).1 (remove_expired bolt date_fmt now f).0
  unfolding remove_expired
  remove_expired-Purges f h =
      let Q = λ (r : Outcome (Unit {0}) × File). Purges f r.1 r.0 in
      open_then laws Q _ f (λ e. broken e (SameValues-refl bolt f))
        (elim (get_expired_cases f h) [
          | inl (g, e, r) ↦ rw e (elim (db_delete_cases laws bucket_name (overdue f) g) [
            | inl (f', d, s) ↦ rw d (purged (λ m j. purged_values f g f' m j r s))
            | inr (x, d) ↦ rw d (half x (λ j. r.at bucket_name j) (λ j. left_value_dates f g j r))
          ])
          | inr (x, e) ↦ rw e (broken x (SameValues-refl bolt f))
        ])
