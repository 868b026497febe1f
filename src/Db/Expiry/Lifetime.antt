-- ===== src/Db/Expiry/Lifetime.antt =====
-- How long a message is known: from its store to the first check after its date.
use postee.Prelude.{
  is_some, String, Bool, true, false, Option, some, List, [], ◌∷◌, ◌≡◌, ◌≢◌, ◌==◌, ◌∙◌, sym, ap,
  not, map, refl, arith, eq_iff, eq_refl, inl, inr, Outcome, done, All, keep, Bool-cases,
}
use postee.Prelude.Text.{ltb_text, ltb_text_irrefl}
use postee.Prelude.Int.{ℤ}
use postee.Db.Bolt.{Bolt, BoltLaws, find, Ascending}
use postee.Db.Access.{bucket_name, bucket_expiry_dates}
use postee.Db.Messages.{may_be_store_message}
use postee.Db.Messages.Once.{is_known}
use postee.Db.Messages.Behaviour.{
  Ends, stored_value, broken, known, stored, half, may_be_store_message-Ends,
}
use postee.Db.Expiry.{remove_expired}
use postee.Db.Expiry.Due
use postee.Db.Expiry.Due.{
  Purges, purged, left_value, overdue, is_among, has_passed, remove_expired-Purges,
}

find-behind :
    (k j : String) (v : String) (l : List (String × String))
    → All (λ e. ltb_text k e.0 ≡ true) l
    → find j l ≡ some v
    → (k == j) ≡ false
find-behind k j v [] a h = ground arith
find-behind k j v ((i, w) ∷ l) (b, a) h =
    ground (arith, eq_iff i j, eq_iff k j, ltb_text_irrefl k, find-behind k j v l a)

-- A key among those of the dates that have passed has such a date.
is_among-find :
    (m key : String) (l : List (String × String))
    → Ascending l
    → is_among key (map (λ e. e.1) (keep (has_passed m) l)) ≡ true
    → (j : String) × (find j l ≡ some key) × (ltb_text m j ≡ false)
is_among-find m key [] s h = absurd (cc)
is_among-find m key ((k, v) ∷ l) (a, s) h = elim (Bool-cases (ltb_text m k)) [
  | inl later ↦
      let (j, f, p) = is_among-find m key l s (rw later at h) in
      (j, rw (find-behind k j key l a f) f, p)
  | inr passed ↦ elim (Bool-cases (v == key)) [
    | inl e ↦ (k, rw (eq_refl k) (ap some ((eq_iff v key).0 e)), passed)
    | inr n ↦
        let (j, f, p) = is_among-find m key l s (rw (passed, n) at h) in
        (j, rw (find-behind k j key l a f) f, p)
  ]
]

find-is_among :
    (m key j : String) (l : List (String × String))
    → find j l ≡ some key
    → ltb_text m j ≡ false
    → is_among key (map (λ e. e.1) (keep (has_passed m) l)) ≡ true
find-is_among m key j [] h p = ground arith
find-is_among m key j ((k, v) ∷ l) h p = elim (Bool-cases (ltb_text m k)) [
  | inl later ↦ rw later (ground (arith, eq_iff k j, find-is_among m key j l))
  | inr passed ↦ rw passed (ground (arith, eq_iff k j, eq_iff v key, find-is_among m key j l))
]

module _ {bolt : Bolt} (laws : BoltLaws bolt) (date_fmt : ℤ → String) where
  open bolt use {File, has_bucket, get, entries}

  Ends-stored :
      {message key : String} {expired : Option ℤ} {f f' : File} {o : Outcome Bool}
      → Ends bolt date_fmt message key expired f f' o
      → o ≡ done true
      → (m j : String) → get f' m j ≡ stored_value bolt date_fmt message key expired f m j
  Ends-stored (broken e s) h = absurd (cc)
  Ends-stored (known old g s) h = absurd (cc)
  Ends-stored (stored g w) h = w
  Ends-stored (half e g w) h = absurd (cc)

  Purges-purged :
      {now : ℤ} {f f' : File} {o : Outcome (Unit {0})}
      → Purges laws date_fmt now f f' o
      → o ≡ done tt
      → (m j : String) → get f' m j ≡ left_value laws date_fmt now f m j
  Purges-purged (Due.broken e s) h = absurd (cc)
  Purges-purged (Due.half e a b) h = absurd (cc)
  Purges-purged (purged w) h = w

  module _ (message key : String) (t now : ℤ) (f g : File)
      (undated : (j : String) → get f bucket_expiry_dates j ≢ some key)
      (w : (m j : String) → get g m j ≡ stored_value bolt date_fmt message key (some t) f m j) where
    dated : get g bucket_expiry_dates (date_fmt t) ≡ some key
    dated = w bucket_expiry_dates (date_fmt t) ∙ rw (eq_refl (date_fmt t)) refl

    has_dates : has_bucket g bucket_expiry_dates ≡ true
    has_dates = elim (Bool-cases (has_bucket g bucket_expiry_dates)) [
      | inl e ↦ e
      | inr e ↦
          let n = laws.get-no_bucket g bucket_expiry_dates (date_fmt t) e in
          let d = dated in absurd (cc)
    ]

    only_date : (j : String) → get g bucket_expiry_dates j ≡ some key → date_fmt t ≡ j
    only_date j h = elim (Bool-cases (date_fmt t == j)) [
      | inl e ↦ (eq_iff (date_fmt t) j).0 e
      | inr e ↦ absurd (undated j (sym (w bucket_expiry_dates j ∙ rw e refl) ∙ h))
    ]

    is_among-overdue :
        is_among key (overdue laws date_fmt now g) ≡ not (ltb_text (date_fmt now) (date_fmt t))
    is_among-overdue = elim (Bool-cases (ltb_text (date_fmt now) (date_fmt t))) [
      | inl later ↦ elim (Bool-cases (is_among key (overdue laws date_fmt now g))) [
        | inl h ↦
            let (j, at, passed) =
              is_among-find (date_fmt now) key (entries g bucket_expiry_dates)
                (laws.entries-Ascending g bucket_expiry_dates) h in
            let same = only_date j (laws.get-entries g bucket_expiry_dates j ∙ at) in
            let clash : ltb_text (date_fmt now) (date_fmt t) ≡ false = rw same passed in absurd (cc)
        | inr h ↦ rw later h
      ]
      | inr passed ↦ rw passed (
          find-is_among (date_fmt now) key (date_fmt t) (entries g bucket_expiry_dates)
            (sym (laws.get-entries g bucket_expiry_dates (date_fmt t)) ∙ dated) passed)
    ]

  -- A message that was stored with a date is known after a later check for what has expired if and only
  -- if its date is after the time of the check, the dates compared as texts; where no call fails, and
  -- no date of the file named the message before.
  pub is_known-remove_expired :
      (message key : String) (t now : ℤ) (f : File)
      → ((j : String) → get f bucket_expiry_dates j ≢ some key)
      → (may_be_store_message bolt date_fmt message key (some t) f).0 ≡ done true
      → (remove_expired bolt date_fmt now
          (may_be_store_message bolt date_fmt message key (some t) f).1).0
        ≡ done tt
      → is_known bolt
          (remove_expired bolt date_fmt now
            (may_be_store_message bolt date_fmt message key (some t) f).1).1
          key
        ≡ ltb_text (date_fmt now) (date_fmt t)
  is_known-remove_expired message key t now f undated s p =
      let g = (may_be_store_message bolt date_fmt message key (some t) f).1 in
      let w = Ends-stored (may_be_store_message-Ends laws date_fmt message key (some t) f) s in
      let values =
        Purges-purged
          (remove_expired-Purges laws date_fmt now g (has_dates message key t now f g undated w))
          p in
      let there : get g bucket_name key ≡ some message =
        w bucket_name key ∙ rw (eq_refl key) refl in
      ap is_some (values bucket_name key)
      ∙ ground (arith, there, is_among-overdue message key t now f g undated w)
