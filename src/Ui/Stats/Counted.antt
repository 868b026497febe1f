-- ===== src/Ui/Stats/Counted.antt =====
-- GetPlgnStats of ui/backend after RegisterPlgnInvctn of dbservice.
use postee.Prelude.{
  ℕ, suc, ◌≤◌, String, true, Option, none, some, List, [], ◌∷◌, ok, Dict, lookup, insert,
  lookup-insert, ◌≡◌, ◌==◌, if◌then◌else◌, refl, ◌∙◌, ap, arith, eq_iff, Bool-cases, inl, inr, All,
}
use postee.Prelude.Int.{ℤ, pos, int_max}
use postee.Prelude.Text.{atoi, atoi-itoa_nat, ltb_text, ltb_text_irrefl}
use postee.Db.Bolt.{Bolt, BoltLaws, find, Ascending}
use postee.Db.Access.{bucket_output_stats}
use postee.Db.Stats.Count.{AllRegister, register_times, get-register_times}
use postee.Ui.Stats.{read_counts, get_plgn_stats, put_count}

-- Every stored text can be read as a number.
abbrev pub AllNumbers : List (String × String) → Type 0
AllNumbers entries = All (λ e. (atoi e.1).1 ≡ none) entries

-- The number of an entry that may be missing.
abbrev number_or : Option ℤ → Option String → Option ℤ
number_or before none = before
number_or before (some value) = some (atoi value).0

find-above :
    (key : String) (entries : List (String × String))
    → All (λ e. ltb_text key e.0 ≡ true) entries
    → find key entries ≡ none
find-above key [] h = refl
find-above key ((name, value) ∷ entries) (h, hs) =
    ground (arith, find-above key entries hs, h, ltb_text_irrefl key, eq_iff name key)

-- No later entry has the key of the first.
first_of :
    (name key value : String) (entries : List (String × String)) (before : Option ℤ)
    → All (λ e. ltb_text name e.0 ≡ true) entries
    → number_or (if name == key then some (atoi value).0 else before) (find key entries)
      ≡ number_or before (if name == key then some value else find key entries)
first_of name key value entries before h = elim (Bool-cases (name == key)) [
  | inr e ↦ rw e refl
  | inl e ↦
      let same : name ≡ key = ground (arith, e, eq_iff name key) in
      rw (e, rw same at (find-above name entries h)) refl
]

read_counts_lem :
    (entries : List (String × String)) (r : Dict ℤ)
    → Ascending entries
    → AllNumbers entries
    → (r' : Dict ℤ) × (read_counts entries r ≡ ok r')
      × ((key : String) → lookup key r' ≡ number_or (lookup key r) (find key entries))
unfolding read_counts
read_counts_lem [] r h n = (r, refl, λ key. refl)
read_counts_lem ((name, value) ∷ entries) r (h, hs) (n, ns) =
    let (r', e, at) = read_counts_lem entries (insert name (atoi value).0 r) hs ns in
    (
      r',
      rw (read_counts, n, put_count) e,
      λ key.
          at key
          ∙ ap (λ o. number_or o (find key entries)) (lookup-insert name key (atoi value).0 r)
          ∙ first_of name key value entries (lookup key r) h,
    )

module _ {bolt : Bolt} (laws : BoltLaws bolt) where
  open bolt use {File, open_file, has_bucket, get, entries}

  -- Where the file can be opened, the bucket is there and its texts are numbers, the statistics are read
  -- without an error, and show for each output the number whose text is stored under its name.
  pub get_plgn_stats-get :
      (bucket : String) (f : File)
      → open_file f ≡ none
      → has_bucket f bucket ≡ true
      → AllNumbers (entries f bucket)
      → (r : Dict ℤ) × (get_plgn_stats bolt bucket f ≡ ok r)
        × ((name : String) → lookup name r ≡ number_or none (get f bucket name))
  unfolding get_plgn_stats lookup
  get_plgn_stats-get bucket f opened there numbers =
      let (r, e, at) =
        read_counts_lem (entries f bucket) [] (laws.entries-Ascending f bucket) numbers in
      (
        r,
        rw (opened, get_plgn_stats, there) e,
        λ name. at name ∙ rw (laws.get-entries f bucket name) refl,
      )

  -- After n successful registrations of an output, n at least 1 and within an int, that had none, the
  -- statistics show n for it; the file can be opened, has the bucket, and its other counts are numbers.
  pub get_plgn_stats-register_times :
      (name : String) (n : ℕ) (f : File)
      → suc n ≤ int_max
      → get f bucket_output_stats name ≡ none
      → AllRegister laws name (suc n) f
      → open_file (register_times laws name (suc n) f) ≡ none
      → has_bucket (register_times laws name (suc n) f) bucket_output_stats ≡ true
      → AllNumbers (entries (register_times laws name (suc n) f) bucket_output_stats)
      → (r : Dict ℤ) × (get_plgn_stats bolt bucket_output_stats (register_times laws name (suc n) f)
          ≡ ok r)
        × (lookup name r ≡ some (pos (suc n)))
  get_plgn_stats-register_times name n f h new all opened there numbers =
      let (r, e, at) =
        get_plgn_stats-get bucket_output_stats (register_times laws name (suc n) f) opened there
          numbers in
      (
        r,
        e,
        at name
            ∙ ap (number_or none) (get-register_times laws name n f h new all)
            ∙ ap (λ a. some a.0) (atoi-itoa_nat (suc n) h),
      )
