-- ===== src/Db/Messages/Once.antt =====
-- Sequences of calls of MayBeStoreMessage: each call runs under the package's mutex, so that an
-- interleaving of goroutines is a sequence of calls.
use postee.Prelude.{
  ℕ, ◌+◌, ◌≤◌, String, Bool, true, false, Option, List, [], ◌∷◌, ◌≡◌, ◌==◌, ◌&&◌, ◌||◌, not, refl,
  arith, eq_iff, eq_refl, Outcome, done, if◌then◌else◌, is_some, any,
}
use postee.Prelude.Int.{ℤ}
use postee.Db.Bolt.{Bolt, BoltLaws}
use postee.Db.Access.{bucket_name}
use postee.Db.Messages.{may_be_store_message}
use postee.Db.Messages.Behaviour.{Ends, broken, known, stored, half, may_be_store_message-Ends}

pub record Call : Type 0 where
  pub message : String
  pub key : String
  pub expired : Option ℤ

abbrev pub is_stored : Outcome Bool → Bool
is_stored (done b) = b
is_stored _ = false

abbrev pub is_failure : Outcome Bool → Bool
is_failure (done b) = false
is_failure _ = true

abbrev pub is_known : (bolt : Bolt) → bolt.File → String → Bool
is_known bolt f key = is_some (bolt.get f bucket_name key)

module _ (bolt : Bolt) (date_fmt : ℤ → String) where
  open bolt use {File}

  abbrev pub run_call : Call → File → Outcome Bool × File
  run_call c f = may_be_store_message bolt date_fmt c.message c.key c.expired f

  -- How many calls of the sequence stored a message under the key.
  abbrev pub stored_under : String → List Call → File → ℕ
  stored_under key [] f = 0
  stored_under key (c ∷ calls) f =
      (if c.key == key && is_stored (run_call c f).0 then 1 else 0)
      + stored_under key calls (run_call c f).1

  abbrev pub NoneFails : List Call → File → Type 0
  NoneFails [] f = Unit
  NoneFails (c ∷ calls) f = (is_failure (run_call c f).0 ≡ false) × NoneFails calls (run_call c f).1

module _ {bolt : Bolt} (laws : BoltLaws bolt) (date_fmt : ℤ → String) where
  open bolt use {File}

  -- What one call does to the keys that are known.
  record Stepped (c : Call) (f f' : File) (o : Outcome Bool) : Type 0 where
    stores : is_failure o ≡ false → is_stored o ≡ not (is_known bolt f c.key)
    knows :
        (k : String) → is_failure o ≡ false → is_known bolt f' k ≡ (c.key == k || is_known bolt f k)
    keeps : (k : String) → is_known bolt f k ≡ true → is_known bolt f' k ≡ true
    new : is_stored o ≡ true → (is_known bolt f c.key ≡ false) × (is_known bolt f' c.key ≡ true)

  Stepped-Ends :
      (c : Call) (f f' : File) (o : Outcome Bool)
      → Ends bolt date_fmt c.message c.key c.expired f f' o
      → Stepped c f f' o
  Stepped-Ends c f f' o (broken e s) = record {
    stores = λ h. cc;
    knows = λ k h. cc;
    keeps = λ k. ground (arith, s.at bucket_name k);
    new = λ h. cc;
  }
  Stepped-Ends c f f' o (known old h s) = record {
    stores = ground (arith, h);
    knows = λ k. ground (arith, s.at bucket_name k, eq_iff c.key k);
    keeps = λ k. ground (arith, s.at bucket_name k);
    new = λ h. cc;
  }
  Stepped-Ends c f f' o (stored h w) = record {
    stores = ground (arith, h);
    knows = λ k. ground (arith, w bucket_name k, eq_iff c.key k);
    keeps = λ k. ground (arith, w bucket_name k);
    new = ground (arith, h, w bucket_name c.key, eq_refl c.key);
  }
  Stepped-Ends c f f' o (half e h w) = record {
    stores = λ h. cc;
    knows = λ k h. cc;
    keeps = λ k. ground (arith, w bucket_name k);
    new = λ h. cc;
  }

  step :
      (c : Call) (f : File)
      → Stepped c f (run_call bolt date_fmt c f).1 (run_call bolt date_fmt c f).0
  step c f =
      Stepped-Ends c f (run_call bolt date_fmt c f).1 (run_call bolt date_fmt c f).0
        (may_be_store_message-Ends laws date_fmt c.message c.key c.expired f)

  -- A key that the file knows is not stored again, whatever calls follow and whether they fail.
  pub stored_under_known :
      (key : String) (calls : List Call) (f : File)
      → is_known bolt f key ≡ true
      → stored_under bolt date_fmt key calls f ≡ 0
  stored_under_known key [] f h = refl
  stored_under_known key (c ∷ calls) f h =
      let s = step c f in
      ground (
        arith,
        s.keeps key,
        s.new,
        eq_iff c.key key,
        stored_under_known key calls (run_call bolt date_fmt c f).1 (s.keeps key h),
      )

  -- Of any sequence of calls, at most one stores a message under a given key.
  pub stored_under-le-one :
      (key : String) (calls : List Call) (f : File) → stored_under bolt date_fmt key calls f ≤ 1
  stored_under-le-one key [] f = omega arith
  stored_under-le-one key (c ∷ calls) f =
      let s = step c f in
      let g = (run_call bolt date_fmt c f).1 in
      ground (
        arith,
        s.new,
        eq_iff c.key key,
        stored_under_known key calls g,
        stored_under-le-one key calls g,
      )

  -- Where no call fails, exactly one stores a message under a key that some call has, and none
  -- does so if the file knew the key before.
  pub stored_under_lem :
      (key : String) (calls : List Call) (f : File)
      → NoneFails bolt date_fmt calls f
      → stored_under bolt date_fmt key calls f
        ≡ (if any (λ c. c.key == key) calls && not (is_known bolt f key) then 1 else 0)
  stored_under_lem key [] f h = refl
  stored_under_lem key (c ∷ calls) f (h, rest) =
      let s = step c f in
      ground (
        arith,
        s.stores h,
        s.knows key h,
        eq_iff c.key key,
        stored_under_lem key calls (run_call bolt date_fmt c f).1 rest,
      )
