-- ===== src/Db/Bolt.antt =====
-- go.etcd.io/bbolt, which is not part of the repository: what dbservice calls of it, as a parameter.
use postee.Prelude.{
  String, Bool, Option, none, some, List, [], ◌∷◌, ◌≡◌, ◌==◌, ◌&&◌, ◌||◌, not, Error, Result, ok,
  err, if◌then◌else◌, true, false, All,
}
use postee.Prelude.Text.{ltb_text}

-- A key-value file. `File` stands for the file with all that decides whether a call fails.
pub record Bolt : Type 1 where
  pub File : Type 0
  -- bolt.Open
  pub open_file : File → Option Error
  -- Whether the transaction that leads to this file fails at its end.
  pub commit : File → Option Error
  -- tx.Bucket(name) != nil
  pub has_bucket : File → String → Bool
  -- Bucket.Get, by bucket and key; `none` also where there is no such bucket.
  pub get : File → String → String → Option String
  -- What a cursor goes through.
  pub entries : File → String → List (String × String)
  -- tx.CreateBucketIfNotExists
  pub create_bucket : File → String → Result File
  -- Bucket.Put, Bucket.Delete
  pub put : File → String → String → String → Result File
  pub delete : File → String → String → Result File
  -- tx.DeleteBucket
  pub delete_bucket : File → String → Result File

-- The value of a key in a list of entries.
abbrev pub find : String → List (String × String) → Option String
find k [] = none
find k ((j, v) ∷ l) = if j == k then some v else find k l

-- The order in which a cursor goes: by the bytes of the keys, each key once.
abbrev pub Ascending : List (String × String) → Type 0
Ascending [] = Unit
Ascending ((k, v) ∷ l) = All (λ e. ltb_text k e.0 ≡ true) l × Ascending l

module _ (bolt : Bolt) where
  open bolt use {File, has_bucket, get, entries, create_bucket, put, delete, delete_bucket}

  -- The documented effects of the calls that succeed, and the key that Put refuses.
  pub record BoltLaws : Type 0 where
    pub has-create :
        (f f' : File) (n m : String)
        → create_bucket f n ≡ ok f'
        → has_bucket f' m ≡ (n == m || has_bucket f m)
    pub get-create :
        (f f' : File) (n m k : String) → create_bucket f n ≡ ok f' → get f' m k ≡ get f m k
    pub has-put :
        (f f' : File) (n k v m : String) → put f n k v ≡ ok f' → has_bucket f' m ≡ has_bucket f m
    pub get-put :
        (f f' : File) (n k v m j : String)
        → put f n k v ≡ ok f'
        → get f' m j ≡ (if n == m && k == j then some v else get f m j)
    pub put-key_required : (f : File) (n v : String) → (e : Error) × (put f n "" v ≡ err e)
    pub has-delete :
        (f f' : File) (n k m : String) → delete f n k ≡ ok f' → has_bucket f' m ≡ has_bucket f m
    pub get-delete :
        (f f' : File) (n k m j : String)
        → delete f n k ≡ ok f'
        → get f' m j ≡ (if n == m && k == j then none else get f m j)
    pub has-delete_bucket :
        (f f' : File) (n m : String)
        → delete_bucket f n ≡ ok f'
        → has_bucket f' m ≡ (not (n == m) && has_bucket f m)
    pub get-delete_bucket :
        (f f' : File) (n m k : String)
        → delete_bucket f n ≡ ok f'
        → get f' m k ≡ (if n == m then none else get f m k)
    pub get-no_bucket : (f : File) (n k : String) → has_bucket f n ≡ false → get f n k ≡ none
    pub get-entries : (f : File) (n k : String) → get f n k ≡ find k (entries f n)
    pub entries-Ascending : (f : File) (n : String) → Ascending (entries f n)
