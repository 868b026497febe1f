-- ===== src/Db/Memory.antt =====
-- A file that meets the laws of `BoltLaws`: the list of the writes made to it, the last one first.
-- No call fails but the write of an empty key.
use postee.Prelude.{
  String, Bool, true, false, none, some, List, [], ◌∷◌, ◌≡◌, refl, ◌==◌, ◌&&◌, ◌||◌, not, arith,
  eq_iff, ok, err, if◌then◌else◌, All,
}
use postee.Prelude.Text.{ltb_text, ltb_text_trans, ltb_text_connex}
use postee.Db.Bolt.{Bolt, BoltLaws, find, Ascending}

pub data Write : Type 0 where
  create drop : String → Write
  put : String → String → String → Write
  delete : String → String → Write

insert_entry : String → String → List (String × String) → List (String × String)
insert_entry k v [] = (k, v) ∷ []
insert_entry k v ((j, w) ∷ l) =
    let later = (j, w) ∷ insert_entry k v l in
    if k == j then (k, v) ∷ l else if ltb_text k j then (k, v) ∷ (j, w) ∷ l else later

remove_entry : String → List (String × String) → List (String × String)
remove_entry k [] = []
remove_entry k ((j, w) ∷ l) = let rest = remove_entry k l in if k == j then rest else (j, w) ∷ rest

unfoldable pub has_bucket_of : List Write → String → Bool
has_bucket_of [] n = false
has_bucket_of (create b ∷ f) n = b == n || has_bucket_of f n
has_bucket_of (drop b ∷ f) n = not (b == n) && has_bucket_of f n
has_bucket_of (_ ∷ f) n = has_bucket_of f n

unfoldable pub entries_of : List Write → String → List (String × String)
unfolding insert_entry remove_entry has_bucket_of
entries_of [] n = []
entries_of (create b ∷ f) n = entries_of f n
entries_of (drop b ∷ f) n = let rest = entries_of f n in if b == n then [] else rest
entries_of (put b k v ∷ f) n =
    let rest = entries_of f n in if b == n && has_bucket_of f n then insert_entry k v rest else rest
entries_of (delete b k ∷ f) n =
    let rest = entries_of f n in if b == n then remove_entry k rest else rest

find-insert_entry :
    (k j v : String) (l : List (String × String))
    → find j (insert_entry k v l) ≡ (if k == j then some v else find j l)
unfolding insert_entry
find-insert_entry k j v [] = refl
find-insert_entry k j v ((i, w) ∷ l) =
    ground (arith, eq_iff k j, eq_iff k i, eq_iff i j, find-insert_entry k j v l)

find-remove_entry :
    (k j : String) (l : List (String × String))
    → find j (remove_entry k l) ≡ (if k == j then none else find j l)
unfolding remove_entry
find-remove_entry k j [] = ground arith
find-remove_entry k j ((i, w) ∷ l) =
    ground (arith, eq_iff k j, eq_iff k i, eq_iff i j, find-remove_entry k j l)

abbrev AllAbove : String → List (String × String) → Type 0
AllAbove k l = All (λ e. ltb_text k e.0 ≡ true) l

AllAbove-insert_entry :
    (i k v : String) (l : List (String × String))
    → ltb_text i k ≡ true
    → AllAbove i l
    → AllAbove i (insert_entry k v l)
unfolding insert_entry
AllAbove-insert_entry i k v [] h a = (h, tt)
AllAbove-insert_entry i k v ((j, w) ∷ l) h (b, a) =
    ground (arith, AllAbove-insert_entry i k v l h a)

AllAbove-remove_entry :
    (i k : String) (l : List (String × String)) → AllAbove i l → AllAbove i (remove_entry k l)
unfolding remove_entry
AllAbove-remove_entry i k [] a = tt
AllAbove-remove_entry i k ((j, w) ∷ l) (b, a) = ground (arith, AllAbove-remove_entry i k l a)

AllAbove-trans :
    (i k : String) (l : List (String × String)) → ltb_text i k ≡ true → AllAbove k l → AllAbove i l
AllAbove-trans i k [] h a = tt
AllAbove-trans i k ((j, w) ∷ l) h (b, a) = (ltb_text_trans i k j h b, AllAbove-trans i k l h a)

Ascending-insert_entry :
    (k v : String) (l : List (String × String)) → Ascending l → Ascending (insert_entry k v l)
unfolding insert_entry
Ascending-insert_entry k v [] s = (tt, tt)
Ascending-insert_entry k v ((j, w) ∷ l) (a, s) = ground (
  arith,
  eq_iff k j,
  ltb_text_connex k j,
  Ascending-insert_entry k v l s,
  AllAbove-trans k j l,
  AllAbove-insert_entry j k v l,
)

Ascending-remove_entry :
    (k : String) (l : List (String × String)) → Ascending l → Ascending (remove_entry k l)
unfolding remove_entry
Ascending-remove_entry k [] s = tt
Ascending-remove_entry k ((j, w) ∷ l) (a, s) =
    ground (arith, Ascending-remove_entry k l s, AllAbove-remove_entry j k l a)

entries_of-Ascending : (f : List Write) (n : String) → Ascending (entries_of f n)
unfolding entries_of
entries_of-Ascending [] n = tt
entries_of-Ascending (create b ∷ f) n = entries_of-Ascending f n
entries_of-Ascending (drop b ∷ f) n = ground (arith, entries_of-Ascending f n)
entries_of-Ascending (put b k v ∷ f) n =
    let s = entries_of-Ascending f n in
    ground (arith, s, Ascending-insert_entry k v (entries_of f n) s)
entries_of-Ascending (delete b k ∷ f) n =
    let s = entries_of-Ascending f n in
    ground (arith, s, Ascending-remove_entry k (entries_of f n) s)

entries_of-no_bucket :
    (f : List Write) (n : String) → has_bucket_of f n ≡ false → entries_of f n ≡ []
unfolding entries_of
entries_of-no_bucket [] n h = refl
entries_of-no_bucket (create b ∷ f) n h = entries_of-no_bucket f n (ground arith)
entries_of-no_bucket (drop b ∷ f) n h = ground (arith, entries_of-no_bucket f n)
entries_of-no_bucket (put b k v ∷ f) n h = ground (arith, entries_of-no_bucket f n h)
entries_of-no_bucket (delete b k ∷ f) n h = rw (entries_of-no_bucket f n h) (ground arith)

abbrev pub memory : Bolt
memory = record {
  File = List Write;
  open_file = λ f. none;
  commit = λ f. none;
  has_bucket = has_bucket_of;
  get = λ f n k. find k (entries_of f n);
  entries = entries_of;
  create_bucket = λ f n. ok (create n ∷ f);
  put = λ f n k v.
      if k == ""
      then err "key required"
      else if has_bucket_of f n
      then ok (put n k v ∷ f)
      else err "bucket not found";
  delete = λ f n k. ok (delete n k ∷ f);
  delete_bucket = λ f n. ok (drop n ∷ f);
}

pub memory-BoltLaws : BoltLaws memory
unfolding has_bucket_of entries_of
memory-BoltLaws = record {
  has-create = λ f f' n m e. ground arith;
  get-create = λ f f' n m k e. ground arith;
  has-put = λ f f' n k v m e. ground arith;
  get-put =
      λ f f' n k v m j e. ground (arith, find-insert_entry k j v (entries_of f m), eq_iff n m);
  put-key_required = λ f n v. ("key required", refl);
  has-delete = λ f f' n k m e. ground arith;
  get-delete = λ f f' n k m j e. ground (arith, find-remove_entry k j (entries_of f m));
  has-delete_bucket = λ f f' n m e. ground arith;
  get-delete_bucket = λ f f' n m k e. ground arith;
  get-no_bucket = λ f n k h. rw (entries_of-no_bucket f n h);
  get-entries = λ f n k. refl;
  entries-Ascending = λ f n. entries_of-Ascending f n;
}
