-- ===== src/Db/Stats/Count.antt =====
-- The stored text of an output counts its messages.
use postee.Prelude.{
  ℕ, zero, suc, ◌+◌, ◌≤◌, String, none, some, ◌≡◌, ◌==◌, ◌&&◌, ◌∙◌, ap, arith, inl, inr, eq_refl,
  Outcome, done, failed, Error, if◌then◌else◌,
}
use native.Mathlib.Numerals.{add-one}
use postee.Prelude.Int.{pos, int_max, add_int}
use postee.Prelude.Text.{itoa, itoa_nat, atoi-itoa_nat}
use postee.Db.Bolt.{Bolt, BoltLaws}
use postee.Db.Access.{
  bucket_output_stats, SameValues, SameValues-refl, open_then, init_then, update_cases,
}
use postee.Db.Stats.{stored_count, count_up, register_plgn_invctn}

add_int_small : (n : ℕ) → suc n ≤ int_max → add_int (pos n) 1 ≡ pos (suc n)
unfolding add_int
add_int_small n h = ground arith

module _ {bolt : Bolt} (laws : BoltLaws bolt) where
  open bolt use {File, get, put}

  -- How a registration may end.
  pub data Registers (name : String) (f f' : File) : Outcome (Unit {0}) → Type 0 where
    broken : (e : Error) → SameValues bolt f f' → Registers name f f' (failed e)
    counted :
        ((m j : String)
          → get f' m j ≡ (
              if bucket_output_stats == m && name == j
              then some (itoa (add_int (stored_count (get f bucket_output_stats name)) 1))
              else get f m j))
        → Registers name f f' (done tt)

  -- A registration adds one to the count of the output, or fails and changes no value.
  pub register_plgn_invctn-Registers :
      (name : String) (f : File)
      → Registers name f (register_plgn_invctn bolt name f).1 (register_plgn_invctn bolt name f).0
  unfolding register_plgn_invctn
  register_plgn_invctn-Registers name f =
      let Q = λ (r : Outcome (Unit {0}) × File). Registers name f r.1 r.0 in
      open_then laws Q _ f (λ e. broken e (SameValues-refl bolt f))
        (init_then laws Q bucket_output_stats _ f (λ e. broken e (SameValues-refl bolt f))
          λ g c.
            elim (update_cases laws
              (λ a b.
                (m j : String)
                → get b m j ≡ (
                    if bucket_output_stats == m && name == j
                    then some (itoa (add_int (stored_count (get a bucket_output_stats name)) 1))
                    else get a m j))
              (count_up bolt name) g
              (λ b e m j. laws.get-put g b bucket_output_stats name _ m j e)) [
                | inl (b, e, w) ↦
                    rw e (
                      counted λ m j. w m j ∙ rw (c.same.at bucket_output_stats name, c.same.at m j))
                | inr (x, e) ↦ rw e (broken x c.same)
              ])

  -- The file after a number of registrations, and that all of them succeeded.
  abbrev pub register_times : String → ℕ → File → File
  register_times name zero f = f
  register_times name (suc n) f = register_times name n (register_plgn_invctn bolt name f).1

  abbrev pub AllRegister : String → ℕ → File → Type 0
  AllRegister name zero f = Unit
  AllRegister name (suc n) f =
      ((register_plgn_invctn bolt name f).0 ≡ done tt)
      × AllRegister name n (register_plgn_invctn bolt name f).1

  abbrev Counts : String → File → ℕ → Type 0
  Counts name f k = stored_count (get f bucket_output_stats name) ≡ pos k

  one_more :
      (name : String) (k : ℕ) (f f' : File) (o : Outcome (Unit {0}))
      → suc k ≤ int_max
      → Counts name f k
      → o ≡ done tt
      → Registers name f f' o
      → (get f' bucket_output_stats name ≡ some (itoa_nat (suc k))) × Counts name f' (suc k)
  unfolding stored_count itoa
  one_more name k f f' o h c e (broken x s) = absurd (cc)
  one_more name k f f' o h c e (counted w) =
      let stored : get f' bucket_output_stats name ≡ some (itoa_nat (suc k)) =
        w bucket_output_stats name ∙ rw (eq_refl name, c, add_int_small k h) in
      (stored, rw stored (ap (λ r. r.0) (atoi-itoa_nat (suc k) h)))

  register_times_from :
      (name : String) (n k : ℕ) (f : File)
      → k + suc n ≤ int_max
      → Counts name f k
      → AllRegister name (suc n) f
      → get (register_times name (suc n) f) bucket_output_stats name ≡ some (itoa_nat (k + suc n))
  register_times_from name zero k f h c (e, rest) =
      let m : suc k ≤ int_max = omega arith in
      rw add-one (one_more name k f _ _ m c e (register_plgn_invctn-Registers name f)).0
  register_times_from name (suc n) k f h c (e, rest) =
      let m : suc k ≤ int_max = omega arith in
      let r : suc k + suc n ≤ int_max = omega arith in
      let same : k + suc (suc n) ≡ suc k + suc n = omega arith in
      rw same (
        register_times_from name n (suc k) (register_plgn_invctn bolt name f).1 r
          (one_more name k f _ _ m c e (register_plgn_invctn-Registers name f)).1 rest)

  -- After n successful registrations, n at least 1 and within an int, of an output that had none,
  -- the stored text is the decimal of n.
  pub get-register_times :
      (name : String) (n : ℕ) (f : File)
      → suc n ≤ int_max
      → get f bucket_output_stats name ≡ none
      → AllRegister name (suc n) f
      → get (register_times name (suc n) f) bucket_output_stats name ≡ some (itoa_nat (suc n))
  unfolding stored_count
  get-register_times name n f h new all =
      let same : 0 + suc n ≡ suc n = omega arith in
      rw same at (register_times_from name n 0 f (omega arith) (rw new) all)
