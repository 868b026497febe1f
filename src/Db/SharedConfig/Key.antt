-- ===== src/Db/SharedConfig/Key.antt =====
-- The API key that is read is the one that was made last.
use Prim.Native.String.{count, ◌++◌}
use text.Mathlib.TextLemmas.{length-append, length-cons, length-nil}
use postee.Prelude.{
  ℕ, ◌*◌, ◌/◌, ◌%◌, none, List, [], ◌∷◌, ◌≡◌, ◌∙◌, refl, arith, inl, inr, Result, ok, Outcome, done,
  length,
}
use postee.Db.Bolt.{Bolt, BoltLaws}
use postee.Db.Access.{
  bucket_output_stats, bucket_shared_config, open_then, init_then, db_insert_cases,
}
use postee.Db.SharedConfig.{
  api_key_name, hex_digit, hex_encode, generate_api_key, ensure_api_key, get_api_key,
}

count-hex_digit : (n : ℕ) → count (hex_digit n) ≡ 1
count-hex_digit n = length-cons _ _ ∙ omega (arith, length-nil)

-- A key has two characters for each random byte.
pub count-hex_encode : (bytes : List ℕ) → count (hex_encode bytes) ≡ 2 * length bytes
unfolding hex_encode
count-hex_encode [] = length-nil
count-hex_encode (b ∷ bytes) =
    let rest = hex_digit (b % 16) ++ hex_encode bytes in
    length-append (hex_digit (b / 16)) rest
    ∙ omega (
      arith,
      count-hex_encode bytes,
      count-hex_digit (b / 16),
      count-hex_digit (b % 16),
      length-append (hex_digit (b % 16)) (hex_encode bytes),
    )

module _ {bolt : Bolt} (laws : BoltLaws bolt) (read_full : ℕ → Result (List ℕ)) where
  open bolt use {File, open_file}

  -- After a key was made from random bytes, a reader that can open the file gets the text of these
  -- bytes.
  pub get_api_key-ensure_api_key :
      (f : File) (bytes : List ℕ)
      → read_full 32 ≡ ok bytes
      → (ensure_api_key bolt read_full f).0 ≡ done tt
      → open_file (ensure_api_key bolt read_full f).1 ≡ none
      → get_api_key bolt (ensure_api_key bolt read_full f).1 ≡ ok (hex_encode bytes)
  unfolding ensure_api_key generate_api_key get_api_key
  get_api_key-ensure_api_key f bytes r =
      let Q = λ (e : Outcome (Unit {0}) × File).
        e.0 ≡ done tt → open_file e.1 ≡ none → get_api_key bolt e.1 ≡ ok (hex_encode bytes) in
      open_then laws Q _ f (λ e h. absurd (cc))
        (init_then laws Q bucket_output_stats _ f (λ e h. absurd (cc))
          λ g c.
            rw (r, generate_api_key)
              (elim (db_insert_cases laws bucket_shared_config api_key_name (hex_encode bytes) g) [
                | inl (f', e, w) ↦ rw e (λ h opened.
                    rw (opened, get_api_key)
                      (rw (w.has bucket_shared_config, w.at bucket_shared_config api_key_name)
                        refl))
                | inr (x, e) ↦ rw e (λ h. absurd (cc))
              ]))
