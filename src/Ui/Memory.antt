-- ===== src/Ui/Memory.antt =====
-- A disk and a cookie store that meet their laws: the disk is a function from paths to texts, on which
-- nothing fails but the renaming of a missing file; a cookie is the session itself.
use postee.Prelude.{
  ℕ, ◌+◌, leb, arith, subst, ◌≢◌, String, Option, none, some, Result, ok, err, ◌==◌, if◌then◌else◌,
  ◌≡◌, refl, ap, sym,
}
use postee.Ui.World.{Session, Cookies, CookiesLaws, Disk, DiskLaws}

abbrev pub Texts : Type 0
Texts = String → Option String

abbrev text_or_error : Option String → Result String
text_or_error none = err "no such file"
text_or_error (some text) = ok text

abbrev pub holding : String → Option String → Texts → Texts
holding path text files asked = if asked == path then text else files asked

abbrev renamed : Texts → (old new : String) → Option String → Result Texts
renamed files old new none = err "no such file"
renamed files old new (some text) = ok (holding new (some text) (holding old none files))

abbrev pub memory_disk : Disk
memory_disk = record {
  Files = Texts;
  read_file = λ files path. text_or_error (files path);
  rename = λ files old new. renamed files old new (files old);
  create_file = λ files path. ok (holding path (some "") files);
  write = λ files path text. (none, holding path (some text) files);
  remove_all = λ files path. (none, holding path none files);
}

abbrev pub cfg_path : String
cfg_path = "/cfg.yaml"

abbrev pub cfg_copy : String
cfg_copy = "/cfg.yaml.copy"

read-renamed :
    (files after : Texts) (o : Option String)
    → files cfg_path ≡ o
    → renamed files cfg_path cfg_copy o ≡ ok after
    → text_or_error (after cfg_copy) ≡ text_or_error o
read-renamed files after none found e = absurd (cc)
read-renamed files after (some text) found e =
    let same : holding cfg_copy (some text) (holding cfg_path none files) ≡ after = cc in
    ap (λ f. text_or_error (f cfg_copy)) (sym same)

created :
    (files after : Texts)
    → ok (holding cfg_path (some "") files) ≡ ok after
    → holding cfg_path (some "") files ≡ after
created files after e = cc

pub memory_disk-DiskLaws : DiskLaws memory_disk cfg_path cfg_copy
memory_disk-DiskLaws = record {
  read-rename = λ files after e. read-renamed files after (files cfg_path) refl e;
  read-create = λ files after e. ap (λ f. text_or_error (f cfg_path)) (sym (created files after e));
  copy-create = λ files after e. ap (λ f. text_or_error (f cfg_copy)) (sym (created files after e));
  read-write = λ files text e f. refl;
  copy-write = λ files text. refl;
  read-remove = λ files. refl;
}

-- A cookie is the session, and when it was saved; it is read for a day.
abbrev pub memory_cookies : Cookies
memory_cookies = record {
  Cookie = Session × ℕ;
  oldest = 86400;
  get = λ now (session, t). (session, if leb now (t + 86400) then none else some "expired");
  create = λ now (session, t). (session, none);
  save = λ now session. ok (session, now);
}

saved_at :
    (t : ℕ) (s : Session) (c : Session × ℕ)
    → ◌≡◌ {A = Result (Session × ℕ)} (ok (s, t)) (ok c)
    → (s, t) ≡ c
saved_at t s c e = cc

pub memory_cookies-CookiesLaws : CookiesLaws memory_cookies
memory_cookies-CookiesLaws = record {
  get-save-error = λ t now s c e h.
      subst (λ (x : Session × ℕ). (memory_cookies.get now x).1 ≡ none) (saved_at t s c e)
        (ground (arith, h));
  get-save-user = λ t now s c e h. ap (λ (x : Session × ℕ). x.0.user) (sym (saved_at t s c e));
  get-save-old = λ t now s c e h.
      subst (λ (x : Session × ℕ). (memory_cookies.get now x).1 ≢ none) (saved_at t s c e)
        (λ k. ground (arith, k, h));
}
