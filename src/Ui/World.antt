-- ===== src/Ui/World.antt =====
-- What the handlers of ui/backend/uiserver read, answer and change: requests, answers, sessions kept in
-- cookies (gorilla/sessions), and the files of package os.
use Prim.Native.String.{◌++◌}
use postee.Prelude.{
  ℕ, ◌+◌, ◌≤◌, ◌<◌, String, Option, none, List, [], ◌∷◌, Result, ok, Error, ◌≡◌, ◌≢◌,
}
use postee.Prelude.Int.{ℤ}

-- A session: `Values["user"]`, and `Options.MaxAge`.
pub record Session : Type 0 where
  pub user : Option String
  pub max_age : ℤ

-- `sessions.CookieStore` at a time in seconds. `Cookie` is what a request says in the session's cookie;
-- `oldest` is the age up to which gorilla/securecookie reads a cookie; the server sets one.
pub record Cookies : Type 1 where
  pub Cookie : Type 0
  pub oldest : ℕ
  -- store.Get: a session also beside an error.
  pub get : (now : ℕ) → Cookie → Session × Option Error
  -- store.New
  pub create : (now : ℕ) → Cookie → Session × Option Error
  -- session.Save: the cookie of the answer.
  pub save : (now : ℕ) → Session → Result Cookie

-- A cookie that was saved is read with the values of its session until it is too old, and with an error
-- from then on.
module _ (cookies : Cookies) where
  open cookies use {Cookie, oldest, get, save}

  pub record CookiesLaws : Type 0 where
    pub get-save-error :
        (t now : ℕ) (s : Session) (c : Cookie)
        → save t s ≡ ok c
        → now ≤ t + oldest
        → (get now c).1 ≡ none
    pub get-save-user :
        (t now : ℕ) (s : Session) (c : Cookie)
        → save t s ≡ ok c
        → now ≤ t + oldest
        → (get now c).0.user ≡ s.user
    pub get-save-old :
        (t now : ℕ) (s : Session) (c : Cookie)
        → save t s ≡ ok c
        → t + oldest < now
        → (get now c).1 ≢ none

-- Package os, on files that are known by their paths. A write that fails may have written a part.
pub record Disk : Type 1 where
  pub Files : Type 0
  pub read_file : Files → String → Result String
  pub rename : Files → (old new : String) → Result Files
  pub create_file : Files → String → Result Files
  pub write : Files → (path text : String) → Option Error × Files
  pub remove_all : Files → String → Option Error × Files

-- What holds of two different regular files: the first is renamed to the second, created again and
-- written; then the second is removed.
module _ (disk : Disk) (path copy : String) where
  open disk use {Files, read_file, rename, create_file, write, remove_all}

  pub record DiskLaws : Type 0 where
    pub read-rename :
        (f f' : Files) → rename f path copy ≡ ok f' → read_file f' copy ≡ read_file f path
    pub read-create : (f f' : Files) → create_file f path ≡ ok f' → read_file f' path ≡ ok ""
    pub copy-create :
        (f f' : Files) → create_file f path ≡ ok f' → read_file f' copy ≡ read_file f copy
    pub read-write :
        (f : Files) (text : String)
        → read_file f path ≡ ok ""
        → (write f path text).0 ≡ none
        → read_file (write f path text).1 path ≡ ok text
    pub copy-write :
        (f : Files) (text : String) → read_file (write f path text).1 copy ≡ read_file f copy
    pub read-remove : (f : Files) → read_file (remove_all f copy).1 path ≡ read_file f path

-- A request, with the time at which it comes: `request_uri` is the target as the client wrote it, `path` that of the parsed URL.
pub record Request (Cookie : Type 0) : Type 0 where
  pub now : ℕ
  pub method : String
  pub request_uri : String
  pub path : String
  pub cookie : Cookie
  pub form_value : String → String
  pub body : Result String

-- What a handler writes: its statuses (none stands for 200), its body, and a cookie; the other headers
-- are left out.
pub record Answer (Cookie : Type 0) : Type 0 where
  pub statuses : List ℕ
  pub body : String
  pub cookie : Option Cookie

module _ {Cookie : Type 0} where
  abbrev pub nothing_written : Answer Cookie
  nothing_written = record { statuses = []; body = ""; cookie = none }

  abbrev pub answer : ℕ → String → Answer Cookie
  answer status text = record { statuses = status ∷ []; body = text; cookie = none }

  -- http.Error
  abbrev pub http_error : ℕ → String → Answer Cookie
  http_error status message = answer status (message ++ "\n")

-- The server's fields that stay as they are made.
pub record UiServer : Type 0 where
  pub port : String
  pub cfg_path : String
  pub webhook_url : String
  pub admusr : String
  pub admpwd : String
