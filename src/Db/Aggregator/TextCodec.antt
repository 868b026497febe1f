-- ===== src/Db/Aggregator/TextCodec.antt =====
-- An encoding of scans that has the round trip of `CodecLaws`: a text of pairs, a mark and a
-- character. It stands in for JSON where a concrete codec is wanted.
use Prim.Native.String
use Prim.Native.String.{String}
use mathlib.Core.List.{append-nil as list-append-nil}
use text.Mathlib.TextLemmas.{nil-append, cons-append, append-nil, cons-ne-nil}
use postee.Prelude.{ℕ, Char, code, List, [], ◌∷◌, ◌++◌, ◌≡◌, ◌≢◌, refl, ap, ok, if◌then◌else◌, eqb}
use postee.Db.Aggregator.{Content, Codec, CodecLaws}

pub record State : Type 0 where
  pub text : String
  pub texts : List String
  pub scans : List Content

abbrev start : State
start = record { text = ""; texts = []; scans = [] }

pairs : List String → Content
pairs [] = []
pairs (k ∷ []) = []
pairs (k ∷ v ∷ rest) = (k, v) ∷ pairs rest

flat : Content → List String
flat [] = []
flat ((k, v) ∷ rest) = k ∷ v ∷ flat rest

token : ℕ → Char → State → State
token m x s =
    if eqb m b'c'
    then record s { text = String.◌∷◌ x s.text }
    else if eqb m b't'
    then record { text = ""; texts = s.text ∷ s.texts; scans = s.scans }
    else if eqb m b's'
    then record { text = ""; texts = []; scans = pairs s.texts ∷ s.scans }
    else s

unfoldable pub read : String → State
unfolding token pairs
read String.[] = start
read (String.◌∷◌ m String.[]) = start
read (String.◌∷◌ m (String.◌∷◌ x rest)) = token (code m) x (read rest)

abbrev mark : Char → Char → String → String
mark m x rest = String.◌∷◌ m (String.◌∷◌ x rest)

write_text : String → String → String
write_text String.[] rest = rest
write_text (String.◌∷◌ c t) rest = mark "c" c (write_text t rest)

write_texts : List String → String → String
write_texts [] rest = rest
write_texts (t ∷ ts) rest = mark "t" "-" (write_text t (write_texts ts rest))

unfoldable pub write_scans : List Content → String → String
unfolding write_texts write_text flat
write_scans [] rest = rest
write_scans (scan ∷ scans) rest = mark "s" "-" (write_texts (flat scan) (write_scans scans rest))

pairs-flat : (scan : Content) → pairs (flat scan) ≡ scan
unfolding pairs flat
pairs-flat [] = refl
pairs-flat ((k, v) ∷ rest) = ap (λ r. (k, v) ∷ r) (pairs-flat rest)

read-write_text :
    (t rest : String) (s : State)
    → read rest ≡ s
    → read (write_text t rest) ≡ record s { text = String.◌++◌ t s.text }
unfolding read write_text token
read-write_text String.[] rest s e = rw nil-append e
read-write_text (String.◌∷◌ c t) rest s e = rw (cons-append, read-write_text t rest s e) refl

read-write_texts :
    (ts : List String) (rest : String) (s : State)
    → read rest ≡ s
    → s.text ≡ ""
    → read (write_texts ts rest) ≡ record s { texts = ts ++ s.texts }
unfolding read write_texts token
read-write_texts [] rest s e h = e
read-write_texts (t ∷ ts) rest s e h =
    rw (read-write_text t (write_texts ts rest) _ (read-write_texts ts rest s e h), h, append-nil)
      refl

read-write_scans :
    (scans : List Content) (rest : String)
    → read rest ≡ start
    → read (write_scans scans rest) ≡ record start { scans = scans }
unfolding read write_scans token
read-write_scans [] rest e = e
read-write_scans (scan ∷ scans) rest e =
    rw
      (
        read-write_texts (flat scan) (write_scans scans rest) _ (read-write_scans scans rest e)
            refl,
        list-append-nil,
        pairs-flat,
      )
      refl

ok-injective {ℓ} : {A : Type ℓ} {a b : A} → ok a ≡ ok b → a ≡ b
ok-injective e = cc

abbrev pub text_codec : Codec
text_codec = record {
  marshal = λ scans. ok (write_scans scans (mark "." "." ""));
  unmarshal = λ text. ok (read text).scans;
}

write_scans-ne_empty : (scans : List Content) → write_scans scans (mark "." "." "") ≢ ""
unfolding write_scans
write_scans-ne_empty [] e = cons-ne-nil _ _ e
write_scans-ne_empty (scan ∷ scans) e = cons-ne-nil _ _ e

pub text_codec-CodecLaws : CodecLaws text_codec
unfolding read
text_codec-CodecLaws = record {
  unmarshal-marshal = λ scans text e.
      let same : write_scans scans (mark "." "." "") ≡ text = ok-injective e in
      rw (← same) (
        ap (λ (s : State). ok s.scans) (read-write_scans scans (mark "." "." "") refl),
        write_scans-ne_empty scans,
      );
}
