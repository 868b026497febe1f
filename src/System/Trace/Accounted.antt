-- ===== src/System/Trace/Accounted.antt =====
-- The account of the contents that were handed over, by the goroutines that were started.
use mathlib.Core.Option
use postee.Prelude.{
  ℕ, zero, suc, ◌+◌, ◌≤◌, String, Option, some, List, [], ◌∷◌, ◌≡◌, ◌⊎◌, ◌∙◌, ap, sym, subst, inl,
  inr, refl, arith, length, length-append, Option-cases, All, All-append, All-map_of, Any, here,
  there, Any-append_left, Any-append_right,
}
use postee.Db.Bolt.{Bolt}
use postee.Db.Aggregator.{Content}
use postee.Outputs.Records.{get_name}
use postee.Rego.Eval.{Engine}
use postee.Router.State.{Router}
use postee.Router.Dispatch.{Dispatch}
use postee.System.Delivered.{From}
use postee.System.Trace.{Node, pick, start_all}

picked :
    {A : Type 0} (P : A → Type 0) (n : ℕ) (o : Option (A × List A)) (y x : A) (l rest : List A)
    → o ≡ some (y, l)
    → o ≡ some (x, rest)
    → P y × All P l × (n ≡ suc (length l))
    → P x × All P rest × (n ≡ suc (length rest))
picked P n o y x l rest e h a =
    subst (λ (r : _ × List _). P r.0 × All P r.1 × (n ≡ suc (length r.1)))
      (ap (λ p. Option.get_or p (y, l)) (sym e ∙ h)) a

pub pick-All :
    {A : Type 0} (P : A → Type 0) (i : ℕ) (l : List A) (x : A) (rest : List A)
    → pick i l ≡ some (x, rest)
    → All P l
    → P x × All P rest × (length l ≡ suc (length rest))
unfolding pick
pick-All P i [] x rest h a = absurd (cc)
pick-All P zero (y ∷ l) x rest h (p, a) = picked P _ _ y x l rest refl h (p, a, refl)
pick-All P (suc i) (y ∷ l) x rest h (p, a) = elim (Option-cases (pick i l)) [
  | inl e ↦ let clash = rw (e, pick) at h in absurd (cc)
  | inr ((z, zs), e) ↦
      let (q, b, n) = pick-All P i l z zs e a in
      picked P _ _ z x (y ∷ zs) rest (rw (e, pick) refl) h (q, (p, b), ap suc n)
]

module _ {engine : Engine} where
  From-own :
      (ctx : Router engine) (in_ : String) (d : Dispatch engine)
      → From ctx in_ d
      → From ctx d.input d
  From-own ctx in_ d (r, name, w, m) = subst (λ t. From ctx t d) (sym w.carries) (r, name, w, m)

  each_there :
      (ds : List (Dispatch engine))
      → All (λ (d : Dispatch engine). Any (λ x. get_name x.output ≡ get_name d.output) ds) ds
  each_there [] = tt
  each_there (d ∷ ds) = (here refl, All-map_of ds (λ x a. there a) (each_there ds))

module _ {engine : Engine} {bolt : Bolt} where
  -- Each goroutine is that of a route, with an output that the route names; each content was handed to
  -- the output of a goroutine; and each goroutine has handed over one content at most.
  pub record Accounted (ctx : Router engine) (n : Node engine bolt) : Type 0 where
    pub routed : All (λ (d : Dispatch engine). From ctx d.input d) n.started
    pub sent : All (λ e. Any (λ d. get_name d.output ≡ e.0) n.started) n.shared.sent
    pub pooled :
        All
          (λ (d : Dispatch engine). Any (λ x. get_name x.output ≡ get_name d.output) n.started)
          n.pool
    pub count : length n.shared.sent + length n.pool ≤ length n.started

module _ {engine : Engine} {bolt : Bolt} (ctx : Router engine) where
  pub Accounted-start_all :
      (in_ : String) (ds : List (Dispatch engine)) (n : Node engine bolt)
      → All (From ctx in_) ds
      → Accounted ctx n
      → Accounted ctx (start_all ds n)
  Accounted-start_all in_ ds n f a = record {
    routed = All-append _ n.started ds a.routed (All-map_of ds (λ d. From-own ctx in_ d) f);
    sent = All-map_of n.shared.sent (λ e. Any-append_left n.started ds) a.sent;
    pooled =
        All-append _ n.pool ds (All-map_of n.pool (λ d. Any-append_left n.started ds) a.pooled)
          (All-map_of ds (λ d. Any-append_right n.started ds) (each_there ds));
    count = omega (arith, length-append n.started ds, length-append n.pool ds, a.count);
  }

  -- The end of a turn: at most one content more, that of the goroutine whose turn it was.
  pub Accounted-turn :
      (d : Dispatch engine) (rest : List (Dispatch engine)) (n m : Node engine bolt)
      → m.started ≡ n.started
      → m.pool ≡ rest
      → length n.pool ≡ suc (length rest)
      → Any (λ x. get_name x.output ≡ get_name d.output) n.started
      → All
          (λ (d : Dispatch engine). Any (λ x. get_name x.output ≡ get_name d.output) n.started)
          rest
      → (m.shared.sent ≡ n.shared.sent)
        ⊎ ((c : Content) × (m.shared.sent ≡ (get_name d.output, c) ∷ n.shared.sent))
      → Accounted ctx n
      → Accounted ctx m
  Accounted-turn d rest n m s p l i others (inl e) a = record {
    routed = rw s a.routed;
    sent = rw (s, e) a.sent;
    pooled = rw (s, p) others;
    count = rw (s, p, e) (omega (arith, a.count, l));
  }
  Accounted-turn d rest n m s p l i others (inr (c, e)) a = record {
    routed = rw s a.routed;
    sent = rw (s, e) (i, a.sent);
    pooled = rw (s, p) others;
    count = rw (s, p, e) (omega (arith, a.count, l));
  }
