-- ===== src/Routes/Tests.antt =====
-- The units in the order of the table and in another one.
use Prim.Native.String.{◌++◌}
use postee.Prelude.{ℕ, ◌*◌, List, String, ◌≡◌, none, refl, arith, here, there, [], ◌∷◌}
use postee.Prelude.Int.{pos}
use postee.Prelude.Text.{itoa_nat}
use postee.Routes.{parse_timeouts}
use postee.Routes.Timeouts.{IsOrder, parse_timeouts-itoa_nat}

-- Days and hours come first.
abbrev backwards : List (String × ℕ)
backwards = ("d", 86400) ∷ ("h", 3600) ∷ ("m", 60) ∷ ("s", 1) ∷ []

backwards-IsOrder : IsOrder backwards
backwards-IsOrder = record {
  known = (
    there (there (there (here refl))),
    (there (there (here refl)), (there (here refl), (here refl, tt))),
  );
  every = (
    there (there (there (here refl))),
    (there (there (here refl)), (there (here refl), (here refl, tt))),
  );
}

parse_timeouts-itoa_nat_example :
    parse_timeouts backwards (itoa_nat 2 ++ "h") ≡ (pos (2 * 3600), none)
parse_timeouts-itoa_nat_example =
    parse_timeouts-itoa_nat backwards "h" 3600 2 backwards-IsOrder (there (there (here refl)))
      (omega arith) (omega arith)
