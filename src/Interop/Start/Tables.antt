-- ===== src/Interop/Start/Tables.antt =====
-- The tables of services that the interop mode can serve.
use equic.Prelude.{ℕ, ◌≡◌, true, none, some, Option, List, Bytes, get_or}
use equic.Routes.{Handler, error, gen_file, echo, ReqMap, Match}

module _ (index_page : Bytes) (regexec : Bytes → Bytes → Option (List Match)) where
  -- The handlers that the table may name. A generated file is named by a compiled pattern, whose
  -- first group takes part in every match.
  abbrev pub Serves : Handler → ReqMap → Type 0
  Serves error m = ⊥
  Serves echo m = ⊥
  Serves gen_file m =
      (m.compiled ≡ true)
      × ((path : Bytes) (matches : List Match)
          → regexec m.path path ≡ some matches
          → (found : ℕ × ℕ) × (get_or matches 1 none ≡ some found))
  Serves _ m = Unit

  abbrev pub IsServed : ReqMap → Type 0
  IsServed m = Serves m.handler m
