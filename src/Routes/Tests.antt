-- ===== src/Routes/Tests.antt =====
-- The table with its patterns compiled, and a path in capital letters.
use equic.Prelude.{◌≡◌, ◌⊎◌, ◌++◌, refl, none, some, Option, List, ◌∷◌, Bytes, codes, length}
use equic.Request.{get}
use equic.Routes.{ReqMap, Match, req_maps, matched, find_handler}
use equic.Routes.First.{NoneMatch, find_handler_first}

-- A library in which no pattern matches.
abbrev no_regexec : Bytes → Bytes → Option (List Match)
no_regexec pattern path = none

escaped : length (codes "\\?") ≡ 2
escaped = refl

unknown_path : find_handler no_regexec req_maps get (codes "/x") ≡ none
unfolding find_handler
unknown_path = refl

find_handler_first_example :
    ((find_handler no_regexec req_maps get (codes "/") ≡ none)
      × NoneMatch no_regexec req_maps (codes "/"))
    ⊎ ((before after : List ReqMap) × (m : ReqMap) × (matches : List Match) × (req_maps
          ≡ before ++ (m ∷ after))
        × NoneMatch no_regexec before (codes "/")
        × (matched no_regexec m (codes "/") ≡ some matches)
        × (find_handler no_regexec req_maps get (codes "/") ≡ some (m, matches)))
find_handler_first_example = find_handler_first no_regexec req_maps get (codes "/")
