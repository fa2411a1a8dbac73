-- ===== src/Routes/First.antt =====
-- `find_handler` takes the first entry that is for the path, whatever its method.
use equic.Prelude.{
  ◌≡◌, refl, ap, ◌⊎◌, arith, true, false, Option, none, some, List, [], ◌∷◌, ◌++◌, map, Bytes,
  codes, Option-cases, inl, inr,
}
use equic.Request.{Method, post}
use equic.Routes.{
  ReqMap, Match, md5sum, matched, on_match, req_maps, plain, to_lower, init_map_regexes,
  free_map_regexes, find_handler,
}

-- No entry is compiled.
abbrev pub AreFresh : List ReqMap → Type 0
AreFresh [] = Unit
AreFresh (m ∷ rest) = (m.compiled ≡ false) × AreFresh rest

-- On a table with no compiled entry, freeing after initialising gives the table back.
pub free_map_regexes-init_map_regexes :
    (maps : List ReqMap) → AreFresh maps → free_map_regexes (init_map_regexes maps) ≡ maps
unfolding free_map_regexes init_map_regexes
free_map_regexes-init_map_regexes [] h = refl
free_map_regexes-init_map_regexes (m ∷ rest) h =
    ground (arith, free_map_regexes-init_map_regexes rest h.1)

module _ (regexec : Bytes → Bytes → Option (List Match)) where
  -- No entry of a list is for the path.
  abbrev pub NoneMatch : List ReqMap → Bytes → Type 0
  NoneMatch [] path = Unit
  NoneMatch (m ∷ rest) path = (matched regexec m path ≡ none) × NoneMatch rest path

  -- For every table, method and path: either no entry is for the path and there is no result, or
  -- the result is an entry that is for it, with its matches, and no earlier entry is.
  pub find_handler_first :
      (maps : List ReqMap) (method : Method) (path : Bytes)
      → ((find_handler regexec maps method path ≡ none) × NoneMatch maps path)
        ⊎ ((before after : List ReqMap) × (m : ReqMap) × (matches : List Match) × (maps
              ≡ before ++ (m ∷ after))
            × NoneMatch before path
            × (matched regexec m path ≡ some matches)
            × (find_handler regexec maps method path ≡ some (m, matches)))
  unfolding find_handler on_match
  find_handler_first [] method path = inl (refl, tt)
  find_handler_first (m ∷ rest) method path = elim (Option-cases (matched regexec m path)) [
    | inr (matches, e) ↦ inr ([], rest, m, matches, refl, tt, e, rw e)
    | inl e ↦ elim (find_handler_first rest method path) [
      | inl (missing, others) ↦ inl (rw e missing, (e, others))
      | inr (before, after, found, matches, split, others, hit, result) ↦
          inr (
            m ∷ before,
            after,
            found,
            matches,
            ap (λ l. m ∷ l) split,
            (e, others),
            hit,
            rw e result,
          )
    ]
  ]

  -- A request with any method for /cgi-bin/md5sum.cgi, in capital or small letters, gets the handler
  -- that the table has for POST.
  pub find_handler-md5sum :
      (method : Method) (path : Bytes)
      → map to_lower path ≡ codes "/cgi-bin/md5sum.cgi"
      → find_handler regexec (init_map_regexes req_maps) method path
        ≡ some (plain post (codes "/cgi-bin/md5sum.cgi") md5sum true, [])
  unfolding find_handler init_map_regexes matched
  find_handler-md5sum method path e = rw e

  -- What holds of every entry of a table holds of the entry found, which is for the path.
  abbrev pub AllMaps : (ReqMap → Type 0) → List ReqMap → Type 0
  AllMaps P [] = Unit
  AllMaps P (m ∷ rest) = P m × AllMaps P rest

  abbrev pub Found : (ReqMap → Type 0) → Bytes → Option (ReqMap × List Match) → Type 0
  Found P path none = Unit
  Found P path (some (m, matches)) = P m × (matched regexec m path ≡ some matches)

  pub find_handler-Found :
      (P : ReqMap → Type 0) (maps : List ReqMap) (method : Method) (path : Bytes)
      → AllMaps P maps
      → Found P path (find_handler regexec maps method path)
  unfolding find_handler on_match
  find_handler-Found P [] method path h = tt
  find_handler-Found P (m ∷ rest) method path h = elim (Option-cases (matched regexec m path)) [
    | inr (matches, hit) ↦ rw hit (h.0, hit)
    | inl miss ↦ rw miss (find_handler-Found P rest method path h.1)
  ]

  pub matched-compiled :
      (m : ReqMap) (path : Bytes) → m.compiled ≡ true → matched regexec m path ≡ regexec m.path path
  unfolding matched
  matched-compiled m path e = rw e refl
