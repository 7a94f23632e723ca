-- ===== src/Tests/Cloud.antt =====
-- The token store at concrete inputs.
use sylos_fs.Base.{str_eq, List, [], ◌∷◌, none, some, if◌then◌else◌, ◌≡◌, refl}
use sylos_fs.Base.Dict.{lookup, insert, delete}
use sylos_fs.Cloud.Tokens.{
  TokenCall, sets, clears, run, last_entry, usable, get_access_token, set_access_token,
  clear_access_token, get_access_token-run,
}

abbrev calls : List TokenCall
calls = sets "a" "t1" none ∷ sets "b" "t2" (some 60000000000) ∷ clears "a" ∷ sets "" "t3" none ∷ []

get_access_token-run_example :
    get_access_token 20000000000 "b" (run calls [])
    ≡ (if str_eq "b" "" then none else usable 20000000000 (last_entry calls "b" none))
get_access_token-run_example = get_access_token-run calls "b" 20000000000

tokens :
    (get_access_token 20000000000 "b" (run calls []) ≡ some "t2")
    × (get_access_token 40000000000 "b" (run calls []) ≡ none)
    × (get_access_token 0 "a" (run calls []) ≡ none)
unfolding get_access_token set_access_token clear_access_token lookup insert delete
tokens = (refl, refl, refl)
