-- ===== src/Cloud/Tokens.antt =====
-- pkg/cloud/token_store.go: the access tokens in memory, of a store that is not nil. A time is a
-- number of nanoseconds, and the zero time, which stands for no expiry, is none.
use sylos_fs.Base.{
  ℕ, ◌+◌, String, str_eq, eq_iff, List, [], ◌∷◌, Bool, false, Option, none, some, ltb,
  if◌then◌else◌, ◌≡◌, refl, ap, ◌∙◌, arith, Bool-cases, inl, inr,
}
use sylos_fs.Base.Dict.{lookup, insert, delete, lookup-insert, lookup-delete}

pub record AccessTokenEntry : Type 0 where
  pub token : String
  pub expiry : Option ℕ

abbrev pub TokenStore : Type 0
TokenStore = List (String × AccessTokenEntry)

unfoldable pub set_access_token : String → String → Option ℕ → TokenStore → TokenStore
set_access_token id token expiry s =
    if str_eq id "" then s else insert id (record { token = token; expiry = expiry }) s

unfoldable pub clear_access_token : String → TokenStore → TokenStore
clear_access_token id s = if str_eq id "" then s else delete id s

-- time.Now().After(entry.expiry.Add(-30*time.Second))
abbrev pub is_expired : ℕ → Option ℕ → Bool
is_expired now none = false
is_expired now (some expiry) = ltb expiry (now + 30000000000)

-- The token of an entry that has one and has not expired.
abbrev pub usable : ℕ → Option AccessTokenEntry → Option String
usable now none = none
usable now (some entry) =
    if str_eq entry.token ""
    then none
    else if is_expired now entry.expiry
    then none
    else some entry.token

unfoldable pub get_access_token : ℕ → String → TokenStore → Option String
get_access_token now id s = if str_eq id "" then none else usable now (lookup id s)

-- The calls that change a store, and the store after them.
pub data TokenCall : Type 0 where
  sets : String → String → Option ℕ → TokenCall
  clears : String → TokenCall

abbrev pub after_token_call : TokenCall → TokenStore → TokenStore
after_token_call (sets id token expiry) s = set_access_token id token expiry s
after_token_call (clears id) s = clear_access_token id s

abbrev pub run : List TokenCall → TokenStore → TokenStore
run [] s = s
run (c ∷ calls) s = run calls (after_token_call c s)

-- What the last call for the id has left, of an entry that was there before.
abbrev pub left_by : TokenCall → String → Option AccessTokenEntry → Option AccessTokenEntry
left_by (sets other token expiry) id entry =
    if str_eq other id then some (record { token = token; expiry = expiry }) else entry
left_by (clears other) id entry = if str_eq other id then none else entry

abbrev pub last_entry : List TokenCall → String → Option AccessTokenEntry → Option AccessTokenEntry
last_entry [] id entry = entry
last_entry (c ∷ calls) id entry = last_entry calls id (left_by c id entry)

lookup-after_token_call :
    (c : TokenCall) (id : String) (s : TokenStore)
    → str_eq id "" ≡ false
    → lookup id (after_token_call c s) ≡ left_by c id (lookup id s)
unfolding set_access_token clear_access_token
lookup-after_token_call (sets other token expiry) id s given = elim (Bool-cases (str_eq other "")) [
  | inl empty ↦
      let differs : str_eq other id ≡ false =
        ground (arith, eq_iff other id, eq_iff other "", eq_iff id "") in
      rw (empty, differs) refl
  | inr named ↦ rw named (lookup-insert other id (record { token = token; expiry = expiry }) s)
]
lookup-after_token_call (clears other) id s given = elim (Bool-cases (str_eq other "")) [
  | inl empty ↦
      let differs : str_eq other id ≡ false =
        ground (arith, eq_iff other id, eq_iff other "", eq_iff id "") in
      rw (empty, differs) refl
  | inr named ↦ rw named (lookup-delete other id s)
]

lookup-run :
    (calls : List TokenCall) (id : String) (s : TokenStore)
    → str_eq id "" ≡ false
    → lookup id (run calls s) ≡ last_entry calls id (lookup id s)
lookup-run [] id s given = refl
lookup-run (c ∷ calls) id s given =
    lookup-run calls id (after_token_call c s) given
    ∙ ap (last_entry calls id) (lookup-after_token_call c id s given)

-- After any calls on a new store, GetAccessToken gives for a connection's id that is not empty
-- the token of the last SetAccessToken for it, unless ClearAccessToken has come after it, the
-- token is empty, or it expires in less than 30 seconds; for the empty id it gives none.
pub get_access_token-run :
    (calls : List TokenCall) (id : String) (now : ℕ)
    → get_access_token now id (run calls [])
      ≡ (if str_eq id "" then none else usable now (last_entry calls id none))
unfolding get_access_token lookup
get_access_token-run calls id now = elim (Bool-cases (str_eq id "")) [
  | inl empty ↦ rw empty refl
  | inr given ↦ rw given (ap (usable now) (lookup-run calls id [] given))
]
