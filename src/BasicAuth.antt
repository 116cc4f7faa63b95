-- ===== src/BasicAuth.antt =====
-- core/basicAuth/basicAuth.go: the users and their passwords. The map is that of the filter's
-- interface; the remote authority is a parameter.
pub mod Users
mod Tests
use jocasta.Prelude.{
  ℕ, suc, ◌+◌, ◌&&◌, Bool, true, false, Option, none, some, List, [], ◌∷◌, ◌++◌, length, ◌==◌,
  if◌then◌else◌,
}
use jocasta.Go.Io.{Bytes}
use jocasta.Go.Net.{bytes_eq}
use jocasta.Filter.{ConcurrentMap, extend, lines, is_some}

-- strings.Split at ":"
unfoldable pub fields : Bytes → List Bytes
fields [] = [] ∷ []
fields (c ∷ cs) = let rest = fields cs in if c == 58 then [] ∷ rest else extend c rest

-- strings.Trim(s, " ")
unfoldable pub trim_spaces_left : Bytes → Bytes
trim_spaces_left [] = []
trim_spaces_left (c ∷ cs) = let rest = trim_spaces_left cs in if c == 32 then rest else c ∷ cs

unfoldable pub trim_spaces_right : Bytes → Bytes
trim_spaces_right [] = []
trim_spaces_right (c ∷ cs) =
    let rest = trim_spaces_right cs in if c == 32 && (length rest == 0) then [] else c ∷ rest

-- strings.Replace(s, "\r", "", -1)
pub without_returns : Bytes → Bytes
without_returns [] = []
without_returns (c ∷ cs) = let rest = without_returns cs in if c == 13 then rest else c ∷ rest

-- Format
abbrev pub format : Bytes → Bytes → Bytes
format user pwd = user ++ (58 ∷ pwd)

module _ (Passwords : ConcurrentMap Bytes) where
  -- One pair of Add: what does not have two fields is passed over.
  unfoldable pub add_pair : Bytes → ℕ × Passwords.carrier → ℕ × Passwords.carrier
  add_pair up (n, m) = elim (fields up) [
    | [] ↦ (n, m)
    | user ∷ others ↦ elim others [
      | [] ↦ (n, m)
      | pwd ∷ more ↦ elim more [ [] ↦ (n + 1, Passwords.put user pwd m) | _ ∷ _ ↦ (n, m) ]
    ]
  ]

  -- Add
  pub add : List Bytes → ℕ × Passwords.carrier → ℕ × Passwords.carrier
  add [] c = c
  add (up ∷ ups) c = add ups (add_pair up c)

  -- The loop of LoadFromFile: empty lines and comments are passed over.
  pub load : List Bytes → ℕ × Passwords.carrier → ℕ × Passwords.carrier
  load [] c = c
  load (l ∷ ls) c = elim (trim_spaces_left (trim_spaces_right l)) [
    | [] ↦ load ls c
    | x ∷ xs ↦ elim (x == 35) [ true ↦ load ls c | false ↦ load ls (add_pair (x ∷ xs) c) ]
  ]

  -- LoadFromFile, on the contents of a file that could be read.
  pub load_from_file : Bytes → Passwords.carrier → ℕ × Passwords.carrier
  load_from_file contents m = load (lines (without_returns contents)) (0, m)

  -- Has
  pub has : Bytes → Passwords.carrier → Bool
  has user m = is_some (Passwords.get user m)

  -- VerifyFromLocal
  unfoldable pub verify_from_local : Bytes → Bytes → Passwords.carrier → Bool
  verify_from_local user pwd m = elim (Passwords.get user m) [
    | none ↦ false
    | some p ↦ bytes_eq p pwd
  ]

  -- Verify, given whether VerifyFromURL finds no error.
  unfoldable pub verify : (Bytes → Bytes → Bool) → Bytes → Passwords.carrier → Bool
  verify from_url pair m = elim (fields (trim_spaces_left (trim_spaces_right pair))) [
    | [] ↦ false
    | user ∷ others ↦ elim others [
      | [] ↦ false
      | pwd ∷ more ↦ elim more [
        | [] ↦ if verify_from_local user pwd m then true else from_url user pwd
        | _ ∷ _ ↦ false
      ]
    ]
  ]
