-- ===== src/TwoFactor/Codes.antt =====
-- plugin/twofactor/storage.go: the lists of backup codes. strings.ToLower is a parameter.
use Prim.Native.Char.{code}
use better_auth_go.Prelude.{
  ℕ, zero, suc, String, Bool, ◌&&◌, List, [], ◌∷◌, ◌++◌, Option, none, some, leb, take, drop, ◌==◌,
  if◌then◌else◌,
}
use better_auth_go.Scopes.{trim_space}

-- strings.ReplaceAll(s, "-", "")
without_dashes : String → String
without_dashes String.[] = ""
without_dashes (String.◌∷◌ c s) =
    let rest = without_dashes s in
    if leb (code c) 45 && leb 45 (code c) then rest else String.◌∷◌ c rest

module _ (to_lower : String → String) where
  -- normalizeBackupCode
  unfoldable pub normalize_backup_code : String → String
  unfolding without_dashes
  normalize_backup_code s = to_lower (without_dashes (trim_space s))

  abbrev pub same_code : String → String → Bool
  same_code candidate code = normalize_backup_code code == normalize_backup_code candidate

  abbrev pub next_index : Option ℕ → Option ℕ
  next_index none = none
  next_index (some i) = some (suc i)

  -- backupCodeIndex: none for -1
  unfoldable pub backup_code_index : List String → String → Option ℕ
  backup_code_index [] candidate = none
  backup_code_index (c ∷ codes) candidate =
      let rest = next_index (backup_code_index codes candidate) in
      if same_code candidate c then some zero else rest

-- append(append([]string(nil), codes[:index]...), codes[index+1:]...)
unfoldable pub remaining_codes : ℕ → List String → List String
remaining_codes i codes = take i codes ++ drop (suc i) codes
