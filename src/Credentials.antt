-- ===== src/Credentials.antt =====
-- src/fava_trails/credentials.py.
pub mod Ownership
use Prim.Native.Nat.{◌%◌}
use fava_trails.Base.{
  ℕ, String, ◌≡◌, Bool, true, false, not, ◌&&◌, ◌||◌, Option, none, some, List, [], ◌∷◌, ◌==◌,
  nat_eq, if◌then◌else◌, or_else,
}
use fava_trails.Base.Dict.{Dict, lookup}
use fava_trails.Base.Result.{Result, ok, err, ◌>>=◌, ◌>>◌, raise_if}
use fava_trails.Base.Text.{is_empty, strip}
use fava_trails.Models.Config.{GlobalConfig, resolve_trust_gate_api_key_env}

-- What the opened file shows: its `fstat` and, where reading does not fail, its text.
pub record OpenedFile : Type 0 where
  pub is_regular : Bool
  pub owner : ℕ
  pub mode : ℕ
  pub text : Option String

-- A path: whether its `lstat` is a link, and what opening it without following a link gives.
pub record KeyFile : Type 0 where
  pub is_link : Option Bool
  pub opened : Option OpenedFile

-- the ValueErrors
pub data CredentialError : Type 0 where
  unreadable symlink unsupported not_regular not_owned not_owner_only empty_file : CredentialError
  no_key : CredentialError

unfoldable pub present {ℓ} : {A : Type ℓ} → CredentialError → Option A → Result CredentialError A
present e none = err e
present e (some a) = ok a

-- `S_IMODE(mode) & 0o077`, the last six bits, is not 0
unfoldable pub is_shared : ℕ → Bool
is_shared mode = not (nat_eq (mode % 64) 0)

unfoldable pub some_text : CredentialError → String → Result CredentialError String
unfolding strip
some_text e text = if is_empty (strip text) then err e else ok (strip text)

-- from the open descriptor on
unfoldable pub read_opened : ℕ → OpenedFile → Result CredentialError String
unfolding present is_shared some_text
read_opened user opened = do
  raise_if (not opened.is_regular) not_regular
  raise_if (not (nat_eq opened.owner user)) not_owned
  raise_if (is_shared opened.mode) not_owner_only
  text ← present unreadable opened.text
  some_text empty_file text

-- The user's id is missing where the platform cannot check the owner.
unfoldable pub load_owner_only_key_file : Option ℕ → KeyFile → Result CredentialError String
unfolding present read_opened
load_owner_only_key_file user file = do
  is_link ← present unreadable file.is_link
  raise_if is_link symlink
  uid ← present unsupported user
  opened ← present unreadable file.opened
  read_opened uid opened

-- The file at a path, with `~` expanded, and the environment are arguments.
unfoldable pub load_trust_gate_api_key :
    (String → KeyFile) → Option ℕ → Dict String → GlobalConfig → Result CredentialError String
unfolding load_owner_only_key_file some_text lookup resolve_trust_gate_api_key_env
load_trust_gate_api_key files user environ config =
    let path = or_else config.trust_gate_api_key_file "" in
    if is_empty path
    then some_text no_key (or_else (lookup (resolve_trust_gate_api_key_env config) environ) "")
    else load_owner_only_key_file user (files path)

unfoldable pub trust_gate_credential_description : GlobalConfig → String
unfolding resolve_trust_gate_api_key_env
trust_gate_credential_description config =
    if is_empty (or_else config.trust_gate_api_key_file "")
    then resolve_trust_gate_api_key_env config
    else "credential file"
