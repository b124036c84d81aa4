-- ===== src/Credentials/Ownership.antt =====
-- Where the keys that src/fava_trails/credentials.py loads come from.
use Prim.Native.Nat.{◌%◌}
use fava_trails.Base.{
  ℕ, String, ◌≡◌, ◌⊎◌, inl, inr, sym, ap, ◌∙◌, true, false, not, Option, none, some, nat_eq,
  or_else, arith, Bool-cases,
}
use fava_trails.Base.Dict.{Dict, lookup}
use fava_trails.Base.Result.{ok, >>=-eq-ok, raise_if-eq-ok}
use fava_trails.Base.Text.{is_empty, strip}
use fava_trails.Models.Config.{GlobalConfig, resolve_trust_gate_api_key_env}
use fava_trails.Credentials.{
  OpenedFile, KeyFile, CredentialError, unreadable, symlink, unsupported, not_regular, not_owned,
  not_owner_only, empty_file, no_key, present, is_shared, some_text, read_opened,
  load_owner_only_key_file, load_trust_gate_api_key,
}

-- The key is the text without the spaces around it, and there is something else in it.
abbrev pub IsKey : String → String → Type 0
IsKey text key = (key ≡ strip text) × (is_empty key ≡ false)

-- A file that only its owner, the user, may read or write.
pub record IsPrivate (user : Option ℕ) (file : KeyFile) (key : String) : Type 0 where
  pub uid : ℕ
  pub opened : OpenedFile
  pub text : String
  pub is_user : user ≡ some uid
  pub no_link : file.is_link ≡ some false
  pub is_opened : file.opened ≡ some opened
  pub regular : opened.is_regular ≡ true
  pub owned : opened.owner ≡ uid
  pub closed : opened.mode % 64 ≡ 0
  pub content : opened.text ≡ some text
  pub key_of : IsKey text key

present-eq-ok {ℓ} :
    {A : Type ℓ} (e : CredentialError) (o : Option A) (a : A) → present e o ≡ ok a → o ≡ some a
unfolding present
present-eq-ok e none a h = cc
present-eq-ok e (some b) a h = cc

some_text-IsKey :
    (e : CredentialError) (text key : String) → some_text e text ≡ ok key → IsKey text key
unfolding some_text
some_text-IsKey e text key h = elim (Bool-cases (is_empty (strip text))) [
  | inl y ↦ ground (arith, rw (y, some_text) at h)
  | inr y ↦
      let same : strip text ≡ key = ground (arith, rw (y, some_text) at h) in
      (sym same, ap is_empty (sym same) ∙ y)
]

load_owner_only_key_file-IsPrivate :
    (user : Option ℕ) (file : KeyFile) (key : String)
    → load_owner_only_key_file user file ≡ ok key
    → IsPrivate user file key
unfolding load_owner_only_key_file read_opened is_shared
load_owner_only_key_file-IsPrivate user file key h =
    let a = >>=-eq-ok (present unreadable file.is_link) _ h in
    let b = raise_if-eq-ok a.0 symlink _ a.2 in
    let c = >>=-eq-ok (present unsupported user) _ b.1 in
    let d = >>=-eq-ok (present unreadable file.opened) (read_opened c.0) c.2 in
    let e = raise_if-eq-ok (not d.0.is_regular) not_regular _ d.2 in
    let f = raise_if-eq-ok (not (nat_eq d.0.owner c.0)) not_owned _ e.1 in
    let g = raise_if-eq-ok (is_shared d.0.mode) not_owner_only _ f.1 in
    let i = >>=-eq-ok (present unreadable d.0.text) (some_text empty_file) g.1 in
    record {
      uid = c.0;
      opened = d.0;
      text = i.0;
      is_user = present-eq-ok unsupported user c.0 c.1;
      no_link = present-eq-ok unreadable file.is_link a.0 a.1 ∙ ap (λ x. some x) b.0;
      is_opened = present-eq-ok unreadable file.opened d.0 d.1;
      regular = ground (arith, e.0);
      owned = ground (arith, f.0);
      closed = ground (arith, g.0);
      content = present-eq-ok unreadable d.0.text i.0 i.1;
      key_of = some_text-IsKey empty_file i.0 key i.2;
    }

-- A configured key file is the only source of the key, and it is a regular file of the user that is
-- no link and that nobody else may read, write or execute. Without one, the key is the value of the
-- configured variable. It is never empty.
pub load_trust_gate_api_key-IsPrivate :
    (files : String → KeyFile) (user : Option ℕ) (environ : Dict String) (config : GlobalConfig)
    (key : String)
    → load_trust_gate_api_key files user environ config ≡ ok key
    → ((is_empty (or_else config.trust_gate_api_key_file "") ≡ false)
        × IsPrivate user (files (or_else config.trust_gate_api_key_file "")) key)
      ⊎ ((is_empty (or_else config.trust_gate_api_key_file "") ≡ true)
          × IsKey (or_else (lookup (resolve_trust_gate_api_key_env config) environ) "") key)
unfolding load_trust_gate_api_key
load_trust_gate_api_key-IsPrivate files user environ config key h =
    let path = or_else config.trust_gate_api_key_file "" in
    elim (Bool-cases (is_empty path)) [
      | inl e ↦ inr (
        e,
        some_text-IsKey no_key (or_else (lookup (resolve_trust_gate_api_key_env config) environ) "")
            key (rw (e, load_trust_gate_api_key) at h),
      )
      | inr e ↦ inl (
        e,
        load_owner_only_key_file-IsPrivate user (files path) key
            (rw (e, load_trust_gate_api_key) at h),
      )
    ]
