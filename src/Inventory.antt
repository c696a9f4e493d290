-- ===== src/Inventory.antt =====
-- Servers and hosts of src/config/inventory.rs: the authentication of an entry of server.toml, and
-- the settings that ssh_config gives a host. The files are read and split into entries elsewhere.
pub mod FirstWins
mod Tests
use cross_host_ops.Base.{
  ℕ, ◌≡◌, Bool, true, false, not, ◌&&◌, ◌||◌, List, [], ◌∷◌, Option, none, some, any, ◌==◌,
  if◌then◌else◌, Result, ok, err, Text, is_empty,
}

-- `Secret` is a reference to the password; the model keeps the text of it.
pub record ServerHostConfig : Type 0 where
  pub host : Text
  pub port : Option ℕ
  pub user : Text
  pub identity_file : Option Text
  pub password : Option Text

pub data DirectAuth : Type 0 where
  key : Text → DirectAuth
  password : Text → DirectAuth
  no_auth reverse_proxy : DirectAuth

pub record ServerEntry : Type 0 where
  pub alias : Text
  pub host : Text
  pub port : ℕ
  pub user : Text
  pub auth : DirectAuth

abbrev pub or_port : Option ℕ → ℕ
or_port none = 22
or_port (some p) = p

-- With no resolver, as the lists and the routes call it: a password yields a placeholder.
abbrev pub auth_of : Option Text → Option Text → Option Text → Option DirectAuth
auth_of (some secret) _ _ = some (password [])
auth_of none (some file) _ = some (key file)
auth_of none none (some file) = some (key file)
auth_of none none none = none

unfoldable pub resolve_server_entry : Text → ServerHostConfig → Option Text → Option ServerEntry
resolve_server_entry alias server default_file =
    with_auth (auth_of server.password server.identity_file default_file)
  where
    with_auth : Option DirectAuth → Option ServerEntry
    with_auth none = none
    with_auth (some a) = some (record {
      alias = alias;
      host = server.host;
      port = or_port server.port;
      user = server.user;
      auth = a;
    })

pub record SshHostEntry : Type 0 where
  pub patterns : List Text
  pub host_name : Option Text
  pub port : Option ℕ
  pub user : Option Text
  pub identity_file : Option Text
  pub proxy_command : Option Text
  pub pubkey_accepted_algorithms : Option Text

pub suffixes : Text → List Text
suffixes [] = [] ∷ []
suffixes (c ∷ t) = (c ∷ t) ∷ suffixes t

pub host_glob : Text → Text → Bool
unfolding suffixes
host_glob [] t = is_empty t
host_glob (c ∷ p) [] = if c == b'*' then any (host_glob p) ([] ∷ []) else false
host_glob (c ∷ p) (d ∷ t) =
    if c == b'*'
    then any (host_glob p) (suffixes (d ∷ t))
    else (c == b'?' || c == d) && host_glob p t

pub matches : SshHostEntry → Text → Bool
matches e host = any (λ p. host_glob p host) e.patterns

abbrev pub or_else {ℓ} : {A : Type ℓ} → Option A → Option A → Option A
or_else none o = o
or_else (some a) o = some a

-- One turn of the loop: the fields that are still open are filled.
pub fill : SshHostEntry → SshHostEntry → SshHostEntry
fill resolved entry = record resolved {
  host_name = or_else resolved.host_name entry.host_name;
  port = or_else resolved.port entry.port;
  user = or_else resolved.user entry.user;
  identity_file = or_else resolved.identity_file entry.identity_file;
  proxy_command = or_else resolved.proxy_command entry.proxy_command;
  pubkey_accepted_algorithms =
      or_else resolved.pubkey_accepted_algorithms entry.pubkey_accepted_algorithms;
}

pub resolve_loop : List SshHostEntry → Text → Bool → SshHostEntry → Option SshHostEntry
unfolding fill
resolve_loop [] host matched resolved = if matched then some resolved else none
resolve_loop (e ∷ es) host matched resolved = elim (matches e host) [
  | true ↦ resolve_loop es host true (fill resolved e)
  | false ↦ resolve_loop es host matched resolved
]

unfoldable pub resolve_ssh_host : List SshHostEntry → Text → Option SshHostEntry
unfolding resolve_loop
resolve_ssh_host entries host = resolve_loop entries host false (record {
  patterns = host ∷ [];
  host_name = none;
  port = none;
  user = none;
  identity_file = none;
  proxy_command = none;
  pubkey_accepted_algorithms = none;
})
