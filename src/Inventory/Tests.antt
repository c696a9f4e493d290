-- ===== src/Inventory/Tests.antt =====
-- A host that two entries of ssh_config describe.
use cross_host_ops.Base.{◌≡◌, refl, List, [], ◌∷◌, none, some, if◌then◌else◌, codes}
use cross_host_ops.Inventory.{SshHostEntry, host_glob, matches, resolve_ssh_host}
use cross_host_ops.Inventory.FirstWins.{first_of, has_entry, resolve_ssh_host_lem}

abbrev entries : List SshHostEntry
entries =
    record {
      patterns = codes "10.0.?.1" ∷ [];
      host_name = none;
      port = some 2222;
      user = none;
      identity_file = none;
      proxy_command = none;
      pubkey_accepted_algorithms = none;
    }
    ∷ record {
      patterns = codes "*" ∷ [];
      host_name = none;
      port = some 22;
      user = some (codes "ops");
      identity_file = some (codes "/k");
      proxy_command = none;
      pubkey_accepted_algorithms = none;
    }
    ∷ []

resolve_ssh_host_lem_example : resolve_ssh_host entries (codes "10.0.3.1") ≡ (
    if has_entry entries (codes "10.0.3.1")
    then some (record {
      patterns = codes "10.0.3.1" ∷ [];
      host_name = first_of (λ e. e.host_name) entries (codes "10.0.3.1");
      port = first_of (λ e. e.port) entries (codes "10.0.3.1");
      user = first_of (λ e. e.user) entries (codes "10.0.3.1");
      identity_file = first_of (λ e. e.identity_file) entries (codes "10.0.3.1");
      proxy_command = first_of (λ e. e.proxy_command) entries (codes "10.0.3.1");
      pubkey_accepted_algorithms =
          first_of (λ e. e.pubkey_accepted_algorithms) entries (codes "10.0.3.1");
    })
    else none)
resolve_ssh_host_lem_example = resolve_ssh_host_lem entries (codes "10.0.3.1")

first_port : first_of (λ e. e.port) entries (codes "10.0.3.1") ≡ some 2222
unfolding matches host_glob
first_port = refl
