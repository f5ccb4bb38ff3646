-- ===== src/Cli/Bootstrap.antt =====
-- cmd/inferbolt/main.go and internal/cli/config.go: the credential that a command runs with. What
-- the files, the clock and the gateway answer is given; a list of looks is what a loop sees.
use inferbolt.Base.{
  String, Bool, false, ◌||◌, Option, none, some, List, [], ◌∷◌, ◌==◌, ◌⊎◌, inl, inr, concat,
  if◌then◌else◌,
}
use inferbolt.Base.Results.{Result, ok, err}
use inferbolt.Base.Spaces.{trim_space}

pub record Config : Type 0 where
  pub server_url : String
  pub api_key : String
  pub tenant_id : String
  pub output_fmt : String

abbrev pub default_server_url : String
default_server_url = "http://localhost:8080"

pub data LoadError : Type 0 where
  api_key_not_configured : LoadError
  not_loaded : String → LoadError

-- `Load`, of what viper reads from the file and the environment.
unfoldable pub load : Result Config → LoadError ⊎ Config
load (err e) = inl (not_loaded e)
load (ok c) = if c.api_key == "" then inl api_key_not_configured else inr c

pub record Flags : Type 0 where
  pub server : String
  pub api_key : String
  pub output : String

abbrev pub given : String → String → String
given flag value = if flag == "" then value else flag

unfoldable pub apply_flag_overrides : Flags → Config → Config
apply_flag_overrides flags c = record c {
  server_url = given flags.server c.server_url;
  api_key = given flags.api_key c.api_key;
  output_fmt = given flags.output c.output_fmt;
}

-- `hostname` is `url.Parse` and `Hostname`.
unfoldable pub is_local_server_url : (String → Option String) → String → Bool
is_local_server_url hostname raw_url = is_local (hostname raw_url)
  where
    is_local : Option String → Bool
    is_local none = false
    is_local (some host) = (host == "localhost") || ((host == "127.0.0.1") || (host == "::1"))

-- One turn of `waitForDevToken`: the file, whether the deadline has passed, and the cause where the
-- context is done first.
pub record TokenLook : Type 0 where
  pub file : Result String
  pub expired : Bool
  pub cancelled : Option String

-- The token, where the file has one.
abbrev pub token_in : Result String → Option String
token_in (err e) = none
token_in (ok contents) = if trim_space contents == "" then none else some (trim_space contents)

-- `return "", err`, of the error of reading the file.
abbrev pub last_error : Result String → Result String
last_error (err e) = err e
last_error (ok contents) = ok ""

abbrev token_waited : Option String → Option (Result String) → Option (Result String)
token_waited (some cause) rest = some (err cause)
token_waited none rest = rest

abbrev token_looked : Option String → TokenLook → Option (Result String) → Option (Result String)
token_looked (some token) look rest = some (ok token)
token_looked none look rest =
    if look.expired then some (last_error look.file) else token_waited look.cancelled rest

-- `none` is a loop that is still waiting.
unfoldable pub wait_for_dev_token : List TokenLook → Option (Result String)
wait_for_dev_token [] = none
wait_for_dev_token (look ∷ looks) =
    token_looked (token_in look.file) look (wait_for_dev_token looks)

-- One turn of the loop of `ensureServerHealthy`.
pub record HealthLook : Type 0 where
  pub expired : Bool
  pub healthy : Bool

abbrev pub never_healthy : String
never_healthy = "gateway did not become healthy"

-- The errors of the two loops name what they waited for; the first text stands for that.
unfoldable pub wait_healthy : List HealthLook → Option (Option String)
wait_healthy [] = none
wait_healthy (look ∷ looks) =
    let rest = wait_healthy looks in
    if look.expired then some (some never_healthy) else if look.healthy then some none else rest

-- Whether the gateway is up, the error of finding the compose file, of starting it, and the looks
-- behind.
pub record Services : Type 0 where
  pub up : Bool
  pub compose_missing : Option String
  pub compose_failed : Option String
  pub looks : List HealthLook

abbrev pub services_started :
    Option String → Option String → List HealthLook → Option (Option String)
services_started (some e) failed looks =
    some (some (concat "gateway is unreachable and no docker-compose.yml found: " e))
services_started none (some e) looks = some (some e)
services_started none none looks = wait_healthy looks

unfoldable pub ensure_server_healthy : Services → Option (Option String)
unfolding wait_healthy
ensure_server_healthy s =
    if s.up then some none else services_started s.compose_missing s.compose_failed s.looks

-- What a command ends up with: its configuration, and what is saved for the next.
pub record Resolved : Type 0 where
  pub config : Config
  pub saved : Option Config

pub record BootInputs : Type 0 where
  pub read : Result Config
  pub flags : Flags
  pub hostname : String → Option String
  pub services : Services
  pub looks : List TokenLook
  pub save_error : Option String

abbrev pub saved_config : Option String → Config → Resolved
saved_config (some e) c = record { config = c; saved = none }
saved_config none c = record { config = c; saved = some c }

abbrev pub new_config : String → String → Config
new_config server token = record {
  server_url = server;
  api_key = token;
  tenant_id = "";
  output_fmt = "table";
}

unfoldable pub with_token : BootInputs → String → Option (Result String) → Option (Result Resolved)
unfolding apply_flag_overrides
with_token w server none = none
with_token w server (some (err e)) =
    some (err (concat "no API key configured and could not read a bootstrapped dev token: " e))
with_token w server (some (ok token)) =
    some (ok (saved_config w.save_error (apply_flag_overrides w.flags (new_config server token))))

-- `next` is what happens when the gateway is up.
abbrev pub once_healthy :
    Option (Option String) → Option (Result Resolved) → Option (Result Resolved)
once_healthy none next = none
once_healthy (some (some e)) next = some (err e)
once_healthy (some none) next = next

unfoldable pub resolved : BootInputs → LoadError ⊎ Config → Option (Result Resolved)
unfolding apply_flag_overrides with_token wait_for_dev_token ensure_server_healthy
    is_local_server_url
resolved w (inr loaded) =
    once_healthy (ensure_server_healthy w.services)
      (some (ok (record { config = apply_flag_overrides w.flags loaded; saved = none })))
resolved w (inl (not_loaded e)) = some (err e)
resolved w (inl api_key_not_configured) =
    let server = given w.flags.server default_server_url in
    if is_local_server_url w.hostname server
    then once_healthy (ensure_server_healthy w.services)
        (with_token w server (wait_for_dev_token w.looks))
    else some (err "API key not configured (and --server points at a non-local address)")

unfoldable pub resolve_or_bootstrap_config : BootInputs → Option (Result Resolved)
unfolding resolved load
resolve_or_bootstrap_config w = resolved w (load w.read)
