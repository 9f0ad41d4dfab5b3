-- ===== src/Codex/Environment.antt =====
-- `isolatedEnvironment` and `isolatedConfigFor` of internal/codex/isolated.go: the variables that
-- reach Codex and the commands that it runs.
pub mod Allowed
use Prim.Native.String
use peercontext.Common.{
  Bool, true, false, not, List, [], ◌∷◌, String, map, ◌==◌, string_eq, if◌then◌else◌,
}
use peercontext.Common.Dict.{Dict, insert}
use peercontext.Common.Text.{concat}
use peercontext.State.Profiles.{sort_by}

-- key + "=" + value
unfoldable pub entry : String × String → String
entry (key, value) = concat key (concat "=" value)

-- for each key, values[key] = os.Getenv(key) where that is not empty
unfoldable pub with_host_values :
    (String → String) → List String → Dict String String → Dict String String
with_host_values getenv [] values = values
with_host_values getenv (key ∷ keys) values =
    with_host_values getenv keys
      (if getenv key == "" then values else insert key (getenv key) values)

unfoldable pub fixed_values : String → String → String → Dict String String
fixed_values home codex_home tmp =
    ("HOME", home)
    ∷ ("USERPROFILE", home)
    ∷ ("CODEX_HOME", codex_home)
    ∷ ("TMPDIR", tmp)
    ∷ ("GIT_CONFIG_GLOBAL", "/dev/null")
    ∷ ("GIT_CONFIG_NOSYSTEM", "1")
    ∷ ("NO_COLOR", "1")
    ∷ ("TERM", "dumb")
    ∷ ("PEERCTX_INBOUND_REQUEST", "1")
    ∷ []

abbrev pub host_keys : List String
host_keys =
    "PATH" ∷ "USER" ∷ "LOGNAME" ∷ "LANG" ∷ "LC_ALL" ∷ "SHELL" ∷ "SSL_CERT_FILE" ∷ "SSL_CERT_DIR"
    ∷ "HTTP_PROXY" ∷ "HTTPS_PROXY" ∷ "ALL_PROXY" ∷ "NO_PROXY" ∷ "http_proxy" ∷ "https_proxy"
    ∷ "all_proxy" ∷ "no_proxy" ∷ []

-- isolatedEnvironment: the entries in the order of their keys
unfoldable pub isolated_environment : (String → String) → String → String → String → List String
unfolding entry with_host_values fixed_values sort_by
isolated_environment getenv home codex_home tmp =
    map entry
      (sort_by (λ e. e.0) (with_host_values getenv host_keys (fixed_values home codex_home tmp)))

-- strings.Join(entries, ", ")
joined : List String → String
joined [] = ""
joined (s ∷ []) = s
joined (s ∷ (t ∷ ts)) = concat s (concat ", " (joined (t ∷ ts)))

unfoldable pub shell_values : (String → String) → String → String → Dict String String
shell_values getenv home tmp =
    ("PATH", if getenv "PATH" == "" then "/usr/bin:/bin" else getenv "PATH")
    ∷ ("HOME", home)
    ∷ ("USERPROFILE", home)
    ∷ ("TMPDIR", tmp)
    ∷ ("GIT_CONFIG_GLOBAL", "/dev/null")
    ∷ ("GIT_CONFIG_NOSYSTEM", "1")
    ∷ ("NO_COLOR", "1")
    ∷ ("TERM", "dumb")
    ∷ ("PEERCTX_INBOUND_REQUEST", "1")
    ∷ []

-- isolatedConfigFor after the constant part `isolatedReadConfig`; `quote` is strconv.Quote
unfoldable pub isolated_config_for :
    (String → String) → String → (String → String) → String → String → String
unfolding shell_values with_host_values sort_by joined
isolated_config_for quote read_config getenv home tmp =
    let values =
      with_host_values getenv ("LANG" ∷ "LC_ALL" ∷ "SHELL" ∷ []) (shell_values getenv home tmp) in
    let entries =
      map (λ e. concat (quote e.0) (concat " = " (quote e.1))) (sort_by (λ e. e.0) values) in
    concat read_config (
      concat "\n[shell_environment_policy]\ninherit = \"none\"\nset = { "
        (concat (joined entries) " }\n"))
