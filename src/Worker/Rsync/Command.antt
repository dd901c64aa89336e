-- ===== src/Worker/Rsync/Command.antt =====
-- The commands that the rsync handler builds (services/worker/modules/rsync/handler.py,
-- `_build_ssh_options`, `_build_command`, `_build_ssh_cmd_prefix`).
use tmask_tt.Base.{
  ℕ, String, ◌<>◌, Bool, ◌&&◌, not, Option, List, [], ◌∷◌, ◌++◌, leb, if◌then◌else◌,
}
use tmask_tt.Base.Str.{join, show, shell_quote}
use tmask_tt.Worker.{Result, ok, err, value_error}
use tmask_tt.Worker.Params.{Params, or_text, is_given}

abbrev pub is_port : ℕ → Bool
is_port port = leb 1 port && leb port 65535

abbrev pub target : Params → String
target p = p.username <> ("@" <> p.host)

-- The `if … elif …` over the host key of both command builders.
abbrev pub host_key_options : Params → Option String → List String → List String → List String
host_key_options p known strict lax =
    if p.strict_host_key_checking && is_given known
    then strict
    else if not p.strict_host_key_checking
    then lax
    else []

-- `_build_ssh_options`
unfoldable pub build_ssh_options : Params → Option String → Option String → Result String
build_ssh_options p known key =
    if is_port p.port
    then ok (
        join " " (
          (("-p " <> show p.port) ∷ "-o BatchMode=yes" ∷ [])
          ++ (host_key_options p known
                (("-o UserKnownHostsFile=" <> shell_quote (or_text known ""))
                  ∷ "-o StrictHostKeyChecking=yes"
                  ∷ [])
                ("-o StrictHostKeyChecking=no" ∷ [])
              ++ (if is_given key then ("-i " <> shell_quote (or_text key "")) ∷ [] else []))))
    else err (value_error ("Invalid SSH port: " <> show p.port))

-- `_build_command`
unfoldable pub build_command :
    Params
    → Option String
    → Option String
    → Option String
    → Option String
    → Bool
    → Result (List String)
unfolding build_ssh_options
build_command p source_override dest_override known key dry_run =
    elim (build_ssh_options p known key) [
      | err e ↦ err e
      | ok ssh_opts ↦ ok (
          ("rsync" ∷ "-av" ∷ "--info=progress2" ∷ [])
          ++ ((if p.compress then "--compress" ∷ [] else [])
              ++ ((if dry_run then "--dry-run" ∷ [] else [])
                  ++ ("-e"
                      ∷ ("ssh " <> ssh_opts)
                      ∷ "--"
                      ∷ or_text source_override p.source_path
                      ∷ (target p <> (":" <> or_text dest_override p.destination_path))
                      ∷ []))))
    ]

-- `_build_ssh_cmd_prefix`
unfoldable pub build_ssh_cmd_prefix : Params → Option String → Option String → Result (List String)
build_ssh_cmd_prefix p known key =
    if is_port p.port
    then ok (
        ("ssh" ∷ "-p" ∷ show p.port ∷ "-o" ∷ "BatchMode=yes" ∷ [])
        ++ (host_key_options p known
              ("-o"
                ∷ ("UserKnownHostsFile=" <> or_text known "")
                ∷ "-o"
                ∷ "StrictHostKeyChecking=yes"
                ∷ [])
              ("-o" ∷ "StrictHostKeyChecking=no" ∷ [])
            ++ ((if is_given key then "-i" ∷ or_text key "" ∷ [] else []) ++ (target p ∷ []))))
    else err (value_error ("Invalid port: " <> show p.port))
