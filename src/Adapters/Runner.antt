-- ===== src/Adapters/Runner.antt =====
-- adapters/runner.py: the sandbox runners. The `docker` binary and the secrets backend are
-- parameters; a finished process is its exit code and its two outputs.
use omniscan.Prelude.{
  ℕ, String, ◌<>◌, ◌==◌, eqb, Bool, true, false, not, ◌&&◌, ◌||◌, Option, none, some,
}
use omniscan.Prelude.{List, [], ◌∷◌, ◌++◌, any, if◌then◌else◌}
use omniscan.Prelude.Dict.{Dict, insert}
use omniscan.Prelude.Try.{Try, ok, raise, runner_error, ◌>>=◌, ◌>>◌, raise_if}
use omniscan.Python.Url.{has_char}
use omniscan.Core.Enums.{sast, same_class}
use omniscan.Adapters.Base.{NetworkMode, none_, target, ContainerSpec, ScanRequest, ScannerAdapter}
use omniscan.Prelude.Text.{take_text}

-- What `subprocess.run` ends in.
pub data Process : Type 0 where
  timed_out : Process
  exited : ℕ → String → String → Process

-- `path` is the binary that `shutil.which` finds; `cpus`, `megabytes` and `number` print the limits,
-- and `redact` masks a text.
pub record Docker : Type 0 where
  pub path : Option String
  pub resolve_secret : String → Try String
  pub cpus : ℕ → String
  pub megabytes : ℕ → String
  pub number : ℕ → String
  pub redact : String → String
  pub launch : List String → ℕ → Process

abbrev pub is_no_network : NetworkMode → Bool
is_no_network none_ = true
is_no_network _ = false

abbrev pub is_target_network : NetworkMode → Bool
is_target_network target = true
is_target_network _ = false

-- `_enforce_sast_network`
unfoldable pub enforce_sast_network : ScanRequest → ContainerSpec → Try (Unit {0})
enforce_sast_network request spec =
    raise_if (same_class request.scan_class sast && is_target_network spec.network)
      (runner_error "SAST adapters must not use target egress")

-- `image.endswith(":latest")`
unfoldable pub ends_latest : String → Bool
ends_latest String.[] = false
ends_latest (String.◌∷◌ c s) = String.◌∷◌ c s == ":latest" || ends_latest s

unfoldable pub is_unpinned : String → Bool
is_unpinned image = ends_latest image || not (has_char ":" image)

-- `NativeRunner.run`
unfoldable pub run_natively : ScannerAdapter → ContainerSpec → ScanRequest → Try String
run_natively adapter spec request = do
  raise_if (not adapter.native)
      (runner_error ("adapter '" <> adapter.name <> "' is not native — use DockerContainerRunner"))
  enforce_sast_network request spec
  adapter.run_native request

-- The loop over `secret_refs`.
unfoldable pub resolve_env : Docker → Dict String → Dict String → Try (Dict String)
resolve_env docker env [] = ok env
resolve_env docker env ((env_var, ref) ∷ refs) = do
  value ← docker.resolve_secret ref
  resolve_env docker (insert env_var value env) refs

abbrev pub when : Bool → List String → List String
when true args = args
when false args = []

unfoldable pub mount_args : Dict String → List String
mount_args [] = []
mount_args ((host_path, container_path) ∷ mounts) =
    "-v" ∷ (host_path <> ":" <> container_path <> ":ro") ∷ mount_args mounts

unfoldable pub env_args : Dict String → List String
env_args [] = []
env_args ((key, value) ∷ env) = "-e" ∷ (key <> "=" <> value) ∷ env_args env

-- `_build_command`
unfoldable pub build_command : Docker → String → ContainerSpec → Dict String → List String
build_command docker bin spec env =
    (bin ∷ "run" ∷ "--rm" ∷ "--init" ∷ [])
    ++ (("--network" ∷ (if is_no_network spec.network then "none" else "bridge") ∷ [])
        ++ (("--cap-drop" ∷ "ALL" ∷ "--security-opt" ∷ "no-new-privileges" ∷ [])
            ++ (when spec.read_only_root ("--read-only" ∷ [])
                ++ (when spec.writable_tmp ("--tmpfs" ∷ "/tmp:rw,exec,size=256m" ∷ [])
                    ++ (("--cpus"
                          ∷ docker.cpus spec.limits.cpu
                          ∷ "--memory"
                          ∷ docker.megabytes spec.limits.memory_mb
                          ∷ [])
                        ++ (("--pids-limit" ∷ "512" ∷ [])
                            ++ (mount_args spec.mounts
                                ++ (env_args env ++ (spec.image ∷ spec.args)))))))))

-- The command that `DockerContainerRunner.run` launches, if it gets so far.
unfoldable pub docker_command : Docker → ContainerSpec → ScanRequest → Try (List String)
unfolding is_unpinned
docker_command docker spec request = elim docker.path [
  | none ↦ raise (runner_error "docker is not available to run containerized adapters")
  | some bin ↦ (do
    enforce_sast_network request spec
    raise_if (is_unpinned spec.image)
        (runner_error ("scanner image must be pinned to a version, not '" <> spec.image <> "'"))
    env ← resolve_env docker spec.env spec.secret_refs
    ok (build_command docker bin spec env))
]

-- What the exit of the process means.
unfoldable pub read_process : Docker → ScannerAdapter → ContainerSpec → Process → Try String
unfolding take_text
read_process docker adapter spec timed_out = raise (
    runner_error (
      "adapter "
      <> adapter.name
      <> " timed out after "
      <> docker.number spec.limits.timeout_seconds
      <> "s"))
read_process docker adapter spec (exited code out err) =
    if any (eqb code) spec.success_exit_codes
    then ok out
    else raise (
        runner_error (
          "adapter "
          <> adapter.name
          <> " exited "
          <> docker.number code
          <> ": "
          <> take_text 2000 (docker.redact err)))

-- `DockerContainerRunner.run`
unfoldable pub run_in_docker : Docker → ScannerAdapter → ContainerSpec → ScanRequest → Try String
run_in_docker docker adapter spec request = do
  cmd ← docker_command docker spec request
  read_process docker adapter spec (docker.launch cmd spec.limits.timeout_seconds)

-- `get_runner(adapter).run(adapter, spec, request)`
unfoldable pub run : Docker → ScannerAdapter → ContainerSpec → ScanRequest → Try String
run docker adapter spec request =
    if adapter.native
    then run_natively adapter spec request
    else run_in_docker docker adapter spec request
