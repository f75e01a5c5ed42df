-- ===== src/Codebuilder/Docker.antt =====
-- The command line of docker in aae/codebuilder/sandbox.py.
use self_spawn_agents.Prelude.{ℕ, Option, none, some, List, [], ◌∷◌, ◌++◌, Text, codes, take, drop}
use self_spawn_agents.Prelude.Digits.{digits}

abbrev pub frozen_docker_args : List Text
frozen_docker_args =
    codes "docker"
    ∷ codes "run"
    ∷ codes "--rm"
    ∷ codes "--runtime=runsc"
    ∷ codes "--network=none"
    ∷ codes "--read-only"
    ∷ codes "--tmpfs"
    ∷ codes "/tmp:rw,noexec,nosuid,size=64m"
    ∷ codes "--tmpfs"
    ∷ codes "/home/sandbox:rw,noexec,nosuid,size=16m"
    ∷ codes "--memory=512m"
    ∷ codes "--memory-swap=512m"
    ∷ codes "--cpus=1.0"
    ∷ codes "--pids-limit=128"
    ∷ codes "--ulimit"
    ∷ codes "nofile=256:256"
    ∷ codes "--ulimit"
    ∷ codes "nproc=64:64"
    ∷ codes "--security-opt=no-new-privileges:true"
    ∷ codes "--cap-drop=ALL"
    ∷ codes "--user"
    ∷ codes "1000:1000"
    ∷ codes "--workdir"
    ∷ codes "/home/sandbox"
    ∷ codes "--stop-timeout"
    ∷ codes "5"
    ∷ []

-- `name or f"codebuilder-{uuid.uuid4()}"`, with the text of the drawn UUID.
abbrev pub container_name : Option Text → Text → Text
container_name none drawn = codes "codebuilder-" ++ drawn
container_name (some []) drawn = codes "codebuilder-" ++ drawn
container_name (some (c ∷ s)) drawn = c ∷ s

unfoldable pub build_docker_command : Text → ℕ → Option Text → Text → List Text
unfolding digits
build_docker_command job_dir wall_seconds name drawn =
    take 2 frozen_docker_args
    ++ (codes "--name" ∷ container_name name drawn ∷ [])
    ++ drop 2 frozen_docker_args
    ++ (codes "-v"
        ∷ (job_dir ++ codes ":/home/sandbox:ro")
        ∷ codes "python:3.12-slim"
        ∷ codes "timeout"
        ∷ codes "-s"
        ∷ codes "KILL"
        ∷ digits wall_seconds
        ∷ codes "python"
        ∷ codes "-m"
        ∷ codes "pytest"
        ∷ codes "-q"
        ∷ codes "/home/sandbox/test_tool.py"
        ∷ [])

-- `argv[0] = self._binary`
abbrev pub with_binary : Text → List Text → List Text
with_binary binary [] = []
with_binary binary (a ∷ argv) = binary ∷ argv
