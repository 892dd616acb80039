-- ===== src/Jobs.antt =====
-- packages/operator/src/resolvers/job-builder.ts: the Kubernetes Job of a run or of a shard. The
-- parts of a Job that do not depend on the input (restart policy, security context and the like)
-- are the constants of the records below.

pub mod Mounts
use a5e.Base.{
  ℕ, zero, suc, String, ◌<>◌, Bool, true, false, Option, none, some, List, [], ◌∷◌, ◌++◌, map, ◌==◌,
  string_eq, if◌then◌else◌, ◌*◌,
}
use a5e.Base.Dict.{Dict}
use a5e.Base.Decimal.{show_nat}
use a5e.Labels.{or_default, join}

pub record AnsibleOptions : Type 0 where
  pub verbosity : Option ℕ
  pub tags : Option (List String)
  pub skip_tags : Option (List String)
  pub limit : Option String
  pub check_mode : Option Bool
  pub forks : Option ℕ

pub record GitSource : Type 0 where
  pub url : String
  pub revision : Option String
  pub ssh_key_secret_name : Option String
  pub basic_auth_secret_name : Option String

pub record SshKeyMount : Type 0 where
  pub mount_name : String
  pub secret_name : String

pub record Resources : Type 0 where
  pub limits : Option (Dict String String)
  pub requests : Option (Dict String String)

pub record JobBuildInput : Type 0 where
  pub run_name : String
  pub run_uid : String
  pub namespace : String
  pub runner_image : String
  pub name_suffix : Option String
  pub inventory_config_map_name : String
  pub playbook_config_map_name : Option String
  pub git_source : Option GitSource
  pub playbook_path : Option String
  pub entry_point : String
  pub has_dependencies : Bool
  pub requirements_config_map_name : Option String
  pub extra_vars_config_map_name : String
  pub ssh_key_mounts : List SshKeyMount
  pub ansible_options : Option AnsibleOptions
  pub timeout_seconds : Option ℕ
  pub service_account_name : Option String
  pub resources : Option Resources

pub data VolumeSource : Type 0 where
  empty_dir : VolumeSource
  config_map : Option String → VolumeSource
  secret : String → ℕ → VolumeSource

pub record Volume : Type 0 where
  pub name : String
  pub source : VolumeSource

pub record VolumeMount : Type 0 where
  pub name : String
  pub mount_path : String
  pub read_only : Bool

pub record Container : Type 0 where
  pub name : String
  pub image : String
  pub args : List String
  pub env : List (String × String)
  pub volume_mounts : List VolumeMount
  pub resources : Option Resources

pub record Job : Type 0 where
  pub name : String
  pub namespace : String
  pub labels : Dict String String
  pub owner_name : String
  pub owner_uid : String
  pub backoff_limit : ℕ
  pub active_deadline_seconds : Option ℕ
  pub ttl_seconds_after_finished : ℕ
  pub service_account_name : Option String
  pub init_containers : List Container
  pub containers : List Container
  pub volumes : List Volume

-- `'v'.repeat(n)`
repeat_v : ℕ → String
repeat_v zero = ""
repeat_v (suc n) = "v" <> repeat_v n

-- `if (x) args.push(…)`: what an option adds to the arguments; `undefined`, `0`, `false` and the
-- empty string add nothing.
verbosity_args : Option ℕ → List String
unfolding repeat_v
verbosity_args none = []
verbosity_args (some zero) = []
verbosity_args (some (suc n)) = ("-" <> repeat_v (suc n)) ∷ []

check_args : Option Bool → List String
check_args (some true) = "--check" ∷ []
check_args _ = []

limit_args : Option String → List String
limit_args none = []
limit_args (some limit) = if limit == "" then [] else "--limit" ∷ limit ∷ []

forks_args : Option ℕ → List String
unfolding show_nat
forks_args none = []
forks_args (some zero) = []
forks_args (some (suc n)) = "--forks" ∷ show_nat (suc n) ∷ []

tag_args : String → List String → List String
tag_args flag [] = []
tag_args flag (tag ∷ tags) = flag ∷ tag ∷ tag_args flag tags

-- `ansibleExtraArgs`
unfoldable pub ansible_extra_args : Option AnsibleOptions → String
unfolding verbosity_args check_args limit_args forks_args tag_args join
ansible_extra_args none = ""
ansible_extra_args (some o) = join " " (
    verbosity_args o.verbosity
    ++ (check_args o.check_mode
        ++ (limit_args o.limit
            ++ (forks_args o.forks
                ++ (tag_args "--tags" (or_default [] o.tags)
                    ++ tag_args "--skip-tags" (or_default [] o.skip_tags))))))

abbrev volume : String → VolumeSource → Volume
volume name source = record { name = name; source = source }

abbrev mounted : String → String → Bool → VolumeMount
mounted name mount_path read_only = record {
  name = name;
  mount_path = mount_path;
  read_only = read_only;
}

-- `0o640`
abbrev key_mode : ℕ
key_mode = 0o640

ssh_volume_name : SshKeyMount → String
ssh_volume_name m = "ssh-key-" <> m.mount_name

ssh_volume : SshKeyMount → Volume
unfolding ssh_volume_name
ssh_volume m = volume (ssh_volume_name m) (secret m.secret_name key_mode)

ssh_mount : SshKeyMount → VolumeMount
unfolding ssh_volume_name
ssh_mount m = mounted (ssh_volume_name m) ("/ssh-keys/" <> m.mount_name) true

-- What the `git` branch adds for its credentials: volumes, environment and mounts. An empty secret
-- name counts as none.
pub record GitParts : Type 0 where
  pub volumes : List Volume
  pub env : List (String × String)
  pub mounts : List VolumeMount

abbrev no_parts : GitParts
no_parts = record { volumes = []; env = []; mounts = [] }

basic_auth_parts : Option String → GitParts
basic_auth_parts none = no_parts
basic_auth_parts (some name) = if name == "" then no_parts else record {
  volumes = volume "git-basic-auth" (secret name key_mode) ∷ [];
  env = ("GIT_HTTP_AUTH_PATH", "/git-basic-auth") ∷ [];
  mounts = mounted "git-basic-auth" "/git-basic-auth" true ∷ [];
}

git_parts : Option String → Option String → GitParts
unfolding basic_auth_parts
git_parts none basic = basic_auth_parts basic
git_parts (some name) basic = if name == "" then basic_auth_parts basic else record {
  volumes = volume "git-ssh-key" (secret name key_mode) ∷ [];
  env = ("GIT_SSH_KEY_PATH", "/git-ssh-key/ssh-privatekey") ∷ [];
  mounts = mounted "git-ssh-key" "/git-ssh-key" true ∷ [];
}

-- What the playbook's source adds to the Job.
pub record SourceParts : Type 0 where
  pub volumes : List Volume
  pub init_containers : List Container
  pub main_mounts : List VolumeMount
  pub playbook_dir : String

-- `p ? `/${p}` : ''`
path_suffix : Option String → String
path_suffix none = ""
path_suffix (some p) = if p == "" then "" else "/" <> p

fetch_content : String → GitSource → GitParts → Container
fetch_content image git parts = record {
  name = "fetch-content";
  image = image;
  args = "fetch-content" ∷ [];
  env = ("GIT_URL", git.url) ∷ ("GIT_REVISION", or_default "main" git.revision) ∷ parts.env;
  volume_mounts = mounted "workspace" "/workspace" false ∷ parts.mounts;
  resources = none;
}

source_parts : String → Option GitSource → Option String → Option String → SourceParts
unfolding path_suffix git_parts fetch_content
source_parts image none playbook_path playbook_config_map = record {
  volumes = volume "playbook" (config_map playbook_config_map) ∷ [];
  init_containers = [];
  main_mounts = mounted "playbook" "/config" true ∷ [];
  playbook_dir = "/config";
}
source_parts image (some git) playbook_path playbook_config_map =
    let parts = git_parts git.ssh_key_secret_name git.basic_auth_secret_name in
    record {
      volumes = parts.volumes;
      init_containers = fetch_content image git parts ∷ [];
      main_mounts = [];
      playbook_dir = "/workspace/repo" <> path_suffix playbook_path;
    }

install_dependencies : String → Container
install_dependencies image = record {
  name = "install-dependencies";
  image = image;
  args = "install-dependencies" ∷ [];
  env = ("REQUIREMENTS_FILE", "/requirements/requirements.yml") ∷ [];
  volume_mounts =
      mounted "workspace" "/workspace" false ∷ mounted "requirements" "/requirements" true ∷ [];
  resources = none;
}

main_container : JobBuildInput → SourceParts → Container
unfolding ssh_mount ansible_extra_args
main_container input source = record {
  name = "ansible-playbook";
  image = input.runner_image;
  args = "playbook" ∷ [];
  env =
      ("PLAYBOOK_DIR", source.playbook_dir)
      ∷ ("ENTRY_POINT", input.entry_point)
      ∷ ("INVENTORY_FILE", "/inventory/inventory.ini")
      ∷ ("EXTRA_VARS_FILE", "/extra-vars/extra-vars.json")
      ∷ ("ANSIBLE_EXTRA_ARGS", ansible_extra_args input.ansible_options)
      ∷ ("ANSIBLE_FORCE_COLOR", "true")
      ∷ [];
  volume_mounts =
      mounted "workspace" "/workspace" false
      ∷ mounted "inventory" "/inventory" true
      ∷ mounted "extra-vars" "/extra-vars" true
      ∷ (map ssh_mount input.ssh_key_mounts ++ source.main_mounts);
  resources = input.resources;
}

shard_label : Option String → Dict String String
shard_label none = []
shard_label (some suffix) = ("a5e.k8s.rocks/run-shard", suffix) ∷ []

-- `ansiblerun-<runName>[-<nameSuffix>]`
unfoldable pub job_name : String → Option String → String
job_name run_name none = "ansiblerun-" <> run_name
job_name run_name (some suffix) = "ansiblerun-" <> (run_name <> ("-" <> suffix))

all_volumes : JobBuildInput → SourceParts → List Volume
unfolding ssh_volume
all_volumes input source =
    volume "workspace" empty_dir
    ∷ volume "inventory" (config_map (some input.inventory_config_map_name))
    ∷ volume "extra-vars" (config_map (some input.extra_vars_config_map_name))
    ∷ (map ssh_volume input.ssh_key_mounts
        ++ (source.volumes
            ++ (if input.has_dependencies
                then volume "requirements" (config_map input.requirements_config_map_name) ∷ []
                else [])))

all_init_containers : JobBuildInput → SourceParts → List Container
unfolding install_dependencies
all_init_containers input source =
    source.init_containers
    ++ (if input.has_dependencies then install_dependencies input.runner_image ∷ [] else [])

-- `buildJobSpec`
unfoldable pub build_job_spec : JobBuildInput → Job
unfolding source_parts main_container shard_label job_name all_volumes all_init_containers
build_job_spec input =
    let source =
      source_parts input.runner_image input.git_source input.playbook_path
        input.playbook_config_map_name in
    record {
      name = job_name input.run_name input.name_suffix;
      namespace = input.namespace;
      labels =
          ("a5e.k8s.rocks/run", input.run_name)
          ∷ ("a5e.k8s.rocks/run-uid", input.run_uid)
          ∷ shard_label input.name_suffix;
      owner_name = input.run_name;
      owner_uid = input.run_uid;
      backoff_limit = 0;
      active_deadline_seconds = input.timeout_seconds;
      ttl_seconds_after_finished = 24 * 60 * 60;
      service_account_name = input.service_account_name;
      init_containers = all_init_containers input source;
      containers = main_container input source ∷ [];
      volumes = all_volumes input source;
    }
