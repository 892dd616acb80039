-- ===== src/Jobs/Mounts.antt =====
-- `buildJobSpec`: the volumes of a run's Job against the mounts of its containers.
use a5e.Base.{
  String, ◌≡◌, refl, Bool, true, false, Option, none, some, List, [], ◌∷◌, ◌++◌, map, ◌==◌,
  string_eq, if◌then◌else◌, Bool-cases, inl, inr, In, Memᴰ, All, All-append, In-append_left,
  In-append_right,
}
use a5e.Jobs.{
  GitSource, SshKeyMount, JobBuildInput, Volume, VolumeMount, Container, ssh_volume, ssh_mount,
  basic_auth_parts, git_parts, SourceParts, fetch_content, source_parts, install_dependencies,
  main_container, all_volumes, all_init_containers, build_job_spec,
}

-- A mount names one of the volumes.
abbrev pub Declared : List Volume → VolumeMount → Type 0
Declared vs m = (v : Volume) × In v vs × (v.name ≡ m.name)

abbrev pub MountsDeclared : List Volume → Container → Type 0
MountsDeclared vs c = All (Declared vs) c.volume_mounts

module _ (vs ws : List Volume) where
  Declared-left : (ms : List VolumeMount) → All (Declared vs) ms → All (Declared (vs ++ ws)) ms
  Declared-left [] h = tt
  Declared-left (m ∷ ms) ((v, i, e), h) = ((v, In-append_left v vs ws i, e), Declared-left ms h)

  Declared-right : (ms : List VolumeMount) → All (Declared ws) ms → All (Declared (vs ++ ws)) ms
  Declared-right [] h = tt
  Declared-right (m ∷ ms) ((v, i, e), h) = ((v, In-append_right v vs ws i, e), Declared-right ms h)

ssh_mounts-Declared :
    (ms : List SshKeyMount) → All (Declared (map ssh_volume ms)) (map ssh_mount ms)
unfolding ssh_volume ssh_mount
ssh_mounts-Declared [] = tt
ssh_mounts-Declared (m ∷ ms) = (
  (ssh_volume m, Memᴰ.head refl, refl),
  Declared-right (ssh_volume m ∷ []) (map ssh_volume ms) _ (ssh_mounts-Declared ms),
)

basic_auth_parts-Declared :
    (name : Option String)
    → All (Declared (basic_auth_parts name).volumes) (basic_auth_parts name).mounts
unfolding basic_auth_parts
basic_auth_parts-Declared none = tt
basic_auth_parts-Declared (some name) = elim (Bool-cases (name == "")) [
  | inl empty ↦ rw empty tt
  | inr given ↦ rw given ((_, Memᴰ.head refl, refl), tt)
]

git_parts-Declared :
    (key basic : Option String)
    → All (Declared (git_parts key basic).volumes) (git_parts key basic).mounts
unfolding git_parts
git_parts-Declared none basic = basic_auth_parts-Declared basic
git_parts-Declared (some name) basic = elim (Bool-cases (name == "")) [
  | inl empty ↦ rw empty (basic_auth_parts-Declared basic)
  | inr given ↦ rw given ((_, Memᴰ.head refl, refl), tt)
]

module _ (input : JobBuildInput) (source : SourceParts) where
  abbrev vs : List Volume
  vs = all_volumes input source

  -- A volume of the source, of the keys, or of the three fixed ones is a volume of the Job.
  source-Declared :
      (ms : List VolumeMount) → All (Declared source.volumes) ms → All (Declared vs) ms
  unfolding all_volumes
  source-Declared ms h = Declared-right (_ ∷ _ ∷ _ ∷ []) _ ms (
      Declared-right (map ssh_volume input.ssh_key_mounts) _ ms
        (Declared-left source.volumes _ ms h))

  keys-Declared : All (Declared vs) (map ssh_mount input.ssh_key_mounts)
  unfolding all_volumes
  keys-Declared = Declared-right (_ ∷ _ ∷ _ ∷ []) _ _ (
      Declared-left (map ssh_volume input.ssh_key_mounts) _ _
        (ssh_mounts-Declared input.ssh_key_mounts))

  main-Declared :
      All (Declared source.volumes) source.main_mounts
      → MountsDeclared vs (main_container input source)
  unfolding main_container all_volumes
  main-Declared h = (
    (_, Memᴰ.head refl, refl),
    (
      (_, Memᴰ.tail (Memᴰ.head refl), refl),
      (
        (_, Memᴰ.tail (Memᴰ.tail (Memᴰ.head refl)), refl),
        All-append (Declared vs) _ _ keys-Declared (source-Declared _ h),
      ),
    ),
  )

  requirements-declared :
      input.has_dependencies ≡ true → MountsDeclared vs (install_dependencies input.runner_image)
  unfolding install_dependencies all_volumes
  requirements-declared e = rw e (
    (_, Memᴰ.head refl, refl),
    (
      (
        _,
        In-append_right _ (_ ∷ _ ∷ _ ∷ []) _ (
            In-append_right _ (map ssh_volume input.ssh_key_mounts) _
              (In-append_right _ source.volumes _ (Memᴰ.head refl))),
        refl,
      ),
      tt,
    ),
  )

  init-declared :
      All (MountsDeclared vs) source.init_containers
      → All (MountsDeclared vs) (all_init_containers input source)
  unfolding all_init_containers
  init-declared h =
      All-append (MountsDeclared vs) source.init_containers _ h (more input.has_dependencies refl)
    where
      more :
          (b : Bool)
          → input.has_dependencies ≡ b
          → All (MountsDeclared vs) (if b then install_dependencies input.runner_image ∷ [] else [])
      more true e = (requirements-declared e, tt)
      more false e = tt

fetch-declared :
    (input : JobBuildInput) (image : String) (git : GitSource) (path playbook : Option String)
    → let source = source_parts image (some git) path playbook in
      All (MountsDeclared (all_volumes input source)) source.init_containers
unfolding source_parts fetch_content all_volumes
fetch-declared input image git path playbook = (
  (
    (_, Memᴰ.head refl, refl),
    source-Declared input (source_parts image (some git) path playbook) _
        (git_parts-Declared git.ssh_key_secret_name git.basic_auth_secret_name),
  ),
  tt,
)

parts-Declared :
    (input : JobBuildInput) (image : String) (git : Option GitSource)
    (path playbook : Option String)
    → let source = source_parts image git path playbook in
      All (MountsDeclared (all_volumes input source)) source.init_containers
      × All (Declared source.volumes) source.main_mounts
unfolding source_parts
parts-Declared input image none path playbook = (tt, ((_, Memᴰ.head refl, refl), tt))
parts-Declared input image (some git) path playbook =
    (fetch-declared input image git path playbook, tt)

-- Every volume mount of every container of a run's Job, init containers included, names a volume
-- that the Job declares, whatever the playbook's source, the keys and the dependencies.
pub build_job_spec-MountsDeclared :
    (input : JobBuildInput)
    → let job = build_job_spec input in
      All (MountsDeclared job.volumes) (job.init_containers ++ job.containers)
unfolding build_job_spec
build_job_spec-MountsDeclared input =
    let source =
      source_parts input.runner_image input.git_source input.playbook_path
        input.playbook_config_map_name in
    let (init, main) =
      parts-Declared input input.runner_image input.git_source input.playbook_path
        input.playbook_config_map_name in
    All-append (MountsDeclared (all_volumes input source)) (all_init_containers input source) _
      (init-declared input source init) (main-Declared input source main, tt)
