-- ===== src/Talos/Image.antt =====
-- The installer image of a node: buildTalosUpgradeImage and its helpers (upgrade.go), and
-- parseTalosctlVersion (jobs.go). The Talos platform names belong to Talos's own library: they come
-- with the configuration.
pub mod Reads
use tuppr.Prelude.{
  ℕ, String, Bool, false, not, ◌&&◌, ◌||◌, Option, none, some, ltb, str_eq, ◌==◌, ◌⧺◌, contains,
  is_nil, if◌then◌else◌,
}
use Prim.Native.String
use tuppr.Prelude.Text.{ℤ, atoi, cut, cut_suffix, has_suffix, trim_prefix, trim_right}
use tuppr.Api.Cluster.{Node, get_or_empty, is_empty}
use tuppr.NodeUtil.{get_node_ip, target_talos_version}
use tuppr.Talos.Nodes.{get_node}
use tuppr.Talos.World.{
  Config, Env, M, Result, ok, err, ExtensionInfo, wrap, plain_error, pure, ask, upgrade, ◌>>=◌,
}

-- talosctlVersion
pub record TalosctlVersion : Type 0 where
  pub major : ℤ
  pub minor : ℤ

abbrev pub no_version : TalosctlVersion
no_version = record { major = ℤ.pos 0; minor = ℤ.pos 0 }

-- parseTalosctlVersion; what follows a second dot is not read.
abbrev pub parse_talosctl_version : String → TalosctlVersion
parse_talosctl_version tag = elim (cut (trim_prefix tag "v") ".") [
  | none ↦ no_version
  | some (first, rest) ↦
      let second : String = elim (cut rest ".") [ none ↦ rest | some (part, _) ↦ part ] in
      elim (atoi first) [
        | none ↦ no_version
        | some major ↦ elim (atoi second) [
          | none ↦ no_version
          | some minor ↦ record { major = major; minor = minor }
        ]
      ]
]

abbrev int_above : ℕ → ℤ → Bool
int_above n (ℤ.pos m) = ltb n m
int_above n (ℤ.negsuc m) = false

abbrev int_is : ℕ → ℤ → Bool
int_is n (ℤ.pos m) = n == m
int_is n (ℤ.negsuc m) = false

-- `talosctlVersion.AtLeast`, for bounds that are not negative.
abbrev pub at_least : TalosctlVersion → ℕ → ℕ → Bool
at_least v major minor =
    int_above major v.major
    || (int_is major v.major && (int_above minor v.minor || int_is minor v.minor))

abbrev pub generic_installer_repo : String
generic_installer_repo = "ghcr.io/siderolabs/installer"

-- looksLikeGenericInstaller
abbrev pub looks_like_generic_installer : String → Bool
looks_like_generic_installer repo =
    str_eq repo generic_installer_repo || has_suffix repo "/siderolabs/installer"

-- factoryInstallerRepo
abbrev pub factory_installer_repo : Config → String → Option String
factory_installer_repo config platform =
    if str_eq platform config.metal_platform
    then some (platform ⧺ "-installer")
    else (if contains config.cloud_platforms platform
        then (if str_eq platform "equinixMetal"
            then some "installer"
            else some (platform ⧺ "-installer"))
        else none)

abbrev pub default_schematic : String
default_schematic = "376567988ad370138ad8b2698212367b8edcb69b5fd68c80be1f2ec7d603b4ba"

abbrev pub factory_url_annotation : String
factory_url_annotation = "tuppr.home-operations.com/factory-url"

abbrev pub schematic_annotation : String
schematic_annotation = "tuppr.home-operations.com/schematic"

-- `fmt.Sprintf("%s/%s:%s", base, schematic, version)`
abbrev pub image_ref : String → String → String → String
image_ref base schematic version = base ⧺ "/" ⧺ schematic ⧺ ":" ⧺ version

module _ (env : Env) where
  -- factoryImage
  unfoldable pub factory_image : String → String → String → M (Result String)
  factory_image node_ip schematic version = do
    r ← ask (λ n. env.get_node_platform n node_ip)
    elim r [
      | err e ↦ pure (err (wrap "failed to read platform" e))
      | ok platform ↦ elim (factory_installer_repo env.config platform) [
        | none ↦
            pure (err (plain_error ("platform " ⧺ platform ⧺ " has no Image Factory installer")))
        | some repo ↦ pure (ok (image_ref ("factory.talos.dev/" ⧺ repo) schematic version))
      ]
    ]

  -- The image where the annotation names a factory.
  unfoldable pub factory_url_image : Node → String → String → String → ExtensionInfo → Result String
  factory_url_image node name version base ext =
      let annotated = get_or_empty schematic_annotation node.annotations in
      let schematic = if is_empty annotated then ext.schematic else annotated in
      if is_empty schematic
      then err (plain_error ("node " ⧺ name ⧺ ": no schematic is available"))
      else ok (image_ref (trim_right (String.len base) base "/") schematic version)

  -- Where the runtime schematic is not the one that the install image embeds, and the Factory
  -- gave no image.
  unfoldable pub rebase_schematic : String → String → String → String → Result String
  rebase_schematic name version repo schematic = elim (cut_suffix repo ("/" ⧺ default_schematic)) [
    | some base ↦ ok (image_ref base schematic version)
    | none ↦
        err (
          plain_error ("node " ⧺ name ⧺ ": the install image does not embed the runtime schematic"))
  ]

  -- The image built on the current one.
  unfoldable pub image_on_repo :
      String → String → String → String → ExtensionInfo → M (Result String)
  unfolding factory_image rebase_schematic
  image_on_repo node_ip name version repo ext =
      if not (is_empty ext.schematic) && not (has_suffix repo ("/" ⧺ ext.schematic))
      then (if str_eq repo generic_installer_repo
          then (do
            r ← factory_image node_ip ext.schematic version
            elim r [
              | ok image ↦ pure (ok image)
              | err _ ↦ pure (rebase_schematic name version repo ext.schematic)
            ])
          else pure (rebase_schematic name version repo ext.schematic))
      else (if is_empty ext.schematic
            && not (is_nil ext.extensions)
            && looks_like_generic_installer repo
          then pure (err (plain_error ("node " ⧺ name ⧺ ": the install image has no schematic")))
          else (if str_eq repo generic_installer_repo
                && at_least (parse_talosctl_version version) 1 14
              then (do
                r ← factory_image node_ip default_schematic version
                elim r [
                  | ok image ↦ pure (ok image)
                  | err e ↦
                      pure (err (wrap ("node " ⧺ name ⧺ ": cannot move the generic installer") e))
                ])
              else pure (ok (repo ⧺ ":" ⧺ version))))

  -- `strings.Cut(currentImage, ":")`, which has to leave a repository.
  abbrev image_repo : String → Option String
  image_repo image = elim (cut image ":") [
    | none ↦ none
    | some (repo, _) ↦ if is_empty repo then none else some repo
  ]

  -- buildTalosUpgradeImage past the reads of the node, its address and its current image.
  image_from_current : Node → String → String → String → String → M (Result String)
  unfolding image_on_repo factory_url_image
  image_from_current node node_ip name version current =
      let base = get_or_empty factory_url_annotation node.annotations in
      if not (is_empty base)
      then (do
        r ← ask (λ n. env.get_node_extensions n node_ip)
        elim r [
          | err e ↦ pure (err (wrap ("failed to read extensions for node " ⧺ name) e))
          | ok ext ↦ pure (factory_url_image node name version base ext)
        ])
      else elim (image_repo current) [
        | none ↦
            pure
              (err (plain_error ("invalid current image format for node " ⧺ name ⧺ ": " ⧺ current)))
        | some repo ↦ do
          r ← ask (λ n. env.get_node_extensions n node_ip)
          elim r [
            | err e ↦ pure (err (wrap ("failed to read extensions for node " ⧺ name) e))
            | ok ext ↦ image_on_repo node_ip name version repo ext
          ]
      ]

  -- buildTalosUpgradeImage
  unfoldable pub build_talos_upgrade_image : String → M (Result String)
  unfolding image_from_current target_talos_version get_node_ip
  build_talos_upgrade_image name = do
    u ← upgrade
    r ← get_node env name
    elim r [
      | err e ↦ pure (err (wrap ("failed to get node " ⧺ name) e))
      | ok node ↦ elim (get_node_ip node) [
        | none ↦ pure (err (plain_error ("failed to get node IP for " ⧺ name)))
        | some ip ↦ do
          i ← ask (λ n. env.get_node_install_image n ip)
          elim i [
            | err e ↦
                pure (err (wrap ("failed to get install image from Talos client for " ⧺ name) e))
            | ok current ↦
                image_from_current node ip name (target_talos_version node u.spec.talos.version)
                  current
          ]
      ]
    ]
