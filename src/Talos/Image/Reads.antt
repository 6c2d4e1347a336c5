-- ===== src/Talos/Image/Reads.antt =====
-- The image of a node is found by reads alone.
use tuppr.Prelude.{String, ◌⧺◌}
use tuppr.Api.Cluster.{Node}
use tuppr.NodeUtil.{target_talos_version}
use tuppr.Talos.World.{Env, ExtensionInfo, err, wrap}
use tuppr.Talos.World.Keeps.{Keeps}
use tuppr.Talos.World.Aside.{
  IsAside, IsAside-pure, IsAside-ask, IsAside-gets, IsAside-if, IsAside-bind, IsAside-result,
  IsAside-option,
}
use tuppr.Talos.Image.{factory_image, image_on_repo, image_from_current, build_talos_upgrade_image}

module _ (env : Env) where
  factory_image-IsAside :
      (ip schematic version : String) → Keeps IsAside (factory_image env ip schematic version)
  unfolding factory_image
  factory_image-IsAside ip schematic version = IsAside-bind (IsAside-ask _) (
      IsAside-result (λ e. IsAside-pure _)
        (λ p. IsAside-option (IsAside-pure _) (λ r. IsAside-pure _) _))

  image_on_repo-IsAside :
      (ip name version repo : String) (ext : ExtensionInfo)
      → Keeps IsAside (image_on_repo env ip name version repo ext)
  unfolding image_on_repo
  image_on_repo-IsAside ip name version repo ext =
      IsAside-if _
        (IsAside-if _
          (IsAside-bind (factory_image-IsAside _ _ _)
            (IsAside-result (λ e. IsAside-pure _) (λ i. IsAside-pure _)))
          (IsAside-pure _))
        (IsAside-if _ (IsAside-pure _) (
          IsAside-if _
            (IsAside-bind (factory_image-IsAside _ _ _)
              (IsAside-result (λ e. IsAside-pure _) (λ i. IsAside-pure _)))
            (IsAside-pure _)))

  image_from_current-IsAside :
      (node : Node) (ip name version current : String)
      → Keeps IsAside (image_from_current env node ip name version current)
  unfolding image_from_current
  image_from_current-IsAside node ip name version current =
      IsAside-if _
        (IsAside-bind (IsAside-ask _) (IsAside-result (λ e. IsAside-pure _) (λ x. IsAside-pure _)))
        (IsAside-option (IsAside-pure _)
          (λ repo. IsAside-bind (IsAside-ask _) (
            IsAside-result
              (λ e. IsAside-pure (err (wrap ("failed to read extensions for node " ⧺ name) e)))
              (λ x. image_on_repo-IsAside ip name version repo x)))
          _)

  pub build_talos_upgrade_image-IsAside :
      (name : String) → Keeps IsAside (build_talos_upgrade_image env name)
  unfolding build_talos_upgrade_image
  build_talos_upgrade_image-IsAside name = IsAside-bind (IsAside-gets _) (λ u.
      IsAside-bind (IsAside-ask _) (
        IsAside-result (λ e. IsAside-pure (err (wrap ("failed to get node " ⧺ name) e)))
          (λ node.
            IsAside-option (IsAside-pure _)
              (λ ip. IsAside-bind (IsAside-ask _) (
                IsAside-result
                  (λ e.
                    IsAside-pure
                      (err (wrap ("failed to get install image from Talos client for " ⧺ name) e)))
                  (λ c.
                    image_from_current-IsAside node ip name
                      (target_talos_version node u.spec.talos.version) c)))
              _)))
