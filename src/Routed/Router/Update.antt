-- ===== src/Routed/Router/Update.antt =====
-- What `UpdateConfig` of internal/routed/router.go leaves of the selections.
use bpc.Base.{◌++◌, true, List, length, Bytes, has, All, Result, ok, err, ◌≡◌, ◌⊎◌}
use bpc.Base.Dict.{Dict}
use bpc.Routed.Config.{RoutingConfig, validate_config}
use bpc.Routed.Selection.{RouteSelection}
use bpc.Routed.Router.{Router, RouterError, path_ids}

-- A selection that names only the given paths.
pub record Names (valid : List Bytes) (s : RouteSelection) : Type 0 where
  pub current : (length s.current_id ≡ 0) ⊎ (has s.current_id valid ≡ true)
  pub available : All (λ e. has e.0 valid ≡ true) s.availability

-- What `UpdateConfig` answers: a refused configuration leaves the router as it was; an accepted one
-- is the router's, the learned reverse paths stay, and each selection that stays names only paths of
-- the new configuration.
pub data Updated {F : Type 0} (r : Router F) (config : RoutingConfig F) (r' : Router F)
    : Result RouterError (Unit {0}) → Type 0 where
  rejected : (e : RouterError) → r' ≡ r → Updated r config r' (err e)
  accepted :
      validate_config config r.local_node_id ≡ ok tt
      → r'.config ≡ config
      → r'.reverse_paths ≡ r.reverse_paths
      → All (λ e. Names (path_ids (config.paths ++ config.transit_paths)) e.1) r'.selections
      → Updated r config r' (ok tt)
